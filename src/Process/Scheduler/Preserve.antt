-- ===== src/Process/Scheduler/Preserve.antt =====
-- What the steps to the end of a process in kernel/process.c keep of the table: pids, exit codes and
-- zombies.
use ovsb_mk.Base.{
  ℕ, ◌<◌, ◌≡◌, ◌≢◌, ◌∙◌, ◌⊎◌, inl, inr, refl, List, arith, ◌==◌, length, length-set, ℤ, int_eq,
  ◌&&◌, Bool-cases,
}
use ovsb_mk.Process.Types.{
  Pcb, Procs, State, ready, running, blocked, zombie, pcb_at, set_state, state_eq, any_child,
  state-set_state, set_state-fields,
}
use ovsb_mk.Process.Search.{Finds, find_index-cases}
use ovsb_mk.Process.Scheduler.{is_state, find_next_ready, switch_index, schedule, wake_table}
use ovsb_mk.Process.Scheduler.RoundRobin.{find_next_ready-IsFirst}
use ovsb_mk.Process.Scheduler.Running.{IsSound, find_next_ready-lt}

-- A change that keeps pids, exit codes and zombies.
pub record Preserves (t t' : List Pcb) : Type 0 where
  pub same_size : length t' ≡ length t
  pub pids : (k : ℕ) → (pcb_at t' k).pid ≡ (pcb_at t k).pid
  pub codes : (k : ℕ) → (pcb_at t' k).exit_code ≡ (pcb_at t k).exit_code
  pub zombies : (k : ℕ) → (pcb_at t k).state ≡ zombie → (pcb_at t' k).state ≡ zombie

Preserves-trans : (t u v : List Pcb) → Preserves t u → Preserves u v → Preserves t v
Preserves-trans t u v c d = record {
  same_size = d.same_size ∙ c.same_size;
  pids = λ k. d.pids k ∙ c.pids k;
  codes = λ k. d.codes k ∙ c.codes k;
  zombies = λ k z. d.zombies k (c.zombies k z);
}

pub Preserves-refl : (t : List Pcb) → Preserves t t
Preserves-refl t = record {
  same_size = refl;
  pids = λ k. refl;
  codes = λ k. refl;
  zombies = λ k z. z;
}

set_state-Preserves :
    (t : List Pcb) (i : ℕ) (st : State)
    → i < length t
    → (pcb_at t i).state ≢ zombie
    → Preserves t (set_state t i st)
set_state-Preserves t i st lt ne = record {
  same_size = length-set t i (record (pcb_at t i) { state = st });
  pids = λ k. (set_state-fields t i k st lt).0;
  codes = λ k. (set_state-fields t i k st lt).1;
  zombies = λ k z. ground (arith, state-set_state t i k st lt);
}

pub wake_table-Preserves : (t : List Pcb) (child : ℤ) → Preserves t (wake_table t child)
unfolding wake_table
wake_table-Preserves t child =
    elim (find_index-cases (λ p. state_eq p.state blocked && any_child t child p.pid) t) [
      | inl (i, e, f) ↦
          rw (e, wake_table) (set_state-Preserves t i ready f.within (ground (arith, f.hit)))
      | inr (e, miss) ↦ rw (e, wake_table) (Preserves-refl t)
    ]

-- The entry that `schedule` chooses is the current one, or it is ready.
chosen_ready :
    (s : Procs)
    → (find_next_ready s ≡ s.current_pid) ⊎ ((pcb_at s.table (find_next_ready s)).state ≡ ready)
chosen_ready s = ground (arith, find_next_ready-IsFirst s)

-- The switch, from a current process that may be running, blocked or dead.
switch_index-Preserves :
    (s : Procs) (n : ℕ)
    → s.current_pid < length s.table
    → n < length s.table
    → n ≢ s.current_pid
    → (pcb_at s.table n).state ≡ ready
    → Preserves s.table (switch_index s n).0.table
unfolding switch_index
switch_index-Preserves s n lc ln ne r =
    let t = set_state s.table s.current_pid ready in
    elim (Bool-cases (is_state s.table s.current_pid running)) [
      | inl e ↦
          rw (e, switch_index)
            (Preserves-trans s.table t (set_state t n running)
              (set_state-Preserves s.table s.current_pid ready lc (ground arith))
              (set_state-Preserves t n running
                (omega (
                  arith,
                  length-set s.table s.current_pid
                      (record (pcb_at s.table s.current_pid) { state = ready }),
                ))
                (ground (arith, state-set_state s.table s.current_pid n ready lc))))
      | inr e ↦ rw (e, switch_index) (set_state-Preserves s.table n running ln (ground arith))
    ]

pub schedule-Preserves : (s : Procs) → IsSound s → Preserves s.table (schedule s).0.table
unfolding schedule
schedule-Preserves s v = elim (Bool-cases (find_next_ready s == s.current_pid)) [
  | inl e ↦ rw (e, schedule) (Preserves-refl s.table)
  | inr e ↦
      let other : find_next_ready s ≢ s.current_pid = ground arith in
      let lt = find_next_ready-lt s v.in_table in
      rw (e, schedule)
        (switch_index-Preserves s (find_next_ready s) (omega (arith, v.size))
          (omega (arith, v.size)) other (ground (arith, chosen_ready s)))
]

pub Finds-Preserves :
    (t t' : List Pcb) (i : ℕ) (P : ℤ)
    → Preserves t t'
    → Finds (λ p. int_eq p.pid P) t i
    → Finds (λ p. int_eq p.pid P) t' i
Finds-Preserves t t' i P c f = record {
  within = omega (arith, c.same_size, f.within);
  hit = rw (c.pids i) f.hit;
  first = λ m lt. rw (c.pids m) (f.first m lt);
}
