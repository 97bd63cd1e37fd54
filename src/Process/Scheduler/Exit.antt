-- ===== src/Process/Scheduler/Exit.antt =====
-- How a process of kernel/process.c ends: its parent is woken, and what the two exits leave behind.
use ovsb_mk.Base.{
  ℕ, ◌<◌, ◌≡◌, ◌≢◌, ◌∙◌, ◌⊎◌, inl, inr, refl, List, [], true, some, arith, ◌==◌, if◌then◌else◌,
  length, set, length-set, get_or-set_self, get_or-set_ne, ltb, ℤ, int_eq, ◌&&◌,
}
use ovsb_mk.Process.Types.{
  Pcb, Procs, empty, ready, blocked, zombie, pcb_at, blank_pcb, state_eq, any_child,
  process_current, state-set_state,
}
use ovsb_mk.Process.Search.{Finds, find_index-cases, find_index_of_Finds}
use ovsb_mk.Process.Scheduler.{
  schedule, wake_table, proc_wake_parent, bury, parent_index, return_to, process_exit_current,
  proc_exit, waitpid_round, reap, reaped,
}
use ovsb_mk.Process.Scheduler.RoundRobin.{schedule_stuck}
use ovsb_mk.Process.Scheduler.Running.{IsSound, Calms, bury-Calms, bury-IsSound, parent_index-lt}
use ovsb_mk.Process.Scheduler.Preserve.{
  wake_table-Preserves, schedule-Preserves, Finds-Preserves, Preserves,
}

-- A blocked process that has the process `child` among its children.
abbrev pub IsWaiting : List Pcb → ℤ → ℕ → Type 0
IsWaiting t child i = ((pcb_at t i).state ≡ blocked) × (any_child t child (pcb_at t i).pid ≡ true)

-- What `proc_wake_parent` does to the states of the table.
pub record Woken (t : List Pcb) (child : ℤ) (i : ℕ) : Type 0 where
  pub parent : IsWaiting t child i
  pub earliest : (m : ℕ) → m < i → ¬ IsWaiting t child m
  pub states :
      (k : ℕ)
      → (pcb_at (wake_table t child) k).state ≡ (if i == k then ready else (pcb_at t k).state)

-- `proc_wake_parent` makes the first waiting parent ready and no other process; with no waiting
-- parent in the table it changes nothing.
pub wake_table_lem :
    (t : List Pcb) (child : ℤ)
    → ((i : ℕ) × (i < length t) × Woken t child i)
      ⊎ ((wake_table t child ≡ t) × ((m : ℕ) → m < length t → ¬ IsWaiting t child m))
unfolding wake_table
wake_table_lem t child =
    elim (find_index-cases (λ p. state_eq p.state blocked && any_child t child p.pid) t) [
      | inl (i, e, f) ↦ inl (
        i,
        f.within,
        record {
          parent = ground (arith, f.hit);
          earliest = λ m lt w. ground (arith, f.first m lt, w.0, w.1);
          states = λ k. rw (e, wake_table) (state-set_state t i k ready f.within);
        },
      )
      | inr (e, miss) ↦ inr (rw (e, wake_table), λ m lt w. ground (arith, miss m lt, w.0, w.1))
    ]

-- Waking changes no state but from blocked to ready.
wake_table-states :
    (t : List Pcb) (child : ℤ) (k : ℕ)
    → ((pcb_at (wake_table t child) k).state ≡ (pcb_at t k).state)
      ⊎ (((pcb_at t k).state ≡ blocked) × ((pcb_at (wake_table t child) k).state ≡ ready))
wake_table-states t child k = elim (wake_table_lem t child) [
  | inl (i, lt, w) ↦ ground (arith, w.states k, w.parent.0)
  | inr (e, none_waits) ↦ inl (rw e)
]

-- Another entry than the one that is buried stays ready or blocked.
bury-waiting :
    (s : Procs) (i k : ℕ) (code : ℤ)
    → k ≢ i
    → ((pcb_at s.table k).state ≡ ready) ⊎ ((pcb_at s.table k).state ≡ blocked)
    → ((pcb_at (bury s i code).table k).state ≡ ready)
      ⊎ ((pcb_at (bury s i code).table k).state ≡ blocked)
unfolding bury proc_wake_parent
bury-waiting s i k code ne h =
    let p = record (pcb_at s.table i) { exit_code = code; state = zombie } in
    ground (
      arith,
      h,
      get_or-set_ne s.table i k p blank_pcb,
      wake_table-states (set s.table i p) (pcb_at s.table i).pid k,
    )

-- The parent that gets the processor is marked ready.
return_to-ready :
    (s : Procs) (parent : ℕ)
    → parent < length s.table
    → ((pcb_at s.table parent).state ≡ ready) ⊎ ((pcb_at s.table parent).state ≡ blocked)
    → (pcb_at (return_to s parent).table parent).state ≡ ready
unfolding return_to
return_to-ready s parent lt h = ground (arith, state-set_state s.table parent parent ready lt)

-- The entry to which `process_exit_current` gives the processor.
abbrev pub parent_of : Procs → ℕ
parent_of s = parent_index (pcb_at s.table s.current_pid).parent_pid

-- Once `process_exit_current` has gone back, in a sound table, to a parent that was ready or
-- blocked and is not the process itself, `schedule` changes nothing: no tick of the timer takes
-- the processor from that parent, whatever other processes are ready. The process stands at the
-- index of its pid.
pub process_exit_current-stuck :
    (s : Procs) (code : ℤ)
    → IsSound s
    → process_current s ≡ some s.current_pid
    → parent_of s ≢ s.current_pid
    → ((pcb_at s.table (parent_of s)).state ≡ ready)
      ⊎ ((pcb_at s.table (parent_of s)).state ≡ blocked)
    → schedule (process_exit_current s code).0 ≡ ((process_exit_current s code).0, [])
unfolding process_exit_current return_to
process_exit_current-stuck s code v here ne h =
    let dead = bury s s.current_pid code in
    let lt = parent_index-lt (pcb_at s.table s.current_pid).parent_pid in
    let within : parent_of s < length dead.table =
      omega (
        arith,
        Calms.same_size (bury-Calms s s.current_pid code (omega (arith, v.size))),
        v.size,
      ) in
    rw (here, process_exit_current)
      (schedule_stuck (return_to dead (parent_of s)) lt (
        return_to-ready dead (parent_of s) within
          (bury-waiting s s.current_pid (parent_of s) code ne h)))

-- The entry of the process that is buried.
pub record Buried (t : List Pcb) (i : ℕ) (code P : ℤ) : Type 0 where
  pub found : Finds (λ p. int_eq p.pid P) t i
  pub dead : (pcb_at t i).state ≡ zombie
  pub code_kept : (pcb_at t i).exit_code ≡ code

pub Buried-Preserves :
    (t t' : List Pcb) (i : ℕ) (code P : ℤ) → Preserves t t' → Buried t i code P → Buried t' i code P
Buried-Preserves t t' i code P c b = record {
  found = Finds-Preserves t t' i P c b.found;
  dead = c.zombies i b.dead;
  code_kept = c.codes i ∙ b.code_kept;
}

set-Buried :
    (t : List Pcb) (i : ℕ) (code P : ℤ)
    → Finds (λ p. int_eq p.pid P) t i
    → Buried (set t i (record (pcb_at t i) { exit_code = code; state = zombie })) i code P
set-Buried t i code P f =
    let p = record (pcb_at t i) { exit_code = code; state = zombie } in
    record {
      found = record {
        within = omega (arith, length-set t i p, f.within);
        hit = rw (get_or-set_self t i p blank_pcb f.within) f.hit;
        first = λ m lt. rw (get_or-set_ne t i m p blank_pcb (omega arith)) (f.first m lt);
      };
      dead = rw (get_or-set_self t i p blank_pcb f.within);
      code_kept = rw (get_or-set_self t i p blank_pcb f.within);
    }

pub bury-Buried :
    (s : Procs) (i : ℕ) (code P : ℤ)
    → Finds (λ p. int_eq p.pid P) s.table i
    → Buried (bury s i code).table i code P
unfolding bury proc_wake_parent
bury-Buried s i code P f =
    let t = set s.table i (record (pcb_at s.table i) { exit_code = code; state = zombie }) in
    Buried-Preserves t (wake_table t (pcb_at s.table i).pid) i code P
      (wake_table-Preserves t (pcb_at s.table i).pid) (set-Buried s.table i code P f)

-- What a caller of `proc_waitpid` gets from a zombie.
pub waitpid_round-Buried :
    (s : Procs) (i : ℕ) (code P : ℤ)
    → Buried s.table i code P
    → ((waitpid_round s P).0 ≡ reaped code) × ((pcb_at (waitpid_round s P).1.table i).state ≡ empty)
unfolding waitpid_round reap
waitpid_round-Buried s i code P b =
    rw
      (
        find_index_of_Finds (λ p. int_eq p.pid P) s.table i b.found,
        waitpid_round,
        b.dead,
        b.code_kept,
      )
      (refl, ground (arith, state-set_state s.table i i empty, b.found.within))

-- `proc_exit` of the current process of a sound table, which is the first entry with its pid.
pub proc_exit-Buried :
    (s : Procs) (code P : ℤ)
    → IsSound s
    → Finds (λ p. int_eq p.pid P) s.table s.current_pid
    → Buried (proc_exit s code).0.table s.current_pid code P
unfolding proc_exit
proc_exit-Buried s code P v f =
    let i = s.current_pid in
    let dead = bury s i code in
    let lt : ltb i 64 ≡ true = ground (arith, v.in_table) in
    rw lt (
      Buried-Preserves dead.table (schedule dead).0.table i code P
        (schedule-Preserves dead (bury-IsSound s i code v v.in_table)) (bury-Buried s i code P f))
