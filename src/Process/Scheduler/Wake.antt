-- ===== src/Process/Scheduler/Wake.antt =====
-- What `proc_exit` of kernel/process.c leaves to the parent that waits for the process: it is ready,
-- or it has the processor.
use ovsb_mk.Base.{
  ℕ, zero, suc, ◌+◌, ◌-◌, ◌%◌, sym, ◌<◌, ◌≡◌, ◌≢◌, ◌∙◌, inl, inr, refl, List, [], ◌∷◌, true, false,
  arith, ◌==◌, set, ltb, length-set, get_or-set_self, get_or-set_ne, ℤ, int_eq, int_eq_iff, ◌&&◌,
  Bool-cases, ℕ_discrete,
}
use ovsb_mk.Process.Types.{
  Pcb, Procs, ready, running, blocked, zombie, pcb_at, blank_pcb, state_eq, any_child,
  state-set_state,
}
use ovsb_mk.Process.Search.{Finds, find_index_of_Finds}
use ovsb_mk.Process.Scheduler.{
  is_state, find_next_ready, switch_index, schedule, wake_table, proc_wake_parent, bury, proc_exit,
}
use ovsb_mk.Process.Scheduler.RoundRobin.{Awaits, at_distance, find_next_ready-IsFirst}
use ovsb_mk.Process.Scheduler.Exit.{bury-Buried}
use ovsb_mk.Process.Scheduler.Running.{IsSound, bury-IsSound, find_next_ready-lt}

-- `i` is the first entry that is blocked and has the process `child` among its children.
abbrev pub WaitsFirst : List Pcb → ℤ → ℕ → Type 0
WaitsFirst t child i = Finds (λ p. state_eq p.state blocked && any_child t child p.pid) t i

-- A change that keeps the pid and the parent of an entry.
any_child-set :
    (t : List Pcb) (i : ℕ) (p : Pcb) (child parent : ℤ)
    → p.pid ≡ (pcb_at t i).pid
    → p.parent_pid ≡ (pcb_at t i).parent_pid
    → any_child (set t i p) child parent ≡ any_child t child parent
unfolding any_child
any_child-set [] i p child parent e f = refl
any_child-set (x ∷ xs) zero p child parent e f = rw (e, f) refl
any_child-set (x ∷ xs) (suc i) p child parent e f = rw (any_child-set xs i p child parent e f) refl

module _ (s : Procs) (code : ℤ) (i : ℕ) (v : IsSound s) (ne : i ≢ s.current_pid) where
  abbrev dead_table : List Pcb
  dead_table =
      set s.table s.current_pid
        (record (pcb_at s.table s.current_pid) { exit_code = code; state = zombie })

  dead-WaitsFirst :
      WaitsFirst s.table (pcb_at s.table s.current_pid).pid i
      → WaitsFirst dead_table (pcb_at s.table s.current_pid).pid i
  dead-WaitsFirst f =
      let c = s.current_pid in
      let p = record (pcb_at s.table c) { exit_code = code; state = zombie } in
      let child = (pcb_at s.table c).pid in
      let same = λ (q : ℤ). any_child-set s.table c p child q refl refl in
      record {
        within = omega (arith, length-set s.table c p, f.within);
        hit = rw (get_or-set_ne s.table c i p blank_pcb (λ e. ne (sym e)), same) f.hit;
        first = λ m lt. elim (ℕ_discrete c m) [
          | yes e ↦
              rw (← e, get_or-set_self s.table c p blank_pcb (omega (arith, v.in_table, v.size)))
                refl
          | no other ↦ rw (get_or-set_ne s.table c m p blank_pcb other, same) (f.first m lt)
        ];
      }

  -- The parent is ready once the process is buried.
  bury-ready :
      WaitsFirst s.table (pcb_at s.table s.current_pid).pid i
      → (pcb_at (bury s s.current_pid code).table i).state ≡ ready
  unfolding bury proc_wake_parent wake_table
  bury-ready f =
      let child = (pcb_at s.table s.current_pid).pid in
      let g = dead-WaitsFirst f in
      let found =
        find_index_of_Finds (λ p. state_eq p.state blocked && any_child dead_table child p.pid)
          dead_table i g in
      rw (found, wake_table) (ground (arith, state-set_state dead_table i i ready g.within))

-- The table behind the switch from a dead process to the entry `n`, seen from the entry `i`.
switched_dead-Awaits :
    (s : Procs) (i n : ℕ)
    → IsSound s
    → i < 64
    → n < 64
    → is_state s.table s.current_pid running ≡ false
    → (pcb_at s.table i).state ≡ ready
    → Awaits i (switch_index s n).0
unfolding switch_index
switched_dead-Awaits s i n v i_lt n_lt calm wakes =
    rw (calm, switch_index)
      (record {
        size = length-set s.table n (record (pcb_at s.table n) { state = running }) ∙ v.size;
        in_table = n_lt;
        target = i_lt;
        runs = ground (arith, state-set_state s.table n n running (omega (arith, v.size)));
        turn = ground (arith, state-set_state s.table n i running (omega (arith, v.size)), wakes);
      })

-- A dead process hands the processor over: `i`, which is ready, has it or stays ready.
schedule-Awaits_dead :
    (s : Procs) (i : ℕ)
    → IsSound s
    → i < 64
    → (pcb_at s.table s.current_pid).state ≡ zombie
    → (pcb_at s.table i).state ≡ ready
    → Awaits i (schedule s).0
unfolding schedule
schedule-Awaits_dead s i v i_lt dead wakes =
    let calm : is_state s.table s.current_pid running ≡ false = ground (arith, dead) in
    let moved =
      switched_dead-Awaits s i (find_next_ready s) v i_lt (find_next_ready-lt s v.in_table) calm
        wakes in
    elim (Bool-cases (find_next_ready s == s.current_pid)) [
      | inr e ↦ rw e moved
      | inl e ↦ absurd (never e)
    ]
  where
    d : ℕ
    d = (i + 64 - s.current_pid) % 64

    at_i : at_distance s.current_pid d ≡ i
    at_i = omega (arith, v.in_table)

    never : (find_next_ready s == s.current_pid) ≡ true → ⊥
    never e = elim (find_next_ready-IsFirst s) [
      | inl f ↦ ground (arith, f.is_ready, e, dead)
      | inr (same, none) ↦ ground (arith, none d (omega arith) (omega arith), at_i, wakes)
    ]

-- When the current process of a sound table, the first entry with its pid, calls `proc_exit`, the first process that waits for it
-- gets the processor, or is ready and the process that gets it is marked as running.
pub proc_exit-Awaits :
    (s : Procs) (code P : ℤ) (i : ℕ)
    → IsSound s
    → Finds (λ p. int_eq p.pid P) s.table s.current_pid
    → i ≢ s.current_pid
    → WaitsFirst s.table P i
    → Awaits i (proc_exit s code).0
unfolding proc_exit bury
proc_exit-Awaits s code P i v own ne f =
    let same : (pcb_at s.table s.current_pid).pid ≡ P =
      (int_eq_iff (pcb_at s.table s.current_pid).pid P).0 own.hit in
    let lt : ltb s.current_pid 64 ≡ true = ground (arith, v.in_table) in
    rw lt (
      schedule-Awaits_dead (bury s s.current_pid code) i
        (bury-IsSound s s.current_pid code v v.in_table) (omega (arith, f.within, v.size))
        (bury-Buried s s.current_pid code P own).dead (bury-ready s code i v ne (rw same f)))
