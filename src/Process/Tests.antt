-- ===== src/Process/Tests.antt =====
-- kernel/process.c on a table of three processes: idle, a shell that runs, and a ready child of the
-- shell.
use ovsb_mk.Base.{
  ℕ, take, ◌<◌, ◌≡◌, ◌≢◌, ◌⊎◌, inl, inr, refl, List, [], ◌∷◌, ◌++◌, Bool, true, not, ◌||◌, some,
  arith, ◌==◌, ltb, replicate, ℤ, pos, int_eq, all_below, all_below_sound, Bool-cases,
  get_or-beyond,
}
use ovsb_mk.Process.Types.{
  Pcb, Procs, State, ready, running, blank_pcb, pcb_at, find_index, any_child, process_current,
}
use ovsb_mk.Process.Search.{Finds}
use ovsb_mk.Process.Create.{process_init}
use ovsb_mk.Process.Scheduler.{
  is_state, next_ready, find_next_ready, switch_index, schedule, proc_exit, process_exit_current,
  parent_index, waitpid_round, proc_waitpid, reaped, no_child, again,
}
use ovsb_mk.Process.Scheduler.RoundRobin.{Awaits, ticks, ticks-fair}
use ovsb_mk.Process.Scheduler.Running.{IsSound, waitpid_round-IsSound}
use ovsb_mk.Process.Scheduler.Exit.{process_exit_current-stuck}
use ovsb_mk.Process.Scheduler.Reach.{Reachable-IsSound, booted, then_step, scheduled}
use ovsb_mk.Process.Scheduler.Preserve.{Preserves-refl}
use ovsb_mk.Process.Scheduler.Wake.{WaitsFirst}
use ovsb_mk.Process.Scheduler.Wait.{tick_steps, proc_waitpid-exit, waitpid_round-no_child}

abbrev entry : ℤ → State → ℤ → Pcb
entry pid state parent = record blank_pcb { pid = pid; state = state; parent_pid = parent }

abbrev three : Procs
three = record {
  table =
      entry (pos 0) ready (pos 0)
      ∷ entry (pos 1) running (pos 0)
      ∷ entry (pos 2) ready (pos 1)
      ∷ replicate 61 blank_pcb;
  current_pid = 1;
  pcb_count = 3;
  next_pid = 3;
}

abbrev runs_only : ℕ → Bool
runs_only k = not (is_state three.table k running) || k == 1

runs_table : all_below 64 runs_only ≡ true
unfolding all_below
runs_table = refl

three-single : (k : ℕ) → (pcb_at three.table k).state ≡ running → k ≡ 1
three-single k h = elim (Bool-cases (ltb k 64)) [
  | inl lt ↦
      let t : runs_only k ≡ true = all_below_sound 64 runs_only k runs_table (ground arith) in
      ground (arith, t, h)
  | inr ge ↦ absurd (ground (arith, get_or-beyond three.table k blank_pcb, h))
]

three-IsSound : IsSound three
three-IsSound = record {
  size = refl;
  in_table = omega arith;
  taken = omega arith;
  single = three-single;
}

three-current : process_current three ≡ some 1
unfolding process_current find_index
three-current = refl

process_exit_current-stuck_example :
    schedule (process_exit_current three (pos 7)).0 ≡ ((process_exit_current three (pos 7)).0, [])
unfolding parent_index
process_exit_current-stuck_example =
    process_exit_current-stuck three (pos 7) three-IsSound three-current (omega arith) (inl refl)

three-Awaits : Awaits 2 three
three-Awaits = record {
  size = refl;
  in_table = omega arith;
  target = omega arith;
  runs = refl;
  turn = inr refl;
}

ticks-fair_example : (n : ℕ) × (n < 64) × ((ticks (λ k s. s) n three).current_pid ≡ 2)
ticks-fair_example = ticks-fair 2 three (λ k s. s) (λ k s a. (a, refl)) three-Awaits

shell-Finds : Finds (λ p. int_eq p.pid (pos 1)) three.table 1
shell-Finds = record { within = omega arith; hit = refl; first = λ m lt. rw (the_first m lt) }
  where
    the_first : (m : ℕ) → m < 1 → m ≡ 0
    the_first m lt = omega arith

-- The shell waits for its child, which gets the processor.
shell-waits : (waitpid_round three (pos 2)).0 ≡ again
unfolding waitpid_round find_index
shell-waits = refl

child-Finds :
    Finds
      (λ p. int_eq p.pid (pos 2))
      (waitpid_round three (pos 2)).1.table
      (waitpid_round three (pos 2)).1.current_pid
unfolding waitpid_round find_index schedule find_next_ready next_ready switch_index
child-Finds = record {
  within = omega arith;
  hit = refl;
  first = λ m lt. elim (low_cases m lt) [ inl e ↦ rw e | inr e ↦ rw e ];
}
  where
    low_cases : (m : ℕ) → m < 2 → (m ≡ 0) ⊎ (m ≡ 1)
    low_cases m lt = ground arith

shell-WaitsFirst : WaitsFirst (waitpid_round three (pos 2)).1.table (pos 2) 1
unfolding waitpid_round find_index schedule find_next_ready next_ready switch_index any_child
shell-WaitsFirst = record { within = omega arith; hit = refl; first = λ m lt. rw (the_first m lt) }
  where
    the_first : (m : ℕ) → m < 1 → m ≡ 0
    the_first m lt = omega arith

child-runs : 1 ≢ (waitpid_round three (pos 2)).1.current_pid
unfolding waitpid_round find_index schedule find_next_ready next_ready switch_index
child-runs = omega arith

-- The idle process comes between the child and the shell.
proc_waitpid-exit_example :
    (n : ℕ) × (n < 64)
    × ((later : List (Procs → Procs))
        → (proc_waitpid three
            (pos 2)
            ((λ s. (proc_exit s (pos 9)).0) ∷ (tick_steps (λ k s. s) n ++ later))).0
          ≡ reaped (pos 9))
proc_waitpid-exit_example =
    proc_waitpid-exit three (pos 9) (pos 2) (λ s. s) (λ k s. s) shell-waits
      (waitpid_round-IsSound three (pos 2) three-IsSound) child-Finds child-runs shell-WaitsFirst
      (λ k s a. (a, refl)) (λ k s v. (v, Preserves-refl s.table))

abbrev nobody : ℕ → Bool
nobody k = not (int_eq (pcb_at three.table k).pid (pos 5))

nobody_table : all_below 64 nobody ≡ true
unfolding all_below
nobody_table = refl

waitpid_round-no_child_example : waitpid_round three (pos 5) ≡ (no_child, three, [])
waitpid_round-no_child_example =
    waitpid_round-no_child three (pos 5)
      (λ k lt. ground (arith, all_below_sound 64 nobody k nobody_table lt))

child-known : find_index (λ p. int_eq p.pid (pos 2)) (take three.pcb_count three.table) ≡ some 2
unfolding find_index
child-known = refl

-- The kernel has booted and calls `schedule`.
Reachable-IsSound_example : IsSound (schedule (process_init 0xA00000 0x1000 0x2000).0).0
Reachable-IsSound_example = Reachable-IsSound (schedule (process_init 0xA00000 0x1000 0x2000).0).0 (
    then_step (process_init 0xA00000 0x1000 0x2000).0
      (schedule (process_init 0xA00000 0x1000 0x2000).0).0 (booted 0xA00000 0x1000 0x2000)
      scheduled)
