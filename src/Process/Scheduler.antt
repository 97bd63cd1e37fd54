-- ===== src/Process/Scheduler.antt =====
-- kernel/process.c: `schedule`, `process_switch_to`, the two ways to exit, `proc_wake_parent` and
-- `proc_waitpid`. A function that switches returns when its process runs again, so what the other
-- processes do meanwhile is an argument of `proc_waitpid`.
pub mod RoundRobin
pub mod Running
pub mod Spawn
pub mod Preserve
pub mod Exit
pub mod Wake
pub mod Wait
pub mod Switch
pub mod Reach
use ovsb_mk.Base.{
  ℕ, zero, suc, ◌+◌, ◌-◌, ◌%◌, ◌^◌, List, [], ◌∷◌, ◌++◌, Bool, ◌||◌, ◌&&◌, Option, none, some, ◌==◌,
  ltb, if◌then◌else◌, set, take, ℤ, pos, negsuc, int_eq,
}
use ovsb_mk.Process.Types.{
  Pcb, Procs, State, empty, ready, running, blocked, zombie, Effect, set_rsp0, switch_to,
  close_files, munmap, destroy_pml4, max_proc, stack_size, pcb_at, set_state, state_eq, find_index,
  any_child, process_current,
}

abbrev pub is_state : List Pcb → ℕ → State → Bool
is_state t i st = state_eq (pcb_at t i).state st

-- The loop of `find_next_ready`, from its round `i` with `rounds` to go.
unfoldable pub next_ready : List Pcb → (start i rounds : ℕ) → ℕ
next_ready t start i zero = start
next_ready t start i (suc rounds) =
    let rest = next_ready t start (i + 1) rounds in
    if is_state t ((start + i) % max_proc) ready then (start + i) % max_proc else rest

unfoldable pub find_next_ready : Procs → ℕ
find_next_ready s = next_ready s.table s.current_pid 0 max_proc

-- `schedule` for the entry that it has chosen.
unfoldable pub switch_index : Procs → ℕ → Procs × List Effect
switch_index s next =
    let prev = s.current_pid in
    let t = if is_state s.table prev running then set_state s.table prev ready else s.table in
    (
      record s { table = set_state t next running; current_pid = next },
      set_rsp0 (pcb_at s.table next).rsp0 ∷ switch_to prev next ∷ [],
    )

unfoldable pub schedule : Procs → Procs × List Effect
schedule s =
    let next = find_next_ready s in if next == s.current_pid then (s, []) else switch_index s next

unfoldable pub proc_yield : Procs → Procs × List Effect
proc_yield s = schedule s

-- `process_switch_to`, for a pid that is not negative; the callers test that.
unfoldable pub process_switch_to : Procs → ℕ → Procs × List Effect
process_switch_to s pid = elim (process_current s) [
  | none ↦ (s, [])
  | some current ↦ elim (find_index (λ p. int_eq p.pid (pos pid)) (take s.pcb_count s.table)) [
    | none ↦ (s, [])
    | some next ↦ (
      record s {
        table = set_state (set_state s.table s.current_pid ready) next running;
        current_pid = pid;
      },
      set_rsp0 (pcb_at s.table next).rsp0 ∷ switch_to current next ∷ [],
    )
  ]
]

-- The entry that waits and has the process `child` among its children becomes ready: the first one.
unfoldable pub wake_table : List Pcb → ℤ → List Pcb
wake_table t child =
    elim (find_index (λ p. state_eq p.state blocked && any_child t child p.pid) t) [
      | none ↦ t
      | some i ↦ set_state t i ready
    ]

unfoldable pub proc_wake_parent : Procs → ℤ → Procs
proc_wake_parent s child = record s { table = wake_table s.table child }

-- The process at the index `i` becomes a zombie with the code, and its parent is woken.
unfoldable pub bury : Procs → ℕ → ℤ → Procs
unfolding proc_wake_parent
bury s i code =
    let p = pcb_at s.table i in
    let dead = record s { table = set s.table i (record p { exit_code = code; state = zombie }) } in
    proc_wake_parent dead p.pid

-- `parent < 0 || parent >= MAX_PROC` gives the entry 0.
unfoldable pub parent_index : ℤ → ℕ
parent_index (pos n) = if ltb n max_proc then n else 0
parent_index (negsuc n) = 0

-- The parent gets the processor; its state is set to ready if it is blocked or ready.
unfoldable pub return_to : Procs → ℕ → Procs
return_to s parent =
    let t =
      if is_state s.table parent blocked || is_state s.table parent ready
      then set_state s.table parent ready
      else s.table in
    record s { table = t; current_pid = parent }

unfoldable pub process_exit_current : Procs → ℤ → Procs × List Effect
process_exit_current s code = elim (process_current s) [
  | none ↦ (s, [])
  | some i ↦
      let parent = parent_index (pcb_at s.table i).parent_pid in
      (
        return_to (bury s i code) parent,
        close_files ∷ set_rsp0 (pcb_at s.table parent).rsp0 ∷ switch_to i parent ∷ [],
      )
]

unfoldable pub proc_exit : Procs → ℤ → Procs × List Effect
proc_exit s code =
    if ltb s.current_pid max_proc
    then (let (s', fx) = schedule (bury s s.current_pid code) in (s', close_files ∷ fx))
    else (s, [])

-- The result of a round of the loop in `proc_waitpid`.
pub data Waited : Type 0 where
  reaped : ℤ → Waited
  no_child : Waited
  again : Waited

-- A zombie gives its stack and its page table back, and its entry.
unfoldable pub reap : Procs → ℕ → Procs × List Effect
reap s i =
    let p = pcb_at s.table i in
    (
      record s { table = set_state s.table i empty },
      munmap ((p.rsp0 + 2 ^ 64 - stack_size) % 2 ^ 64) stack_size ∷ destroy_pml4 p.pml4 ∷ [],
    )

-- One round, up to the point where the caller runs again.
unfoldable pub waitpid_round : Procs → ℤ → Waited × Procs × List Effect
waitpid_round s pid = elim (find_index (λ p. int_eq p.pid pid) s.table) [
  | none ↦ (no_child, s, [])
  | some i ↦
      if is_state s.table i zombie
      then (let (s', fx) = reap s i in (reaped (pcb_at s.table i).exit_code, s', fx))
      else (let (s', fx) =
            schedule (record s { table = set_state s.table s.current_pid blocked }) in
          (again, s', fx))
]

-- What follows a round of the process at the index `me`: its answer, or, each time that one of the
-- others has run, another round if the process has the processor back; until then it sleeps in
-- `schedule`.
unfoldable pub wait_more :
    ℕ → ℤ → Waited × Procs × List Effect → List (Procs → Procs) → Waited × Procs
unfolding waitpid_round
wait_more me pid (w, s, fx) [] = (w, s)
wait_more me pid (reaped c, s, fx) (f ∷ fs) = (reaped c, s)
wait_more me pid (no_child, s, fx) (f ∷ fs) = (no_child, s)
wait_more me pid (again, s, fx) (f ∷ fs) =
    let awake = wait_more me pid (waitpid_round (f s) pid) fs in
    let asleep = wait_more me pid (again, f s, []) fs in
    if (f s).current_pid == me then awake else asleep

-- `proc_waitpid` of the current process, with what the others do one after the other; `again` if it
-- still waits at the end.
unfoldable pub proc_waitpid : Procs → ℤ → List (Procs → Procs) → Waited × Procs
unfolding wait_more
proc_waitpid s pid others = wait_more s.current_pid pid (waitpid_round s pid) others
