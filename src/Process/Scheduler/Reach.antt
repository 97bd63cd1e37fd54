-- ===== src/Process/Scheduler/Reach.antt =====
-- The states of the process table of kernel/process.c that the kernel comes to, from `process_init`
-- by the operations of the file.
use ovsb_mk.Base.{
  ℕ, zero, suc, ◌<◌, ◌≡◌, ◌∙◌, ap, inl, inr, refl, List, some, arith, length, replicate, get_or,
  take, ℤ, pos, int_eq, ◌==◌, Bool-cases, length-replicate,
}
use ovsb_mk.Process.Types.{Procs, pcb_at, blank_pcb, process_current, find_index}
use ovsb_mk.Process.Create.{process_init, process_create_user, proc_spawn, cleared}
use ovsb_mk.Process.Scheduler.{
  schedule, process_switch_to, process_exit_current, proc_exit, proc_yield, proc_wake_parent,
  waitpid_round, return_to, bury, parent_index,
}
use ovsb_mk.Process.Scheduler.Running.{
  IsSound, Calms-IsSound, set-Calms, wake_table-Calms, schedule-IsSound, proc_exit-IsSound,
  waitpid_round-IsSound, return_to-Calms, bury-none_running, parent_index-lt, bury-IsSound,
}
use ovsb_mk.Process.Scheduler.Spawn.{proc_spawn-IsSound, process_create_user-IsSound}
use ovsb_mk.Process.Scheduler.Switch.{process_switch_to-IsSound}

-- One operation. The two that take a pid for an index of the table are steps where it is one.
pub data Step (s : Procs) : Procs → Type 0 where
  scheduled : Step s (schedule s).0
  yielded : Step s (proc_yield s).0
  exited : (code : ℤ) → Step s (proc_exit s code).0
  waited : (pid : ℤ) → Step s (waitpid_round s pid).1
  woken : (child : ℤ) → Step s (proc_wake_parent s child)
  spawned_one :
      (name : List ℕ) (entry top kstack pml4 : ℕ)
      → Step s (proc_spawn s name entry top kstack pml4).1
  created_one :
      (name : List ℕ) (entry ustack size kstack cr3 : ℕ)
      → Step s (process_create_user s name entry ustack size kstack cr3).1
  switched :
      (pid i : ℕ)
      → pid < 64
      → process_current s ≡ some i
      → find_index (λ p. int_eq p.pid (pos pid)) (take s.pcb_count s.table) ≡ some pid
      → Step s (process_switch_to s pid).0
  left :
      (code : ℤ) → process_current s ≡ some s.current_pid → Step s (process_exit_current s code).0

-- What the kernel comes to.
pub data Reachable : Procs → Type 0 where
  booted : (kstack idle_entry cr3 : ℕ) → Reachable (process_init kstack idle_entry cr3).0
  then_step : (s t : Procs) → Reachable s → Step s t → Reachable t

get_or-replicate : (n k : ℕ) → get_or (replicate n blank_pcb) k blank_pcb ≡ blank_pcb
get_or-replicate zero k = refl
get_or-replicate (suc n) zero = refl
get_or-replicate (suc n) (suc k) = get_or-replicate n k

cleared-IsSound : IsSound cleared
cleared-IsSound = record {
  size = length-replicate 64 blank_pcb;
  in_table = omega arith;
  taken = omega arith;
  single = λ k h. absurd (ground (arith, ap (λ p. p.state) (get_or-replicate 64 k), h));
}

process_init-IsSound : (kstack idle_entry cr3 : ℕ) → IsSound (process_init kstack idle_entry cr3).0
unfolding process_init
process_init-IsSound kstack idle_entry cr3 = elim (Bool-cases (kstack == 0)) [
  | inl no_stack ↦ rw no_stack cleared-IsSound
  | inr stack ↦ rw stack (
      Calms-IsSound cleared _ 1 1 cleared-IsSound (omega arith)
        (set-Calms cleared.table 0 _ (omega arith) (λ r. cc)))
]

proc_wake_parent-IsSound : (s : Procs) (child : ℤ) → IsSound s → IsSound (proc_wake_parent s child)
unfolding proc_wake_parent
proc_wake_parent-IsSound s child v =
    Calms-IsSound s _ s.pcb_count s.next_pid v v.taken (wake_table-Calms s.table child)

process_exit_current-IsSound :
    (s : Procs) (code : ℤ)
    → process_current s ≡ some s.current_pid
    → IsSound s
    → IsSound (process_exit_current s code).0
unfolding process_exit_current bury return_to proc_wake_parent
process_exit_current-IsSound s code here v =
    let i = s.current_pid in
    let parent = parent_index (pcb_at s.table i).parent_pid in
    let below = parent_index-lt (pcb_at s.table i).parent_pid in
    let size : length (bury s i code).table ≡ 64 = (bury-IsSound s i code v v.in_table).size in
    let calm = return_to-Calms (bury s i code) parent (omega arith) in
    rw (here, process_exit_current)
      (record {
        size = calm.same_size ∙ size;
        in_table = below;
        taken = v.taken;
        single = λ k h. absurd (bury-none_running s code v k (calm.calm k h));
      })

Step-IsSound : (s t : Procs) → Step s t → IsSound s → IsSound t
unfolding proc_yield
Step-IsSound s _ scheduled v = schedule-IsSound s v
Step-IsSound s _ yielded v = schedule-IsSound s v
Step-IsSound s _ (exited code) v = proc_exit-IsSound s code v
Step-IsSound s _ (waited pid) v = waitpid_round-IsSound s pid v
Step-IsSound s _ (woken child) v = proc_wake_parent-IsSound s child v
Step-IsSound s _ (spawned_one name entry top kstack pml4) v =
    proc_spawn-IsSound s name entry top kstack pml4 v
Step-IsSound s _ (created_one name entry ustack size kstack cr3) v =
    process_create_user-IsSound s name entry ustack size kstack cr3 v
Step-IsSound s _ (switched pid i lt here known) v =
    (process_switch_to-IsSound s pid i v lt here known).0
Step-IsSound s _ (left code here) v = process_exit_current-IsSound s code here v

-- In every state that the kernel comes to from `process_init` by the operations of the file, in any
-- order, the table has 64 entries, the current index is in it, and at most the entry at that index
-- is marked as running. `process_switch_to` is among the operations only for a pid whose entry
-- stands at the index of that number, while the current process has an entry, and
-- `process_exit_current` only where the entry of the current process stands at the current index.
pub Reachable-IsSound : (s : Procs) → Reachable s → IsSound s
Reachable-IsSound _ (booted kstack idle_entry cr3) = process_init-IsSound kstack idle_entry cr3
Reachable-IsSound _ (then_step s t r step) = Step-IsSound s t step (Reachable-IsSound s r)
