-- ===== src/Process/Scheduler/Spawn.antt =====
-- kernel/process.c: the creation of a process in a sound table (Process/Scheduler/Running.antt).
use ovsb_mk.Base.{ℕ, ◌+◌, ◌<◌, ◌≡◌, ◌≢◌, inl, inr, refl, List, arith, set, leb, Bool-cases}
use ovsb_mk.Process.Types.{Pcb, Procs, empty, ready, running, pcb_at, state_eq}
use ovsb_mk.Process.Search.{find_index-cases}
use ovsb_mk.Process.Create.{
  alloc_pcb, created, setup_user_stack, process_create_user, spawned, proc_spawn,
}
use ovsb_mk.Process.Scheduler.Running.{IsSound, Calms-refl, set-Calms, Calms-IsSound}

spawned-ready :
    (s : Procs) (p : Pcb) (name : List ℕ) (entry top kstack pml4 : ℕ)
    → (spawned s p name entry top kstack pml4).state ≡ ready
unfolding spawned
spawned-ready s p name entry top kstack pml4 = refl

-- `proc_spawn` keeps a sound table sound, on every branch: it makes no process run.
pub proc_spawn-IsSound :
    (s : Procs) (name : List ℕ) (entry top kstack pml4 : ℕ)
    → IsSound s
    → IsSound (proc_spawn s name entry top kstack pml4).1
unfolding proc_spawn
proc_spawn-IsSound s name entry top kstack pml4 v =
    elim (find_index-cases (λ p. state_eq p.state empty) s.table) [
      | inl (i, e, f) ↦
          let p = spawned s (pcb_at s.table i) name entry top kstack pml4 in
          let calm =
            set-Calms s.table i p f.within
              (rw (spawned-ready s (pcb_at s.table i) name entry top kstack pml4) (λ r. cc)) in
          let sound =
            Calms-IsSound s (set s.table i p) s.pcb_count (s.next_pid + 1) v v.taken calm in
          rw (e, proc_spawn) (ground (arith, sound))
      | inr (e, miss) ↦ rw (e, proc_spawn) v
    ]

created-ready :
    (s : Procs) (p : Pcb) (name : List ℕ) (entry ustack size kstack cr3 : ℕ)
    → (created s p name entry ustack size kstack cr3).state ≡ ready
unfolding created setup_user_stack
created-ready s p name entry ustack size kstack cr3 = refl

-- `process_create_user` keeps a sound table sound, on every branch: it makes no process run.
pub process_create_user-IsSound :
    (s : Procs) (name : List ℕ) (entry ustack size kstack cr3 : ℕ)
    → IsSound s
    → IsSound (process_create_user s name entry ustack size kstack cr3).1
unfolding process_create_user alloc_pcb
process_create_user-IsSound s name entry ustack size kstack cr3 v =
    let s1 = record s { pcb_count = s.pcb_count + 1 } in
    let p = created s1 (pcb_at s.table s.pcb_count) name entry ustack size kstack cr3 in
    let ready : p.state ≢ running =
      rw (created-ready s1 (pcb_at s.table s.pcb_count) name entry ustack size kstack cr3)
        (λ r. cc) in
    elim (Bool-cases (leb 64 s.pcb_count)) [
      | inl full ↦ rw (full, process_create_user, alloc_pcb) v
      | inr room ↦
          let lt : s.pcb_count < 64 = ground arith in
          let calm = set-Calms s.table s.pcb_count p (omega (arith, v.size)) ready in
          let taken =
            Calms-IsSound s s.table (s.pcb_count + 1) s.next_pid v (omega arith)
              (Calms-refl s.table) in
          let filled =
            Calms-IsSound s (set s.table s.pcb_count p) (s.pcb_count + 1) (s.next_pid + 1) v
              (omega arith) calm in
          rw (room, process_create_user, alloc_pcb) (ground (arith, taken, filled))
    ]
