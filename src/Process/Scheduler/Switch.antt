-- ===== src/Process/Scheduler/Switch.antt =====
-- `process_switch_to` of kernel/process.c, which takes a pid where `schedule` takes an index.
use ovsb_mk.Base.{
  ℕ, ◌<◌, ◌≡◌, ◌∙◌, refl, some, arith, ◌==◌, if◌then◌else◌, length-set, take, pos, int_eq,
}
use ovsb_mk.Process.Types.{Procs, ready, running, pcb_at, set_state, find_index, process_current}
use ovsb_mk.Process.Scheduler.{process_switch_to}
use ovsb_mk.Process.Scheduler.RoundRobin.{state_switched}
use ovsb_mk.Process.Scheduler.Running.{IsSound}

-- The table after a switch to the entry `n`.
switched-IsSound :
    (s : Procs) (n : ℕ)
    → IsSound s
    → n < 64
    → IsSound (record s {
      table = set_state (set_state s.table s.current_pid ready) n running;
      current_pid = n;
    })
switched-IsSound s n v lt =
    let states = λ (k : ℕ).
      state_switched s.table s.current_pid n k (omega (arith, v.size)) (omega (arith, v.size)) in
    let first = set_state s.table s.current_pid ready in
    record {
      size =
          length-set first n (record (pcb_at first n) { state = running })
          ∙ length-set s.table s.current_pid
              (record (pcb_at s.table s.current_pid) { state = ready })
          ∙ v.size;
      in_table = lt;
      taken = v.taken;
      single = λ k r. ground (arith, states k, v.single k);
    }

-- On a sound table in which some entry has the pid of the current process, and the entry of the pid
-- `pid` stands at that index, `process_switch_to` keeps the table sound: the entry becomes the
-- current one and is marked as running, the old one as ready, and the other states are kept.
pub process_switch_to-IsSound :
    (s : Procs) (pid i : ℕ)
    → IsSound s
    → pid < 64
    → process_current s ≡ some i
    → find_index (λ p. int_eq p.pid (pos pid)) (take s.pcb_count s.table) ≡ some pid
    → IsSound (process_switch_to s pid).0
      × ((process_switch_to s pid).0.current_pid ≡ pid)
      × ((k : ℕ)
          → (pcb_at (process_switch_to s pid).0.table k).state ≡ (
              if pid == k
              then running
              else if s.current_pid == k
              then ready
              else (pcb_at s.table k).state))
unfolding process_switch_to
process_switch_to-IsSound s pid i v lt here e =
    rw (here, e, process_switch_to)
      (
        switched-IsSound s pid v lt,
        refl,
        λ k.
            state_switched s.table s.current_pid pid k (omega (arith, v.size))
              (omega (arith, v.size)),
      )
