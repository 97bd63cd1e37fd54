-- ===== src/Process/Scheduler/Running.antt =====
-- A sound table of kernel/process.c: at most one process is marked as running, and it is the current
-- one.
use ovsb_mk.Base.{
  ℕ, ◌≤◌, ◌<◌, ◌≡◌, ◌≢◌, ◌∙◌, inl, inr, refl, List, true, some, arith, length, length-set,
  get_or-set_self, get_or-set_ne, set, ℤ, pos, negsuc, int_eq, ltb, ◌&&◌, ◌||◌, Bool-cases,
}
use ovsb_mk.Process.Types.{
  Pcb, Procs, State, empty, ready, running, blocked, zombie, pcb_at, blank_pcb, set_state, state_eq,
  any_child, process_current, state-set_state,
}
use ovsb_mk.Process.Search.{find_index-cases}
use ovsb_mk.Process.Scheduler.{
  is_state, find_next_ready, switch_index, schedule, wake_table, proc_wake_parent, bury,
  parent_index, return_to, process_exit_current, proc_exit, reap, waitpid_round,
}
use ovsb_mk.Process.Scheduler.RoundRobin.{find_next_ready-IsFirst, state_switched}

pub record IsSound (s : Procs) : Type 0 where
  pub size : length s.table ≡ 64
  pub in_table : s.current_pid < 64
  pub taken : s.pcb_count ≤ 64
  pub single : (k : ℕ) → (pcb_at s.table k).state ≡ running → k ≡ s.current_pid

-- No entry of `t'` runs that did not run in `t`.
pub record Calms (t t' : List Pcb) : Type 0 where
  pub same_size : length t' ≡ length t
  pub calm : (k : ℕ) → (pcb_at t' k).state ≡ running → (pcb_at t k).state ≡ running

pub Calms-refl : (t : List Pcb) → Calms t t
Calms-refl t = record { same_size = refl; calm = λ k h. h }

Calms-trans : (t u v : List Pcb) → Calms t u → Calms u v → Calms t v
Calms-trans t u v c d = record {
  same_size = d.same_size ∙ c.same_size;
  calm = λ k h. c.calm k (d.calm k h);
}

-- A change to another state than running.
pub set_state-Calms :
    (t : List Pcb) (i : ℕ) (st : State) → i < length t → st ≢ running → Calms t (set_state t i st)
set_state-Calms t i st lt ne = record {
  same_size = length-set t i (record (pcb_at t i) { state = st });
  calm = λ k h. ground (arith, state-set_state t i k st lt);
}

-- A write of an entry that does not run.
pub set-Calms :
    (t : List Pcb) (i : ℕ) (p : Pcb) → i < length t → p.state ≢ running → Calms t (set t i p)
set-Calms t i p lt ne = record {
  same_size = length-set t i p;
  calm = λ k h. ground (arith, get_or-set_self t i p blank_pcb lt, get_or-set_ne t i k p blank_pcb);
}

-- A calm change of the table and of the counters, with the same current process.
pub Calms-IsSound :
    (s : Procs) (t : List Pcb) (count next : ℕ)
    → IsSound s
    → count ≤ 64
    → Calms s.table t
    → IsSound (record s { table = t; pcb_count = count; next_pid = next })
Calms-IsSound s t count next v le c = record {
  size = c.same_size ∙ v.size;
  in_table = v.in_table;
  taken = le;
  single = λ k h. v.single k (c.calm k h);
}

pub find_next_ready-lt : (s : Procs) → s.current_pid < 64 → find_next_ready s < 64
find_next_ready-lt s lt = ground (arith, find_next_ready-IsFirst s)

-- The states after `switch_index`, whether or not the old process was running.
switch_index-states :
    (s : Procs) (n k : ℕ)
    → IsSound s
    → n < 64
    → (pcb_at (switch_index s n).0.table k).state ≡ running
    → k ≡ n
unfolding switch_index
switch_index-states s n k v lt h = ground (
  arith,
  v.single k,
  state_switched s.table s.current_pid n k,
  state-set_state s.table n k running,
)

switch_index-IsSound : (s : Procs) (n : ℕ) → IsSound s → n < 64 → IsSound (switch_index s n).0
unfolding switch_index
switch_index-IsSound s n v lt = record {
  size = ground (
    arith,
    length-set s.table s.current_pid (record (pcb_at s.table s.current_pid) { state = ready }),
    length-set s.table n (record (pcb_at s.table n) { state = running }),
    length-set (set_state s.table s.current_pid ready) n
        (record (pcb_at (set_state s.table s.current_pid ready) n) { state = running }),
  );
  in_table = lt;
  taken = v.taken;
  single = λ k h. switch_index-states s n k v lt h;
}

-- `schedule` keeps a sound table sound: it hands the mark over with the processor.
pub schedule-IsSound : (s : Procs) → IsSound s → IsSound (schedule s).0
unfolding schedule
schedule-IsSound s v =
    ground (arith, switch_index-IsSound s (find_next_ready s) v (find_next_ready-lt s v.in_table))

-- Waking a parent makes no process run.
pub wake_table-Calms : (t : List Pcb) (child : ℤ) → Calms t (wake_table t child)
unfolding wake_table
wake_table-Calms t child =
    elim (find_index-cases (λ p. state_eq p.state blocked && any_child t child p.pid) t) [
      | inl (i, e, f) ↦ rw (e, wake_table) (set_state-Calms t i ready f.within (cc))
      | inr (e, miss) ↦ rw (e, wake_table) (Calms-refl t)
    ]

pub bury-Calms :
    (s : Procs) (i : ℕ) (code : ℤ) → i < length s.table → Calms s.table (bury s i code).table
unfolding bury proc_wake_parent
bury-Calms s i code lt =
    let p = record (pcb_at s.table i) { exit_code = code; state = zombie } in
    Calms-trans s.table (set s.table i p) _ (set-Calms s.table i p lt (λ e. cc))
      (wake_table-Calms (set s.table i p) (pcb_at s.table i).pid)

pub bury-IsSound : (s : Procs) (i : ℕ) (code : ℤ) → IsSound s → i < 64 → IsSound (bury s i code)
unfolding bury proc_wake_parent
bury-IsSound s i code v lt =
    Calms-IsSound s (bury s i code).table s.pcb_count s.next_pid v v.taken
      (bury-Calms s i code (omega (arith, v.size)))

-- `proc_exit` keeps a sound table sound: at most the process that it switches to is marked as
-- running.
pub proc_exit-IsSound : (s : Procs) (code : ℤ) → IsSound s → IsSound (proc_exit s code).0
unfolding proc_exit
proc_exit-IsSound s code v =
    let lt : ltb s.current_pid 64 ≡ true = ground arith in
    rw lt (
      schedule-IsSound (bury s s.current_pid code) (bury-IsSound s s.current_pid code v v.in_table))

-- The process that is buried is a zombie, and no other one is marked as running.
pub bury-none_running :
    (s : Procs) (code : ℤ)
    → IsSound s
    → (k : ℕ) → (pcb_at (bury s s.current_pid code).table k).state ≢ running
unfolding bury proc_wake_parent
bury-none_running s code v k h =
    let i = s.current_pid in
    let p = record (pcb_at s.table i) { exit_code = code; state = zombie } in
    let was = Calms.calm (wake_table-Calms (set s.table i p) (pcb_at s.table i).pid) k h in
    ground (
      arith,
      was,
      v.single k,
      get_or-set_self s.table i p blank_pcb,
      get_or-set_ne s.table i k p blank_pcb,
    )

pub parent_index-lt : (pid : ℤ) → parent_index pid < 64
unfolding parent_index
parent_index-lt (pos n) = ground arith
parent_index-lt (negsuc n) = omega arith

pub return_to-Calms :
    (s : Procs) (parent : ℕ) → parent < length s.table → Calms s.table (return_to s parent).table
unfolding return_to
return_to-Calms s parent lt =
    elim (Bool-cases (is_state s.table parent blocked || is_state s.table parent ready)) [
      | inl e ↦ rw e (set_state-Calms s.table parent ready lt (λ r. cc))
      | inr e ↦ rw e (Calms-refl s.table)
    ]

-- After the old exit from a sound table, of a process that stands at the index of its pid, nothing
-- is marked as running, although the parent has the processor.
pub process_exit_current-none_running :
    (s : Procs) (code : ℤ) (k : ℕ)
    → IsSound s
    → process_current s ≡ some s.current_pid
    → (pcb_at (process_exit_current s code).0.table k).state ≢ running
unfolding process_exit_current
process_exit_current-none_running s code k v here =
    let i = s.current_pid in
    let parent = parent_index (pcb_at s.table i).parent_pid in
    let size : length (bury s i code).table ≡ 64 =
      Calms.same_size (bury-Calms s i code (omega (arith, v.size))) ∙ v.size in
    let lt : parent < length (bury s i code).table =
      omega (arith, parent_index-lt (pcb_at s.table i).parent_pid) in
    rw (here, process_exit_current)
      λ h. bury-none_running s code v k (Calms.calm (return_to-Calms (bury s i code) parent lt) k h)

-- A round of `proc_waitpid` keeps a sound table sound, whether it collects a child, waits or finds
-- no entry.
pub waitpid_round-IsSound : (s : Procs) (pid : ℤ) → IsSound s → IsSound (waitpid_round s pid).1
unfolding waitpid_round reap
waitpid_round-IsSound s pid v = elim (find_index-cases (λ p. int_eq p.pid pid) s.table) [
  | inl (i, e, f) ↦
      let freed = set_state-Calms s.table i empty f.within (λ r. cc) in
      let waits = set_state-Calms s.table s.current_pid blocked (omega (arith, v.size)) (λ r. cc) in
      let asleep = record s { table = set_state s.table s.current_pid blocked } in
      rw (e, waitpid_round)
        (ground (
          arith,
          Calms-IsSound s (set_state s.table i empty) s.pcb_count s.next_pid v v.taken freed,
          schedule-IsSound asleep (
              Calms-IsSound s (set_state s.table s.current_pid blocked) s.pcb_count s.next_pid v
                v.taken waits),
        ))
  | inr (e, miss) ↦ rw (e, waitpid_round) v
]
