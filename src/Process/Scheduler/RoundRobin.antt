-- ===== src/Process/Scheduler/RoundRobin.antt =====
-- Which process `schedule` of kernel/process.c takes, and that each ready one has its turn.
use ovsb_mk.Base.{
  ℕ, zero, suc, ◌+◌, ◌-◌, ◌%◌, ◌≤◌, ◌<◌, ◌≡◌, ◌≢◌, ◌∙◌, ◌⊎◌, inl, inr, refl, List, [], true, false,
  arith, ◌==◌, if◌then◌else◌, length, Bool-cases, length-set, ℕ_discrete,
}
use ovsb_mk.Process.Types.{Pcb, Procs, ready, running, pcb_at, set_state, max_proc, state-set_state}
use ovsb_mk.Process.Scheduler.{is_state, next_ready, find_next_ready, switch_index, schedule}

-- The entry at the cyclic distance `j` from `start`.
abbrev pub at_distance : ℕ → ℕ → ℕ
at_distance start j = (start + j) % 64

-- No entry at a distance from `i` up to `j` is ready.
abbrev pub NoneReady : List Pcb → ℕ → ℕ → ℕ → Type 0
NoneReady t start i j = (m : ℕ) → i ≤ m → m < j → is_state t (at_distance start m) ready ≡ false

-- `r` is the first ready entry at a distance from `i` up to `end`.
pub record IsFirst (t : List Pcb) (start i end r : ℕ) : Type 0 where
  pub distance : ℕ
  pub above : i ≤ distance
  pub below : distance < end
  pub place : r ≡ at_distance start distance
  pub is_ready : is_state t r ready ≡ true
  pub first : NoneReady t start i distance

NoneReady-extend :
    (t : List Pcb) (start i j : ℕ)
    → is_state t (at_distance start i) ready ≡ false
    → NoneReady t start (i + 1) j
    → NoneReady t start i j
NoneReady-extend t start i j miss rest m lo hi = elim (ℕ_discrete m i) [
  | yes e ↦ rw e miss
  | no ne ↦ rest m (omega arith) hi
]

abbrev Chosen : List Pcb → (start i end r : ℕ) → Type 0
Chosen t start i end r = IsFirst t start i end r ⊎ ((r ≡ start) × NoneReady t start i end)

Chosen-extend :
    (t : List Pcb) (start i end r : ℕ)
    → is_state t (at_distance start i) ready ≡ false
    → Chosen t start (i + 1) end r
    → Chosen t start i end r
Chosen-extend t start i end r miss (inl f) = inl (record {
  distance = f.distance;
  above = omega arith;
  below = f.below;
  place = f.place;
  is_ready = f.is_ready;
  first = NoneReady-extend t start i f.distance miss f.first;
})
Chosen-extend t start i end r miss (inr (e, none)) =
    inr (e, NoneReady-extend t start i end miss none)

-- The loop of `find_next_ready` stops at the first ready entry, or keeps the current one.
next_ready-Chosen :
    (t : List Pcb) (start i rounds end : ℕ)
    → end ≡ i + rounds
    → Chosen t start i end (next_ready t start i rounds)
unfolding next_ready
next_ready-Chosen t start i zero end e = inr (refl, λ m lo hi. absurd (omega arith))
next_ready-Chosen t start i (suc rounds) end e =
    elim (Bool-cases (is_state t ((start + i) % max_proc) ready)) [
      | inl hit ↦ rw hit (
          inl (record {
            distance = i;
            above = omega arith;
            below = omega arith;
            place = refl;
            is_ready = hit;
            first = λ m lo hi. absurd (omega arith);
          }))
      | inr miss ↦ rw miss (
          Chosen-extend t start i end _ miss
            (next_ready-Chosen t start (i + 1) rounds end (omega arith)))
    ]

-- `find_next_ready` gives the first ready entry in cyclic order from the current one, and the
-- current one itself if no entry of the table is ready.
pub find_next_ready-IsFirst :
    (s : Procs)
    → IsFirst s.table s.current_pid 0 64 (find_next_ready s)
      ⊎ ((find_next_ready s ≡ s.current_pid) × NoneReady s.table s.current_pid 0 64)
unfolding find_next_ready
find_next_ready-IsFirst s = next_ready-Chosen s.table s.current_pid 0 64 64 refl

-- How far the entry `j` is from the current one, in cyclic order.
abbrev pub distance : Procs → ℕ → ℕ
distance s j = (j + 64 - s.current_pid) % 64

-- The current process runs, and the process `j` is ready or is the one that runs.
pub record Awaits (j : ℕ) (s : Procs) : Type 0 where
  pub size : length s.table ≡ 64
  pub in_table : s.current_pid < 64
  pub target : j < 64
  pub runs : (pcb_at s.table s.current_pid).state ≡ running
  pub turn : (s.current_pid ≡ j) ⊎ ((pcb_at s.table j).state ≡ ready)

abbrev Nearer : ℕ → Procs → Type 0
Nearer j s =
    (d : ℕ) × (0 < d) × (d ≤ distance s j) × (find_next_ready s ≡ at_distance s.current_pid d)

-- The choice is no further than any entry that is ready, and it is not the current entry.
Chosen-Nearer :
    (j : ℕ) (s : Procs)
    → Awaits j s
    → s.current_pid ≢ j
    → Chosen s.table s.current_pid 0 64 (find_next_ready s)
    → Nearer j s
Chosen-Nearer j s a ne (inl f) =
    let at_j : at_distance s.current_pid (distance s j) ≡ j = omega arith in
    let at_zero : at_distance s.current_pid 0 ≡ s.current_pid = omega arith in
    (
      f.distance,
      ground (arith, f.place, f.is_ready, at_zero, a.runs),
      ground (arith, f.first (distance s j), at_j, a.turn, f.below),
      f.place,
    )
Chosen-Nearer j s a ne (inr (e, none)) =
    let at_j : at_distance s.current_pid (distance s j) ≡ j = omega arith in
    absurd (ground (arith, none (distance s j), at_j, a.turn))

schedule-switches :
    (j : ℕ) (s : Procs)
    → Awaits j s
    → find_next_ready s ≢ s.current_pid
    → (schedule s).0 ≡ record s {
      table = set_state (set_state s.table s.current_pid ready) (find_next_ready s) running;
      current_pid = find_next_ready s;
    }
unfolding schedule switch_index
schedule-switches j s a ne = ground (arith, a.runs)

-- The states after a switch from `i`, which stays ready, to `n`.
pub state_switched :
    (t : List Pcb) (i n k : ℕ)
    → i < length t
    → n < length t
    → (pcb_at (set_state (set_state t i ready) n running) k).state
      ≡ (if n == k then running else if i == k then ready else (pcb_at t k).state)
state_switched t i n k hi hn = ground (
  arith,
  state-set_state (set_state t i ready) n k running,
  state-set_state t i k ready,
  length-set t i (record (pcb_at t i) { state = ready }),
)

switched-Awaits :
    (j n : ℕ) (s : Procs)
    → Awaits j s
    → s.current_pid ≢ j
    → n < 64
    → Awaits j (record s {
      table = set_state (set_state s.table s.current_pid ready) n running;
      current_pid = n;
    })
switched-Awaits j n s a ne lt =
    let t = set_state s.table s.current_pid ready in
    let at = λ (k : ℕ). state_switched s.table s.current_pid n k (omega arith) (omega arith) in
    record {
      size =
          length-set t n (record (pcb_at t n) { state = running })
          ∙ length-set s.table s.current_pid _
          ∙ a.size;
      in_table = lt;
      target = a.target;
      runs = ground (arith, at n);
      turn = ground (arith, at j, a.turn);
    }

-- A tick either gives the processor to `j`, or brings its turn nearer.
schedule-Awaits :
    (j : ℕ) (s : Procs)
    → Awaits j s
    → s.current_pid ≢ j
    → Awaits j (schedule s).0 × (distance (schedule s).0 j < distance s j)
schedule-Awaits j s a ne =
    let (d, pos, le, e) = Chosen-Nearer j s a ne (find_next_ready-IsFirst s) in
    rw (schedule-switches j s a (omega arith))
      (switched-Awaits j (find_next_ready s) s a ne (omega arith), omega arith)

-- `n` timer ticks; `env k` is what happens before the tick number `k`.
unfoldable pub ticks : (ℕ → Procs → Procs) → ℕ → Procs → Procs
unfolding schedule
ticks env zero s = s
ticks env (suc n) s = ticks (λ k. env (suc k)) n (schedule (env 0 s)).0

-- What happens between two ticks keeps the running process, and keeps `j` ready.
abbrev pub Keeps : ℕ → (ℕ → Procs → Procs) → Type 0
Keeps j env =
    (k : ℕ) (s : Procs) → Awaits j s → Awaits j (env k s) × ((env k s).current_pid ≡ s.current_pid)

ticks_near :
    (j bound : ℕ) (s : Procs) (env : ℕ → Procs → Procs)
    → Keeps j env
    → Awaits j s
    → distance s j < bound
    → (n : ℕ) × (n < bound) × ((ticks env n s).current_pid ≡ j)
unfolding ticks
ticks_near j zero s env keeps a h = absurd (omega arith)
ticks_near j (suc bound) s env keeps a h = elim (ℕ_discrete s.current_pid j) [
  | yes e ↦ (0, omega arith, e)
  | no ne ↦
      let (a0, same) = keeps 0 s a in
      let (a1, nearer) = schedule-Awaits j (env 0 s) a0 (rw same ne) in
      let (n, lt, e) =
        ticks_near j bound (schedule (env 0 s)).0 (λ k. env (suc k)) (λ k. keeps (suc k)) a1
          (omega (arith, same)) in
      (suc n, omega arith, e)
]

-- Round robin is fair: in a table of 64 entries whose current process is marked as running, a
-- process that is ready or current has the processor after at most 63 ticks, whatever happens
-- between the ticks, as long as that keeps this so: the current process stays the same and is
-- marked as running, and `j` is ready or current.
pub ticks-fair :
    (j : ℕ) (s : Procs) (env : ℕ → Procs → Procs)
    → Keeps j env
    → Awaits j s
    → (n : ℕ) × (n < 64) × ((ticks env n s).current_pid ≡ j)
ticks-fair j s env keeps a = ticks_near j 64 s env keeps a (omega arith)

next_ready_self :
    (t : List Pcb) (start rounds : ℕ)
    → start < 64
    → (pcb_at t start).state ≡ ready
    → next_ready t start 0 (suc rounds) ≡ start
unfolding next_ready
next_ready_self t start rounds lt r =
    let at_zero : (start + 0) % 64 ≡ start = omega arith in rw (at_zero, r)

-- Where the process that has the processor is marked ready, and not running, a tick changes
-- nothing: no other process runs, however long it has been ready.
pub schedule_stuck :
    (s : Procs)
    → s.current_pid < 64
    → (pcb_at s.table s.current_pid).state ≡ ready
    → schedule s ≡ (s, [])
unfolding schedule find_next_ready
schedule_stuck s lt r = ground (arith, next_ready_self s.table s.current_pid 63 lt r)
