-- ===== src/Process/Scheduler/Wait.antt =====
-- `proc_waitpid` of kernel/process.c from its call to its answer.
use ovsb_mk.Base.{
  ℕ, zero, suc, ◌<◌, ◌≡◌, ◌≢◌, ◌∙◌, refl, ap, inl, inr, List, [], ◌∷◌, ◌++◌, true, false, ℤ, int_eq,
  arith, ◌==◌, if◌then◌else◌, length, Bool-cases,
}
use ovsb_mk.Process.Types.{Procs, Effect, pcb_at}
use ovsb_mk.Process.Search.{Finds, find_index-cases}
use ovsb_mk.Process.Scheduler.{
  Waited, reaped, no_child, again, schedule, waitpid_round, wait_more, proc_waitpid, proc_exit,
}
use ovsb_mk.Process.Scheduler.RoundRobin.{Keeps, ticks, ticks-fair}
use ovsb_mk.Process.Scheduler.Running.{IsSound, schedule-IsSound, proc_exit-IsSound}
use ovsb_mk.Process.Scheduler.Preserve.{Preserves, schedule-Preserves}
use ovsb_mk.Process.Scheduler.Exit.{
  Buried, Buried-Preserves, waitpid_round-Buried, proc_exit-Buried,
}
use ovsb_mk.Process.Scheduler.Wake.{WaitsFirst, proc_exit-Awaits}

-- A process that sleeps in `proc_waitpid`, once the others have come to the state `s`.
abbrev next_round : (me : ℕ) (pid : ℤ) (s : Procs) → List (Procs → Procs) → Waited × Procs
next_round me pid s fs =
    if s.current_pid == me
    then wait_more me pid (waitpid_round s pid) fs
    else wait_more me pid (again, s, []) fs

wait_more-again :
    (me : ℕ) (pid : ℤ) (w : Waited) (s : Procs) (fx : List Effect) (f : Procs → Procs)
    (fs : List (Procs → Procs))
    → w ≡ again
    → wait_more me pid (w, s, fx) (f ∷ fs) ≡ next_round me pid (f s) fs
unfolding wait_more
wait_more-again me pid (reaped c) s fx f fs e = cc
wait_more-again me pid no_child s fx f fs e = cc
wait_more-again me pid again s fx f fs e = refl

-- An answer is final.
wait_more-done :
    (me : ℕ) (pid : ℤ) (w : Waited) (s : Procs) (fx : List Effect) (fs : List (Procs → Procs))
    (c : ℤ)
    → w ≡ reaped c
    → (wait_more me pid (w, s, fx) fs).0 ≡ reaped c
unfolding wait_more
wait_more-done me pid w s fx [] c e = e
wait_more-done me pid (reaped d) s fx (f ∷ fs) c e = e
wait_more-done me pid no_child s fx (f ∷ fs) c e = cc
wait_more-done me pid again s fx (f ∷ fs) c e = cc

-- `n` ticks of the timer, as steps of the others; `env k` is what happens before the tick `k`.
abbrev pub tick_steps : (ℕ → Procs → Procs) → ℕ → List (Procs → Procs)
tick_steps env zero = []
tick_steps env (suc n) = (λ s. (schedule (env 0 s)).0) ∷ tick_steps (λ k. env (suc k)) n

-- What happens between the ticks keeps the table sound, with its pids, exit codes and zombies.
abbrev pub KeepsDead : (ℕ → Procs → Procs) → Type 0
KeepsDead env =
    (k : ℕ) (s : Procs) → IsSound s → IsSound (env k s) × Preserves s.table (env k s).table

reaps :
    (me c : ℕ) (code P : ℤ) (s : Procs) (fs : List (Procs → Procs))
    → Buried s.table c code P
    → (wait_more me P (waitpid_round s P) fs).0 ≡ reaped code
reaps me c code P s fs b =
    let (w, s1, fx) = waitpid_round s P in
    wait_more-done me P w s1 fx fs code (waitpid_round-Buried s c code P b).0

-- A process that sleeps until a tick gives it the processor, while the zombie stays in the table.
next_round-reaps :
    (me c : ℕ) (code P : ℤ) (n : ℕ) (s : Procs) (env : ℕ → Procs → Procs)
    (later : List (Procs → Procs))
    → KeepsDead env
    → IsSound s
    → Buried s.table c code P
    → (ticks env n s).current_pid ≡ me
    → (next_round me P s (tick_steps env n ++ later)).0 ≡ reaped code
unfolding ticks
next_round-reaps me c code P zero s env later keeps v b turn =
    let now : (s.current_pid == me) ≡ true = ground (arith, turn) in
    rw now (reaps me c code P s later b)
next_round-reaps me c code P (suc n) s env later keeps v b turn =
    elim (Bool-cases (s.current_pid == me)) [
      | inl now ↦ rw now (reaps me c code P s (tick_steps env (suc n) ++ later) b)
      | inr not_yet ↦
          let (v0, kept) = keeps 0 s v in
          let next = (schedule (env 0 s)).0 in
          let b0 = Buried-Preserves s.table (env 0 s).table c code P kept b in
          let b1 =
            Buried-Preserves (env 0 s).table next.table c code P (schedule-Preserves (env 0 s) v0)
              b0 in
          let rest =
            next_round-reaps me c code P n next (λ k. env (suc k)) later (λ k. keeps (suc k))
              (schedule-IsSound (env 0 s) v0) b1 turn in
          rw not_yet (
            ap (λ r. r.0)
              (wait_more-again me P again s [] (λ x. (schedule (env 0 x)).0)
                (tick_steps (λ k. env (suc k)) n ++ later) refl)
            ∙ rest)
    ]

-- A parent that waits gets the exit code of its child within 63 ticks. The first round of its call
-- of `proc_waitpid` finds no zombie; then the others come to a sound table in which the child, the
-- first entry with its pid, is the current process, and the parent, another entry, is the first
-- that is blocked and has the child among its children. If the child now calls `proc_exit`, some
-- number of ticks below 64 follows, after which the call returns the code, whatever the others do
-- later. What happens between the ticks keeps the process that runs and the readiness of the
-- parent, and keeps the table sound, with its pids, exit codes and zombies.
pub proc_waitpid-exit :
    (s : Procs) (code P : ℤ) (before : Procs → Procs) (env : ℕ → Procs → Procs)
    → (waitpid_round s P).0 ≡ again
    → IsSound (before (waitpid_round s P).1)
    → Finds
        (λ p. int_eq p.pid P)
        (before (waitpid_round s P).1).table
        (before (waitpid_round s P).1).current_pid
    → s.current_pid ≢ (before (waitpid_round s P).1).current_pid
    → WaitsFirst (before (waitpid_round s P).1).table P s.current_pid
    → Keeps s.current_pid env
    → KeepsDead env
    → (n : ℕ) × (n < 64)
      × ((later : List (Procs → Procs))
          → (proc_waitpid s P
              ((λ x. (proc_exit (before x) code).0) ∷ (tick_steps env n ++ later))).0
            ≡ reaped code)
unfolding proc_waitpid
proc_waitpid-exit s code P before env e v f ne waits keeps dead =
    let (w, s1, fx) = waitpid_round s P in
    let s2 = (proc_exit (before s1) code).0 in
    let (n, lt, turn) =
      ticks-fair s.current_pid s2 env keeps
        (proc_exit-Awaits (before s1) code P s.current_pid v f ne waits) in
    (
      n,
      lt,
      λ later.
          ap (λ r. r.0)
            (wait_more-again s.current_pid P w s1 fx (λ x. (proc_exit (before x) code).0)
              (tick_steps env n ++ later) e)
          ∙ next_round-reaps s.current_pid (before s1).current_pid code P n s2 env later dead
              (proc_exit-IsSound (before s1) code v) (proc_exit-Buried (before s1) code P v f) turn,
    )

-- Without an entry for the pid the call returns -1 at once, and changes nothing.
pub waitpid_round-no_child :
    (s : Procs) (pid : ℤ)
    → ((k : ℕ) → k < length s.table → int_eq (pcb_at s.table k).pid pid ≡ false)
    → waitpid_round s pid ≡ (no_child, s, [])
unfolding waitpid_round
waitpid_round-no_child s pid missing = elim (find_index-cases (λ p. int_eq p.pid pid) s.table) [
  | inl (i, e, f) ↦ absurd (ground (arith, missing i f.within, f.hit))
  | inr (e, miss) ↦ rw (e, waitpid_round)
]
