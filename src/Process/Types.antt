-- ===== src/Process/Types.antt =====
-- The state of kernel/process.c: `pcb_t`, `pcb_table`, `current_pid`, `pcb_count` and `next_pid`.
use ovsb_mk.Base.{
  ℕ, zero, suc, ◌+◌, ◌-◌, ◌%◌, ◌^◌, ◌<◌, ◌≡◌, refl, List, [], ◌∷◌, Bool, true, false, ◌||◌, ◌&&◌,
  Option, none, some, if◌then◌else◌, get_or, set, take, replicate, ℤ, pos, negsuc, int_eq, ◌==◌,
  arith, length, get_or-set_self, get_or-set_ne, ℕ_discrete,
}

abbrev pub max_proc : ℕ
max_proc = 64

abbrev pub stack_size : ℕ
stack_size = 8192

-- PROC_EMPTY, PROC_READY, PROC_RUNNING, PROC_BLOCKED, PROC_ZOMBIE.
pub data State : Type 0 where
  empty ready running blocked zombie : State

-- `x.state == PROC_...`
abbrev pub state_eq : State → State → Bool
state_eq empty empty = true
state_eq ready ready = true
state_eq running running = true
state_eq blocked blocked = true
state_eq zombie zombie = true
state_eq _ _ = false

-- `pcb_t`, less the fields that nothing reads. `kernel_stack` holds the words of the kernel stack
-- from `kernel_rsp` upwards, `saved` the registers s_rbx, s_rbp, s_r12, s_r13, s_r14 and s_r15.
pub record Pcb : Type 0 where
  pub pid : ℤ
  pub state : State
  pub name : List ℕ
  pub is_user : ℕ
  pub kernel_rsp : ℕ
  pub kernel_stack : List ℕ
  pub rsp0 : ℕ
  pub pml4 : ℕ
  pub saved : List ℕ
  pub parent_pid : ℤ
  pub exit_code : ℤ
  pub program_break : ℕ
  pub heap_start : ℕ

-- An entry as `process_init` clears it.
abbrev pub blank_pcb : Pcb
blank_pcb = record {
  pid = negsuc 0;
  state = empty;
  name = replicate 32 0;
  is_user = 0;
  kernel_rsp = 0;
  kernel_stack = [];
  rsp0 = 0;
  pml4 = 0;
  saved = replicate 6 0;
  parent_pid = pos 0;
  exit_code = pos 0;
  program_break = 0;
  heap_start = 0;
}

pub record Procs : Type 0 where
  pub table : List Pcb
  pub current_pid : ℕ
  pub pcb_count : ℕ
  pub next_pid : ℕ

-- The calls that leave the module, in their order. `switch_to i j` is `context_switch` from the
-- entry `i` to the entry `j` of the table.
pub data Effect : Type 0 where
  set_rsp0 : ℕ → Effect
  switch_to : ℕ → ℕ → Effect
  close_files : Effect
  munmap : ℕ → ℕ → Effect
  destroy_pml4 : ℕ → Effect

-- `pcb_table[i]`; past the table, which the code does not check, a cleared entry.
abbrev pub pcb_at : List Pcb → ℕ → Pcb
pcb_at t i = get_or t i blank_pcb

abbrev pub set_state : List Pcb → ℕ → State → List Pcb
set_state t i st = set t i (record (pcb_at t i) { state = st })

-- The index of the first entry that passes the test, as the loops over the table find it.
unfoldable pub find_index : (Pcb → Bool) → List Pcb → Option ℕ
find_index test [] = none
find_index test (p ∷ ps) =
    if test p then some 0 else elim (find_index test ps) [ none ↦ none | some i ↦ some (suc i) ]

-- Some entry has the pid `child` and the parent `parent`.
unfoldable pub any_child : List Pcb → (child parent : ℤ) → Bool
any_child [] child parent = false
any_child (p ∷ ps) child parent =
    (int_eq p.pid child && int_eq p.parent_pid parent) || any_child ps child parent

-- `process_current`, as an index: only the first `pcb_count` entries are searched.
unfoldable pub process_current : Procs → Option ℕ
process_current s = find_index (λ p. int_eq p.pid (pos s.current_pid)) (take s.pcb_count s.table)

abbrev pub process_current_pid : Procs → ℕ
process_current_pid s = s.current_pid

-- The bytes of `src` over the first bytes of `dst`.
unfoldable pub overlay : List ℕ → List ℕ → List ℕ
overlay [] dst = dst
overlay (c ∷ src) [] = []
overlay (c ∷ src) (d ∷ dst) = c ∷ overlay src dst

-- `*--sp = word`
unfoldable pub push : ℕ → Pcb → Pcb
push word p = record p {
  kernel_rsp = (p.kernel_rsp + 2 ^ 64 - 8) % 2 ^ 64;
  kernel_stack = word ∷ p.kernel_stack;
}

unfoldable pub push_zeros : ℕ → Pcb → Pcb
push_zeros zero p = p
push_zeros (suc n) p = push_zeros n (push 0 p)

-- The states after a change of state.
pub state-set_state :
    (t : List Pcb) (i k : ℕ) (st : State)
    → i < length t
    → (pcb_at (set_state t i st) k).state ≡ (if i == k then st else (pcb_at t k).state)
state-set_state t i k st h =
    let new : Pcb = record (pcb_at t i) { state = st } in
    ground (arith, get_or-set_self t i new blank_pcb, get_or-set_ne t i k new blank_pcb)

-- A change of state keeps the other fields; here the pid and the exit code.
pub set_state-fields :
    (t : List Pcb) (i k : ℕ) (st : State)
    → i < length t
    → ((pcb_at (set_state t i st) k).pid ≡ (pcb_at t k).pid)
      × ((pcb_at (set_state t i st) k).exit_code ≡ (pcb_at t k).exit_code)
set_state-fields t i k st h =
    let new : Pcb = record (pcb_at t i) { state = st } in
    elim (ℕ_discrete i k) [
      | yes e ↦ rw (← e, get_or-set_self t i new blank_pcb h) (refl, refl)
      | no ne ↦ rw (get_or-set_ne t i k new blank_pcb ne) (refl, refl)
    ]
