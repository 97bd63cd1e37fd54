-- ===== src/Process/Create.antt =====
-- kernel/process.c: `process_init`, `process_create_user` and `proc_spawn`, and the frame that
-- `context_switch` of kernel/switch.asm pops for a new user process.
-- What an allocator returns is an argument; 0 is NULL. A name is a C string with no terminator.
pub mod Frames
use ovsb_mk.Base.{
  ℕ, suc, ◌+◌, ◌-◌, ◌%◌, ◌^◌, List, [], ◌∷◌, ◌++◌, Bool, Option, none, some, ◌==◌, leb,
  if◌then◌else◌, get_elem?, set, take, drop, replicate, ℤ, pos, negsuc,
}
use ovsb_mk.Process.Types.{
  Pcb, Procs, Effect, munmap, close_files, max_proc, stack_size, blank_pcb, pcb_at, find_index,
  state_eq, empty, ready, overlay, push, push_zeros,
}

-- The selectors and flags of the frame for ring 3.
abbrev pub user_ss : ℕ
user_ss = 0x23

abbrev pub user_cs : ℕ
user_cs = 0x1B

abbrev pub user_rflags : ℕ
user_rflags = 0x202

-- `alloc_pcb`
unfoldable pub alloc_pcb : Procs → Option (ℕ × Procs)
alloc_pcb s =
    if leb max_proc s.pcb_count
    then none
    else some (s.pcb_count, record s { pcb_count = s.pcb_count + 1 })

-- The cleared table, its first entry taken.
abbrev pub cleared : Procs
cleared = record { table = replicate 64 blank_pcb; current_pid = 0; pcb_count = 1; next_pid = 1 }

abbrev idle_name : List ℕ
idle_name = b'i' ∷ b'd' ∷ b'l' ∷ b'e' ∷ []

-- `process_init`, with the stack that `kmalloc` returns, the address of `idle_entry` and CR3.
unfoldable pub process_init : (kstack idle_entry cr3 : ℕ) → Procs × List Effect
unfolding overlay push
process_init kstack idle_entry cr3 =
    if kstack == 0
    then (cleared, close_files ∷ [])
    else let idle = push idle_entry (record blank_pcb {
      pid = pos 0;
      state = ready;
      name = overlay idle_name blank_pcb.name;
      kernel_rsp = kstack + stack_size;
    }) in
      (
        record cleared {
          table = set cleared.table 0 (record idle { rsp0 = idle.kernel_rsp; pml4 = cr3 });
        },
        close_files ∷ [],
      )

unfoldable pub setup_user_stack : Pcb → (entry ustack ustack_size : ℕ) → Pcb
unfolding push push_zeros
setup_user_stack p entry ustack ustack_size = push_zeros 16 (
    push entry
      (push user_cs (push user_rflags (push ((ustack + ustack_size) % 2 ^ 64) (push user_ss p)))))

-- The entry that `process_create_user` fills in.
unfoldable pub created :
    Procs → Pcb → (name : List ℕ) → (entry ustack ustack_size kstack cr3 : ℕ) → Pcb
created s p name entry ustack ustack_size kstack cr3 =
    setup_user_stack
      (record p {
        pid = pos s.next_pid;
        state = ready;
        is_user = 1;
        name = overlay (take 31 name) p.name;
        kernel_rsp = kstack + stack_size;
        kernel_stack = [];
        rsp0 = kstack + stack_size;
        pml4 = cr3;
        parent_pid = pos s.current_pid;
        exit_code = pos 0;
        program_break = 0x201000;
        heap_start = 0x201000;
      })
      entry ustack ustack_size

-- An entry is taken before the stack is allocated, and stays taken if that fails.
unfoldable pub process_create_user :
    Procs → (name : List ℕ) → (entry ustack ustack_size kstack cr3 : ℕ) → ℤ × Procs
process_create_user s name entry ustack ustack_size kstack cr3 = elim (alloc_pcb s) [
  | none ↦ (negsuc 0, s)
  | some (i, s1) ↦ if kstack == 0 then (negsuc 0, s1) else (
    pos s1.next_pid,
    record s1 {
      table =
          set s1.table i (created s1 (pcb_at s1.table i) name entry ustack ustack_size kstack cr3);
      next_pid = s1.next_pid + 1;
    },
  )
]

-- The entry that `proc_spawn` fills in.
unfoldable pub spawned :
    Procs → Pcb → (name : List ℕ) → (entry user_stack_top kstack pml4 : ℕ) → Pcb
spawned s p name entry user_stack_top kstack pml4 =
    let framed = push_zeros 14 (
      push entry (
        push user_cs (
          push user_rflags (
            push user_stack_top (
              push user_ss
                (record p { kernel_rsp = kstack + stack_size; kernel_stack = [] })))))) in
    record framed {
      pid = pos s.next_pid;
      state = ready;
      is_user = 1;
      name = overlay (take 31 name ++ (0 ∷ [])) p.name;
      rsp0 = kstack + stack_size;
      pml4 = pml4;
      parent_pid = pos s.current_pid;
      exit_code = pos 0;
      program_break = 0x201000;
      heap_start = 0x201000;
      saved = replicate 6 0;
    }

unfoldable pub proc_spawn :
    Procs → (name : List ℕ) → (entry user_stack_top kstack pml4 : ℕ) → ℤ × Procs × List Effect
proc_spawn s name entry user_stack_top kstack pml4 =
    elim (find_index (λ p. state_eq p.state empty) s.table) [
      | none ↦ (negsuc 0, s, [])
      | some slot ↦
          if kstack == 0
          then (negsuc 0, s, [])
          else if pml4 == 0
          then (negsuc 0, s, munmap kstack stack_size ∷ [])
          else (
            pos s.next_pid,
            record s {
              table =
                  set s.table slot
                    (spawned s (pcb_at s.table slot) name entry user_stack_top kstack pml4);
              next_pid = s.next_pid + 1;
            },
            [],
          )
    ]

-- The frame that `iretq` consumes, lowest address first: RIP, CS, RFLAGS, RSP, SS.
pub record IretFrame : Type 0 where
  pub rip : ℕ
  pub cs : ℕ
  pub rflags : ℕ
  pub rsp : ℕ
  pub ss : ℕ

-- `context_switch` to a user process pops 15 registers and runs `iretq` on the next five words;
-- `none` if it reads past the words that were pushed.
abbrev pub frame_of_words : List ℕ → Option IretFrame
frame_of_words (ip ∷ cs ∷ fl ∷ sp ∷ ss ∷ rest) =
    some (record { rip = ip; cs = cs; rflags = fl; rsp = sp; ss = ss })
frame_of_words ws = none

unfoldable pub enter_user : Pcb → Option IretFrame
enter_user p = frame_of_words (drop 15 p.kernel_stack)
