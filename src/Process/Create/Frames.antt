-- ===== src/Process/Create/Frames.antt =====
-- What `context_switch` of kernel/switch.asm makes of the stacks that kernel/process.c prepares for
-- a new user process.
use ovsb_mk.Base.{ℕ, ◌+◌, ◌%◌, ◌^◌, ◌≡◌, refl, List, none, some}
use ovsb_mk.Process.Types.{Pcb, Procs, push, push_zeros}
use ovsb_mk.Process.Create.{setup_user_stack, created, spawned, enter_user, user_cs, user_rflags}

-- The stack that `process_create_user` prepares holds 16 words of zero where 15 are popped: `iretq`
-- gets the address 0 as RIP and the entry point as CS, and the other words one place too early.
pub created-frame :
    (s : Procs) (p : Pcb) (name : List ℕ) (entry ustack size kstack cr3 : ℕ)
    → enter_user (created s p name entry ustack size kstack cr3)
      ≡ some (record {
        rip = 0;
        cs = entry;
        rflags = user_cs;
        rsp = user_rflags;
        ss = (ustack + size) % 2 ^ 64;
      })
unfolding enter_user created setup_user_stack
created-frame s p name entry ustack size kstack cr3 = refl

-- The stack that `proc_spawn` prepares holds 14: the entry point is popped into a register, and
-- `iretq` reads past the top of the stack.
pub spawned-frame :
    (s : Procs) (p : Pcb) (name : List ℕ) (entry top kstack pml4 : ℕ)
    → enter_user (spawned s p name entry top kstack pml4) ≡ none
unfolding enter_user spawned push push_zeros
spawned-frame s p name entry top kstack pml4 = refl
