-- ===== src/Syscall/Handler.antt =====
-- `syscall_handler` of kernel/syscall.c: the calls by their numbers. The registers are the words that
-- `syscall_isr` of kernel/idt.asm pushes: 0 is RAX, 1 RCX, 2 RDX, 3 RSI, 4 RDI and 14 R15.
pub mod Keeps
pub mod Number
pub mod Seek
use Prim.Native.Nat.{bit_and}
use ovsb_mk.Base.{
  ℕ, zero, suc, ◌+◌, ◌-◌, ◌*◌, ◌/◌, ◌%◌, List, [], ◌∷◌, ◌++◌, Bool, false, ◌||◌, not, Option, none,
  some, ◌==◌, if◌then◌else◌, ℤ, pos, negsuc,
}
use ovsb_mk.Memory.Types.{update}
use ovsb_mk.Memory.Pages.{mmap_user, munmap_user}
use ovsb_mk.Memory.Tables.{Bytes, load, save, save64, pml4_map_phys}
use ovsb_mk.Fat.Files.{fat32_delete_file}
use ovsb_mk.Fat.Tree.{fat32_mkdir, fat32_rmdir}
use ovsb_mk.Console.Printf.{Arg, console_printf}
use ovsb_mk.Keyboard.{keyboard_avail}
use ovsb_mk.Process.Types.{
  Effect, close_files, set_rsp0, switch_to, munmap, destroy_pml4, pcb_at, process_current,
}
use ovsb_mk.Process.Scheduler.{process_exit_current}
use ovsb_mk.Syscall.Types.{System, Limits, int_of, register, failure, Answer}
use ovsb_mk.Syscall.Files.{fds_cleanup, sys_open, sys_close, sys_write, sys_read}
use ovsb_mk.Syscall.Stat.{sys_fstat, sys_stat, sys_lseek, on_path}

unfoldable pub sys_mmap : System → (length : ℕ) → Answer
sys_mmap s length =
    let (addr, m) = mmap_user s.pages length in
    (elim addr [ none ↦ 0 | some a ↦ a ], record s { pages = m })

unfoldable pub sys_munmap : System → (addr length : ℕ) → Answer
sys_munmap s addr length =
    let (r, m) = munmap_user s.pages addr length in (register r, record s { pages = m })

unfoldable pub sys_gettimeofday : System → (tv : ℕ) → Answer
sys_gettimeofday s tv =
    if tv == 0
    then (0, s)
    else (0, record s { bytes = save64 (save64 s.bytes tv (s.ticks / 100)) (tv + 8) 0 })

-- The address of the framebuffer for the programs.
abbrev pub user_fb_va : ℕ
user_fb_va = 0xFFFFFFFF80000000

-- `if (p) *p = v`, for `n` bytes.
abbrev pub store_at : Bytes → (p n v : ℕ) → Bytes
store_at b p n v = if p == 0 then b else save b p n v

-- Without a current process, `cur->pml4` is undefined.
unfoldable pub sys_disp_get_fb : System → (a1 a2 a3 a4 : ℕ) → Option Answer
sys_disp_get_fb s a1 a2 a3 a4 =
    let fb = s.framebuffer in
    let size = bit_and (fb.pitch * fb.height + 0x1FFFFF) 0xFFFFFFFFFFE00000 in
    if not fb.active || not (fb.bpp == 32)
    then some (failure, s)
    else elim (process_current s.procs) [
      | none ↦ none
      | some i ↦
          (let (r, m, b) =
              pml4_map_phys s.pages s.bytes (pcb_at s.procs.table i).pml4 user_fb_va fb.addr size in
            elim r [
              | negsuc n ↦ some (failure, record s { pages = m; bytes = b })
              | ℤ.pos n ↦ some (
                0,
                record s {
                  pages = m;
                  bytes =
                      store_at
                        (store_at (store_at (store_at b a1 8 user_fb_va) a2 4 fb.width) a3 4
                          fb.height)
                        a4 4 fb.pitch;
                },
              )
            ])
    ]

-- `rep movsl`: words of 32 bits, the lowest first.
unfoldable pub copy_words : Bytes → (dst src n : ℕ) → Bytes
copy_words b dst src zero = b
copy_words b dst src (suc n) = copy_words (save b dst 4 (load b src 4)) (dst + 4) (src + 4) n

unfoldable pub sys_disp_flush : System → (backbuffer : ℕ) → Answer
sys_disp_flush s backbuffer =
    let fb = s.framebuffer in
    if not fb.active || backbuffer == 0
    then (failure, s)
    else (0, record s { bytes = copy_words s.bytes fb.addr backbuffer (fb.pitch * fb.height / 4) })

abbrev pub unknown_format : List ℕ
unknown_format =
    b's' ∷ b'y' ∷ b's' ∷ b'c' ∷ b'a' ∷ b'l' ∷ b'l' ∷ b' ' ∷ b'%' ∷ b'd' ∷ b' ' ∷ b'd' ∷ b'e' ∷ b's'
    ∷ b'c' ∷ b'o' ∷ b'n' ∷ b'h' ∷ b'e' ∷ b'c' ∷ b'i' ∷ b'd' ∷ b'a' ∷ b'~' ∷ b' ' ∷ b'b' ∷ b'a'
    ∷ b'k' ∷ b'a' ∷ b'!' ∷ b'\n' ∷ []

unfoldable pub unknown_call : System → (num : ℕ) → Option Answer
unknown_call s num = elim (console_printf s.screen unknown_format (Arg.signed (int_of num) ∷ [])) [
  | none ↦ none
  | some (screen, out) ↦ some (failure, record s { screen = screen; output = s.output ++ out })
]

abbrev pub member : ℕ → List ℕ → Bool
member n [] = false
member n (k ∷ ks) = n == k || member n ks

-- The calls that return 0 and do nothing: mprotect, getuid, geteuid, getgid, getegid, ioctl,
-- sigaction, sigreturn, and `access`, which returns 0 for every path.
abbrev pub no_effect : List ℕ
no_effect = 74 ∷ 24 ∷ 25 ∷ 47 ∷ 48 ∷ 54 ∷ 134 ∷ 173 ∷ 33 ∷ []

-- The `switch`, but for SYS_exit. The calls of memory and of the display.
unfoldable pub other_call : System → (num a1 a2 a3 a4 : ℕ) → Option Answer
other_call s num a1 a2 a3 a4 =
    if num == 197
    then some (sys_mmap s a2)
    else if num == 73
    then some (sys_munmap s a1 a2)
    else if num == 198
    then some (keyboard_avail s.keyboard, s)
    else if num == 20
    then some (s.procs.current_pid, s)
    else if num == 116
    then some (sys_gettimeofday s a1)
    else if num == 202
    then sys_disp_get_fb s a1 a2 a3 a4
    else if num == 203
    then some (sys_disp_flush s a1)
    else if member num no_effect
    then some (0, s)
    else unknown_call s num

-- The calls on files.
unfoldable pub call : Limits → System → (num a1 a2 a3 a4 : ℕ) → Option Answer
call l s num a1 a2 a3 a4 =
    if num == 4
    then sys_write l s a1 a2 a3
    else if num == 3
    then sys_read l s a1 a2 a3
    else if num == 5
    then some (sys_open s a1)
    else if num == 6
    then some (sys_close s a1)
    else if num == 189
    then sys_fstat l s a1 a2
    else if num == 199 || num == 188
    then sys_stat l s a1 a2
    else if num == 200
    then sys_lseek l s a1 a2 a3
    else if num == 10
    then on_path l s a1 (λ v name. fat32_delete_file v l.hops name)
    else if num == 136
    then on_path l s a1 (λ v name. fat32_mkdir v l.hops name)
    else if num == 137
    then on_path l s a1 (λ v name. fat32_rmdir v l.hops l.rounds name)
    else other_call s num a1 a2 a3 a4

-- SYS_exit ends the process and does not come back; any other call leaves its result in R15.
pub data Outcome : Type 0 where
  back : (regs : ℕ → ℕ) → System → Outcome
  halted : System → Outcome

-- The calls that `process_exit_current` makes of the other modules: `fds_cleanup` is one.
unfoldable pub perform : System → List Effect → System
perform s [] = s
perform s (close_files ∷ fx) = perform (fds_cleanup s) fx
perform s (set_rsp0 r ∷ fx) = perform (record s { effects = s.effects ++ (set_rsp0 r ∷ []) }) fx
perform s (switch_to i j ∷ fx) =
    perform (record s { effects = s.effects ++ (switch_to i j ∷ []) }) fx
perform s (munmap p n ∷ fx) = perform (record s { effects = s.effects ++ (munmap p n ∷ []) }) fx
perform s (destroy_pml4 p ∷ fx) =
    perform (record s { effects = s.effects ++ (destroy_pml4 p ∷ []) }) fx

unfoldable pub exit_call : System → (a1 : ℕ) → System
exit_call s a1 =
    let (p, fx) = process_exit_current s.procs (int_of a1) in perform (record s { procs = p }) fx

-- `regs[14] = ret`
unfoldable pub set_result : (regs : ℕ → ℕ) → Option Answer → Option Outcome
set_result regs none = none
set_result regs (some (ret, s)) = some (back (update regs 14 ret) s)

-- The rounds of `for (i = 0; i < count; i++)`.
abbrev at_least_0 : ℤ → ℕ
at_least_0 (ℤ.pos n) = n
at_least_0 (negsuc n) = 0

-- Where a call can store through a pointer of the program: addresses, each with a number of bytes.
unfoldable pub stores : (num a1 a2 a3 a4 : ℕ) → List (ℕ × ℕ)
stores num a1 a2 a3 a4 =
    if num == 3
    then (a2, at_least_0 (int_of a3)) ∷ []
    else if num == 189 || num == 199 || num == 188
    then (a2, 4) ∷ []
    else if num == 116
    then (a1, 16) ∷ []
    else if num == 202
    then (a1, 8) ∷ (a2, 4) ∷ (a3, 4) ∷ (a4, 4) ∷ []
    else []

-- Some of the `n` bytes from `p` on is owned.
unfoldable pub touches : (owned : ℕ → Bool) → (p n : ℕ) → Bool
touches owned p zero = false
touches owned p (suc n) = owned p || touches owned (p + 1) n

unfoldable pub any_touches : (owned : ℕ → Bool) → List (ℕ × ℕ) → Bool
any_touches owned [] = false
any_touches owned ((p, n) ∷ rest) = touches owned p n || any_touches owned rest

-- The code tests no pointer: a program can have a call store into the kernel's own data. What the
-- kernel does then is not modelled, and the handler gives `none`.
unfoldable pub syscall_handler : Limits → System → (regs : ℕ → ℕ) → Option Outcome
syscall_handler l s regs =
    let num = regs 0 in
    let a1 = regs 4 in
    let a2 = regs 3 in
    let a3 = regs 2 in
    let a4 = regs 1 in
    if num == 1
    then some (halted (exit_call s a1))
    else if any_touches (s.owned s.pages) (stores num a1 a2 a3 a4)
    then none
    else set_result regs (call l s num a1 a2 a3 a4)

-- What `int $0x80` gives to the program: `syscall_isr` takes the registers back off the stack, and
-- the result is RAX. `none` also if the call does not come back.
unfoldable pub in_rax : Option Outcome → Option Answer
in_rax none = none
in_rax (some (halted s)) = none
in_rax (some (back regs s)) = some (regs 0, s)

-- `_syscall` of userland/libc/stdlib.c, with what the other registers of the program hold.
unfoldable pub lib_syscall :
    Limits → System → (regs : ℕ → ℕ) → (num a1 a2 a3 a4 : ℕ) → Option Answer
lib_syscall l s regs num a1 a2 a3 a4 =
    let passed = update (update (update (update (update regs 0 num) 4 a1) 3 a2) 2 a3) 1 a4 in
    in_rax (syscall_handler l s passed)
