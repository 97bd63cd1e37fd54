-- ===== src/Syscall/Types.antt =====
-- The state that the calls of kernel/syscall.c work on: the table of open files, and that of the
-- parts of the kernel that they call. The memory of a program is a function from the address to the
-- byte; `owned` says which addresses hold, with the blocks that are free, what the other fields stand
-- for.
use ovsb_mk.Base.{ℕ, ◌-◌, ◌%◌, ◌^◌, List, Bool, ltb, if◌then◌else◌, ℤ, negsuc}
use ovsb_mk.Memory.Types.{Memory, update}
use ovsb_mk.Memory.Tables.{Bytes}
use ovsb_mk.Fat.Types.{Volume}
use ovsb_mk.Console.{Screen, Output}
use ovsb_mk.Keyboard.{Keyboard, Delay}
use ovsb_mk.Process.Types.{Procs, Effect}

abbrev pub max_fds : ℕ
max_fds = 16

-- An entry of `fds`. The position is a `uint32_t`.
pub record Fd : Type 0 where
  pub used : Bool
  pub name : List ℕ
  pub pos : ℕ

-- `framebuffer_t`, and whether it is active.
pub record Framebuffer : Type 0 where
  pub active : Bool
  pub addr : ℕ
  pub width : ℕ
  pub height : ℕ
  pub pitch : ℕ
  pub bpp : ℕ

pub record System : Type 0 where
  pub fds : ℕ → Fd
  pub bytes : Bytes
  -- The kernel's code, stack and static variables, and its links in the pages.
  pub owned : Memory → ℕ → Bool
  pub volume : Volume
  pub screen : Screen
  pub keyboard : Keyboard
  pub procs : Procs
  pub pages : Memory
  pub ticks : ℕ
  pub framebuffer : Framebuffer
  -- What has gone to the framebuffer and the serial port, and to the other modules.
  pub output : List Output
  pub effects : List Effect

-- What bounds the loops of a call: the clusters of a directory and of a file, the characters of a
-- string, and what happens while a reader waits.
pub record Limits : Type 0 where
  pub hops : ℕ
  pub rounds : ℕ
  pub chars : ℕ
  pub delays : List Delay

-- `(int)a` of a register, and an `int` in a register.
abbrev pub int_of : ℕ → ℤ
int_of a =
    if ltb (a % 2 ^ 32) (2 ^ 31) then ℤ.pos (a % 2 ^ 32) else negsuc (2 ^ 32 - 1 - a % 2 ^ 32)

abbrev pub register : ℤ → ℕ
register (ℤ.pos n) = n
register (negsuc n) = 2 ^ 64 - 1 - n

-- -1 in a register.
abbrev pub failure : ℕ
failure = 2 ^ 64 - 1

-- `fds[i] = f`
abbrev pub set_fd : System → (i : ℕ) → Fd → System
set_fd s i f = record s { fds = update s.fds i f }

-- The result of a call, and the state behind it.
abbrev pub Answer : Type 0
Answer = ℕ × System
