-- ===== src/Syscall/Files.antt =====
-- The calls of kernel/syscall.c on files and descriptors. `none` is a loop that does not end within
-- its limit, or what C leaves undefined.
pub mod Table
pub mod Reads
use ovsb_mk.Base.{
  ℕ, zero, suc, ◌+◌, ◌-◌, ◌*◌, ◌/◌, ◌%◌, ◌^◌, List, [], ◌∷◌, ◌++◌, map, Bool, true, false, ◌&&◌,
  ◌||◌, not, Option, none, some, ◌==◌, ltb, leb, if◌then◌else◌, take, drop, length, ℤ, pos, negsuc,
}
use ovsb_mk.Memory.Types.{update}
use ovsb_mk.Memory.Tables.{Bytes}
use ovsb_mk.Fat.Types.{bytes_from, put_bytes}
use ovsb_mk.Fat.Chain.{failed, got}
use ovsb_mk.Fat.Files.{fat32_read_file, fat32_write_file}
use ovsb_mk.Console.{console_write}
use ovsb_mk.Keyboard.{Keyboard, Delay, interrupts, keyboard_read, keyboard_avail}
use ovsb_mk.Syscall.Types.{Fd, System, Limits, int_of, register, failure, set_fd, Answer, max_fds}

-- `syscall_init`
unfoldable pub syscall_init : System → System
syscall_init s = record s {
  fds = λ i. if ltb i max_fds then record (s.fds i) { used = false } else s.fds i;
}

-- `fds_cleanup`: the first three entries stay.
unfoldable pub fds_cleanup : System → System
fds_cleanup s = record s {
  fds = λ i. if leb 3 i && ltb i max_fds then record (s.fds i) { used = false } else s.fds i;
}

-- The loop of `alloc_fd` from the entry `i` on, with `n` entries to go.
unfoldable pub first_unused : (ℕ → Fd) → (i n : ℕ) → Option ℕ
first_unused fds i zero = none
first_unused fds i (suc n) =
    let rest = first_unused fds (i + 1) n in if (fds i).used then rest else some i

-- -1 is `none`.
unfoldable pub alloc_fd : System → Option ℕ
alloc_fd s = first_unused s.fds 3 (max_fds - 3)

-- `fd >= 3 && fd < MAX_FDS && fds[fd].used`
unfoldable pub file_at : (ℕ → Fd) → (fd : ℤ) → Option ℕ
file_at fds (negsuc n) = none
file_at fds (ℤ.pos i) = if leb 3 i && ltb i max_fds && (fds i).used then some i else none

-- For the `int` in a register.
unfoldable pub open_file : System → (a1 : ℕ) → Option ℕ
open_file s a1 = file_at s.fds (int_of a1)

unfoldable pub close_fd : System → (fd : ℤ) → System
close_fd s (negsuc n) = s
close_fd s (ℤ.pos i) =
    if leb 3 i && ltb i max_fds then set_fd s i (record (s.fds i) { used = false }) else s

-- `str_equal` of the string at an address with a literal that has no zero.
unfoldable pub matches : Bytes → (at : ℕ) → List ℕ → Bool
matches b at [] = b at == 0
matches b at (c ∷ cs) = b at == c && matches b (at + 1) cs

unfoldable pub str_equal : Bytes → (at : ℕ) → List ℕ → Bool
str_equal b at text = not (at == 0) && matches b at text

abbrev pub dev_tty : List ℕ
dev_tty = b'/' ∷ b'd' ∷ b'e' ∷ b'v' ∷ b'/' ∷ b't' ∷ b't' ∷ b'y' ∷ []

abbrev pub dev_std : List ℕ
dev_std = b'/' ∷ b'd' ∷ b'e' ∷ b'v' ∷ b'/' ∷ b's' ∷ b't' ∷ b'd' ∷ []

abbrev pub dev_stdin : List ℕ
dev_stdin = dev_std ++ (b'i' ∷ b'n' ∷ [])

abbrev pub dev_stdout : List ℕ
dev_stdout = dev_std ++ (b'o' ∷ b'u' ∷ b't' ∷ [])

abbrev pub dev_stderr : List ℕ
dev_stderr = dev_std ++ (b'e' ∷ b'r' ∷ b'r' ∷ [])

-- The string at an address; `none` if no zero comes within `n` characters.
unfoldable pub c_string : Bytes → (at n : ℕ) → Option (List ℕ)
c_string b at zero = none
c_string b at (suc n) = elim (b at == 0) [
  | true ↦ some []
  | false ↦ elim (c_string b (at + 1) n) [ none ↦ none | some cs ↦ some (b at ∷ cs) ]
]

-- `while (path[i] && i < 255)`, with `n` characters to go.
unfoldable pub path_name : Bytes → (at n : ℕ) → List ℕ
path_name b at zero = []
path_name b at (suc n) = let rest = path_name b (at + 1) n in if b at == 0 then [] else b at ∷ rest

-- A descriptor for a file. The file is looked for when it is read or written.
unfoldable pub open_path : System → (path : ℕ) → Option ℕ → Answer
open_path s path none = (failure, s)
open_path s path (some i) =
    (i, set_fd s i (record { used = true; name = path_name s.bytes path 255; pos = 0 }))

unfoldable pub sys_open : System → (path : ℕ) → Answer
sys_open s path =
    if str_equal s.bytes path dev_tty || str_equal s.bytes path dev_stdin
    then (0, s)
    else if str_equal s.bytes path dev_stdout
    then (1, s)
    else if str_equal s.bytes path dev_stderr
    then (2, s)
    else open_path s path (alloc_fd s)

unfoldable pub sys_close : System → (a1 : ℕ) → Answer
sys_close s a1 = (0, close_fd s (int_of a1))

-- `(r >= 0) ? count : -1`
abbrev pub count_or_failure : ℤ → ℕ → ℕ
count_or_failure (ℤ.pos r) count = count
count_or_failure (negsuc r) count = failure

-- The bytes replace the contents of the file. A negative `count`, 2 GB and more, is left out.
unfoldable pub write_file : Limits → System → (i buf : ℕ) → (count : ℤ) → Option Answer
write_file l s i buf (negsuc n) = none
write_file l s i buf (ℤ.pos n) =
    elim (fat32_write_file s.volume l.hops l.rounds (s.fds i).name (bytes_from s.bytes buf n)) [
      | none ↦ none
      | some (r, v) ↦ some (count_or_failure r n, record s { volume = v })
    ]

-- A negative `count` writes nothing and is returned.
unfoldable pub write_console : System → (buf : ℕ) → (count : ℤ) → Answer
write_console s buf (negsuc n) = (register (negsuc n), s)
write_console s buf (ℤ.pos n) =
    let (screen, out) = console_write s.screen (bytes_from s.bytes buf n) in
    (n, record s { screen = screen; output = s.output ++ out })

-- `fd == 1 || fd == 2`
abbrev pub is_screen : ℤ → Bool
is_screen (negsuc n) = false
is_screen (ℤ.pos i) = i == 1 || i == 2

unfoldable pub sys_write : Limits → System → (a1 a2 a3 : ℕ) → Option Answer
sys_write l s a1 a2 a3 = elim (open_file s a1) [
  | some i ↦ write_file l s i a2 (int_of a3)
  | none ↦ some (if is_screen (int_of a1) then write_console s a2 (int_of a3) else (failure, s))
]

-- `while (!keyboard_avail())`, against the delays to come.
unfoldable pub wait_key : (now : ℕ) → Keyboard → List Delay → Option (ℕ × Keyboard × List Delay)
wait_key now k [] = if keyboard_avail k == 0 then none else some (now, k, [])
wait_key now k (d ∷ ds) =
    let later = wait_key d.ticks (interrupts d.ticks k d.scancodes) ds in
    if keyboard_avail k == 0 then later else some (now, k, d ∷ ds)

-- The loop over the characters: the index is `i`, with `n` to go.
unfoldable pub read_keys :
    (now : ℕ) → Keyboard → List Delay → Bytes → (buf i n : ℕ) → Option (ℕ × ℕ × Keyboard × Bytes)
read_keys now k ds b buf i zero = some (i, now, k, b)
read_keys now k ds b buf i (suc n) = elim (wait_key now k ds) [
  | none ↦ none
  | some (now', k', ds') ↦ elim (keyboard_read now' k' []) [
    | none ↦ none
    | some (c, k'') ↦
        (let b' = update b (buf + i) c in
          let more = read_keys now' k'' ds' b' buf (i + 1) n in
          if c == b'\n'
          then some (i + 1, now', k'', b')
          else if c == 3
          then some (i, now', k'', b')
          else more)
  ]
]

unfoldable pub read_keyboard : Limits → System → (buf n : ℕ) → Option Answer
read_keyboard l s buf n = elim (read_keys s.ticks s.keyboard l.delays s.bytes buf 0 n) [
  | none ↦ none
  | some (i, now, k, b) ↦ some (i, record s { ticks = now; keyboard = k; bytes = b })
]

abbrev pub least_of : ℕ → ℕ → ℕ
least_of a b = if ltb a b then a else b

-- The part of a file's first 4096 bytes from the position on. A position from 2 ^ 31 on is a negative
-- `int`, and a read from there is one outside `tmp`.
unfoldable pub read_part : System → (i buf : ℕ) → (count : ℤ) → (contents : List ℕ) → Option Answer
read_part s i buf (negsuc n) contents = some (0, s)
read_part s i buf (ℤ.pos n) contents =
    let f = s.fds i in
    let m = least_of n (length contents - f.pos) in
    if leb (2 ^ 31) f.pos
    then if n == 0 then some (0, s) else none
    else if ltb (length contents) f.pos
    then some (0, s)
    else some (
      m,
      record (set_fd s i (record f { pos = (f.pos + m) % 2 ^ 32 })) {
        bytes = put_bytes s.bytes buf (take m (drop f.pos contents));
      },
    )

unfoldable pub read_file : Limits → System → (i buf : ℕ) → (count : ℤ) → Option Answer
read_file l s i buf count = elim (fat32_read_file s.volume l.hops l.rounds (s.fds i).name 4096) [
  | none ↦ none
  | some failed ↦ some (failure, s)
  | some (got contents) ↦ read_part s i buf count contents
]

-- `fd == 0 && buf && count > 0`, with the count.
abbrev pub keys_wanted : (fd : ℤ) → (buf : ℕ) → (count : ℤ) → Option ℕ
keys_wanted (ℤ.pos zero) buf (ℤ.pos (suc n)) = if buf == 0 then none else some (suc n)
keys_wanted fd buf count = none

unfoldable pub sys_read : Limits → System → (a1 a2 a3 : ℕ) → Option Answer
sys_read l s a1 a2 a3 = elim (keys_wanted (int_of a1) a2 (int_of a3)) [
  | some n ↦ read_keyboard l s a2 n
  | none ↦ elim (open_file s a1) [
    | none ↦ some (failure, s)
    | some i ↦ read_file l s i a2 (int_of a3)
  ]
]
