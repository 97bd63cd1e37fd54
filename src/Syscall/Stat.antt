-- ===== src/Syscall/Stat.antt =====
-- kernel/syscall.c: `fstat`, `stat` and `lseek`, and the calls that change a path.
use ovsb_mk.Base.{
  ℕ, zero, ◌+◌, ◌%◌, ◌^◌, List, [], ◌∷◌, ◌++◌, map, Bool, false, ◌||◌, Option, none, some, ◌==◌,
  ltb, if◌then◌else◌, ℤ, pos, negsuc,
}
use ovsb_mk.Memory.Tables.{save}
use ovsb_mk.Fat.Types.{Volume}
use ovsb_mk.Fat.Files.{fat32_stat}
use ovsb_mk.Console.{Output, serial_putc}
use ovsb_mk.Syscall.Types.{System, Limits, int_of, failure, set_fd, Answer}
use ovsb_mk.Syscall.Files.{open_file, c_string}

-- The size of a file, and -1 as `none`.
unfoldable pub file_size : Limits → System → (name : List ℕ) → Option (Option ℕ)
file_size l s name = elim (fat32_stat s.volume l.hops name) [
  | none ↦ none
  | some none ↦ some none
  | some (some (size, attr, time, date)) ↦ some (some size)
]

-- `st->st_size = size; ret = 0`
abbrev pub store_size : System → (st size : ℕ) → Answer
store_size s st size = (0, record s { bytes = save s.bytes st 4 size })

-- `fd >= 0 && fd <= 2`
abbrev pub is_standard : ℤ → Bool
is_standard (negsuc n) = false
is_standard (ℤ.pos i) = ltb i 3

unfoldable pub fstat_standard : System → (fd : ℤ) → (st : ℕ) → Answer
fstat_standard s fd st = if is_standard fd then store_size s st 0 else (failure, s)

unfoldable pub sys_fstat : Limits → System → (a1 st : ℕ) → Option Answer
sys_fstat l s a1 st = if st == 0 then some (failure, s) else elim (open_file s a1) [
  | none ↦ some (fstat_standard s (int_of a1) st)
  | some i ↦ elim (file_size l s (s.fds i).name) [
    | none ↦ none
    | some none ↦ some (fstat_standard s (int_of a1) st)
    | some (some size) ↦ some (store_size s st size)
  ]
]

unfoldable pub sys_stat : Limits → System → (path st : ℕ) → Option Answer
sys_stat l s path st =
    if path == 0 || st == 0 then some (failure, s) else elim (c_string s.bytes path l.chars) [
      | none ↦ none
      | some name ↦ elim (file_size l s name) [
        | none ↦ none
        | some none ↦ some (failure, s)
        | some (some size) ↦ some (store_size s st size)
      ]
    ]

-- "[syscall] write chamado" and a line end, as `serial_puts` sends them.
abbrev pub seek_message : List Output
seek_message = map serial_putc (
    b'[' ∷ b's' ∷ b'y' ∷ b's' ∷ b'c' ∷ b'a' ∷ b'l' ∷ b'l' ∷ b']' ∷ b' ' ∷ b'w' ∷ b'r' ∷ b'i' ∷ b't'
    ∷ b'e' ∷ b' ' ∷ b'c' ∷ b'h' ∷ b'a' ∷ b'm' ∷ b'a' ∷ b'd' ∷ b'o' ∷ 13 ∷ 13 ∷ 10 ∷ [])

abbrev pub move_to : System → (i at : ℕ) → System
move_to s i at = set_fd s i (record (s.fds i) { pos = at % 2 ^ 32 })

-- The inner `switch` on `whence`, for the file `i`. The result of the case `default` is lost.
unfoldable pub seek : Limits → System → (i off whence : ℕ) → Option System
seek l s i off whence =
    let said = record s { output = s.output ++ seek_message } in
    if whence == 0
    then some (move_to s i off)
    else if whence == 1
    then some (move_to s i ((s.fds i).pos + off % 2 ^ 32))
    else if whence == 2
    then elim (file_size l s (s.fds i).name) [
      | none ↦ none
      | some none ↦ some said
      | some (some size) ↦ some (move_to said i (size + off % 2 ^ 32))
    ]
    else some s

unfoldable pub sys_lseek : Limits → System → (a1 off whence : ℕ) → Option Answer
sys_lseek l s a1 off whence = elim (open_file s a1) [
  | none ↦ some (failure, s)
  | some i ↦ elim (seek l s i off (whence % 2 ^ 32)) [
    | none ↦ none
    | some s' ↦ some ((s'.fds i).pos, s')
  ]
]

-- `if (f(path) == 0) ret = 0`, for a change of the volume.
unfoldable pub on_path :
    Limits → System → (path : ℕ) → (Volume → List ℕ → Option (ℤ × Volume)) → Option Answer
on_path l s path f = elim (c_string s.bytes path l.chars) [
  | none ↦ none
  | some name ↦ elim (f s.volume name) [
    | none ↦ none
    | some (pos zero, v) ↦ some (0, record s { volume = v })
    | some (r, v) ↦ some (failure, record s { volume = v })
  ]
]
