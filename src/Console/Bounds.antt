-- ===== src/Console/Bounds.antt =====
-- The cursor of kernel/console.c and the cells that it writes.
use ovsb_mk.Base.{
  ℕ, ◌+◌, ◌-◌, ◌*◌, ◌≤◌, ◌<◌, ◌≡◌, ◌∙◌, inl, inr, refl, List, [], ◌∷◌, false, arith, ◌==◌, ltb, leb,
  if◌then◌else◌, Bool-cases,
}
use ovsb_mk.Console.{
  Screen, newline, type_char, console_putchar, console_write, is_printable, put_cursor,
}

-- The cursor is on the screen, or behind the last column.
pub record InScreen (s : Screen) : Type 0 where
  pub row : s.cursor_row < 45
  pub col : s.cursor_col ≤ 80
  pub start : s.scroll_start ≡ 0

-- Nothing behind the array changes.
abbrev pub Within : (s t : Screen) → Type 0
Within s t = (i : ℕ) → 16000 ≤ i → t.scrollback i ≡ s.scrollback i

newline-InScreen : (s : Screen) → InScreen s → InScreen (newline s) × Within s (newline s)
unfolding newline
newline-InScreen s v = elim (Bool-cases (leb 45 (s.cursor_row + 1))) [
  | inl last ↦
      rw last (
        record { row = omega arith; col = omega arith; start = refl },
        λ i far. ground (arith, far),
      )
  | inr more ↦
      rw more
        (record { row = ground (arith, more); col = omega arith; start = v.start }, λ i far. refl)
]

-- A write at the cursor.
pub put_cursor-InScreen :
    (s : Screen) (c : ℕ) → InScreen s → InScreen (put_cursor s c) × Within s (put_cursor s c)
put_cursor-InScreen s c v = (
  record { row = v.row; col = v.col; start = v.start },
  λ i far.
      let apart : (i == (s.scroll_start + s.cursor_row) * 80 + s.cursor_col) ≡ false =
        ground (arith, v.row, v.col, v.start, far) in
      rw apart refl,
)

-- A full row is left before a character is written.
abbrev pub with_room : Screen → Screen
with_room s = if leb 80 s.cursor_col then newline s else s

newline_col : (s : Screen) → (newline s).cursor_col ≡ 0
unfolding newline
newline_col s = elim (Bool-cases (leb 45 (s.cursor_row + 1))) [
  | inl e ↦ rw e refl
  | inr e ↦ rw e refl
]

pub with_room-InScreen :
    (s : Screen)
    → InScreen s
    → InScreen (with_room s) × ((with_room s).cursor_col < 80) × Within s (with_room s)
with_room-InScreen s v = elim (Bool-cases (leb 80 s.cursor_col)) [
  | inl full ↦
      let (sound, kept) = newline-InScreen s v in
      rw full (sound, omega (arith, newline_col s), kept)
  | inr room ↦ rw room (v, ground (arith, room), λ i far. refl)
]

pub type_char-InScreen :
    (s : Screen) (c : ℕ) → InScreen s → InScreen (type_char s c) × Within s (type_char s c)
unfolding type_char
type_char-InScreen s c v = elim (Bool-cases (c == 10)) [
  | inl line ↦
      let (sound, kept) = put_cursor-InScreen s b' ' v in
      let (sound', kept') = newline-InScreen (put_cursor s b' ') sound in
      rw (line, type_char) (sound', λ i far. kept' i far ∙ kept i far)
  | inr no_line ↦ elim (Bool-cases (c == 8)) [
    | inl back ↦ elim (Bool-cases (ltb 0 s.cursor_col)) [
      | inl some_col ↦
          let left = record s { cursor_col = s.cursor_col - 1 } in
          let (sound, kept) =
            put_cursor-InScreen left b' '
              (record { row = v.row; col = omega (arith, v.col); start = v.start }) in
          rw (no_line, back, some_col, type_char) (sound, kept)
      | inr no_col ↦ rw (no_line, back, no_col, type_char) (v, λ i far. refl)
    ]
    | inr no_back ↦ elim (Bool-cases (is_printable c)) [
      | inl shown ↦
          let (sound, room, kept) = with_room-InScreen s v in
          let (sound', kept') = put_cursor-InScreen (with_room s) c sound in
          rw (no_line, no_back, shown, type_char)
            (
              record { row = sound'.row; col = omega (arith, room); start = sound'.start },
              λ i far. kept' i far ∙ kept i far,
            )
      | inr dropped ↦ rw (no_line, no_back, dropped, type_char) (v, λ i far. refl)
    ]
  ]
]

-- Whatever is written to the console, the cursor stays within the 45 rows and the 80 columns or just
-- behind the last column, and no cell behind the array is written.
pub console_write-InScreen :
    (s : Screen) (cs : List ℕ)
    → InScreen s
    → InScreen (console_write s cs).0 × Within s (console_write s cs).0
unfolding console_write console_putchar
console_write-InScreen s [] v = (v, λ i far. refl)
console_write-InScreen s (c ∷ cs) v =
    let (sound, kept) = type_char-InScreen s c v in
    let (sound', kept') = console_write-InScreen (type_char s c) cs sound in
    (sound', λ i far. kept' i far ∙ kept i far)
