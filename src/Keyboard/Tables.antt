-- ===== src/Keyboard/Tables.antt =====
-- The translation tables of drivers/keyboard.c: `norm`, `shf` and `ext`.
use ovsb_mk.Base.{ℕ, List, [], ◌∷◌, replicate}

-- `norm`, scancode to character with no modifier; 121 entries.
unfoldable pub norm : List ℕ
norm =
    0
    ∷ 27
    ∷ b'1'
    ∷ b'2'
    ∷ b'3'
    ∷ b'4'
    ∷ b'5'
    ∷ b'6'
    ∷ b'7'
    ∷ b'8'
    ∷ b'9'
    ∷ b'0'
    ∷ b'-'
    ∷ b'='
    ∷ 8
    ∷ 9
    ∷ b'q'
    ∷ b'w'
    ∷ b'e'
    ∷ b'r'
    ∷ b't'
    ∷ b'y'
    ∷ b'u'
    ∷ b'i'
    ∷ b'o'
    ∷ b'p'
    ∷ b'['
    ∷ b']'
    ∷ 10
    ∷ 0
    ∷ b'a'
    ∷ b's'
    ∷ b'd'
    ∷ b'f'
    ∷ b'g'
    ∷ b'h'
    ∷ b'j'
    ∷ b'k'
    ∷ b'l'
    ∷ b';'
    ∷ 39
    ∷ b'`'
    ∷ 0
    ∷ 92
    ∷ b'z'
    ∷ b'x'
    ∷ b'c'
    ∷ b'v'
    ∷ b'b'
    ∷ b'n'
    ∷ b'm'
    ∷ b','
    ∷ b'.'
    ∷ b'/'
    ∷ 0
    ∷ b'*'
    ∷ 0
    ∷ b' '
    ∷ replicate 63 0

-- `shf`, the same with shift held.
unfoldable pub shf : List ℕ
shf =
    0
    ∷ 27
    ∷ b'!'
    ∷ b'@'
    ∷ b'#'
    ∷ b'$'
    ∷ b'%'
    ∷ b'^'
    ∷ b'&'
    ∷ b'*'
    ∷ b'('
    ∷ b')'
    ∷ b'_'
    ∷ b'+'
    ∷ 8
    ∷ 9
    ∷ b'Q'
    ∷ b'W'
    ∷ b'E'
    ∷ b'R'
    ∷ b'T'
    ∷ b'Y'
    ∷ b'U'
    ∷ b'I'
    ∷ b'O'
    ∷ b'P'
    ∷ b'{'
    ∷ b'}'
    ∷ 10
    ∷ 0
    ∷ b'A'
    ∷ b'S'
    ∷ b'D'
    ∷ b'F'
    ∷ b'G'
    ∷ b'H'
    ∷ b'J'
    ∷ b'K'
    ∷ b'L'
    ∷ b':'
    ∷ 34
    ∷ b'~'
    ∷ 0
    ∷ b'|'
    ∷ b'Z'
    ∷ b'X'
    ∷ b'C'
    ∷ b'V'
    ∷ b'B'
    ∷ b'N'
    ∷ b'M'
    ∷ b'<'
    ∷ b'>'
    ∷ b'?'
    ∷ 0
    ∷ b'*'
    ∷ 0
    ∷ b' '
    ∷ replicate 63 0

-- A row of `ext`: a scancode behind the prefix 0xE0, and the escape sequence sent for it.
pub record ExtRow : Type 0 where
  pub sc : ℕ
  pub seq : List ℕ

abbrev row : ℕ → List ℕ → ExtRow
row c s = record { sc = c; seq = 27 ∷ s }

-- `ext`. The `len` of a row is the length of its sequence.
abbrev pub ext : List ExtRow
ext =
    row 0x48 (b'[' ∷ b'A' ∷ [])
    ∷ row 0x50 (b'[' ∷ b'B' ∷ [])
    ∷ row 0x4B (b'[' ∷ b'D' ∷ [])
    ∷ row 0x4D (b'[' ∷ b'C' ∷ [])
    ∷ row 0x47 (b'[' ∷ b'H' ∷ [])
    ∷ row 0x4F (b'[' ∷ b'F' ∷ [])
    ∷ row 0x49 (b'[' ∷ b'5' ∷ b'~' ∷ [])
    ∷ row 0x51 (b'[' ∷ b'6' ∷ b'~' ∷ [])
    ∷ row 0x52 (b'[' ∷ b'2' ∷ b'~' ∷ [])
    ∷ row 0x53 (b'[' ∷ b'3' ∷ b'~' ∷ [])
    ∷ row 0x3B (b'O' ∷ b'P' ∷ [])
    ∷ row 0x3C (b'O' ∷ b'Q' ∷ [])
    ∷ row 0x3D (b'O' ∷ b'R' ∷ [])
    ∷ row 0x3E (b'O' ∷ b'S' ∷ [])
    ∷ row 0x3F (b'[' ∷ b'1' ∷ b'5' ∷ b'~' ∷ [])
    ∷ row 0x40 (b'[' ∷ b'1' ∷ b'7' ∷ b'~' ∷ [])
    ∷ row 0x41 (b'[' ∷ b'1' ∷ b'8' ∷ b'~' ∷ [])
    ∷ row 0x42 (b'[' ∷ b'1' ∷ b'9' ∷ b'~' ∷ [])
    ∷ row 0x43 (b'[' ∷ b'2' ∷ b'0' ∷ b'~' ∷ [])
    ∷ row 0x44 (b'[' ∷ b'2' ∷ b'1' ∷ b'~' ∷ [])
    ∷ row 0x57 (b'[' ∷ b'2' ∷ b'3' ∷ b'~' ∷ [])
    ∷ row 0x58 (b'[' ∷ b'2' ∷ b'4' ∷ b'~' ∷ [])
    ∷ []
