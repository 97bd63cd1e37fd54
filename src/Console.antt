-- ===== src/Console.antt =====
-- kernel/console.c: the text screen. The array `scrollback` is the function from the offset of a
-- cell to its character, since the code's index can leave a row; the framebuffer and the serial
-- port get the calls that a function returns in their order. A `char` is its byte: those from 128 on
-- are negative.
pub mod Bounds
mod Text
mod Tests
pub mod Printf
use ovsb_mk.Base.{
  ℕ, zero, suc, ◌+◌, ◌-◌, ◌*◌, ◌≤◌, List, [], ◌∷◌, ◌++◌, Bool, ◌&&◌, ◌==◌, ltb, leb, if◌then◌else◌,
}

abbrev pub console_cols : ℕ
console_cols = 80

abbrev pub console_rows : ℕ
console_rows = 45

abbrev pub scrollback_rows : ℕ
scrollback_rows = 200

-- The cells of the array.
abbrev pub cell_count : ℕ
cell_count = 16000

abbrev col_w : ℕ
col_w = 8

abbrev row_h : ℕ
row_h = 16

pub record Screen : Type 0 where
  pub scrollback : ℕ → ℕ
  pub cursor_row : ℕ
  pub cursor_col : ℕ
  pub scroll_start : ℕ
  pub fg_color : ℕ
  pub bg_color : ℕ
  pub cursor_visible : ℕ
  pub scr_w : ℕ
  pub scr_h : ℕ

-- The calls of lib/gui/vesa.c and kernel/serial.c.
pub data Output : Type 0 where
  draw_cell : (x y c fg bg : ℕ) → Output
  fill_screen : ℕ → Output
  serial_putc : ℕ → Output

-- All cells of the array become spaces.
abbrev pub blank : (ℕ → ℕ) → ℕ → ℕ
blank cells i = if ltb i cell_count then b' ' else cells i

abbrev pub put : (ℕ → ℕ) → (at c : ℕ) → ℕ → ℕ
put cells at c i = if i == at then c else cells i

-- With the size of the framebuffer.
unfoldable pub console_init : Screen → (width height : ℕ) → Screen × List Output
console_init s width height = (
  record s {
    scr_w = width;
    scr_h = height;
    scrollback = blank s.scrollback;
    cursor_row = 0;
    cursor_col = 0;
    scroll_start = 0;
  },
  fill_screen s.bg_color ∷ [],
)

abbrev pub console_set_fg : Screen → ℕ → Screen
console_set_fg s color = record s { fg_color = color }

abbrev pub console_set_bg : Screen → ℕ → Screen
console_set_bg s color = record s { bg_color = color }

-- Every row moves up by one, and the last one of the array is cleared.
abbrev pub scrolled : (ℕ → ℕ) → ℕ → ℕ
scrolled cells i =
    if ltb i ((scrollback_rows - 1) * console_cols)
    then cells (i + console_cols)
    else if ltb i cell_count
    then b' '
    else cells i

unfoldable pub newline : Screen → Screen
newline s =
    if leb console_rows (s.cursor_row + 1)
    then record s {
      cursor_col = 0;
      cursor_row = console_rows - 1;
      scrollback = scrolled s.scrollback;
      scroll_start = 0;
    }
    else record s { cursor_col = 0; cursor_row = s.cursor_row + 1 }

abbrev pub abs_row : Screen → ℕ → ℕ
abs_row s r = s.scroll_start + r

-- The offset of `scrollback[abs_row(r)][c]`.
abbrev pub cell_at : Screen → (r c : ℕ) → ℕ
cell_at s r c = abs_row s r * console_cols + c

-- `n` cells of the row `r` from the column `c` on.
unfoldable pub render_cells : Screen → (r c n : ℕ) → List Output
render_cells s r c zero = []
render_cells s r c (suc n) =
    draw_cell (c * col_w) (r * row_h) (s.scrollback (cell_at s r c)) s.fg_color s.bg_color
    ∷ render_cells s r (c + 1) n

unfoldable pub render_row : Screen → ℕ → List Output
render_row s r = if leb scrollback_rows (abs_row s r) then [] else render_cells s r 0 console_cols

-- `n` rows from the row `r` on.
unfoldable pub render_rows : Screen → (r n : ℕ) → List Output
render_rows s r zero = []
render_rows s r (suc n) = render_row s r ++ render_rows s (r + 1) n

abbrev pub render_all : Screen → List Output
render_all s = render_rows s 0 console_rows

unfoldable pub console_clear : Screen → Screen × List Output
console_clear s = (
  record s { scrollback = blank s.scrollback; cursor_row = 0; cursor_col = 0; scroll_start = 0 },
  fill_screen s.bg_color ∷ [],
)

-- A character at the cursor.
abbrev pub put_cursor : Screen → ℕ → Screen
put_cursor s c = record s { scrollback = put s.scrollback (cell_at s s.cursor_row s.cursor_col) c }

-- `c >= ' '` for a `char`.
abbrev pub is_printable : ℕ → Bool
is_printable c = leb b' ' c && ltb c 128

-- `console_putchar` on the screen.
unfoldable pub type_char : Screen → ℕ → Screen
type_char s c =
    if c == 10
    then newline (put_cursor s b' ')
    else if c == 8
    then (if ltb 0 s.cursor_col
        then put_cursor (record s { cursor_col = s.cursor_col - 1 }) b' '
        else s)
    else if is_printable c
    then (let s' = put_cursor (if leb console_cols s.cursor_col then newline s else s) c in
        record s' { cursor_col = s'.cursor_col + 1 })
    else s

-- What it draws, from the screen behind it.
unfoldable pub drawn : (before after : Screen) → ℕ → List Output
drawn before after c =
    if c == 10
    then render_all after
    else if c == 8
    then (if ltb 0 before.cursor_col then render_row after after.cursor_row else [])
    else if is_printable c
    then render_row after after.cursor_row
    else []

unfoldable pub console_putchar : Screen → ℕ → Screen × List Output
console_putchar s c = (type_char s c, drawn s (type_char s c) c ++ (serial_putc c ∷ []))

unfoldable pub console_write : Screen → List ℕ → Screen × List Output
console_write s [] = (s, [])
console_write s (c ∷ cs) =
    let (s', out) = console_putchar s c in
    let (s'', more) = console_write s' cs in (s'', out ++ more)

abbrev pub console_show_cursor : Screen → ℕ → Screen
console_show_cursor s show = record s { cursor_visible = show }
