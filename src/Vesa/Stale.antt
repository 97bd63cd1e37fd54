-- ===== src/Vesa/Stale.antt =====
-- kernel/console.c on lib/gui/vesa.c: a character behind the last column of the last row.
use ovsb_mk.Base.{
  ℕ, ◌+◌, ◌*◌, ◌/◌, ◌<◌, ◌≡◌, ◌∙◌, ap, refl, arith, [], ◌∷◌, true, false, ◌==◌, ltb, leb,
}
use ovsb_mk.Console.{
  Screen, serial_putc, cell_at, render_cells, render_row, newline, put_cursor, type_char, drawn,
  console_putchar, is_printable, scrolled,
}
use ovsb_mk.Console.Bounds.{InScreen}
use ovsb_mk.Syscall.Types.{Framebuffer}
use ovsb_mk.Vesa.{Video, fb_target, stride_of, CellArray}
use ovsb_mk.Vesa.Text.{
  show_call, show_calls, show_calls-append, text_pixel, row_in_array, render_cells-shown,
}
use ovsb_mk.Vesa.Typing.{HasRoom, Shows}

-- The screen behind a character that is written behind the last column of the last row.
abbrev wrapped : Screen → ℕ → Screen
wrapped s c =
    let t = record s {
      cursor_col = 0;
      cursor_row = 44;
      scrollback = scrolled s.scrollback;
      scroll_start = 0;
    } in
    record (put_cursor t c) { cursor_col = 1 }

type_char-wrapped :
    (s : Screen) (c : ℕ)
    → is_printable c ≡ true
    → s.cursor_row ≡ 44
    → s.cursor_col ≡ 80
    → (type_char s c ≡ wrapped s c) × (drawn s (type_char s c) c ≡ render_row (wrapped s c) 44)
unfolding type_char newline drawn
type_char-wrapped s c printed last full =
    let no_line : (c == 10) ≡ false = ground (arith, printed) in
    let no_back : (c == 8) ≡ false = ground (arith, printed) in
    let wide : leb 80 s.cursor_col ≡ true = ground (arith, full) in
    let low : leb 45 (s.cursor_row + 1) ≡ true = ground (arith, last) in
    (rw (no_line, no_back, printed, wide, low) refl, rw (no_line, no_back, printed, wide, low) refl)

-- A printable character behind the last column of the last row scrolls the text by a row, and draws
-- the last row only: every pixel of the rows above stays on the screen as it was.
pub console_putchar-stale :
    (fb : Framebuffer) (v : Video) (stack : CellArray) (s : Screen) (c q p : ℕ)
    → HasRoom fb
    → InScreen s
    → Shows fb v s
    → is_printable c ≡ true
    → s.cursor_row ≡ 44
    → s.cursor_col ≡ 80
    → q < 704
    → p < 640
    → let (s', out) = console_putchar s c in
      (s'.scrollback (cell_at s' (q / 16) (p / 8)) ≡ s.scrollback (cell_at s (q / 16 + 1) (p / 8)))
      × (fb_target (show_calls v stack out) (q * stride_of fb + p) ≡ text_pixel s q p)
unfolding console_putchar show_calls show_call
console_putchar-stale fb v stack s c q p room sound shows printed last full q_lt p_lt =
    let (after, calls) = type_char-wrapped s c printed last full in
    let (kept, cells) =
      render_cells-shown v fb stack (wrapped s c) 44 0 80 q p shows.same_fb room.screen
        (omega (arith, room.wide, p_lt)) room.wide (omega (arith, room.tall)) in
    let above : (q / 16 == 44) ≡ false = ground (arith, q_lt) in
    let before = shows.pixels q p (omega (arith, q_lt)) p_lt in
    let end = show_calls v stack (render_cells (wrapped s c) 44 0 80) in
    let old : fb_target end (q * stride_of fb + p) ≡ text_pixel s q p = cells ∙ (rw above before) in
    let in_array = row_in_array (wrapped s c) 44 (omega arith) in
    let in_order = show_calls-append v stack (render_row (wrapped s c) 44) (serial_putc c ∷ []) in
    (
      ap (λ u. u.scrollback (cell_at u (q / 16) (p / 8))) after ∙ moved,
      rw (calls, in_order, in_array) old,
    )
  where
    moved :
        (wrapped s c).scrollback (cell_at (wrapped s c) (q / 16) (p / 8))
        ≡ s.scrollback (cell_at s (q / 16 + 1) (p / 8))
    moved =
        let place : q / 16 * 80 + p / 8 + 80 ≡ (s.scroll_start + (q / 16 + 1)) * 80 + p / 8 =
          omega (arith, sound.start) in
        let other : (q / 16 * 80 + p / 8 == 3520) ≡ false = ground (arith, q_lt, p_lt) in
        let within : ltb (q / 16 * 80 + p / 8) 15920 ≡ true = ground (arith, q_lt, p_lt) in
        let index : (0 + q / 16) * 80 + p / 8 ≡ q / 16 * 80 + p / 8 = omega arith in
        rw (index, other, within, place) refl
