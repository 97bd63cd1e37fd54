-- ===== src/Vesa/Tests.antt =====
-- lib/gui/vesa.c and kernel/console.c on a screen of 1024 columns and 768 rows.
use ovsb_mk.Base.{
  ℕ, List, ◌+◌, ◌*◌, ◌/◌, ◌<◌, ◌≡◌, refl, arith, [], ◌∷◌, Bool, true, false, some, ◌&&◌, ltb,
  if◌then◌else◌, pos, negsuc,
}
use ovsb_mk.Console.{
  Screen, console_clear, console_putchar, console_write, type_char, newline, cell_at, render_all,
}
use ovsb_mk.Console.Bounds.{InScreen}
use ovsb_mk.Syscall.Types.{Framebuffer}
use ovsb_mk.Vesa.{Video, fb_target, CellArray, vesa_draw_rect, vesa_flush, glyph_row}
use ovsb_mk.Vesa.Font.{font8x8}
use ovsb_mk.Vesa.Rect.{IsScreen, vesa_draw_rect-clipped}
use ovsb_mk.Vesa.Text.{show_calls, text_pixel}
use ovsb_mk.Vesa.Typing.{HasRoom, Shows, all-Shows, console_write-Shows}
use ovsb_mk.Vesa.Stale.{console_putchar-stale}
use ovsb_mk.Vesa.Fill.{console_clear-Shows}
use ovsb_mk.Vesa.Flush.{vesa_flush-doubles}

abbrev xga : Framebuffer
xga = record {
  active = true;
  addr = 0xE0000000;
  width = 1024;
  height = 768;
  pitch = 4096;
  bpp = 32;
}

xga-IsScreen : IsScreen xga
xga-IsScreen = record {
  shown = refl;
  narrow = omega arith;
  low = omega arith;
  rows = omega arith;
  fits = omega arith;
  row_fits = omega arith;
}

xga-HasRoom : HasRoom xga
xga-HasRoom = record { screen = xga-IsScreen; wide = omega arith; tall = omega arith }

abbrev dark : Video
dark = record { fb = xga; has_back = false; screen = λ j. 0; back = λ j. 0 }

abbrev stack : CellArray
stack i j = 0

-- A rectangle that begins to the left of the screen and ends below it.
vesa_draw_rect-clipped_example :
    (v' : Video) × (vesa_draw_rect dark (negsuc 3) (pos 760) (pos 10) (pos 20) 7 ≡ some v')
    × (fb_target v' (765 * 1024 + 2) ≡ 7)
unfolding ovsb_mk.Base.Ints.◌+ℤ◌
vesa_draw_rect-clipped_example =
    vesa_draw_rect-clipped dark (negsuc 3) (pos 760) (pos 10) (pos 20) 7 765 2 xga-IsScreen refl
      refl (omega arith)

abbrev start : Screen
start = record {
  scrollback = λ i. b'x';
  cursor_row = 3;
  cursor_col = 5;
  scroll_start = 0;
  fg_color = 1;
  bg_color = 2;
  cursor_visible = 0;
  scr_w = 1024;
  scr_h = 768;
}

console_clear-Shows_example :
    Shows xga (show_calls dark stack (console_clear start).1) (console_clear start).0
console_clear-Shows_example =
    console_clear-Shows dark stack start xga-HasRoom (omega arith) (omega arith)

start-InScreen : InScreen start
start-InScreen = record { row = omega arith; col = omega arith; start = refl }

start-Shows : Shows xga (show_calls dark stack (render_all start)) start
start-Shows = all-Shows xga dark stack start xga-HasRoom refl refl

abbrev ok_line : List ℕ
ok_line = b'o' ∷ b'k' ∷ b'\n' ∷ []

console_write-Shows_example :
    Shows xga
      (show_calls (show_calls dark stack (render_all start)) stack (console_write start ok_line).1)
      (console_write start ok_line).0
unfolding type_char newline
console_write-Shows_example =
    console_write-Shows xga (show_calls dark stack (render_all start)) stack start ok_line
      xga-HasRoom start-InScreen start-Shows (refl, (refl, (refl, tt)))

-- Behind the last column of the last row.
abbrev corner : Screen
corner = record start { cursor_row = 44; cursor_col = 80 }

corner-InScreen : InScreen corner
corner-InScreen = record { row = omega arith; col = omega arith; start = refl }

corner-Shows : Shows xga (show_calls dark stack (render_all corner)) corner
corner-Shows = all-Shows xga dark stack corner xga-HasRoom refl refl

console_putchar-stale_example :
    let (s', out) = console_putchar corner b'A' in
    (s'.scrollback (cell_at s' (40 / 16) (24 / 8))
      ≡ corner.scrollback (cell_at corner (40 / 16 + 1) (24 / 8)))
    × (fb_target (show_calls (show_calls dark stack (render_all corner)) stack out) (40 * 1024 + 24)
        ≡ text_pixel corner 40 24)
console_putchar-stale_example =
    console_putchar-stale xga (show_calls dark stack (render_all corner)) stack corner b'A' 40 24
      xga-HasRoom corner-InScreen corner-Shows refl refl refl (omega arith) (omega arith)

abbrev buffered : Video
buffered = record { fb = xga; has_back = true; screen = λ j. 0; back = λ j. j }

-- The pixel behind the last one of the screen.
vesa_flush-doubles_example : (vesa_flush buffered).screen 786432 ≡ 786432
vesa_flush-doubles_example = vesa_flush-doubles buffered 786432 refl refl

-- The first column of the letter A has no pixel in its first row, the third has one.
letter-row : glyph_row b'A' 0 ≡ 0x0C
unfolding font8x8
letter-row = refl
