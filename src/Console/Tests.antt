-- ===== src/Console/Tests.antt =====
-- kernel/console.c on a screen of spaces, with the cursor near the end of the last row.
use ovsb_mk.Base.{ℕ, refl, List, [], ◌∷◌, arith}
use ovsb_mk.Console.{Screen, console_write}
use ovsb_mk.Console.Bounds.{InScreen, Within, console_write-InScreen}

abbrev screen : Screen
screen = record {
  scrollback = λ i. b' ';
  cursor_row = 44;
  cursor_col = 78;
  scroll_start = 0;
  fg_color = 0xFFC0C0C0;
  bg_color = 0xFF0A0A1A;
  cursor_visible = 1;
  scr_w = 1024;
  scr_h = 768;
}

screen-InScreen : InScreen screen
screen-InScreen = record { row = omega arith; col = omega arith; start = refl }

abbrev four : List ℕ
four = b'a' ∷ b'b' ∷ b'c' ∷ 10 ∷ []

console_write-InScreen_example :
    InScreen (console_write screen four).0 × Within screen (console_write screen four).0
console_write-InScreen_example = console_write-InScreen screen four screen-InScreen
