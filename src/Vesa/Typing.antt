-- ===== src/Vesa/Typing.antt =====
-- kernel/console.c on lib/gui/vesa.c: what stands on the screen while characters are written.
use ovsb_mk.Base.{
  ℕ, ◌+◌, ◌-◌, ◌*◌, ◌/◌, ◌≤◌, ◌<◌, ◌≡◌, ◌≢◌, ◌∙◌, ap, refl, arith, List, [], ◌∷◌, ◌++◌, false, ◌&&◌,
  ◌==◌, ltb, leb, if◌then◌else◌, Bool-cases, inl, inr,
}
use ovsb_mk.Console.{
  Screen, Output, serial_putc, cell_at, render_row, render_all, newline, put_cursor, type_char,
  drawn, console_putchar, console_write, is_printable,
}
use ovsb_mk.Console.Bounds.{InScreen, type_char-InScreen}
use ovsb_mk.Syscall.Types.{Framebuffer}
use ovsb_mk.Vesa.{Video, fb_target, stride_of, CellArray}
use ovsb_mk.Vesa.Rect.{IsScreen}
use ovsb_mk.Vesa.Text.{
  show_call, show_calls, show_calls-append, text_pixel, row_in_array, no_calls, render_cells-shown,
  render_rows-shown,
}

-- A buffer that has room for the text.
pub record HasRoom (fb : Framebuffer) : Type 0 where
  pub screen : IsScreen fb
  pub wide : 640 ≤ stride_of fb
  pub tall : 720 ≤ fb.height

-- Every pixel of the text has the colour that the console gives to it.
pub record Shows (fb : Framebuffer) (v : Video) (s : Screen) : Type 0 where
  pub same_fb : v.fb ≡ fb
  pub pixels : (q p : ℕ) → q < 720 → p < 640 → fb_target v (q * stride_of fb + p) ≡ text_pixel s q p

pub all-Shows :
    (fb : Framebuffer) (v : Video) (stack : CellArray) (s : Screen)
    → HasRoom fb
    → v.fb ≡ fb
    → s.scroll_start ≡ 0
    → Shows fb (show_calls v stack (render_all s)) s
all-Shows fb v stack s room e start =
    let rows = λ (q p : ℕ) (p_lt : p < 640).
      render_rows-shown v fb stack s 0 45 q p e room.screen (omega (arith, room.wide, p_lt))
        room.wide (omega (arith, room.tall)) (omega (arith, start)) in
    record {
      same_fb = (rows 0 0 (omega arith)).0;
      pixels = λ q p q_lt p_lt. (rows q p p_lt).1 ∙ inside q p q_lt p_lt _ _;
    }
  where
    inside :
        (q p : ℕ)
        → q < 720
        → p < 640
        → (text old : ℕ)
        → (if (leb 0 (q / 16) && ltb (q / 16) (0 + 45)) && ltb (p / 8) 80 then text else old) ≡ text
    inside q p q_lt p_lt text old = ground (arith, q_lt, p_lt)

-- The row `r` is drawn again, and the other rows have not changed.
row-Shows :
    (fb : Framebuffer) (v : Video) (stack : CellArray) (s s' : Screen) (r : ℕ)
    → HasRoom fb
    → Shows fb v s
    → s'.scroll_start ≡ 0
    → r < 45
    → s'.fg_color ≡ s.fg_color
    → s'.bg_color ≡ s.bg_color
    → ((i j : ℕ) → i ≢ r → j < 80 → s'.scrollback (cell_at s' i j) ≡ s.scrollback (cell_at s i j))
    → Shows fb (show_calls v stack (render_row s' r)) s'
row-Shows fb v stack s s' r room shows start r_lt fg bg others =
    let cells = λ (q p : ℕ) (p_lt : p < 640).
      render_cells-shown v fb stack s' r 0 80 q p shows.same_fb room.screen
        (omega (arith, room.wide, p_lt)) room.wide (omega (arith, room.tall, r_lt)) in
    rw (row_in_array s' r (omega (arith, start, r_lt))) (record {
      same_fb = (cells 0 0 (omega arith)).0;
      pixels =
          λ q p q_lt p_lt. (cells q p p_lt).1 ∙ redrawn q p q_lt p_lt (shows.pixels q p q_lt p_lt);
    })
  where
    redrawn :
        (q p : ℕ)
        → q < 720
        → p < 640
        → {old : ℕ} → old ≡ text_pixel s q p
        → (if (q / 16 == r) && (leb 0 (p / 8) && ltb (p / 8) (0 + 80))
            then text_pixel s' q p
            else old)
          ≡ text_pixel s' q p
    redrawn q p q_lt p_lt e = elim (Bool-cases (q / 16 == r)) [
      | inl same ↦ ground (arith, same, p_lt)
      | inr other ↦
          (let differs : q / 16 ≢ r = ground (arith, other) in
            let kept = others (q / 16) (p / 8) differs (omega (arith, p_lt)) in
            rw (other, kept, fg, bg) e)
    ]

newline-start : (s : Screen) → s.scroll_start ≡ 0 → (newline s).scroll_start ≡ 0
unfolding newline
newline-start s e = ground (arith, e)

-- Only a newline in the last row scrolls.
newline-above :
    (s : Screen)
    → s.cursor_row < 44
    → newline s ≡ (record s { cursor_col = 0; cursor_row = s.cursor_row + 1 })
unfolding newline
newline-above s lt =
    let more : leb 45 (s.cursor_row + 1) ≡ false = ground (arith, lt) in rw more refl

-- A character at the cursor, of which the row is drawn again.
put-Shows :
    (fb : Framebuffer) (v : Video) (stack : CellArray) (s t : Screen) (c col : ℕ)
    → HasRoom fb
    → Shows fb v s
    → s.scroll_start ≡ 0
    → t.scroll_start ≡ s.scroll_start
    → t.scrollback ≡ s.scrollback
    → t.fg_color ≡ s.fg_color
    → t.bg_color ≡ s.bg_color
    → t.cursor_row < 45
    → t.cursor_col < 80
    → let s' = record (put_cursor t c) { cursor_col = col } in
      Shows fb (show_calls v stack (render_row s' t.cursor_row)) s'
put-Shows fb v stack s t c col room shows start t_start cells fg bg row_lt col_lt =
    row-Shows fb v stack s (record (put_cursor t c) { cursor_col = col }) t.cursor_row room shows
      (t_start ∙ start) row_lt fg bg
      (λ i j differs j_lt.
        let apart : (cell_at t i j == cell_at t t.cursor_row t.cursor_col) ≡ false =
          ground (arith, differs, j_lt, col_lt) in
        let same : cell_at t i j ≡ cell_at s i j = omega (arith, t_start) in
        let old = ap (λ f. f (cell_at s i j)) cells in rw (apart, same) old)

drawn-Shows :
    (fb : Framebuffer) (v : Video) (stack : CellArray) (s : Screen) (c : ℕ)
    → HasRoom fb
    → InScreen s
    → Shows fb v s
    → (is_printable c && (leb 80 s.cursor_col && (s.cursor_row == 44))) ≡ false
    → Shows fb (show_calls v stack (drawn s (type_char s c) c)) (type_char s c)
unfolding type_char drawn
drawn-Shows fb v stack s c room sound shows no_wrap = elim (Bool-cases (c == 10)) [
  | inl line ↦
      let all =
        all-Shows fb v stack (newline (put_cursor s b' ')) room shows.same_fb
          (newline-start (put_cursor s b' ') sound.start) in
      rw (line, type_char, drawn) all
  | inr no_line ↦ elim (Bool-cases (c == 8)) [
    | inl back ↦ elim (Bool-cases (ltb 0 s.cursor_col)) [
      | inl some_col ↦
          let left = record s { cursor_col = s.cursor_col - 1 } in
          let put =
            put-Shows fb v stack s left b' ' left.cursor_col room shows sound.start refl refl refl
              refl sound.row (ground (arith, some_col, sound.col)) in
          rw (no_line, back, some_col, type_char, drawn) put
      | inr no_col ↦ rw (no_line, back, no_col, type_char, drawn, no_calls v stack) shows
    ]
    | inr no_back ↦ elim (Bool-cases (is_printable c)) [
      | inl shown ↦ elim (Bool-cases (leb 80 s.cursor_col)) [
        | inl full ↦
            let above : s.cursor_row < 44 = ground (arith, sound.row, no_wrap, shown, full) in
            let below = record s { cursor_col = 0; cursor_row = s.cursor_row + 1 } in
            let put =
              put-Shows fb v stack s below c 1 room shows sound.start refl refl refl refl
                (omega (arith, above)) (omega arith) in
            rw (no_line, no_back, shown, full, newline-above s above, type_char, drawn) put
        | inr within ↦
            let put =
              put-Shows fb v stack s s c (s.cursor_col + 1) room shows sound.start refl refl refl
                refl sound.row (ground (arith, within)) in
            rw (no_line, no_back, shown, within, type_char, drawn) put
      ]
      | inr dropped ↦ rw (no_line, no_back, dropped, type_char, drawn, no_calls v stack) shows
    ]
  ]
]

-- The serial port is not on the screen.
serial-Shows :
    (fb : Framebuffer) (v : Video) (stack : CellArray) (s : Screen) (os : List Output) (c : ℕ)
    → Shows fb (show_calls v stack os) s
    → Shows fb (show_calls v stack (os ++ (serial_putc c ∷ []))) s
unfolding show_calls show_call
serial-Shows fb v stack s os c shows = rw (show_calls-append v stack os (serial_putc c ∷ [])) shows

-- On a screen that shows the text of the console, with a buffer of at least 640 columns and 720 rows,
-- the calls of `console_putchar` leave a screen that shows its text, but for a printable character
-- behind the last column of the last row.
console_putchar-Shows :
    (fb : Framebuffer) (v : Video) (stack : CellArray) (s : Screen) (c : ℕ)
    → HasRoom fb
    → InScreen s
    → Shows fb v s
    → (is_printable c && (leb 80 s.cursor_col && (s.cursor_row == 44))) ≡ false
    → Shows fb (show_calls v stack (console_putchar s c).1) (console_putchar s c).0
unfolding console_putchar
console_putchar-Shows fb v stack s c room sound shows no_wrap =
    serial-Shows fb v stack (type_char s c) (drawn s (type_char s c) c) c
      (drawn-Shows fb v stack s c room sound shows no_wrap)

-- No character is printed behind the last column of the last row.
abbrev pub StaysAbove : Screen → List ℕ → Type 0
StaysAbove s [] = Unit {0}
StaysAbove s (c ∷ cs) =
    ((is_printable c && (leb 80 s.cursor_col && (s.cursor_row == 44))) ≡ false)
    × StaysAbove (type_char s c) cs

-- Where the screen shows the text of the console, with a buffer of at least 640 columns and 720 rows,
-- and `console_write` prints no character behind the last column of the last row, its calls leave a
-- screen that shows the text of the console.
pub console_write-Shows :
    (fb : Framebuffer) (v : Video) (stack : CellArray) (s : Screen) (cs : List ℕ)
    → HasRoom fb
    → InScreen s
    → Shows fb v s
    → StaysAbove s cs
    → Shows fb (show_calls v stack (console_write s cs).1) (console_write s cs).0
unfolding console_write console_putchar
console_write-Shows fb v stack s [] room sound shows above = rw (no_calls v stack) shows
console_write-Shows fb v stack s (c ∷ cs) room sound shows (here, above) =
    let out = (console_putchar s c).1 in
    let first = console_putchar-Shows fb v stack s c room sound shows here in
    let rest =
      console_write-Shows fb (show_calls v stack out) stack (type_char s c) cs room
        (type_char-InScreen s c sound).0 first above in
    rw (show_calls-append v stack out (console_write (type_char s c) cs).1) rest
