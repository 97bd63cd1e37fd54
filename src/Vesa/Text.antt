-- ===== src/Vesa/Text.antt =====
-- kernel/console.c on lib/gui/vesa.c: the calls of the console drawn on the screen.
use mathlib.Core.Path.{subst}
use ovsb_mk.Base.{
  ℕ, zero, suc, ◌+◌, ◌-◌, ◌*◌, ◌/◌, ◌%◌, ◌≤◌, ◌<◌, ◌≡◌, ◌∙◌, refl, arith, List, [], ◌∷◌, ◌++◌, true,
  false, ◌&&◌, ◌==◌, ltb, if◌then◌else◌, pos, Bool-cases, inl, inr,
}
use ovsb_mk.Console.{
  Screen, Output, draw_cell, fill_screen, serial_putc, cell_at, abs_row, render_cells, render_row,
  render_rows, render_all,
}
use ovsb_mk.Syscall.Types.{Framebuffer}
use ovsb_mk.Vesa.{Video, fb_target, stride_of, CellArray, vesa_draw_cell, vesa_fill_screen}
use ovsb_mk.Vesa.Rect.{IsScreen, between}
use ovsb_mk.Vesa.Glyph.{cell_pixel}
use ovsb_mk.Vesa.Cell.{vesa_draw_cell-pixels}

-- A call of the console; the serial port is not on the screen.
unfoldable pub show_call : Video → (stack : CellArray) → Output → Video
show_call v stack (draw_cell x y c fg bg) = vesa_draw_cell v (pos x) (pos y) c fg bg stack
show_call v stack (fill_screen color) = vesa_fill_screen v color
show_call v stack (serial_putc c) = v

unfoldable pub show_calls : Video → (stack : CellArray) → List Output → Video
show_calls v stack [] = v
show_calls v stack (o ∷ os) = show_calls (show_call v stack o) stack os

pub show_calls-append :
    (v : Video) (stack : CellArray) (os ps : List Output)
    → show_calls v stack (os ++ ps) ≡ show_calls (show_calls v stack os) stack ps
unfolding show_calls
show_calls-append v stack [] ps = refl
show_calls-append v stack (o ∷ os) ps = show_calls-append (show_call v stack o) stack os ps

-- The colour that the text of the console gives to the pixel `p` of the row `q`.
abbrev pub text_pixel : Screen → (q p : ℕ) → ℕ
text_pixel s q p =
    cell_pixel (s.scrollback (cell_at s (q / 16) (p / 8))) s.fg_color s.bg_color (q % 16) (p % 8)

draw_cell-fb :
    (v : Video) (x y c fg bg : ℕ) (stack : CellArray)
    → (vesa_draw_cell v (pos x) (pos y) c fg bg stack).fb ≡ v.fb
unfolding vesa_draw_cell
draw_cell-fb v x y c fg bg stack = ground arith

-- A cell of the console.
show_cell :
    (v : Video) (fb : Framebuffer) (stack : CellArray) (s : Screen) (r c q p : ℕ)
    → v.fb ≡ fb
    → IsScreen fb
    → p < stride_of fb
    → c * 8 + 8 ≤ stride_of fb
    → r * 16 + 16 ≤ fb.height
    → fb_target
        (vesa_draw_cell v
          (pos (c * 8))
          (pos (r * 16))
          (s.scrollback (cell_at s r c))
          s.fg_color
          s.bg_color
          stack)
        (q * stride_of fb + p)
      ≡ (if (q / 16 == r) && (p / 8 == c)
          then text_pixel s q p
          else fb_target v (q * stride_of fb + p))
show_cell v fb stack s r c q p e screen p_lt right bottom =
    at_fb ∙ in_cell (fb_target v (q * stride_of fb + p))
  where
    ch : ℕ
    ch = s.scrollback (cell_at s r c)

    DrawnOn : Framebuffer → Type 0
    DrawnOn f =
        IsScreen f
        → p < stride_of f
        → c * 8 + 8 ≤ stride_of f
        → r * 16 + 16 ≤ f.height
        → fb_target (vesa_draw_cell v (pos (c * 8)) (pos (r * 16)) ch s.fg_color s.bg_color stack)
            (q * stride_of f + p)
          ≡ (if between (r * 16) 16 q && between (c * 8) 8 p
              then cell_pixel ch s.fg_color s.bg_color (q - r * 16) (p - c * 8)
              else fb_target v (q * stride_of f + p))

    at_fb :
        fb_target
          (vesa_draw_cell v (pos (c * 8)) (pos (r * 16)) ch s.fg_color s.bg_color stack)
          (q * stride_of fb + p)
        ≡ (if between (r * 16) 16 q && between (c * 8) 8 p
            then cell_pixel ch s.fg_color s.bg_color (q - r * 16) (p - c * 8)
            else fb_target v (q * stride_of fb + p))
    at_fb =
        subst DrawnOn e
          (λ is_screen lt in_columns in_rows.
            vesa_draw_cell-pixels v (c * 8) (r * 16) ch s.fg_color s.bg_color stack q p is_screen lt
              in_columns in_rows)
          screen p_lt right bottom

    in_cell :
        (old : ℕ)
        → (if between (r * 16) 16 q && between (c * 8) 8 p
            then cell_pixel
                (s.scrollback (cell_at s r c))
                s.fg_color
                s.bg_color
                (q - r * 16)
                (p - c * 8)
            else old)
          ≡ (if (q / 16 == r) && (p / 8 == c) then text_pixel s q p else old)
    in_cell old = elim (Bool-cases ((q / 16 == r) && (p / 8 == c))) [
      | inl same ↦
          (let row : q / 16 ≡ r = ground (arith, same) in
            let col : p / 8 ≡ c = ground (arith, same) in
            let inside : (between (r * 16) 16 q && between (c * 8) 8 p) ≡ true =
              ground (arith, row, col) in
            let dy : q - r * 16 ≡ q % 16 = omega (arith, row) in
            let dx : p - c * 8 ≡ p % 8 = omega (arith, col) in
            rw (same, inside, dy, dx, row, col) refl)
      | inr other ↦
          (let outside : (between (r * 16) 16 q && between (c * 8) 8 p) ≡ false =
              ground (arith, other) in
            rw (other, outside) refl)
    ]

pub render_cells-shown :
    (v : Video) (fb : Framebuffer) (stack : CellArray) (s : Screen) (r c n q p : ℕ)
    → v.fb ≡ fb
    → IsScreen fb
    → p < stride_of fb
    → (c + n) * 8 ≤ stride_of fb
    → r * 16 + 16 ≤ fb.height
    → let v' = show_calls v stack (render_cells s r c n) in
      (v'.fb ≡ fb)
      × (fb_target v' (q * stride_of fb + p) ≡ (
          if (q / 16 == r) && between c n (p / 8)
          then text_pixel s q p
          else fb_target v (q * stride_of fb + p)))
unfolding show_calls show_call render_cells
render_cells-shown v fb stack s r c zero q p e screen p_lt right bottom = (e, ground arith)
render_cells-shown v fb stack s r c (suc n) q p e screen p_lt right bottom =
    let ch = s.scrollback (cell_at s r c) in
    let first = vesa_draw_cell v (pos (c * 8)) (pos (r * 16)) ch s.fg_color s.bg_color stack in
    let same_fb = draw_cell-fb v (c * 8) (r * 16) ch s.fg_color s.bg_color stack ∙ e in
    let (kept, rest) =
      render_cells-shown first fb stack s r (c + 1) n q p same_fb screen p_lt (omega (arith, right))
        bottom in
    let cell = show_cell v fb stack s r c q p e screen p_lt (omega (arith, right)) bottom in
    let last = one_more (fb_target v (q * stride_of fb + p)) in (kept, rest ∙ rw cell last)
  where
    one_more :
        (old : ℕ)
        → (if (q / 16 == r) && between (c + 1) n (p / 8)
            then text_pixel s q p
            else (if (q / 16 == r) && (p / 8 == c) then text_pixel s q p else old))
          ≡ (if (q / 16 == r) && between c (suc n) (p / 8) then text_pixel s q p else old)
    one_more old = ground arith

pub row_in_array : (s : Screen) (r : ℕ) → abs_row s r < 200 → render_row s r ≡ render_cells s r 0 80
unfolding render_row
row_in_array s r lt = ground (arith, lt)

pub no_calls : (v : Video) (stack : CellArray) → show_calls v stack [] ≡ v
unfolding show_calls
no_calls v stack = refl

pub render_rows-shown :
    (v : Video) (fb : Framebuffer) (stack : CellArray) (s : Screen) (r n q p : ℕ)
    → v.fb ≡ fb
    → IsScreen fb
    → p < stride_of fb
    → 640 ≤ stride_of fb
    → (r + n) * 16 ≤ fb.height
    → s.scroll_start + r + n ≤ 200
    → let v' = show_calls v stack (render_rows s r n) in
      (v'.fb ≡ fb)
      × (fb_target v' (q * stride_of fb + p) ≡ (
          if between r n (q / 16) && ltb (p / 8) 80
          then text_pixel s q p
          else fb_target v (q * stride_of fb + p)))
unfolding render_rows
render_rows-shown v fb stack s r zero q p e screen p_lt wide tall below =
    rw (no_calls v stack) (e, ground arith)
render_rows-shown v fb stack s r (suc n) q p e screen p_lt wide tall below =
    let row = row_in_array s r (omega (arith, below)) in
    let first = show_calls v stack (render_cells s r 0 80) in
    let (same_fb, cells) =
      render_cells-shown v fb stack s r 0 80 q p e screen p_lt wide (omega (arith, tall)) in
    let (kept, rest) =
      render_rows-shown first fb stack s (r + 1) n q p same_fb screen p_lt wide
        (omega (arith, tall)) (omega (arith, below)) in
    let last = one_more (fb_target v (q * stride_of fb + p)) in
    rw (row, show_calls-append v stack (render_cells s r 0 80) (render_rows s (r + 1) n))
      (kept, rest ∙ (rw cells last))
  where
    one_more :
        (old : ℕ)
        → (if between (r + 1) n (q / 16) && ltb (p / 8) 80
            then text_pixel s q p
            else (if (q / 16 == r) && between 0 80 (p / 8) then text_pixel s q p else old))
          ≡ (if between r (suc n) (q / 16) && ltb (p / 8) 80 then text_pixel s q p else old)
    one_more old = ground arith

-- With a buffer of at least 640 columns and 720 rows, all rows of the console drawn by `vesa_draw_cell`
-- give every pixel of the 45 rows and the 80 columns of text the colour of its character in
-- `scrollback`, and change no other pixel.
pub render_all-shown :
    (v : Video) (stack : CellArray) (s : Screen) (q p : ℕ)
    → IsScreen v.fb
    → p < stride_of v.fb
    → 640 ≤ stride_of v.fb
    → 720 ≤ v.fb.height
    → s.scroll_start ≤ 155
    → fb_target (show_calls v stack (render_all s)) (q * stride_of v.fb + p)
      ≡ (if ltb q 720 && ltb p 640 then text_pixel s q p else fb_target v (q * stride_of v.fb + p))
render_all-shown v stack s q p screen p_lt wide tall start =
    let rows =
      render_rows-shown v v.fb stack s 0 45 q p refl screen p_lt wide (omega (arith, tall))
        (omega (arith, start)) in
    rows.1 ∙ in_text (text_pixel s q p) (fb_target v (q * stride_of v.fb + p))
  where
    in_text :
        (text old : ℕ)
        → (if between 0 45 (q / 16) && ltb (p / 8) 80 then text else old)
          ≡ (if ltb q 720 && ltb p 640 then text else old)
    in_text text old = ground arith
