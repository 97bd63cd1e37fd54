-- ===== src/Vesa/Fill.antt =====
-- lib/gui/vesa.c: `vesa_fill_screen`, and kernel/console.c on the screen that it leaves.
use ovsb_mk.Base.{
  ℕ, zero, suc, ◌+◌, ◌*◌, ◌/◌, ◌%◌, ◌^◌, ◌≤◌, ◌<◌, ◌≡◌, ◌∙◌, ap, refl, sym, arith, Bool, true, not,
  ◌&&◌, ◌==◌, ltb, if◌then◌else◌, all_below, all_below_sound,
}
use ovsb_mk.Console.{Screen, blank, console_clear}
use ovsb_mk.Vesa.{
  Pixels, Video, fb_target, draw_target, stride_of, CellArray, eight_pixels, fill_groups, fill_rows,
  vesa_fill_screen, glyph_row, bit_set,
}
use ovsb_mk.Vesa.Font.{font8x8}
use ovsb_mk.Vesa.Rect.{IsScreen, between, in_row, mul_mono, target-draw}
use ovsb_mk.Vesa.Glyph.{cell_pixel}
use ovsb_mk.Vesa.Text.{show_call, show_calls, text_pixel}
use ovsb_mk.Vesa.Typing.{HasRoom, Shows}

fill_groups-between :
    (b : Pixels) (row color n j : ℕ)
    → fill_groups b row color n j ≡ (if between row (8 * n) j then color else b j)
unfolding fill_groups
fill_groups-between b row color zero j = ground arith
fill_groups-between b row color (suc n) j =
    fill_groups-between (eight_pixels b row color) (row + 8) color n j ∙ ground arith

-- The rows from `y` on, where the groups of a row lie within it.
fill_rows-between :
    (b : Pixels) (stride groups color y n q p : ℕ)
    → p < stride
    → 8 * groups ≤ stride
    → (y + n) * stride ≤ 2 ^ 32
    → fill_rows b stride groups color y n (q * stride + p)
      ≡ (if between y n q && ltb p (8 * groups) then color else b (q * stride + p))
unfolding fill_rows
fill_rows-between b stride groups color y zero q p p_lt le fits = ground arith
fill_rows-between b stride groups color y (suc n) q p p_lt le fits =
    let row_end : y * stride < 2 ^ 32 =
      omega (
        arith,
        mul_mono (y + 1) (y + suc n) stride (omega arith),
        row_after y stride,
        fits,
        p_lt,
      ) in
    let place : y * stride % 2 ^ 32 ≡ y * stride + 0 = omega (arith, row_end) in
    let more : (y + 1 + n) * stride ≤ 2 ^ 32 =
      omega (arith, mul_mono (y + 1 + n) (y + suc n) stride (omega arith), fits) in
    let first = fill_groups b (y * stride + 0) color groups in
    let rest = fill_rows-between first stride groups color (y + 1) n q p p_lt le more in
    let row =
      fill_groups-between b (y * stride + 0) color groups (q * stride + p)
      ∙ (rw (in_row stride y 0 (8 * groups) q p p_lt (omega (arith, le))) refl) in
    let last = one_more (b (q * stride + p)) in rw place (rest ∙ (rw row last))
  where
    row_after : (k stride : ℕ) → (k + 1) * stride ≡ k * stride + stride
    row_after k stride = grind arith

    one_more :
        (old : ℕ)
        → (if between (y + 1) n q && ltb p (8 * groups)
            then color
            else (if (q == y) && between 0 (8 * groups) p then color else old))
          ≡ (if between y (suc n) q && ltb p (8 * groups) then color else old)
    one_more old = ground arith

fill-fb : (v : Video) (color : ℕ) → (vesa_fill_screen v color).fb ≡ v.fb
unfolding vesa_fill_screen
fill-fb v color = ground arith

filled :
    (v : Video) (color q p : ℕ)
    → IsScreen v.fb
    → p < stride_of v.fb
    → 8 * ((v.fb.width + 7) / 8) ≤ stride_of v.fb
    → fb_target (vesa_fill_screen v color) (q * stride_of v.fb + p) ≡ (
        if between 0 v.fb.height q && ltb p (8 * ((v.fb.width + 7) / 8))
        then color
        else fb_target v (q * stride_of v.fb + p))
unfolding vesa_fill_screen
filled v color q p screen p_lt groups_fit =
    let stride = stride_of v.fb in
    let groups = (v.fb.width + 7) / 8 in
    let drawn = fill_rows (fb_target v) stride groups color 0 v.fb.height in
    let run : vesa_fill_screen v color ≡ draw_target v drawn = rw screen.shown refl in
    let end = mul_mono (0 + v.fb.height) v.fb.height stride (omega arith) in
    ap (λ u. fb_target u (q * stride + p)) run
    ∙ ap (λ b. b (q * stride + p)) (target-draw v drawn)
    ∙ fill_rows-between (fb_target v) stride groups color 0 v.fb.height q p p_lt groups_fit
        (omega (arith, end, screen.fits))

-- The glyph of the space.
space_table : all_below 64 (λ k. not (bit_set (glyph_row b' ' (k / 8)) (k % 8))) ≡ true
unfolding all_below font8x8
space_table = refl

space_pixel : (fg bg r cl : ℕ) → r < 16 → cl < 8 → cell_pixel b' ' fg bg r cl ≡ bg
space_pixel fg bg r cl r_lt cl_lt =
    let row : (r / 2 * 8 + cl) / 8 ≡ r / 2 = omega (arith, cl_lt) in
    let col : (r / 2 * 8 + cl) % 8 ≡ cl = omega (arith, cl_lt) in
    let empty =
      all_below_sound 64 (λ k. not (bit_set (glyph_row b' ' (k / 8)) (k % 8))) (r / 2 * 8 + cl)
        space_table (omega (arith, r_lt, cl_lt)) in
    let at = r / 2 * 8 + cl in
    let same : bit_set (glyph_row b' ' (at / 8)) (at % 8) ≡ bit_set (glyph_row b' ' (r / 2)) cl =
      ap (λ z. bit_set (glyph_row b' ' z) (at % 8)) row
      ∙ ap (bit_set (glyph_row b' ' (r / 2))) col in
    no_bit (bit_set (glyph_row b' ' (r / 2)) cl) (ap not (sym same) ∙ empty)
  where
    no_bit : (bit : Bool) → not bit ≡ true → (if bit then fg else bg) ≡ bg
    no_bit bit e = ground (arith, e)

-- With a buffer of at least 640 columns and 720 rows, where the groups of eight pixels do not leave a
-- row, the screen shows the text of the console after `console_clear`.
pub console_clear-Shows :
    (v : Video) (stack : CellArray) (s : Screen)
    → HasRoom v.fb
    → 640 ≤ v.fb.width
    → 8 * ((v.fb.width + 7) / 8) ≤ stride_of v.fb
    → Shows v.fb (show_calls v stack (console_clear s).1) (console_clear s).0
unfolding console_clear show_calls show_call
console_clear-Shows v stack s room wide groups_fit = record {
  same_fb = fill-fb v s.bg_color;
  pixels = λ q p q_lt p_lt.
      filled v s.bg_color q p room.screen (omega (arith, room.wide, p_lt)) groups_fit
      ∙ inside q p q_lt p_lt _
      ∙ sym (cleared q p q_lt p_lt);
}
  where
    inside :
        (q p : ℕ)
        → q < 720
        → p < 640
        → (old : ℕ)
        → (if between 0 v.fb.height q && ltb p (8 * ((v.fb.width + 7) / 8))
            then s.bg_color
            else old)
          ≡ s.bg_color
    inside q p q_lt p_lt old = ground (arith, q_lt, p_lt, room.tall, wide)

    cleared : (q p : ℕ) → q < 720 → p < 640 → text_pixel (console_clear s).0 q p ≡ s.bg_color
    cleared q p q_lt p_lt =
        let space : blank s.scrollback ((0 + q / 16) * 80 + p / 8) ≡ b' ' =
          ground (arith, q_lt, p_lt) in
        ap (λ c. cell_pixel c s.fg_color s.bg_color (q % 16) (p % 8)) space
        ∙ space_pixel s.fg_color s.bg_color (q % 16) (p % 8) (omega arith) (omega arith)
