-- ===== src/Vesa/Cell.antt =====
-- lib/gui/vesa.c: `vesa_draw_cell`, pixel by pixel.
use ovsb_mk.Base.{
  ℕ, zero, suc, ◌+◌, ◌-◌, ◌*◌, ◌^◌, ◌≤◌, ◌<◌, ◌≡◌, ◌∙◌, ap, refl, arith, inl, inr, ◌&&◌, ◌==◌,
  if◌then◌else◌, pos, Bool-cases, ==_iff,
}
use ovsb_mk.Base.Ints.{◌+ℤ◌, plus_pos}
use ovsb_mk.Memory.Types.{update}
use ovsb_mk.Vesa.{
  Pixels, Video, fb_target, draw_target, stride_of, pixel_at, CellArray, clear_rows, cell_rows,
  copy_columns, copy_cell, vesa_draw_cell, printable,
}
use ovsb_mk.Vesa.Rect.{IsScreen, pixel_at-small, between, in_row, target-draw, mul_mono}
use ovsb_mk.Vesa.Glyph.{cell_pixel, drawn_cell}

copy_columns-between :
    (b : Pixels) (dst : ℕ) (src : ℕ → ℕ) (i n j : ℕ)
    → copy_columns b dst src i n j ≡ (if between (dst + i) n j then src (j - dst) else b j)
unfolding copy_columns
copy_columns-between b dst src i zero j = ground arith
copy_columns-between b dst src i (suc n) j =
    copy_columns-between (update b (dst + i) (src i)) dst src (i + 1) n j ∙ one_more
  where
    one_more :
        (if between (dst + (i + 1)) n j
          then src (j - dst)
          else (if j == dst + i then src i else b j))
        ≡ (if between (dst + i) (suc n) j then src (j - dst) else b j)
    one_more = elim (Bool-cases (j == dst + i)) [
      | inl same ↦
          (let equal : j ≡ dst + i = (==_iff j (dst + i)).0 same in
            let back : dst + i - dst ≡ i = omega arith in rw (equal, back) ground arith)
      | inr other ↦ ground (arith, other)
    ]

-- A row of the cell, in the row `k` of the screen.
copy_row :
    (b : Pixels) (stride x k : ℕ) (src : ℕ → ℕ) (q p : ℕ)
    → p < stride
    → x + 8 ≤ stride
    → copy_columns b (k * stride + x) src 0 8 (q * stride + p)
      ≡ (if (q == k) && between x 8 p then src (p - x) else b (q * stride + p))
copy_row b stride x k src q p p_lt le =
    let base : k * stride + x + 0 ≡ k * stride + x = omega arith in
    let columns = copy_columns-between b (k * stride + x) src 0 8 (q * stride + p) in
    columns ∙ (rw (base, in_row stride k x 8 q p p_lt le) at_column)
  where
    at_column :
        (if (q == k) && between x 8 p
          then src (q * stride + p - (k * stride + x))
          else b (q * stride + p))
        ≡ (if (q == k) && between x 8 p then src (p - x) else b (q * stride + p))
    at_column = elim (Bool-cases (q == k)) [
      | inl same ↦
          (let equal : q ≡ k = (==_iff q k).0 same in
            let column : k * stride + p - (k * stride + x) ≡ p - x = omega arith in
            rw (equal, column) refl)
      | inr other ↦ rw other refl
    ]

copy_cell-between :
    (b : Pixels) (stride x y : ℕ) (cell : CellArray) (r n q p : ℕ)
    → p < stride
    → x + 8 ≤ stride
    → stride ≤ 2 ^ 32
    → y + r + n < 2 ^ 32
    → (y + r + n) * stride ≤ 2 ^ 32
    → copy_cell b stride (pos x) (pos y) cell r n (q * stride + p)
      ≡ (if between (y + r) n q && between x 8 p then cell (q - y) (p - x) else b (q * stride + p))
unfolding copy_cell
copy_cell-between b stride x y cell r zero q p p_lt le row_fits y_lt fits = ground arith
copy_cell-between b stride x y cell r (suc n) q p p_lt le row_fits y_lt fits =
    let row_end : (y + r) * stride + stride ≤ 2 ^ 32 = omega (
      arith,
      mul_mono (y + r + 1) (y + r + suc n) stride (omega arith),
      row_after (y + r) stride,
      fits,
    ) in
    let place : pixel_at stride (pos x) (pos y +ℤ pos r) ≡ (y + r) * stride + x =
      ap (pixel_at stride (pos x)) (plus_pos y r)
      ∙ pixel_at-small stride x (y + r) (omega (arith, le, row_fits)) (omega (arith, y_lt))
          (omega (arith, le, row_end)) in
    let more : (y + (r + 1) + n) * stride ≤ 2 ^ 32 =
      omega (arith, mul_mono (y + (r + 1) + n) (y + r + suc n) stride (omega arith), fits) in
    let first = copy_columns b ((y + r) * stride + x) (cell r) 0 8 in
    let rest =
      copy_cell-between first stride x y cell (r + 1) n q p p_lt le row_fits (omega (arith, y_lt))
        more in
    let last = one_more (b (q * stride + p)) in
    rw place (rest ∙ rw (copy_row b stride x (y + r) (cell r) q p p_lt le) last)
  where
    row_after : (k stride : ℕ) → (k + 1) * stride ≡ k * stride + stride
    row_after k stride = grind arith

    one_more :
        (old : ℕ)
        → (if between (y + (r + 1)) n q && between x 8 p
            then cell (q - y) (p - x)
            else (if (q == y + r) && between x 8 p then cell r (p - x) else old))
          ≡ (if between (y + r) (suc n) q && between x 8 p then cell (q - y) (p - x) else old)
    one_more old = elim (Bool-cases (q == y + r)) [
      | inl same ↦
          (let equal : q ≡ y + r = (==_iff q (y + r)).0 same in
            let back : y + r - y ≡ r = omega arith in rw (equal, back) ground arith)
      | inr other ↦ ground (arith, other)
    ]

-- On a screen whose rows lie within the buffer, a cell that lies in the rows and the columns of the
-- buffer gets the pixels of its character, and no other pixel changes.
pub vesa_draw_cell-pixels :
    (v : Video) (x y c fg bg : ℕ) (stack : CellArray) (q p : ℕ)
    → IsScreen v.fb
    → p < stride_of v.fb
    → x + 8 ≤ stride_of v.fb
    → y + 16 ≤ v.fb.height
    → fb_target (vesa_draw_cell v (pos x) (pos y) c fg bg stack) (q * stride_of v.fb + p) ≡ (
        if between y 16 q && between x 8 p
        then cell_pixel c fg bg (q - y) (p - x)
        else fb_target v (q * stride_of v.fb + p))
unfolding vesa_draw_cell
vesa_draw_cell-pixels v x y c fg bg stack q p s p_lt right bottom =
    let stride = stride_of v.fb in
    let cleared = clear_rows stack bg 0 16 in
    let cell = if printable c then cell_rows cleared c fg 0 8 else cleared in
    let drawn = copy_cell (fb_target v) stride (pos x) (pos y) cell 0 16 in
    let run : vesa_draw_cell v (pos x) (pos y) c fg bg stack ≡ draw_target v drawn =
      rw s.shown refl in
    let top : y + 0 ≡ y = omega arith in
    let end = mul_mono (y + 0 + 16) v.fb.height stride (omega (arith, bottom)) in
    let pixels =
      copy_cell-between (fb_target v) stride x y cell 0 16 q p p_lt right s.row_fits
        (omega (arith, bottom, s.low)) (omega (arith, end, s.fits)) in
    let last = shown (fb_target v (q * stride + p)) in
    ap (λ u. fb_target u (q * stride + p)) run
    ∙ ap (λ b. b (q * stride + p)) (target-draw v drawn)
    ∙ pixels
    ∙ rw top last
  where
    shown :
        (old : ℕ)
        → (if between y 16 q && between x 8 p
            then (if printable c
                  then cell_rows (clear_rows stack bg 0 16) c fg 0 8
                  else clear_rows stack bg 0 16)
                (q - y)
                (p - x)
            else old)
          ≡ (if between y 16 q && between x 8 p then cell_pixel c fg bg (q - y) (p - x) else old)
    shown old = elim (Bool-cases (between y 16 q && between x 8 p)) [
      | inl in_cell ↦
          (let drawn =
              drawn_cell stack c fg bg (q - y) (p - x) (ground (arith, in_cell))
                (ground (arith, in_cell)) in
            rw (in_cell, drawn) refl)
      | inr outside ↦ rw outside refl
    ]
