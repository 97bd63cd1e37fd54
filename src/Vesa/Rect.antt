-- ===== src/Vesa/Rect.antt =====
-- lib/gui/vesa.c: `vesa_draw_rect`, pixel by pixel.
use ovsb_mk.Base.{
  ℕ, zero, suc, ◌+◌, ◌*◌, ◌%◌, ◌^◌, ◌≤◌, ◌<◌, ◌≡◌, ◌∙◌, ap, refl, arith, ◌⊎◌, inl, inr, Bool, true,
  false, not, some, ◌&&◌, ◌||◌, ◌==◌, ltb, leb, if◌then◌else◌, ℤ, pos, Bool-cases, ltb→lt, ==_iff,
}
use ovsb_mk.Base.Ints.{◌+ℤ◌, ltb_ℤ, is_int}
use ovsb_mk.Memory.Types.{update}
use ovsb_mk.Syscall.Types.{Framebuffer, int_of}
use ovsb_mk.Vesa.{
  Pixels, Video, fb_target, draw_target, stride_of, pixel_at, rect_row, rect_rows, from_0,
  rounds_to, vesa_draw_rect,
}

-- Where the rows of the screen lie, and that their indices fit a `uint32_t`.
pub record IsScreen (fb : Framebuffer) : Type 0 where
  pub shown : fb.active ≡ true
  pub narrow : fb.width < 2 ^ 31
  pub low : fb.height < 2 ^ 31
  pub rows : fb.width ≤ stride_of fb
  pub fits : fb.height * stride_of fb ≤ 2 ^ 32
  pub row_fits : stride_of fb ≤ 2 ^ 32

pub pixel_at-small :
    (stride x y : ℕ)
    → x < 2 ^ 32
    → y < 2 ^ 32
    → y * stride + x < 2 ^ 32
    → pixel_at stride (pos x) (pos y) ≡ y * stride + x
pixel_at-small stride x y x_lt y_lt lt =
    let x_low : x % 2 ^ 32 ≡ x = omega (arith, x_lt) in
    let y_low : y % 2 ^ 32 ≡ y = omega (arith, y_lt) in
    let low : (y * stride + x) % 2 ^ 32 ≡ y * stride + x = omega (arith, lt) in
    rw (x_low, y_low, low) refl

-- A pixel of a row above another row lies before it.
pub row-before : (stride p q y : ℕ) → q < y → p < stride → q * stride + p < y * stride
row-before stride p q y lt p_lt = grind arith

abbrev pub between : (a n j : ℕ) → Bool
between a n j = leb a j && ltb j (a + n)

-- A range within a row.
pub in_row :
    (stride y x n q p : ℕ)
    → p < stride
    → x + n ≤ stride
    → between (y * stride + x) n (q * stride + p) ≡ ((q == y) && between x n p)
in_row stride y x n q p p_lt le = elim (Bool-cases (ltb q y)) [
  | inl e ↦ (let before = row-before stride p q y (ltb→lt q y e) p_lt in ground (arith, before))
  | inr e ↦ elim (Bool-cases (q == y)) [
    | inl same ↦ (let equal : q ≡ y = (==_iff q y).0 same in rw equal ground arith)
    | inr other ↦
        (let behind : y < q = ground (arith, e, other) in
          let end : y * stride + stride ≤ q * stride = grind (arith, behind) in
          ground (arith, end, behind))
  ]
]

pub target-draw : (v : Video) (b : Pixels) → fb_target (draw_target v b) ≡ b
target-draw v b = elim (Bool-cases v.has_back) [ inl e ↦ rw e refl | inr e ↦ rw e refl ]

pub rect_row-between :
    (b : Pixels) (stride y x color n j : ℕ)
    → x + n ≤ 2 ^ 32
    → y < 2 ^ 32
    → y * stride + x + n ≤ 2 ^ 32
    → rect_row b stride y x color n j ≡ (if between (y * stride + x) n j then color else b j)
unfolding rect_row
rect_row-between b stride y x color zero j le y_lt fits = ground arith
rect_row-between b stride y x color (suc n) j le y_lt fits =
    let place : pixel_at stride (pos x) (pos y) ≡ y * stride + x =
      pixel_at-small stride x y (omega (arith, le)) y_lt (omega (arith, fits)) in
    let rest =
      rect_row-between (update b (y * stride + x) color) stride y (x + 1) color n j
        (omega (arith, le)) y_lt (omega (arith, fits)) in
    rw place (rest ∙ one_more (y * stride) (b j))
  where
    one_more :
        (k old : ℕ)
        → (if between (k + (x + 1)) n j then color else (if j == k + x then color else old))
          ≡ (if between (k + x) (suc n) j then color else old)
    one_more k old = ground arith

-- The rows of a rectangle, at the pixel `p` of the row `q`.
pub rect_rows-between :
    (b : Pixels) (stride y x m color n q p : ℕ)
    → p < stride
    → x + m ≤ stride
    → stride ≤ 2 ^ 32
    → y + n < 2 ^ 32
    → (y + n) * stride ≤ 2 ^ 32
    → rect_rows b stride y x m color n (q * stride + p)
      ≡ (if between y n q && between x m p then color else b (q * stride + p))
unfolding rect_rows
rect_rows-between b stride y x m color zero q p p_lt le row_fits y_lt fits = ground arith
rect_rows-between b stride y x m color (suc n) q p p_lt le row_fits y_lt fits =
    let j = q * stride + p in
    let first = rect_row b stride y x color m in
    let row_end : y * stride + stride ≤ 2 ^ 32 = grind (arith, fits) in
    let row =
      rect_row-between b stride y x color m j (omega (arith, le, row_fits)) (omega (arith, y_lt))
        (omega (arith, le, row_end)) in
    let rest =
      rect_rows-between first stride (y + 1) x m color n q p p_lt le row_fits (omega (arith, y_lt))
        (grind (arith, fits)) in
    let last = one_more (b j) in rest ∙ rw (row, in_row stride y x m q p p_lt le) last
  where
    one_more :
        (old : ℕ)
        → (if between (y + 1) n q && between x m p
            then color
            else (if (q == y) && between x m p then color else old))
          ≡ (if between y (suc n) q && between x m p then color else old)
    one_more old = ground arith

-- The range from `x` on with `w` pixels.
abbrev pub within : (x w : ℤ) → (p : ℕ) → Bool
within x w p = not (ltb_ℤ (pos p) x) && ltb_ℤ (pos p) (x +ℤ w)

clipped :
    (x w : ℤ) (limit p : ℕ)
    → between (from_0 x) (rounds_to (from_0 x) (x +ℤ w) (pos limit)) p
      ≡ (within x w p && ltb p limit)
unfolding ◌+ℤ◌
clipped x w limit p = ground arith

rounds-le :
    (x0 : ℕ) (x1 : ℤ) (limit : ℕ)
    → (x0 + rounds_to x0 x1 (pos limit) ≤ limit) ⊎ (rounds_to x0 x1 (pos limit) ≡ 0)
rounds-le x0 x1 limit = ground arith

empty_range : (x w : ℤ) (p : ℕ) → (not (ltb_ℤ (pos 0) w)) ≡ true → within x w p ≡ false
unfolding ◌+ℤ◌
empty_range x w p e = ground (arith, e)

no-columns : (b : Pixels) (stride y x color n : ℕ) → rect_rows b stride y x 0 color n ≡ b
unfolding rect_rows rect_row
no-columns b stride y x color zero = refl
no-columns b stride y x color (suc n) = no-columns b stride (y + 1) x color n

no-rows : (b : Pixels) (stride y x m color : ℕ) → rect_rows b stride y x m color 0 ≡ b
unfolding rect_rows
no-rows b stride y x m color = refl

pub mul_mono : (a b k : ℕ) → a ≤ b → a * k ≤ b * k
mul_mono a b k le = grind (arith, le)

-- A rectangle that ends on the screen or has no pixels.
rect_rows-screen :
    (b : Pixels) (fb : Framebuffer) (y x m color n q p : ℕ)
    → IsScreen fb
    → p < stride_of fb
    → (x + m ≤ fb.width) ⊎ (m ≡ 0)
    → (y + n ≤ fb.height) ⊎ (n ≡ 0)
    → rect_rows b (stride_of fb) y x m color n (q * stride_of fb + p)
      ≡ (if between y n q && between x m p then color else b (q * stride_of fb + p))
rect_rows-screen b fb y x m color n q p s p_lt (inr none_wide) tall =
    rw (none_wide, no-columns b (stride_of fb) y x color n) ground arith
rect_rows-screen b fb y x m color n q p s p_lt (inl wide) (inr none_tall) =
    rw (none_tall, no-rows b (stride_of fb) y x m color) ground arith
rect_rows-screen b fb y x m color n q p s p_lt (inl wide) (inl tall) =
    let stride = stride_of fb in
    let end : (y + n) * stride ≤ fb.height * stride = mul_mono (y + n) fb.height stride tall in
    rect_rows-between b stride y x m color n q p p_lt (omega (arith, wide, s.rows)) s.row_fits
      (omega (arith, tall, s.low)) (omega (arith, end, s.fits))

none_within :
    (x y w h : ℤ) (q p : ℕ) (a b : Bool)
    → (not (ltb_ℤ (pos 0) w) || not (ltb_ℤ (pos 0) h)) ≡ true
    → ((within y h q && a) && (within x w p && b)) ≡ false
none_within x y w h q p a b e = elim (Bool-cases (not (ltb_ℤ (pos 0) w))) [
  | inl f ↦ ground (arith, empty_range x w p f)
  | inr f ↦
      (let g : not (ltb_ℤ (pos 0) h) ≡ true = ground (arith, e, f) in
        ground (arith, empty_range y h q g))
]

-- On a screen whose rows lie within the buffer, where `x + w` and `y + h` fit an `int`,
-- `vesa_draw_rect` gives the colour to exactly the pixels that lie in the rectangle and on the
-- screen. Every index is a pixel `p` of a row `q`.
pub vesa_draw_rect-clipped :
    (v : Video) (x y w h : ℤ) (color q p : ℕ)
    → IsScreen v.fb
    → is_int (x +ℤ w) ≡ true
    → is_int (y +ℤ h) ≡ true
    → p < stride_of v.fb
    → (v' : Video) × (vesa_draw_rect v x y w h color ≡ some v')
      × (fb_target v' (q * stride_of v.fb + p) ≡ (
          if (within y h q && ltb q v.fb.height) && (within x w p && ltb p v.fb.width)
          then color
          else fb_target v (q * stride_of v.fb + p)))
unfolding vesa_draw_rect
vesa_draw_rect-clipped v x y w h color q p s right bottom p_lt =
    let width : int_of v.fb.width ≡ pos v.fb.width = int_of-small v.fb.width s.narrow in
    let height : int_of v.fb.height ≡ pos v.fb.height = int_of-small v.fb.height s.low in
    elim (Bool-cases (not (ltb_ℤ (pos 0) w) || not (ltb_ℤ (pos 0) h))) [
      | inl e ↦ (
        v,
        rw (s.shown, e) refl,
        rw (none_within x y w h q p (ltb q v.fb.height) (ltb p v.fb.width) e) refl,
      )
      | inr e ↦
          (let rows =
              rect_rows-screen (fb_target v) v.fb (from_0 y) (from_0 x)
                (rounds_to (from_0 x) (x +ℤ w) (pos v.fb.width)) color
                (rounds_to (from_0 y) (y +ℤ h) (pos v.fb.height)) q p s p_lt
                (rounds-le (from_0 x) (x +ℤ w) v.fb.width)
                (rounds-le (from_0 y) (y +ℤ h) v.fb.height) in
            let drawn =
              rect_rows (fb_target v) (stride_of v.fb) (from_0 y) (from_0 x)
                (rounds_to (from_0 x) (x +ℤ w) (pos v.fb.width)) color
                (rounds_to (from_0 y) (y +ℤ h) (pos v.fb.height)) in
            (
              draw_target v drawn,
              rw (s.shown, e, right, bottom, width, height) refl,
              ap (λ b. b (q * stride_of v.fb + p)) (target-draw v drawn)
                  ∙ rows
                  ∙ (rw (clipped y h v.fb.height q, clipped x w v.fb.width p) refl),
            ))
    ]
  where
    int_of-small : (n : ℕ) → n < 2 ^ 31 → int_of n ≡ pos n
    int_of-small n lt =
        let low : n % 2 ^ 32 ≡ n = omega (arith, lt) in
        let less : ltb n (2 ^ 31) ≡ true = ground (arith, lt) in rw (low, less) refl
