-- ===== src/Vesa/Flush.antt =====
-- lib/gui/vesa.c: the copy of the back buffer to the screen.
use ovsb_mk.Base.{
  ℕ, zero, suc, ◌+◌, ◌*◌, ◌/◌, ◌≡◌, ◌∙◌, arith, true, ◌==◌, ltb, if◌then◌else◌, Bool-cases, ==_iff,
  inl, inr,
}
use ovsb_mk.Memory.Types.{update}
use ovsb_mk.Vesa.{Pixels, Video, fast_memcpy32, vesa_flush}
use ovsb_mk.Vesa.Rect.{between}

copied :
    (dst src : Pixels) (at n j : ℕ)
    → fast_memcpy32 dst src at n j ≡ (if between at (2 * n) j then src j else dst j)
unfolding fast_memcpy32
copied dst src at zero j = ground arith
copied dst src at (suc n) j =
    copied (update (update dst at (src at)) (at + 1) (src (at + 1))) src (at + 2) n j ∙ two_more
  where
    two_more :
        (if between (at + 2) (2 * n) j
          then src j
          else (if j == at + 1 then src (at + 1) else if j == at then src at else dst j))
        ≡ (if between at (2 * suc n) j then src j else dst j)
    two_more = elim (Bool-cases (j == at + 1)) [
      | inl second ↦ (let e : j ≡ at + 1 = (==_iff j (at + 1)).0 second in rw e ground arith)
      | inr other ↦ elim (Bool-cases (j == at)) [
        | inl first ↦ (let e : j ≡ at = (==_iff j at).0 first in rw e ground arith)
        | inr neither ↦ ground (arith, other, neither)
      ]
    ]

-- With a back buffer, `vesa_flush` copies twice as many pixels as the screen has: the screen is the
-- first `pitch * height / 4` pixels, and as many behind it change as well.
pub vesa_flush-doubles :
    (v : Video) (j : ℕ)
    → v.fb.active ≡ true
    → v.has_back ≡ true
    → (vesa_flush v).screen j
      ≡ (if ltb j (2 * (v.fb.pitch * v.fb.height / 4)) then v.back j else v.screen j)
unfolding vesa_flush
vesa_flush-doubles v j active back =
    let pixels = v.fb.pitch * v.fb.height / 4 in
    rw (active, back) (copied v.screen v.back 0 pixels j ∙ ground arith)
