-- ===== src/Memory/Pages/Order.antt =====
-- The order that kernel/memory.c computes for a number of pages.
use native.Mathlib.Nat.{add-zero}
use ovsb_mk.Base.{
  ap, ℕ_discrete, ℕ, zero, suc, ◌+◌, ◌^◌, ◌≤◌, ◌<◌, ◌≡◌, inl, inr, arith, ltb, Bool-cases,
}
use ovsb_mk.Memory.Pages.{order_loop, order_of}

-- The smallest order from `o` on whose blocks hold the pages.
pub record Smallest (pages o r : ℕ) : Type 0 where
  pub above : o ≤ r
  pub holds : pages ≤ 2 ^ r
  pub least : (p : ℕ) → o ≤ p → p < r → 2 ^ p < pages

Smallest-extend : (pages o r : ℕ) → 2 ^ o < pages → Smallest pages (o + 1) r → Smallest pages o r
Smallest-extend pages o r small s = record {
  above = omega (arith, s.above);
  holds = s.holds;
  least =
      λ p lo hi. elim (ℕ_discrete p o) [ yes e ↦ rw e small | no ne ↦ s.least p (omega arith) hi ];
}

order_loop-Smallest :
    (pages o n : ℕ) → pages ≤ 2 ^ (o + n) → Smallest pages o (order_loop pages o n)
unfolding order_loop
order_loop-Smallest pages o zero h = record {
  above = omega arith;
  holds = rw add-zero at h;
  least = λ p lo hi. absurd (omega arith);
}
order_loop-Smallest pages o (suc n) h =
    let shift : 2 ^ (o + suc n) ≡ 2 ^ (o + 1 + n) = ap (λ k. 2 ^ k) (omega arith) in
    elim (Bool-cases (ltb (2 ^ o) pages)) [
      | inl small ↦ rw small (
          Smallest-extend pages o _ (ground (arith, small))
            (order_loop-Smallest pages (o + 1) n (omega arith)))
      | inr done ↦ rw done (record {
        above = omega arith;
        holds = ground (arith, done);
        least = λ p lo hi. absurd (omega arith);
      })
    ]

-- Up to 2 ^ 63 pages the loop ends with the smallest order whose blocks hold them.
pub order_of-Smallest : (pages : ℕ) → pages ≤ 2 ^ 63 → Smallest pages 0 (order_of pages)
unfolding order_of
order_of-Smallest pages h = order_loop-Smallest pages 0 63 h
