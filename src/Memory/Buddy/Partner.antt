-- ===== src/Memory/Buddy/Partner.antt =====
-- The block that the loop of `buddy_free` in kernel/memory.c joins with the one it frees.
use Prim.Native.Nat.{bit_and, bit_xor}
use ovsb_mk.Base.{
  ℕ, suc, ◌+◌, ◌-◌, ◌*◌, ◌/◌, ◌%◌, ◌^◌, ◌≤◌, ◌<◌, ◌≡◌, ◌≢◌, ◌∙◌, inl, inr, refl, ap, sym, true,
  false, arith, ◌==◌, ltb, leb, if◌then◌else◌, Bool-cases,
}
use ovsb_mk.Memory.Words.{
  pow-double, pow-pos, pow-split, partner, xor-partner, marks, nested-partner, aligned_start,
  le_of_mul, lt_of_mul, mul_le,
}
use ovsb_mk.Memory.Types.{Memory, count}
use ovsb_mk.Memory.Buddy.Layout.{Layout}
use ovsb_mk.Memory.Buddy.Merge.{Hole, Halves, Sides}

-- The buddy of the block at `idx`, by the place of the block in units of its size.
pub record Place (o idx : ℕ) : Type 0 where
  pub factor : ℕ
  pub start : idx ≡ factor * 2 ^ o
  pub other : bit_xor idx (2 ^ o) ≡ partner factor * 2 ^ o
  pub fits : partner factor * 2 ^ o + 2 ^ o ≤ 16384

units_double : (o : ℕ) → o < 14 → 2 ^ (14 - o) ≡ 2 * 2 ^ (13 - o)
units_double o lt =
    let next : 14 - o ≡ suc (13 - o) = omega arith in ap (λ n. 2 ^ n) next ∙ pow-double (13 - o)

pub heap_units : (o : ℕ) → o < 14 → 16384 ≡ 2 ^ (14 - o) * 2 ^ o
heap_units o lt =
    let sum : o + (14 - o) ≡ 14 = omega arith in ap (λ n. 2 ^ n) (sym sum) ∙ pow-split o (14 - o)

-- In a heap of `2 * e` units a unit and its partner are both inside.
partner_fits : (p e k : ℕ) → 0 < p → k * p < 2 * e * p → partner k * p + p ≤ 2 * e * p
partner_fits p e k pos lt =
    let a : k < 2 * e = lt_of_mul p k (2 * e) pos lt in
    let b : partner k + 1 ≤ 2 * e = ground arith in
    let c = mul_le p (partner k + 1) (2 * e) b in omega arith

pub Hole-Place :
    {m : Memory} {size base : ℕ → ℕ} {o idx : ℕ} → Hole m size base o idx → o < 14 → Place o idx
Hole-Place {o} {idx} h lt =
    let (k, e) = h.layout.aligned idx h.within in
    let at : idx ≡ k * 2 ^ o = sym h.start ∙ e ∙ ap (λ n. k * 2 ^ n) h.order in
    let units = heap_units o lt in
    let inside : k * 2 ^ o < 2 ^ (14 - o) * 2 ^ o = omega (arith, h.within) in
    let below : k < 2 ^ (14 - o) = lt_of_mul (2 ^ o) k (2 ^ (14 - o)) (pow-pos o) inside in
    let whole : 16384 ≡ 2 * 2 ^ (13 - o) * 2 ^ o =
      units ∙ ap (λ n. n * 2 ^ o) (units_double o lt) in
    record {
      factor = k;
      start = at;
      other = ap (λ n. bit_xor n (2 ^ o)) at ∙ xor-partner o k lt below;
      fits = rw whole (partner_fits (2 ^ o) (2 ^ (13 - o)) k (pow-pos o) (omega (arith, h.within)));
    }

-- What the round needs to know of the buddy.
pub record Mate {m : Memory} {size base : ℕ → ℕ} (o idx b : ℕ) (l : Layout m size base idx)
    : Type 0 where
  pub order : size b ≡ o
  pub start : base b ≡ b
  pub listed : 1 ≤ count b (m.free_area o)
  pub mark : m.frames b ≡ o

-- `aligned_start` and `nested-partner` for orders that are given with an equation.
start_of_small :
    (a o k n b : ℕ) → a ≤ o → b ≡ k * 2 ^ a → b ≤ n * 2 ^ o → n * 2 ^ o < b + 2 ^ a → b ≡ n * 2 ^ o
start_of_small a o k n b le e lo hi =
    let sum : o ≡ a + (o - a) = omega arith in
    let place : n * 2 ^ o ≡ n * 2 ^ (a + (o - a)) = ap (λ i. n * 2 ^ i) sum in
    e ∙ aligned_start a (o - a) n k (omega arith) (omega arith) ∙ sym place

partner_in_large :
    (a o k n b : ℕ)
    → o < a
    → b ≡ k * 2 ^ a
    → b ≤ n * 2 ^ o
    → n * 2 ^ o < b + 2 ^ a
    → (b ≤ partner n * 2 ^ o) × (partner n * 2 ^ o < b + 2 ^ a)
partner_in_large a o k n b lt e lo hi =
    let sum : a ≡ o + suc (a - o - 1) = omega arith in
    let length : 2 ^ a ≡ 2 ^ (o + suc (a - o - 1)) = ap (λ i. 2 ^ i) sum in
    let place : k * 2 ^ a ≡ k * 2 ^ (o + suc (a - o - 1)) = ap (λ i. k * 2 ^ i) sum in
    let (below, above) = nested-partner o (a - o - 1) n k (omega arith) (omega arith) in
    (omega arith, omega arith)

partner-partner : (k : ℕ) → partner (partner k) ≡ k
partner-partner k = ground arith

-- The block that holds the buddy's first frame begins there: a larger block would hold the hole too.
buddy_starts :
    {m : Memory} {size base : ℕ → ℕ} (o idx : ℕ) (h : Hole m size base o idx) (p : Place o idx)
    → base (partner p.factor * 2 ^ o) ≡ partner p.factor * 2 ^ o
buddy_starts {size} {base} o idx h p =
    let b = partner p.factor * 2 ^ o in
    let lb : b < 16384 = omega (arith, p.fits, pow-pos o) in
    let (k, e) = h.layout.aligned b lb in
    let (lo, hi) = h.layout.covers b lb in
    elim (Bool-cases (leb (size b) o)) [
      | inl small ↦ start_of_small (size b) o k (partner p.factor) (base b) (ground arith) e lo hi
      | inr large ↦
          let (below, above) =
            partner_in_large (size b) o k (partner p.factor) (base b) (ground arith) e lo hi in
          let here : partner (partner p.factor) * 2 ^ o ≡ idx =
            ap (λ n. n * 2 ^ o) (partner-partner p.factor) ∙ sym p.start in
          let same = h.layout.shared b idx lb (omega arith) (omega arith) in
          absurd (ground (arith, same, h.order))
    ]

partner-ne : (p k : ℕ) → 0 < p → partner k * p ≢ k * p
partner-ne p k pos e =
    let le = le_of_mul p (partner k) k pos (omega arith) in
    let ge = le_of_mul p k (partner k) pos (omega arith) in ground arith

test-Mate :
    {m : Memory} {size base : ℕ → ℕ} (o idx b : ℕ) (l : Layout m size base idx)
    → b < 16384
    → base b ≡ b
    → b ≢ idx
    → o < 14
    → bit_and (m.frames b) 0xBF ≡ o
    → Mate o idx b l
test-Mate {m} {size} {base} o idx b l lb starts other lt test =
    let mk = marks (size b) (l.order b lb) in
    ground (arith, l.marked b lb, mk.free, mk.taken, mk.user, starts, test)

-- The test of the loop is exact: a buddy with the mark of a free block of this order is one, at the
-- head of a free block.
pub buddy_free-Mate :
    {m : Memory} {size base : ℕ → ℕ} (o idx : ℕ) (h : Hole m size base o idx) (p : Place o idx)
    → o < 14
    → bit_and (m.frames (partner p.factor * 2 ^ o)) 0xBF ≡ o
    → Mate o idx (partner p.factor * 2 ^ o) h.layout
buddy_free-Mate {m} {size} {base} o idx h p lt test =
    let b = partner p.factor * 2 ^ o in
    let lb : b < 16384 = omega (arith, p.fits, pow-pos o) in
    let starts = buddy_starts o idx h p in
    let other : b ≢ idx = rw p.start (partner-ne (2 ^ o) p.factor (pow-pos o)) in
    test-Mate o idx b h.layout lb starts other lt test

even_units : (o k : ℕ) → k % 2 ≡ 0 → k * 2 ^ o ≡ k / 2 * 2 ^ suc o
even_units o k e =
    let half : k ≡ 2 * (k / 2) = omega arith in
    ap (λ n. n * 2 ^ o) half ∙ (rw (pow-double o) (omega arith))

odd_units : (o k : ℕ) → (k % 2 == 0) ≡ false → partner k * 2 ^ o ≡ k / 2 * 2 ^ suc o
odd_units o k e =
    let half : partner k ≡ 2 * (k / 2) = ground arith in
    ap (λ n. n * 2 ^ o) half ∙ (rw (pow-double o) (omega arith))

odd_next : (o k : ℕ) → k % 2 ≢ 0 → k * 2 ^ o ≡ (k - 1) * 2 ^ o + 2 ^ o
odd_next o k ne = let prev : k ≡ k - 1 + 1 = omega arith in ap (λ n. n * 2 ^ o) prev ∙ omega arith

Hole-fits :
    {m : Memory} {size base : ℕ → ℕ} {o idx : ℕ} → Hole m size base o idx → idx + 2 ^ o ≤ 16384
Hole-fits {o} {idx} h = ground (arith, h.layout.inside idx h.within, h.order, h.start)

sides-Halves :
    {m : Memory} {size base : ℕ → ℕ} {hole : ℕ} (l : Layout m size base hole)
    → (o low high factor : ℕ) → high ≡ low + 2 ^ o
    → o < 14
    → (size low ≡ o) × (base low ≡ low) × (size high ≡ o) × (base high ≡ high)
    → high + 2 ^ o ≤ 16384
    → low ≡ factor * 2 ^ suc o
    → Halves m size base low o
sides-Halves {size} {base} l o low high factor next lt (a, b, c, d) fits even = record {
  low_size = a;
  low_base = b;
  high_size = ap size (sym next) ∙ c;
  high_base = ap base (sym next) ∙ d ∙ next;
  small = lt;
  fits = omega (arith, pow-double o);
  factor = factor;
  even = even;
}

-- The two buddies as halves of the block above, and which of them is the hole.
pub Mate-Halves :
    {m : Memory} {size base : ℕ → ℕ} (o idx : ℕ) (h : Hole m size base o idx) (p : Place o idx)
    → o < 14
    → Mate o idx (partner p.factor * 2 ^ o) h.layout
    → let b = partner p.factor * 2 ^ o in
      let low = (if ltb idx b then idx else b) in Halves m size base low o × Sides low o idx b
Mate-Halves {m} {size} {base} o idx h p lt t =
    let b = partner p.factor * 2 ^ o in
    elim (Bool-cases (p.factor % 2 == 0)) [
      | inl e ↦
          let next : b ≡ idx + 2 ^ o = rw (e, p.start) (omega arith) in
          let below : ltb idx b ≡ true = ground (arith, next, pow-pos o) in
          rw (below) (
            sides-Halves h.layout o idx b (p.factor / 2) next lt
                (h.order, h.start, t.order, t.start) p.fits
                (p.start ∙ even_units o p.factor (ground arith)),
            inl (refl, next),
          )
      | inr e ↦
          let next : idx ≡ b + 2 ^ o = rw (e, p.start) (odd_next o p.factor (ground arith)) in
          let above : ltb idx b ≡ false = ground (arith, next, pow-pos o) in
          rw (above) (
            sides-Halves h.layout o b idx (p.factor / 2) next lt
                (t.order, t.start, h.order, h.start) (Hole-fits h) (odd_units o p.factor e),
            inr (next, refl),
          )
    ]
