-- ===== src/Memory/Buddy/Alloc.antt =====
-- `buddy_alloc` of kernel/memory.c: what it returns was free, is aligned and inside the heap, and
-- overlaps nothing that is taken.
use Prim.Native.Nat.{bit_xor}
use ovsb_mk.Base.{ℕ, zero, suc, ◌+◌, ◌-◌, ◌*◌, ◌^◌, ◌≤◌, ◌<◌, ◌≡◌, ◌∙◌, refl, ap, sym, arith}
use ovsb_mk.Memory.Words.{pow-double, pow-pos, partner, xor-partner, lt_of_mul}
use ovsb_mk.Memory.Types.{Memory, list_add}
use ovsb_mk.Memory.Buddy.{split_block}
use ovsb_mk.Memory.Buddy.Partner.{heap_units}
use ovsb_mk.Memory.Buddy.Free.{SameTaken, SameTaken-trans}
use ovsb_mk.Memory.Buddy.Split.{Room, cut, cut_size, cut_base, cut-Room}

-- The buddy of the lower half is the upper half.
upper_half :
    {m : Memory} {size base : ℕ → ℕ} (b o : ℕ)
    → Room m size base (suc o) b
    → o < 14
    → bit_xor b (2 ^ o) ≡ b + 2 ^ o
upper_half {base} b o r lt =
    let (k, q) = r.layout.aligned b r.within in
    let at : b ≡ k * 2 * 2 ^ o =
      sym r.start ∙ q ∙ ap (λ n. k * 2 ^ n) r.order ∙ (rw (pow-double o) (omega arith)) in
    let units = heap_units o lt in
    let below : k * 2 < 2 ^ (14 - o) =
      lt_of_mul (2 ^ o) (k * 2) (2 ^ (14 - o)) (pow-pos o) (omega (arith, r.within)) in
    let even : partner (k * 2) ≡ k * 2 + 1 = ground arith in
    ap (λ n. bit_xor n (2 ^ o)) at
    ∙ xor-partner o (k * 2) lt below
    ∙ ap (λ n. n * 2 ^ o) even
    ∙ omega arith

cut-SameTaken :
    {m : Memory} {size base : ℕ → ℕ} (b o : ℕ)
    → Room m size base (suc o) b
    → SameTaken m (cut m b o)
unfolding list_add
cut-SameTaken {m} {size} {base} b o r =
    let high = b + 2 ^ o in
    let within : high < 16384 = omega (
      arith,
      r.layout.inside b r.within,
      r.order,
      r.start,
      pow-double o,
      pow-pos o,
      ap (λ n. 2 ^ n) r.order,
    ) in
    let part =
      r.layout.shared b high r.within (omega (arith, r.start))
        (omega (arith, r.start, pow-double o, pow-pos o, ap (λ n. 2 ^ n) r.order)) in
    let calm : m.frames high < 128 =
      r.layout.quiet high within (λ e. omega (arith, part, r.start, pow-pos o)) in
    let small : o < 128 = omega (arith, r.layout.order b r.within, r.order) in
    record {
      kept = λ c g. ground (arith, calm, small);
      none_new = λ c g. ground (arith, calm, small);
    }

-- The block after all its cuts.
pub record Cut (m m' : Memory) (order b : ℕ) : Type 0 where
  pub size : ℕ → ℕ
  pub base : ℕ → ℕ
  pub room : Room m' size base order b
  pub same : SameTaken m m'

pub split_block-Cut :
    (n order b : ℕ) (m : Memory) (size base : ℕ → ℕ)
    → Room m size base (order + n) b
    → order + n ≤ 14
    → Cut m (split_block m b order n) order b
unfolding split_block
split_block-Cut zero order b m size base r le = record {
  size = size;
  base = base;
  room = record {
    layout = r.layout;
    order = omega (arith, r.order);
    start = r.start;
    within = r.within;
  };
  same = record { kept = λ c g. refl; none_new = λ c g. refl };
}
split_block-Cut (suc n) order b m size base r le =
    let o = order + n in
    let room : Room m size base (suc o) b = record {
      layout = r.layout;
      order = omega (arith, r.order);
      start = r.start;
      within = r.within;
    } in
    let rest =
      split_block-Cut n order b (cut m b o) (cut_size size b o) (cut_base base b o)
        (cut-Room b o room) (omega arith) in
    let whole : Cut m (split_block (cut m b o) b order n) order b = record {
      size = Cut.size rest;
      base = Cut.base rest;
      room = Cut.room rest;
      same = SameTaken-trans m (cut m b o) _ (cut-SameTaken b o room) (Cut.same rest);
    } in
    rw (upper_half b o room (omega arith)) whole
