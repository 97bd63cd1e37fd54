-- ===== src/Memory/Buddy/Result.antt =====
-- The outcome of `buddy_alloc` of kernel/memory.c, on every path.
use Prim.Native.Nat.{bit_or}
use ovsb_mk.Base.{
  ℕ, zero, suc, ◌+◌, ◌-◌, ◌*◌, ◌^◌, ◌≤◌, ◌<◌, ◌≡◌, ◌≢◌, ◌∙◌, ◌⊎◌, inl, inr, refl, ap, sym, List, [],
  ◌∷◌, none, some, false, arith, ltb, if◌then◌else◌, Bool,
}
use ovsb_mk.Memory.Words.{marks}
use ovsb_mk.Memory.Types.{Memory, count, list_remove, frame_to_addr}
use ovsb_mk.Memory.Buddy.{find_order, split_block, take_block, buddy_alloc}
use ovsb_mk.Memory.Buddy.Layout.{IsSound, IsTaken, Layout-remove, Layout-take}
use ovsb_mk.Memory.Buddy.Split.{Room}
use ovsb_mk.Memory.Buddy.Alloc.{split_block-Cut}

-- What a search through the free lists finds.
pub find_order-cases :
    (m : Memory) (o n : ℕ)
    → ((f : ℕ) × (o ≤ f) × (f < o + n) × (find_order m o n ≡ some f) × (m.free_area f ≢ []))
      ⊎ ((find_order m o n ≡ none) × ((p : ℕ) → o ≤ p → p < o + n → m.free_area p ≡ []))
unfolding find_order
find_order-cases m o zero = inr (refl, λ p lo hi. absurd (omega arith))
find_order-cases m o (suc n) = go (m.free_area o) refl (find_order-cases m (o + 1) n)
  where
    go :
        (bs : List ℕ)
        → m.free_area o ≡ bs
        → ((f : ℕ) × (o + 1 ≤ f)
            × (f < o + 1 + n)
            × (find_order m (o + 1) n ≡ some f)
            × (m.free_area f ≢ []))
          ⊎ ((find_order m (o + 1) n ≡ none)
              × ((p : ℕ) → o + 1 ≤ p → p < o + 1 + n → m.free_area p ≡ []))
        → ((f : ℕ) × (o ≤ f)
            × (f < o + suc n)
            × (find_order m o (suc n) ≡ some f)
            × (m.free_area f ≢ []))
          ⊎ ((find_order m o (suc n) ≡ none)
              × ((p : ℕ) → o ≤ p → p < o + suc n → m.free_area p ≡ []))
    go (b ∷ bs) e rest = inl (o, omega arith, omega arith, rw (e, find_order), λ z. cc)
    go [] e (inl (f, lo, hi, q, ne)) = inl (f, omega arith, omega arith, rw (e, find_order) q, ne)
    go [] e (inr (q, all)) = inr (rw (e, find_order) q, λ p lo hi. ground (arith, all p))

-- The block at the frame `b` has been handed out.
pub record Allocated (m m' : Memory) (order : ℕ) (user : Bool) (b : ℕ) : Type 0 where
  pub sound : IsSound m'
  pub fits : b + 2 ^ order ≤ 16384
  pub aligned : (k : ℕ) × (b ≡ k * 2 ^ order)
  pub was_free : m.frames b < 128
  pub mark : m'.frames b ≡ (if user then 192 + order else 128 + order)
  pub others : (c : ℕ) → c ≢ b → (128 ≤ m.frames c) ⊎ (128 ≤ m'.frames c) → m'.frames c ≡ m.frames c

take_block-Allocated :
    (m : Memory) (order found : ℕ) (user : Bool) (b : ℕ) (bs : List ℕ)
    → IsSound m
    → m.free_area found ≡ b ∷ bs
    → order ≤ found
    → found ≤ 14
    → Allocated m (take_block m order found user (b ∷ bs)).1 order user b
unfolding take_block list_remove
take_block-Allocated m order found user b bs v e lo hi =
    let l = v.layout in
    let head : 1 ≤ count b (m.free_area found) = ground arith in
    let at = l.listed found b head in
    let mk = marks order (omega arith) in
    let opened : Room (list_remove m found b) v.size v.base (order + (found - order)) b = record {
      layout = Layout-remove m v.size v.base found b l head;
      order = omega (arith, at);
      start = at.2;
      within = at.0;
    } in
    let c =
      split_block-Cut (found - order) order b (list_remove m found b) v.size v.base opened
        (omega arith) in
    let r = c.room in
    let m1 = split_block (list_remove m found b) b order (found - order) in
    let mark : ℕ = if user then bit_or (bit_or order 0x80) 0x40 else bit_or order 0x80 in
    let taken : IsTaken mark (c.size b) = ground (arith, mk.take, mk.take_user, r.order) in
    let q = r.layout.aligned b r.within in
    record {
      sound = record {
        size = c.size;
        base = c.base;
        layout = Layout-take m1 c.size c.base b mark r.layout r.within r.start taken;
      };
      fits = ground (arith, r.layout.inside b r.within, r.start, r.order);
      aligned = (q.0, sym r.start ∙ q.1 ∙ ap (λ n. q.0 * 2 ^ n) r.order);
      was_free = omega (arith, at);
      mark = ground (arith, mk.take, mk.take_user);
      others = λ d ne g. ground (arith, c.same.kept d, c.same.none_new d, g);
    }

head_of : (xs : List ℕ) → xs ≢ [] → (b : ℕ) × (bs : List ℕ) × (xs ≡ b ∷ bs)
head_of [] ne = absurd (ne refl)
head_of (b ∷ bs) ne = (b, bs, refl)

-- On a sound heap `buddy_alloc` of an order up to 14 hands out a block that was free, aligned to
-- its size and inside the heap, keeps the heap sound and every other taken block as it was; or it
-- returns NULL, changes nothing, and no free list from that order on has a block.
pub buddy_alloc-Allocated :
    (m : Memory) (order : ℕ) (user : Bool)
    → IsSound m
    → order ≤ 14
    → ((b : ℕ) × ((buddy_alloc m order user).0 ≡ some (frame_to_addr b))
        × Allocated m (buddy_alloc m order user).1 order user b)
      ⊎ ((buddy_alloc m order user ≡ (none, m))
          × ((p : ℕ) → order ≤ p → p ≤ 14 → m.free_area p ≡ []))
unfolding buddy_alloc take_block
buddy_alloc-Allocated m order user v le =
    let ok : ltb 14 order ≡ false = ground arith in
    elim (find_order-cases m order (15 - order)) [
      | inl (f, lo, hi, e, ne) ↦
          (let (b, bs, q) = head_of (m.free_area f) ne in
            inl (
              b,
              rw (ok, e, buddy_alloc, q),
              rw (ok, e, buddy_alloc, q)
                  (take_block-Allocated m order f user b bs v q lo (omega arith)),
            ))
      | inr (e, all) ↦ inr (rw (ok, e, buddy_alloc), λ p lo hi. all p lo (omega arith))
    ]
