-- ===== src/Memory/Buddy/Free.antt =====
-- `buddy_free` of kernel/memory.c: a taken block goes back to the free lists, joined with its free
-- buddies, and nothing else changes.
use Prim.Native.Nat.{bit_and, bit_xor}
use mathlib.Core.Path.{subst}
use ovsb_mk.Base.{
  ℕ, zero, suc, ◌+◌, ◌-◌, ◌*◌, ◌^◌, ◌≤◌, ◌<◌, ◌≡◌, ◌≢◌, ◌⊎◌, inl, inr, refl, sym, true, arith, ◌==◌,
  ltb, if◌then◌else◌, Bool-cases, ==_iff,
}
use ovsb_mk.Memory.Words.{pow-pos, partner, frame_aligned}
use ovsb_mk.Memory.Types.{Memory, list_add, list_remove, set_frame, frame_to_addr, addr_to_frame}
use ovsb_mk.Memory.Buddy.{merge_block, buddy_free}
use ovsb_mk.Memory.Buddy.Layout.{Layout, IsSound, IsTaken, Layout-add, Layout-release}
use ovsb_mk.Memory.Buddy.Merge.{
  Hole, Halves, Sides, merged, merged_size, merged_base, merged-Layout,
}
use ovsb_mk.Memory.Buddy.Partner.{Hole-Place, Mate, buddy_free-Mate, Mate-Halves}

-- The marks of taken blocks are the same in both memories.
pub record SameTaken (m m' : Memory) : Type 0 where
  pub kept : (c : ℕ) → 128 ≤ m.frames c → m'.frames c ≡ m.frames c
  pub none_new : (c : ℕ) → 128 ≤ m'.frames c → m'.frames c ≡ m.frames c

pub SameTaken-trans : (m n p : Memory) → SameTaken m n → SameTaken n p → SameTaken m p
SameTaken-trans m n p s t = record {
  kept = λ c h. ground (arith, s.kept c, t.kept c);
  none_new = λ c h. ground (arith, s.none_new c, t.none_new c);
}

-- The hole after a round, for the buddy `b` and the lower one of the two.
abbrev Round : (m : Memory) (size base : ℕ → ℕ) (o b low : ℕ) → Type 0
Round m size base o b low =
    Hole (merged m low o b) (merged_size size low o) (merged_base base low o) (o + 1) low
    × SameTaken m (merged m low o b)

Mate-Round :
    {m : Memory} {size base : ℕ → ℕ} (o idx b low : ℕ) (h : Hole m size base o idx)
    → Mate o idx b h.layout
    → Halves m size base low o
    → Sides low o idx b
    → Round m size base o b low
unfolding list_remove
Mate-Round {m} {size} {base} o idx b low h t halves sides = (
  record {
    layout = merged-Layout low o idx b h.layout halves sides h.mark t.mark;
    order = ground (arith, pow-pos (suc o));
    start = ground (arith, pow-pos (suc o));
    within = omega (arith, halves.fits, pow-pos (suc o));
    mark = ground arith;
  },
  record {
    kept = λ c g. ground (arith, sides, h.mark, t.mark, halves.small);
    none_new = λ c g. ground (arith, halves.small);
  },
)

-- A round whose test passes.
round_lem :
    {m : Memory} {size base : ℕ → ℕ} (o idx : ℕ)
    → Hole m size base o idx
    → o < 14
    → (bit_and (m.frames (bit_xor idx (2 ^ o))) 0xBF == o) ≡ true
    → let b = bit_xor idx (2 ^ o) in Round m size base o b (if ltb idx b then idx else b)
round_lem {m} {size} {base} o idx h lt test =
    let p = Hole-Place h lt in
    subst
      (λ b.
        (bit_and (m.frames b) 0xBF == o) ≡ true
        → Round m size base o b (if ltb idx b then idx else b))
      (sym p.other)
      (λ hit.
        let t = buddy_free-Mate o idx h p lt ((==_iff _ o).0 hit) in
        let (halves, sides) = Mate-Halves o idx h p lt t in
        Mate-Round o idx (partner p.factor * 2 ^ o) _ h t halves sides)
      test

last_lem :
    (o idx : ℕ) (m : Memory) (size base : ℕ → ℕ)
    → Hole m size base o idx
    → IsSound (list_add m o idx) × SameTaken m (list_add m o idx)
unfolding list_add
last_lem o idx m size base h = (
  record {
    size = size;
    base = base;
    layout = Layout-add m size base o idx h.layout h.within h.order h.start h.mark;
  },
  record { kept = λ c g. refl; none_new = λ c g. refl },
)

-- The loop ends in a sound heap with the same taken blocks.
pub merge_block-IsSound :
    (n o idx : ℕ) (m : Memory) (size base : ℕ → ℕ)
    → Hole m size base o idx
    → o + n ≡ 14
    → IsSound (merge_block m idx o n) × SameTaken m (merge_block m idx o n)
unfolding merge_block
merge_block-IsSound zero o idx m size base h e = last_lem o idx m size base h
merge_block-IsSound (suc n) o idx m size base h e =
    elim (Bool-cases (bit_and (m.frames (bit_xor idx (2 ^ o))) 0xBF == o)) [
      | inl hit ↦
          let b = bit_xor idx (2 ^ o) in
          let low : ℕ = if ltb idx b then idx else b in
          let (h', same) = round_lem o idx h (omega arith) hit in
          let (sound, rest) =
            merge_block-IsSound n (o + 1) low (merged m low o b) (merged_size size low o)
              (merged_base base low o) h' (omega arith) in
          rw hit (sound, SameTaken-trans m (merged m low o b) _ same rest)
      | inr miss ↦ rw miss (last_lem o idx m size base h)
    ]

-- A taken mark stands at the start of a block, and names its order.
pub taken_block :
    (m : Memory) (size base : ℕ → ℕ) (b o : ℕ)
    → Layout m size base 16384
    → b < 16384
    → o ≤ 14
    → IsTaken (m.frames b) o
    → (base b ≡ b) × (size b ≡ o)
taken_block m size base b o l lt lo t = ground (arith, l.quiet b lt, l.marked b lt, l.order b lt, t)

-- The guards pass for the address of a frame.
pub buddy_free-merge :
    (m : Memory) (b o : ℕ)
    → b < 16384
    → o ≤ 14
    → buddy_free m (frame_to_addr b) o ≡ merge_block (set_frame m b o) b o (14 - o)
unfolding buddy_free
buddy_free-merge m b o lt lo =
    let back : addr_to_frame (frame_to_addr b) ≡ b = omega arith in
    ground (arith, frame_aligned b, back)

-- On a sound heap `buddy_free` of the address of a taken block, with its order, keeps the heap
-- sound; that block is no longer taken, and every other frame has the mark of a taken block
-- exactly if it had it before, and the same one.
pub buddy_free-IsSound :
    (m : Memory) (b o : ℕ)
    → IsSound m
    → b < 16384
    → o ≤ 14
    → IsTaken (m.frames b) o
    → IsSound (buddy_free m (frame_to_addr b) o)
      × ((buddy_free m (frame_to_addr b) o).frames b < 128)
      × ((c : ℕ)
          → c ≢ b
          → (128 ≤ m.frames c) ⊎ (128 ≤ (buddy_free m (frame_to_addr b) o).frames c)
          → (buddy_free m (frame_to_addr b) o).frames c ≡ m.frames c)
buddy_free-IsSound m b o v lt lo t =
    let (starts, sized) = taken_block m v.size v.base b o v.layout lt lo t in
    let l = Layout-release m v.size v.base b v.layout lt starts (rw sized t) in
    let h : Hole (set_frame m b o) v.size v.base o b = record {
      layout = rw sized at l;
      order = sized;
      start = starts;
      within = lt;
      mark = ground arith;
    } in
    let (sound, same) =
      merge_block-IsSound (14 - o) o b (set_frame m b o) v.size v.base h (omega arith) in
    rw (buddy_free-merge m b o lt lo) (
      sound,
      ground (arith, same.none_new b),
      λ c ne g. ground (arith, same.none_new c, same.kept c, g),
    )
