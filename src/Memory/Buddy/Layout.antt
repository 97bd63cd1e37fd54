-- ===== src/Memory/Buddy/Layout.antt =====
-- The invariant of the page allocator: its blocks, free and taken, tile the heap.
-- The tiling is given by two functions: each frame `i` lies in the block of the order `size i` that
-- begins at the frame `base i`.
use ovsb_mk.Base.{ℕ, ◌+◌, ◌*◌, ◌^◌, ◌≤◌, ◌<◌, ◌≡◌, ◌≢◌, ◌⊎◌, inl, refl, arith}
use ovsb_mk.Memory.Types.{Memory, count, list_add, list_remove, set_frame, count-erase}
use ovsb_mk.Memory.Buddy.{memory_init}

-- The mark of a taken block, for the kernel or for a user process.
abbrev pub IsTaken : ℕ → ℕ → Type 0
IsTaken mark o = (mark ≡ 128 + o) ⊎ (mark ≡ 192 + o)

-- All blocks but the one that begins at `hole` are free or taken; the hole is a block that an
-- operation is working on, and 16384 stands for none.
pub record Layout (m : Memory) (size base : ℕ → ℕ) (hole : ℕ) : Type 0 where
  pub order : (i : ℕ) → i < 16384 → size i ≤ 14
  pub covers : (i : ℕ) → i < 16384 → (base i ≤ i) × (i < base i + 2 ^ size i)
  pub inside : (i : ℕ) → i < 16384 → base i + 2 ^ size i ≤ 16384
  pub aligned : (i : ℕ) → i < 16384 → (k : ℕ) × (base i ≡ k * 2 ^ size i)
  pub shared :
      (i j : ℕ)
      → i < 16384
      → base i ≤ j
      → j < base i + 2 ^ size i
      → (size j ≡ size i) × (base j ≡ base i)
  pub listed :
      (o b : ℕ)
      → 1 ≤ count b (m.free_area o)
      → (b < 16384) × (size b ≡ o) × (base b ≡ b) × (m.frames b ≡ o) × (b ≢ hole)
  pub marked :
      (i : ℕ)
      → i < 16384
      → base i ≢ hole
      → ((m.frames (base i) ≡ size i) × (1 ≤ count (base i) (m.free_area (size i))))
        ⊎ IsTaken (m.frames (base i)) (size i)
  pub once : (o b : ℕ) → count b (m.free_area o) ≤ 1
  -- A frame inside a block has no mark of a taken block.
  pub quiet : (i : ℕ) → i < 16384 → base i ≢ i → m.frames i < 128

-- Every block is free or taken.
pub record IsSound (m : Memory) : Type 0 where
  pub size : ℕ → ℕ
  pub base : ℕ → ℕ
  pub layout : Layout m size base 16384

-- `memory_init` makes one free block of the whole heap.
pub memory_init-IsSound : IsSound memory_init
unfolding memory_init
memory_init-IsSound = record {
  size = λ i. 14;
  base = λ i. 0;
  layout = record {
    order = λ i lt. omega arith;
    covers = λ i lt. (omega arith, omega arith);
    inside = λ i lt. omega arith;
    aligned = λ i lt. (0, refl);
    shared = λ i j lt lo hi. (refl, refl);
    listed = λ o b h. ground arith;
    marked = λ i lt ne. inl (refl, omega arith);
    once = λ o b. ground arith;
    quiet = λ i lt ne. ground arith;
  };
}

-- The frame at the start of a block belongs to it.
pub base-base :
    {m : Memory} {size base : ℕ → ℕ} {hole : ℕ}
    → Layout m size base hole
    → (i : ℕ) → i < 16384
    → (size (base i) ≡ size i) × (base (base i) ≡ base i)
base-base l i lt = let c = l.covers i lt in l.shared i _ lt (omega arith) (omega arith)

-- The hole becomes a free block.
pub Layout-add :
    (m : Memory) (size base : ℕ → ℕ) (o b : ℕ)
    → Layout m size base b
    → b < 16384
    → size b ≡ o
    → base b ≡ b
    → m.frames b ≡ o
    → Layout (list_add m o b) size base 16384
unfolding list_add
Layout-add m size base o b l lt so sb fb = record {
  order = l.order;
  covers = l.covers;
  inside = l.inside;
  aligned = l.aligned;
  shared = l.shared;
  listed = λ p c h. ground (arith, l.listed p c);
  marked = λ i li ne. ground (arith, l.marked i li, base-base l i li);
  once = λ p c. ground (arith, l.once p c, l.listed p c);
  quiet = l.quiet;
}

-- The hole becomes a taken block.
pub Layout-take :
    (m : Memory) (size base : ℕ → ℕ) (b mark : ℕ)
    → Layout m size base b
    → b < 16384
    → base b ≡ b
    → IsTaken mark (size b)
    → Layout (set_frame m b mark) size base 16384
Layout-take m size base b mark l lt sb t = record {
  order = l.order;
  covers = l.covers;
  inside = l.inside;
  aligned = l.aligned;
  shared = l.shared;
  listed = λ p c h. ground (arith, l.listed p c);
  marked = λ i li ne. ground (arith, l.marked i li, base-base l i li, t);
  once = l.once;
  quiet = λ i li ne. ground (arith, l.quiet i li);
}

-- A free block becomes the hole.
pub Layout-remove :
    (m : Memory) (size base : ℕ → ℕ) (o b : ℕ)
    → Layout m size base 16384
    → 1 ≤ count b (m.free_area o)
    → Layout (list_remove m o b) size base b
unfolding list_remove
Layout-remove m size base o b l h = record {
  order = l.order;
  covers = l.covers;
  inside = l.inside;
  aligned = l.aligned;
  shared = l.shared;
  listed = λ p c g.
      ground (arith, l.listed p c, l.listed o b, l.once p c, count-erase b c (m.free_area o));
  marked = λ i li ne. ground (
    arith,
    l.marked i li,
    l.covers i li,
    l.listed o b,
    base-base l i li,
    count-erase b (base i) (m.free_area o),
  );
  once = λ p c. ground (arith, l.once p c, count-erase b c (m.free_area o));
  quiet = l.quiet;
}

-- A taken block becomes the hole, with the mark of its order.
pub Layout-release :
    (m : Memory) (size base : ℕ → ℕ) (b : ℕ)
    → Layout m size base 16384
    → b < 16384
    → base b ≡ b
    → IsTaken (m.frames b) (size b)
    → Layout (set_frame m b (size b)) size base b
Layout-release m size base b l lt sb t = record {
  order = l.order;
  covers = l.covers;
  inside = l.inside;
  aligned = l.aligned;
  shared = l.shared;
  listed = λ p c g. ground (arith, l.listed p c, l.order b, t);
  marked = λ i li ne. ground (arith, l.marked i li, l.covers i li, base-base l i li);
  once = l.once;
  quiet = λ i li ne. ground (arith, l.quiet i li, l.order b);
}
