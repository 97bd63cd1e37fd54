-- ===== src/Memory/Buddy/Merge.antt =====
-- A round of the loop of `buddy_free` in kernel/memory.c: two buddies become one block.
use ovsb_mk.Base.{
  ℕ, suc, ◌+◌, ◌*◌, ◌^◌, ◌≤◌, ◌<◌, ◌≡◌, ◌≢◌, ◌⊎◌, inl, inr, false, arith, ltb, leb, if◌then◌else◌,
  ◌&&◌, Bool, Bool-cases,
}
use ovsb_mk.Memory.Words.{pow-double, pow-pos}
use ovsb_mk.Memory.Types.{Memory, count, count-erase, list_remove, set_frame}
use ovsb_mk.Memory.Buddy.Layout.{Layout, IsTaken}

-- The block of the order `o` at the frame `b` is the one that an operation works on.
pub record Hole (m : Memory) (size base : ℕ → ℕ) (o b : ℕ) : Type 0 where
  pub layout : Layout m size base b
  pub order : size b ≡ o
  pub start : base b ≡ b
  pub within : b < 16384
  pub mark : m.frames b ≡ o

-- A frame lies in the block of the order `o` at `b`.
abbrev pub inside : (b o i : ℕ) → Bool
inside b o i = leb b i && ltb i (b + 2 ^ o)

-- Two blocks of the order `o`, at `low` and behind it, become one.
abbrev pub merged_size : (ℕ → ℕ) → (low o : ℕ) → ℕ → ℕ
merged_size size low o i = if inside low (suc o) i then suc o else size i

abbrev pub merged_base : (ℕ → ℕ) → (low o : ℕ) → ℕ → ℕ
merged_base base low o i = if inside low (suc o) i then low else base i

-- The two halves of an aligned block of the order `o + 1`: the block at `low` and the one behind it.
pub record Halves (m : Memory) (size base : ℕ → ℕ) (low o : ℕ) : Type 0 where
  pub low_size : size low ≡ o
  pub low_base : base low ≡ low
  pub high_size : size (low + 2 ^ o) ≡ o
  pub high_base : base (low + 2 ^ o) ≡ low + 2 ^ o
  pub small : o < 14
  pub fits : low + 2 ^ suc o ≤ 16384
  pub factor : ℕ
  pub even : low ≡ factor * 2 ^ suc o

-- A frame of either half belongs to that half.
inside-Halves :
    {m : Memory} {size base : ℕ → ℕ} {hole : ℕ}
    → Layout m size base hole
    → (low o : ℕ) → Halves m size base low o
    → (i : ℕ) → low ≤ i
    → i < low + 2 ^ suc o
    → (size i ≡ o) × ((base i ≡ low) ⊎ (base i ≡ low + 2 ^ o))
inside-Halves l low o h i lo hi = ground (
  arith,
  pow-double o,
  h.low_size,
  h.low_base,
  h.high_size,
  h.high_base,
  h.fits,
  l.shared low i,
  l.shared (low + 2 ^ o) i,
)

-- A frame outside lies in a block that is outside as a whole.
outside-Halves :
    {m : Memory} {size base : ℕ → ℕ} {hole : ℕ}
    → Layout m size base hole
    → (low o : ℕ) → Halves m size base low o
    → (i j : ℕ) → i < 16384
    → inside low (suc o) i ≡ false
    → base i ≤ j
    → j < base i + 2 ^ size i
    → inside low (suc o) j ≡ false
outside-Halves l low o h i j li out lo hi = elim (Bool-cases (inside low (suc o) j)) [
  | inr e ↦ e
  | inl e ↦
      absurd (ground (arith, inside-Halves l low o h j, l.shared i j, l.covers i li, pow-double o))
]

-- Which half is the hole, and which is free.
abbrev pub Sides : (low o idx buddy : ℕ) → Type 0
Sides low o idx buddy =
    ((idx ≡ low) × (buddy ≡ low + 2 ^ o)) ⊎ ((idx ≡ low + 2 ^ o) × (buddy ≡ low))

-- The memory after the round.
abbrev pub merged : Memory → (low o buddy : ℕ) → Memory
merged m low o buddy = set_frame (list_remove m o buddy) low (o + 1)

module _ {m : Memory} {size base : ℕ → ℕ} (low o idx buddy : ℕ) (l : Layout m size base idx)
    (h : Halves m size base low o) (sides : Sides low o idx buddy) where
  merged-listed :
      (p c : ℕ)
      → 1 ≤ count c ((merged m low o buddy).free_area p)
      → (c < 16384)
        × (merged_size size low o c ≡ p)
        × (merged_base base low o c ≡ c)
        × ((merged m low o buddy).frames c ≡ p)
        × (c ≢ low)
  unfolding list_remove
  merged-listed p c g = ground (
    arith,
    l.listed p c,
    l.once p c,
    count-erase buddy c (m.free_area o),
    inside-Halves l low o h c,
    h.low_size,
    h.high_size,
    sides,
  )

  merged-marked :
      (i : ℕ)
      → i < 16384
      → merged_base base low o i ≢ low
      → (((merged m low o buddy).frames (merged_base base low o i) ≡ merged_size size low o i)
          × (1
              ≤ count
                  (merged_base base low o i)
                  ((merged m low o buddy).free_area (merged_size size low o i))))
        ⊎ IsTaken
            ((merged m low o buddy).frames (merged_base base low o i))
            (merged_size size low o i)
  unfolding list_remove
  merged-marked i li ne = ground (
    arith,
    l.marked i li,
    count-erase buddy (base i) (m.free_area o),
    outside-Halves l low o h i (base i) li,
    l.covers i li,
    pow-double o,
    pow-pos o,
    sides,
  )

  merged-shared :
      (i j : ℕ)
      → i < 16384
      → merged_base base low o i ≤ j
      → j < merged_base base low o i + 2 ^ merged_size size low o i
      → (merged_size size low o j ≡ merged_size size low o i)
        × (merged_base base low o j ≡ merged_base base low o i)
  merged-shared i j li lo hi = elim (Bool-cases (inside low (suc o) i)) [
    | inl e ↦ ground (arith, e)
    | inr e ↦ ground (arith, e, outside-Halves l low o h i j li e, l.shared i j li)
  ]

  merged-aligned :
      (i : ℕ) → i < 16384 → (k : ℕ) × (merged_base base low o i ≡ k * 2 ^ merged_size size low o i)
  merged-aligned i li = elim (Bool-cases (inside low (suc o) i)) [
    | inl e ↦ (h.factor, rw e h.even)
    | inr e ↦ (let (k, q) = l.aligned i li in (k, rw e q))
  ]

  -- A frame that is no start of a block after the round was none before, or it starts the upper half.
  merged-quiet :
      m.frames idx ≡ o
      → m.frames buddy ≡ o
      → (i : ℕ) → i < 16384
      → merged_base base low o i ≢ i
      → (merged m low o buddy).frames i < 128
  unfolding list_remove
  merged-quiet mi mb i li ne =
      ground (arith, l.quiet i li, inside-Halves l low o h i, h.small, sides)

  -- After the round the heap is tiled again, with the merged block as the hole.
  pub merged-Layout :
      m.frames idx ≡ o
      → m.frames buddy ≡ o
      → Layout (merged m low o buddy) (merged_size size low o) (merged_base base low o) low
  unfolding list_remove
  merged-Layout mi mb = record {
    order = λ i li. ground (arith, l.order i li, h.small);
    covers = λ i li. ground (arith, l.covers i li);
    inside = λ i li. ground (arith, l.inside i li, h.fits);
    aligned = merged-aligned;
    shared = merged-shared;
    listed = merged-listed;
    marked = merged-marked;
    once = λ p c. ground (arith, l.once p c, count-erase buddy c (m.free_area o));
    quiet = merged-quiet mi mb;
  }
