-- ===== src/Memory/Buddy/Split.antt =====
-- A round of the second loop of `buddy_alloc` in kernel/memory.c: a block is cut into its halves,
-- and the upper one goes to a free list.
use ovsb_mk.Base.{
  ℕ, suc, ◌+◌, ◌*◌, ◌^◌, ◌≤◌, ◌<◌, ◌≡◌, ◌≢◌, ◌∙◌, ◌⊎◌, inl, inr, ap, sym, true, false, arith,
  if◌then◌else◌, Bool-cases,
}
use ovsb_mk.Memory.Words.{pow-double, pow-pos}
use ovsb_mk.Memory.Types.{Memory, count, list_add, set_frame}
use ovsb_mk.Memory.Buddy.Layout.{Layout, IsTaken}
use ovsb_mk.Memory.Buddy.Merge.{inside}

-- The block of the order `o` at `b`, out of the free lists.
pub record Room (m : Memory) (size base : ℕ → ℕ) (o b : ℕ) : Type 0 where
  pub layout : Layout m size base b
  pub order : size b ≡ o
  pub start : base b ≡ b
  pub within : b < 16384

abbrev pub cut_size : (ℕ → ℕ) → (b o : ℕ) → ℕ → ℕ
cut_size size b o i = if inside b (suc o) i then o else size i

abbrev pub cut_base : (ℕ → ℕ) → (b o : ℕ) → ℕ → ℕ
cut_base base b o i = if inside b (suc o) i then (if inside b o i then b else b + 2 ^ o) else base i

-- The memory after the round.
abbrev pub cut : Memory → (b o : ℕ) → Memory
cut m b o = list_add (set_frame m (b + 2 ^ o) o) o (b + 2 ^ o)

module _ {m : Memory} {size base : ℕ → ℕ} (b o : ℕ) (r : Room m size base (suc o) b) where
  -- A frame of the block, and one outside.
  whole : (i : ℕ) → inside b (suc o) i ≡ true → (size i ≡ suc o) × (base i ≡ b) × (i < 16384)
  whole i e =
      ground (arith, r.layout.shared b i r.within, r.layout.inside b r.within, r.order, r.start)

  apart :
      (i j : ℕ)
      → i < 16384
      → inside b (suc o) i ≡ false
      → base i ≤ j
      → j < base i + 2 ^ size i
      → inside b (suc o) j ≡ false
  apart i j li out lo hi = elim (Bool-cases (inside b (suc o) j)) [
    | inr e ↦ e
    | inl e ↦ absurd (ground (arith, whole j e, r.layout.shared i j li lo hi, r.layout.covers i li))
  ]

  cut-aligned : (i : ℕ) → i < 16384 → (k : ℕ) × (cut_base base b o i ≡ k * 2 ^ cut_size size b o i)
  cut-aligned i li = elim (Bool-cases (inside b (suc o) i)) [
    | inr e ↦ (let (k, q) = r.layout.aligned i li in (k, rw e q))
    | inl e ↦
        (let (k, q) = r.layout.aligned b r.within in
          let at : b ≡ k * 2 * 2 ^ o =
            sym r.start ∙ q ∙ ap (λ n. k * 2 ^ n) r.order ∙ (rw (pow-double o) (omega arith)) in
          elim (Bool-cases (inside b o i)) [
            | inl low ↦ (k * 2, rw (e, low) at)
            | inr high ↦ (k * 2 + 1, rw (e, high) (omega arith))
          ])
  ]

  cut-shared :
      (i j : ℕ)
      → i < 16384
      → cut_base base b o i ≤ j
      → j < cut_base base b o i + 2 ^ cut_size size b o i
      → (cut_size size b o j ≡ cut_size size b o i) × (cut_base base b o j ≡ cut_base base b o i)
  cut-shared i j li lo hi = elim (Bool-cases (inside b (suc o) i)) [
    | inl e ↦ ground (arith, e, pow-double o, pow-pos o)
    | inr e ↦ ground (arith, e, apart i j li e, r.layout.shared i j li)
  ]

  cut-listed :
      (p c : ℕ)
      → 1 ≤ count c ((cut m b o).free_area p)
      → (c < 16384)
        × (cut_size size b o c ≡ p)
        × (cut_base base b o c ≡ c)
        × ((cut m b o).frames c ≡ p)
        × (c ≢ b)
  unfolding list_add
  cut-listed p c g =
      ground (arith, r.layout.listed p c, whole c, whole (b + 2 ^ o), pow-double o, pow-pos o)

  cut-marked :
      (i : ℕ)
      → i < 16384
      → cut_base base b o i ≢ b
      → (((cut m b o).frames (cut_base base b o i) ≡ cut_size size b o i)
          × (1 ≤ count (cut_base base b o i) ((cut m b o).free_area (cut_size size b o i))))
        ⊎ IsTaken ((cut m b o).frames (cut_base base b o i)) (cut_size size b o i)
  unfolding list_add
  cut-marked i li ne = elim (Bool-cases (inside b (suc o) i)) [
    | inl e ↦ ground (arith, e)
    | inr e ↦ ground (
      arith,
      e,
      r.layout.marked i li,
      r.layout.covers i li,
      apart i (base i) li e,
      pow-double o,
      pow-pos o,
    )
  ]

  cut-once : (p c : ℕ) → count c ((cut m b o).free_area p) ≤ 1
  unfolding list_add
  cut-once p c = ground (
    arith,
    r.layout.once p c,
    r.layout.listed o (b + 2 ^ o),
    whole (b + 2 ^ o),
    pow-double o,
    pow-pos o,
  )

  cut-quiet : (i : ℕ) → i < 16384 → cut_base base b o i ≢ i → (cut m b o).frames i < 128
  unfolding list_add
  cut-quiet i li ne = elim (Bool-cases (inside b (suc o) i)) [
    | inl e ↦ ground (arith, e, whole i e, r.layout.quiet i li, r.layout.order b r.within, r.order)
    | inr e ↦ ground (arith, e, r.layout.quiet i li, r.layout.order b r.within, r.order)
  ]

  -- After the round the heap is tiled again, with the lower half as the hole.
  pub cut-Room : Room (cut m b o) (cut_size size b o) (cut_base base b o) o b
  unfolding list_add
  cut-Room = record {
    layout = record {
      order = λ i li. ground (arith, r.layout.order i li, r.layout.order b r.within, r.order);
      covers = λ i li. ground (arith, r.layout.covers i li, pow-double o);
      inside = λ i li.
          ground (
            arith,
            r.layout.inside i li,
            r.layout.inside b r.within,
            r.order,
            r.start,
            pow-double o,
          );
      aligned = cut-aligned;
      shared = cut-shared;
      listed = cut-listed;
      marked = cut-marked;
      once = cut-once;
      quiet = cut-quiet;
    };
    order = ground (arith, pow-pos (suc o));
    start = ground (arith, pow-pos (suc o), pow-pos o);
    within = r.within;
  }
