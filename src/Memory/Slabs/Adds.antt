-- ===== src/Memory/Slabs/Adds.antt =====
-- What a change of one page gives to the kernel: an object of a slab, or a block of pages.
use mathlib.Core.Path.{subst}
use ovsb_mk.Base.{
  ℕ, suc, ◌+◌, ◌≤◌, ◌<◌, ◌≡◌, ◌≢◌, ◌∙◌, ◌↔◌, ℕ_discrete, inl, inr, sym, ap, ◌∷◌, some, none, arith,
  ◌==◌, if◌then◌else◌,
}
use ovsb_mk.Memory.Types.{count, addr_to_frame, frame_to_addr}
use ovsb_mk.Memory.Slabs.{Slab, Heap, obj_per_slab}
use ovsb_mk.Memory.Slabs.Slots.{object_at}
use ovsb_mk.Memory.Slabs.Layout.{IsOwned, Adds, SameOthers, owned_elsewhere}

-- Of a pair of heaps, the headers are the same but for one page.
abbrev pub SameHeaders : Heap → Heap → ℕ → Type 0
SameHeaders h h' p = (c : ℕ) → c ≢ p → h'.headers c ≡ h.headers c

-- At a page with the header `s`, an address is owned exactly if it is an object in use.
pub owned_at :
    (h : Heap) (y : ℕ) (s : Slab)
    → h.headers (addr_to_frame y) ≡ some s
    → IsOwned h y
    → ((k : ℕ) × (k < obj_per_slab s.cache) × (y ≡ object_at s.cache (addr_to_frame y) k))
      × (count y s.freelist ≡ 0)
owned_at h y s e (inl (t, e', k, free)) =
    let same : t ≡ s = cc in
    subst
      (λ u.
        ((k : ℕ) × (k < obj_per_slab u.cache) × (y ≡ object_at u.cache (addr_to_frame y) k))
        × (count y u.freelist ≡ 0))
      same (k, free)
owned_at h y s e (inr (at, inside, e', o)) = absurd (cc)

-- The object `o` leaves the free list of the slab at `p`.
pub record Pops (h h' : Heap) (p o : ℕ) (s s' : Slab) : Type 0 where
  pub old : h.headers p ≡ some s
  pub new : h'.headers p ≡ some s'
  pub headers : SameHeaders h h' p
  pub frames : (c : ℕ) → h'.pages.frames c ≡ h.pages.frames c
  pub cache : s'.cache ≡ s.cache
  pub front : s.freelist ≡ o ∷ s'.freelist
  pub once : count o s'.freelist ≡ 0
  pub page : addr_to_frame o ≡ p
  pub place : (k : ℕ) × (k < obj_per_slab s.cache) × (o ≡ object_at s.cache p k)

module _ (h h' : Heap) (p o : ℕ) (s s' : Slab) (pop : Pops h h' p o s s') where
  pops_count :
      (y : ℕ)
      → count y s.freelist ≡ (if o == y then suc (count y s'.freelist) else count y s'.freelist)
  pops_count y = rw pop.front (ground arith)

  pops_owned : (y : ℕ) → y ≢ o → addr_to_frame y ≡ p → IsOwned h y ↔ IsOwned h' y
  pops_owned y ne at = (
    λ own.
        let (k, free) = owned_at h y s (ap h.headers at ∙ pop.old) own in
        inl (s', ap h'.headers at ∙ pop.new, rw pop.cache k, ground (arith, pops_count y, free)),
    λ own.
        let (k, free) = owned_at h' y s' (ap h'.headers at ∙ pop.new) own in
        inl (s, ap h.headers at ∙ pop.old, rw (← pop.cache) k, ground (arith, pops_count y, free)),
  )

  pub Pops-Adds : Adds h h' o
  Pops-Adds = record {
    before = λ own.
        let (k, free) = owned_at h o s (ap h.headers pop.page ∙ pop.old) own in
        ground (arith, pops_count o, free);
    after =
        inl (s', ap h'.headers pop.page ∙ pop.new, rw (pop.page, pop.cache) pop.place, pop.once);
    kept = λ y ne own. elim (ℕ_discrete (addr_to_frame y) p) [
      | yes at ↦ (pops_owned y ne at).0 own
      | no other ↦
          owned_elsewhere h h' y (pop.headers (addr_to_frame y) other)
            (λ g. pop.frames (addr_to_frame y)) own
    ];
    none_new = λ y ne own. elim (ℕ_discrete (addr_to_frame y) p) [
      | yes at ↦ (pops_owned y ne at).1 own
      | no other ↦
          owned_elsewhere h' h y (sym (pop.headers (addr_to_frame y) other))
            (λ g. sym (pop.frames (addr_to_frame y))) own
    ];
  }

-- A page that was free has become a slab of which only `o` is in use.
pub record Opens (h h' : Heap) (p o : ℕ) (s : Slab) : Type 0 where
  pub old : h.headers p ≡ none
  pub was_free : h.pages.frames p < 128
  pub new : h'.headers p ≡ some s
  pub headers : SameHeaders h h' p
  pub others : SameOthers h.pages h'.pages p
  pub page : addr_to_frame o ≡ p
  pub place : (k : ℕ) × (k < obj_per_slab s.cache) × (o ≡ object_at s.cache p k)
  pub gone : count o s.freelist ≡ 0
  pub rest :
      (k : ℕ)
      → k < obj_per_slab s.cache
      → object_at s.cache p k ≢ o
      → 1 ≤ count (object_at s.cache p k) s.freelist

-- A page that is free owns nothing.
unowned :
    (h : Heap) (y : ℕ)
    → h.headers (addr_to_frame y) ≡ none
    → h.pages.frames (addr_to_frame y) < 128
    → ¬ IsOwned h y
unowned h y e low (inl (t, e', k, free)) = absurd (cc)
unowned h y e low (inr (at, inside, e', (o, le, mark))) = absurd (omega arith)

module _ (h h' : Heap) (p o : ℕ) (s : Slab) (open' : Opens h h' p o s) where
  opens_nothing : (y : ℕ) → addr_to_frame y ≡ p → ¬ IsOwned h y
  opens_nothing y at = unowned h y (ap h.headers at ∙ open'.old) (rw at open'.was_free)

  opens_only : (y : ℕ) → y ≢ o → addr_to_frame y ≡ p → ¬ IsOwned h' y
  opens_only y ne at own =
      let ((k, lt, e), free) = owned_at h' y s (ap h'.headers at ∙ open'.new) own in
      let e' : y ≡ object_at s.cache p k = e ∙ ap (λ q. object_at s.cache q k) at in
      let some_left = open'.rest k lt (λ q. ne (e' ∙ q)) in
      let same : count y s.freelist ≡ count (object_at s.cache p k) s.freelist =
        ap (λ x. count x s.freelist) e' in
      absurd (omega (arith, some_left, same, free))

  pub Opens-Adds : Adds h h' o
  Opens-Adds = record {
    before = opens_nothing o open'.page;
    after = inl (s, ap h'.headers open'.page ∙ open'.new, rw open'.page open'.place, open'.gone);
    kept = λ y ne own. elim (ℕ_discrete (addr_to_frame y) p) [
      | yes at ↦ absurd (opens_nothing y at own)
      | no other ↦
          owned_elsewhere h h' y (open'.headers (addr_to_frame y) other)
            (λ g. open'.others (addr_to_frame y) other (inl g)) own
    ];
    none_new = λ y ne own. elim (ℕ_discrete (addr_to_frame y) p) [
      | yes at ↦ absurd (opens_only y ne at own)
      | no other ↦
          owned_elsewhere h' h y (sym (open'.headers (addr_to_frame y) other))
            (λ g. sym (open'.others (addr_to_frame y) other (inr g))) own
    ];
  }

-- A block of pages at the frame `b` has been taken for the kernel.
pub record Takes (h h' : Heap) (b order : ℕ) : Type 0 where
  pub inside : b < 16384
  pub small : order ≤ 14
  pub no_slab : h.headers b ≡ none
  pub was_free : h.pages.frames b < 128
  pub mark : h'.pages.frames b ≡ 128 + order
  pub headers : (c : ℕ) → h'.headers c ≡ h.headers c
  pub others : SameOthers h.pages h'.pages b

module _ (h h' : Heap) (b order : ℕ) (take : Takes h h' b order) where
  takes_nothing : (y : ℕ) → addr_to_frame y ≡ b → ¬ IsOwned h y
  takes_nothing y at = unowned h y (ap h.headers at ∙ take.no_slab) (rw at take.was_free)

  takes_only : (y : ℕ) → y ≢ frame_to_addr b → addr_to_frame y ≡ b → ¬ IsOwned h' y
  takes_only y ne at (inl (t, e, k, free)) =
      let clear : h'.headers (addr_to_frame y) ≡ none =
        ap h'.headers at ∙ take.headers b ∙ take.no_slab in
      absurd (cc)
  takes_only y ne at (inr (place, inside, e, o)) = ne (place ∙ ap frame_to_addr at)

  pub Takes-Adds : Adds h h' (frame_to_addr b)
  Takes-Adds =
      let back : addr_to_frame (frame_to_addr b) ≡ b = omega (arith, take.inside) in
      record {
        before = takes_nothing (frame_to_addr b) back;
        after = inr (
          ap frame_to_addr (sym back),
          omega (arith, take.inside),
          ap h'.headers back ∙ take.headers b ∙ take.no_slab,
          (order, take.small, ap h'.pages.frames back ∙ take.mark),
        );
        kept = λ y ne own. elim (ℕ_discrete (addr_to_frame y) b) [
          | yes at ↦ absurd (takes_nothing y at own)
          | no other ↦
              owned_elsewhere h h' y (take.headers (addr_to_frame y))
                (λ g. take.others (addr_to_frame y) other (inl g)) own
        ];
        none_new = λ y ne own. elim (ℕ_discrete (addr_to_frame y) b) [
          | yes at ↦ absurd (takes_only y ne at own)
          | no other ↦
              owned_elsewhere h' h y (sym (take.headers (addr_to_frame y)))
                (λ g. sym (take.others (addr_to_frame y) other (inr g))) own
        ];
      }
