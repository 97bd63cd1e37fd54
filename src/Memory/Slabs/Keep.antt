-- ===== src/Memory/Slabs/Keep.antt =====
-- The slab caches of kernel/memory.c under the changes of one page: their invariant.
use mathlib.Core.Path.{subst}
use ovsb_mk.Base.{
  ℕ, suc, ◌≤◌, ◌<◌, ◌≡◌, ◌≢◌, ◌∙◌, ℕ_discrete, inl, sym, ap, ◌∷◌, some, none, arith, ◌==◌,
  if◌then◌else◌,
}
use ovsb_mk.Memory.Types.{count, update, erase, count-erase}
use ovsb_mk.Memory.Buddy.Layout as Buddy
use ovsb_mk.Memory.Slabs.{Slab, Heap, obj_per_slab}
use ovsb_mk.Memory.Slabs.Slots.{object_at, object_at-injective, tally, tally-once}
use ovsb_mk.Memory.Slabs.Layout.{is_used, IsSlab, HasSlab, IsSound, SameOthers}
use ovsb_mk.Memory.Slabs.Adds.{Pops, SameHeaders}

module _ (h h' : Heap) (p o : ℕ) (s s' : Slab) (pop : Pops h h' p o s s') where
  pops_front :
      (y : ℕ)
      → count y s.freelist ≡ (if y == o then suc (count y s'.freelist) else count y s'.freelist)
  pops_front y = rw pop.front (ground arith)

  -- One more object is in use.
  pops_tally :
      s.cache < 8
      → tally (is_used p s') (obj_per_slab s'.cache)
        ≡ suc (tally (is_used p s) (obj_per_slab s.cache))
  pops_tally lt =
      let (k, below, e) = pop.place in
      rw pop.cache (
        tally-once (λ j. count (object_at s.cache p j) s'.freelist == 0) (is_used p s)
          (obj_per_slab s.cache) k below (rw (← e) (ground (arith, pop.once)))
          (rw (← e) (ground (arith, pops_front o)))
          (λ j under ne.
            let other : object_at s.cache p j ≢ o =
              λ q. ne (object_at-injective s.cache p j k lt (q ∙ e)) in
            ground (arith, pops_front (object_at s.cache p j), other)))

  -- The slab behind the change.
  pub Pops-IsSlab : IsSlab p s → s'.in_use ≡ suc s.in_use → IsSlab p s'
  Pops-IsSlab v more = record {
    cache = omega (arith, v.cache, pop.cache);
    counted = more ∙ ap suc v.counted ∙ sym (pops_tally v.cache);
    used = omega arith;
    listed = λ x g. rw pop.cache (v.listed x (ground (arith, pops_front x)));
    once = λ x. ground (arith, pops_front x, v.once x);
  }

  -- The slab before it, from the one behind.
  pub Pops-IsSlab_back : IsSlab p s' → s'.in_use ≡ suc s.in_use → 1 ≤ s.in_use → IsSlab p s
  Pops-IsSlab_back v more any =
      let lt : s.cache < 8 = rw pop.cache at v.cache in
      record {
        cache = lt;
        counted = omega (arith, v.counted, pops_tally lt);
        used = any;
        listed = λ x g. elim (ℕ_discrete x o) [
          | yes e ↦ rw e pop.place
          | no ne ↦ rw (← pop.cache) (v.listed x (ground (arith, pops_front x)))
        ];
        once = λ x. ground (arith, pops_front x, v.once x, pop.once);
      }

-- A slab takes the place of another one of its cache.
pub replace-IsSound :
    (h h' : Heap) (p : ℕ) (s s' : Slab)
    → IsSound h
    → h.headers p ≡ some s
    → h'.headers p ≡ some s'
    → SameHeaders h h' p
    → h'.pages ≡ h.pages
    → h'.slabs ≡ h.slabs
    → s'.cache ≡ s.cache
    → IsSlab p s'
    → IsSound h'
replace-IsSound h h' p s s' v old new others pages slabs cache good = record {
  pages = rw pages v.pages;
  headers = λ c t e. elim (ℕ_discrete c p) [
    | yes at ↦
        let was = v.headers p s old in
        let same : s' ≡ t = cc in
        rw at (
          subst (HasSlab h' p) same (record {
            inside = was.inside;
            taken = rw pages was.taken;
            slab = good;
            listed = rw (slabs, cache) was.listed;
          }))
    | no other ↦
        let was = v.headers c t (sym (others c other) ∙ e) in
        record {
          inside = was.inside;
          taken = rw pages was.taken;
          slab = was.slab;
          listed = rw slabs was.listed;
        }
  ];
  listed = λ i c g.
      let (t, e, at) = v.listed i c (rw slabs at g) in
      elim (ℕ_discrete c p) [
        | yes same ↦
            let known : s ≡ t = cc in
            (s', ap h'.headers same ∙ new, cache ∙ ap (λ u. u.cache) known ∙ at)
        | no other ↦ (t, others c other ∙ e, at)
      ];
}

-- A block that is no slab is taken or freed.
pub pages-IsSound :
    (h h' : Heap) (b : ℕ)
    → IsSound h
    → Buddy.IsSound h'.pages
    → SameOthers h.pages h'.pages b
    → h.headers b ≡ none
    → h'.headers ≡ h.headers
    → h'.slabs ≡ h.slabs
    → IsSound h'
pages-IsSound h h' b v pages others clear headers slabs = record {
  pages = pages;
  headers = λ c t e.
      let was = v.headers c t (rw headers at e) in
      let ne : c ≢ b = λ at. absurd (cc (ap h.headers at, rw headers at e)) in
      record {
        inside = was.inside;
        taken = others c ne (inl (omega (arith, was.taken))) ∙ was.taken;
        slab = was.slab;
        listed = rw slabs was.listed;
      };
  listed = λ i c g. let (t, e, at) = v.listed i c (rw slabs at g) in (t, rw headers e, at);
}

-- A new slab is put in front of the slabs of its cache.
pub open-IsSound :
    (h h' : Heap) (p : ℕ) (s : Slab)
    → IsSound h
    → Buddy.IsSound h'.pages
    → SameOthers h.pages h'.pages p
    → h.headers p ≡ none
    → h'.headers p ≡ some s
    → SameHeaders h h' p
    → h'.slabs ≡ update h.slabs s.cache (p ∷ h.slabs s.cache)
    → p < 16384
    → h'.pages.frames p ≡ 128
    → IsSlab p s
    → IsSound h'
open-IsSound h h' p s v pages others clear new headers slabs inside mark good = record {
  pages = pages;
  headers = λ c t e. elim (ℕ_discrete c p) [
    | yes at ↦
        let same : s ≡ t = cc in
        rw at (
          subst (HasSlab h' p) same (record {
            inside = inside;
            taken = mark;
            slab = good;
            listed = rw slabs (fresh s.cache);
          }))
    | no other ↦
        let was = v.headers c t (sym (headers c other) ∙ e) in
        record {
          inside = was.inside;
          taken = others c other (inl (omega (arith, was.taken))) ∙ was.taken;
          slab = was.slab;
          listed = rw slabs (ground (arith, was.listed, other));
        }
  ];
  listed = λ i c g. elim (ℕ_discrete c p) [
    | yes at ↦ (s, ap h'.headers at ∙ new, owner i (rw (slabs, at) at g))
    | no other ↦
        let (t, e, at) = v.listed i c (ground (arith, rw slabs at g, other)) in
        (t, headers c other ∙ e, at)
  ];
}
  where
    nowhere : (i : ℕ) → count p (h.slabs i) ≡ 0
    nowhere i = elim (ℕ_discrete (count p (h.slabs i)) 0) [
      | yes e ↦ e
      | no ne ↦ let (t, e, at) = v.listed i p (omega arith) in absurd (cc)
    ]

    fresh : (i : ℕ) → count p (update h.slabs s.cache (p ∷ h.slabs s.cache) s.cache) ≡ 1
    fresh i = ground (arith, nowhere s.cache)

    owner : (i : ℕ) → 1 ≤ count p (update h.slabs s.cache (p ∷ h.slabs s.cache) i) → s.cache ≡ i
    owner i g = ground (arith, nowhere i, g)

-- A slab is taken out of its cache and its page is freed.
pub close-IsSound :
    (h h' : Heap) (p : ℕ) (s : Slab)
    → IsSound h
    → Buddy.IsSound h'.pages
    → SameOthers h.pages h'.pages p
    → h.headers p ≡ some s
    → h'.headers p ≡ none
    → SameHeaders h h' p
    → h'.slabs ≡ update h.slabs s.cache (erase p (h.slabs s.cache))
    → IsSound h'
close-IsSound h h' p s v pages others old gone headers slabs = record {
  pages = pages;
  headers = λ c t e. elim (ℕ_discrete c p) [
    | yes at ↦ absurd (cc (ap h'.headers at))
    | no other ↦
        let was = v.headers c t (sym (headers c other) ∙ e) in
        record {
          inside = was.inside;
          taken = others c other (inl (omega (arith, was.taken))) ∙ was.taken;
          slab = was.slab;
          listed = rw slabs (ground (arith, was.listed, other, count-erase p c (h.slabs s.cache)));
        }
  ];
  listed = λ i c g.
      let left = rw slabs at g in
      elim (ℕ_discrete c p) [
        | yes at ↦ absurd (emptied i (rw at at left))
        | no other ↦
            let (t, e, at) =
              v.listed i c (ground (arith, left, other, count-erase p c (h.slabs s.cache))) in
            (t, headers c other ∙ e, at)
      ];
}
  where
    once_at : (i : ℕ) → 1 ≤ count p (h.slabs i) → s.cache ≡ i
    once_at i g =
        let (t, e, at) = v.listed i p g in let same : s ≡ t = cc in ap (λ u. u.cache) same ∙ at

    emptied : (i : ℕ) → ¬ (1 ≤ count p (update h.slabs s.cache (erase p (h.slabs s.cache)) i))
    emptied i g = absurd (
        ground (arith, g, once_at i, (v.headers p s old).listed, count-erase p p (h.slabs s.cache)))
