-- ===== src/Memory/Slabs/Alloc.antt =====
-- `slab_alloc` of kernel/memory.c on every path.
use Prim.Native.Nat.{bit_and}
use mathlib.Core.Path.{subst}
use ovsb_mk.Base.{
  ℕ, suc, ◌+◌, ◌*◌, ◌%◌, ◌^◌, ◌≤◌, ◌<◌, ◌≡◌, ◌∙◌, ap, List, [], ◌∷◌, refl, false, arith, Option,
  Option-cases, length, none, some, ◌⊎◌, inl, inr,
}
use ovsb_mk.Memory.Types.{Memory, count, addr_to_frame, frame_to_addr, frame_size}
use ovsb_mk.Memory.Buddy.{buddy_alloc}
use ovsb_mk.Memory.Buddy.Result.{Allocated, buddy_alloc-Allocated}
use ovsb_mk.Memory.Slabs.{
  Slab, Heap, obj_size, obj_per_slab, objects, pop_object, alloc_listed, new_slab, slab_alloc,
  grow_cache,
}
use ovsb_mk.Memory.Slabs.Slots.{object_page, cache_Sizes, tally-le}
use ovsb_mk.Memory.Slabs.Layout.{IsSlab, IsSound, Adds, is_used}
use ovsb_mk.Memory.Slabs.Adds.{Pops, Pops-Adds, Opens, Opens-Adds}
use ovsb_mk.Memory.Slabs.Keep.{Pops-IsSlab, replace-IsSound, open-IsSound}
use ovsb_mk.Memory.Slabs.Carve.{Carved, objects-Carved, Carved-ne-nil, Carved-IsSlab}

-- How many bytes there are at an address that the kernel has been given.
abbrev pub room : Heap → ℕ → ℕ
room h x = elim (h.headers (addr_to_frame x)) [
  | some s ↦ obj_size s.cache
  | none ↦ 2 ^ bit_and (h.pages.frames (addr_to_frame x)) 0x3F * frame_size
]

room-slab :
    (h : Heap) (x : ℕ) (s : Slab)
    → h.headers (addr_to_frame x) ≡ some s
    → room h x ≡ obj_size s.cache
room-slab h x s e = rw (e, room)

pub room-block :
    (h : Heap) (x : ℕ)
    → h.headers (addr_to_frame x) ≡ none
    → room h x ≡ 2 ^ bit_and (h.pages.frames (addr_to_frame x)) 0x3F * frame_size
room-block h x e = rw (e, room)

-- The address `o` with `n` bytes has been given out.
pub record Handed (h h' : Heap) (n o : ℕ) : Type 0 where
  pub sound : IsSound h'
  pub adds : Adds h h' o
  pub holds : room h' o ≡ n

-- The first slab with a free object.
abbrev Found : Heap → List ℕ → Type 0
Found h ps =
    (page o : ℕ) × (os : List ℕ) × (s : Slab) × (1 ≤ count page ps)
    × (h.headers page ≡ some s)
    × (s.freelist ≡ o ∷ os)
    × (alloc_listed h ps ≡ some (o, pop_object h page s os))

-- The search passes over a slab.
alloc_listed-skip :
    (h : Heap) (p : ℕ) (ps : List ℕ)
    → alloc_listed h (p ∷ ps) ≡ alloc_listed h ps
    → (alloc_listed h ps ≡ none) ⊎ Found h ps
    → (alloc_listed h (p ∷ ps) ≡ none) ⊎ Found h (p ∷ ps)
alloc_listed-skip h p ps same (inl nothing) = inl (same ∙ nothing)
alloc_listed-skip h p ps same (inr (page, o, os, s, g, e, q, r)) =
    inr (page, o, os, s, ground arith, e, q, same ∙ r)

List-cases : (xs : List ℕ) → (xs ≡ []) ⊎ ((y : ℕ) × (ys : List ℕ) × (xs ≡ y ∷ ys))
List-cases [] = inl refl
List-cases (y ∷ ys) = inr (y, ys, refl)

alloc_listed-cases : (h : Heap) (ps : List ℕ) → (alloc_listed h ps ≡ none) ⊎ Found h ps
unfolding alloc_listed
alloc_listed-cases h [] = inl refl
alloc_listed-cases h (p ∷ ps) =
    let skip = λ (same : alloc_listed h (p ∷ ps) ≡ alloc_listed h ps).
      alloc_listed-skip h p ps same (alloc_listed-cases h ps) in
    elim (Option-cases (h.headers p)) [
      | inl e ↦ skip (rw (e, alloc_listed))
      | inr (s, e) ↦ elim (List-cases s.freelist) [
        | inl q ↦ skip (rw (e, alloc_listed, q))
        | inr (o, os, q) ↦ inr (p, o, os, s, ground arith, e, q, rw (e, alloc_listed, q) refl)
      ]
    ]

-- An object of a slab that is there already.
pop-Handed :
    (h : Heap) (page o : ℕ) (os : List ℕ) (s : Slab)
    → IsSound h
    → h.headers page ≡ some s
    → s.freelist ≡ o ∷ os
    → Handed h (pop_object h page s os) (obj_size s.cache) o
pop-Handed h page o os s v e q =
    let at = v.headers page s e in
    let few = tally-le (is_used page s) (obj_per_slab s.cache) in
    let z = cache_Sizes s.cache at.slab.cache in
    let place = at.slab.listed o (rw q (ground arith)) in
    let there : addr_to_frame o ≡ page =
      ap addr_to_frame place.2 ∙ object_page s.cache page place.0 at.slab.cache at.inside place.1 in
    let h' = pop_object h page s os in
    let s' : Slab = record s { freelist = os; in_use = (s.in_use + 1) % 2 ^ 32 } in
    let more : (s.in_use + 1) % 2 ^ 32 ≡ suc s.in_use =
      omega (arith, at.slab.counted, few, z.few) in
    let pop : Pops h h' page o s s' = record {
      old = e;
      new = ground arith;
      headers = λ c ne. ground arith;
      frames = λ c. refl;
      cache = refl;
      front = q;
      once = ground (arith, at.slab.once o, q);
      page = there;
      place = place;
    } in
    let good : IsSlab page s' = Pops-IsSlab h _ page o s s' pop at.slab more in
    record {
      sound = replace-IsSound h _ page s s' v e pop.new pop.headers refl refl refl good;
      adds = Pops-Adds h _ page o s s' pop;
      holds = omega (arith, room-slab h' o s' (ap h'.headers there ∙ pop.new));
    }

-- The frame that a block was taken from had no header.
pub fresh_header : (h : Heap) (b : ℕ) → IsSound h → h.pages.frames b < 128 → h.headers b ≡ none
fresh_header h b v low = elim (Option-cases (h.headers b)) [
  | inl e ↦ e
  | inr (s, e) ↦ absurd (omega (arith, (v.headers b s e).taken))
]

-- The first object of a new slab, at the page `b`.
new_slab-Handed :
    (h : Heap) (m : Memory) (c b o : ℕ) (os : List ℕ)
    → IsSound h
    → c < 8
    → Allocated h.pages m 0 false b
    → Carved c b (o ∷ os)
    → Handed h (new_slab (record h { pages = m }) c b (o ∷ os)).1 (obj_size c) o
unfolding new_slab
new_slab-Handed h m c b o os v lt a carved =
    let h' = (new_slab (record h { pages = m }) c b (o ∷ os)).1 in
    let inside : b < 16384 = omega (arith, a.fits) in
    let clear = fresh_header h b v a.was_free in
    let place = carved.only o (ground arith) in
    let there : addr_to_frame o ≡ b =
      ap addr_to_frame place.2 ∙ object_page c b place.0 lt inside place.1 in
    let s : Slab = record {
      in_use = 1;
      total = (suc (length os)) % 2 ^ 16;
      freelist = os;
      cache = c;
    } in
    let good = Carved-IsSlab c b ((suc (length os)) % 2 ^ 16) o os lt carved in
    let opened : Opens h h' b o s = record {
      old = clear;
      was_free = a.was_free;
      new = ground arith;
      headers = λ d ne. ground arith;
      others = a.others;
      page = there;
      place = place;
      gone = ground (arith, ap (λ x. count x (o ∷ os)) place.2 ∙ carved.each place.0 place.1);
      rest = λ k below ne. ground (arith, carved.each k below);
    } in
    record {
      sound =
          open-IsSound h h' b s v a.sound a.others clear opened.new opened.headers refl inside
            a.mark good;
      adds = Opens-Adds h h' b o s opened;
      holds = omega (arith, room-slab h' o s (ap h'.headers there ∙ opened.new));
    }

-- No free list has a block of the order or above.
abbrev pub IsFull : Memory → ℕ → Type 0
IsFull m order = (p : ℕ) → order ≤ p → p ≤ 14 → m.free_area p ≡ []

-- An answer of `kmalloc`: an address, or NULL when no block is left, and then nothing changes.
abbrev pub Outcome : Heap → Option ℕ × Heap → (n order : ℕ) → Type 0
Outcome h r n order =
    ((o : ℕ) × (r.0 ≡ some o) × Handed h r.1 n o) ⊎ ((r ≡ (none, h)) × IsFull h.pages order)

new_slab-Outcome :
    (h : Heap) (m : Memory) (c b : ℕ) (xs : List ℕ)
    → IsSound h
    → c < 8
    → Allocated h.pages m 0 false b
    → Carved c b xs
    → Outcome h (new_slab (record h { pages = m }) c b xs) (obj_size c) 0
unfolding new_slab
new_slab-Outcome h m c b [] v lt a carved = absurd (Carved-ne-nil c b lt carved)
new_slab-Outcome h m c b (o ∷ os) v lt a carved =
    inl (o, refl, new_slab-Handed h m c b o os v lt a carved)

grow_cache-some :
    (h : Heap) (c b : ℕ) (r : Option ℕ × Memory)
    → b < 16384
    → r.0 ≡ some (frame_to_addr b)
    → grow_cache h c r ≡ new_slab (record h { pages = r.1 }) c b (objects c b)
unfolding grow_cache
grow_cache-some h c b (none, m) lt e = absurd (cc)
grow_cache-some h c b (some a, m) lt e =
    let same : a ≡ frame_to_addr b = cc in
    let back : addr_to_frame a ≡ b = omega (arith, same) in
    ap (λ p. new_slab (record h { pages = m }) c p (objects c p)) back

grow_cache-Outcome :
    (h : Heap) (c : ℕ)
    → IsSound h
    → c < 8
    → Outcome h (grow_cache h c (buddy_alloc h.pages 0 false)) (obj_size c) 0
grow_cache-Outcome h c v lt = elim (buddy_alloc-Allocated h.pages 0 false v.pages (omega arith)) [
  | inl (b, e, a) ↦
      rw (grow_cache-some h c b (buddy_alloc h.pages 0 false) (omega (arith, a.fits)) e) (
        new_slab-Outcome h (buddy_alloc h.pages 0 false).1 c b (objects c b) v lt a
          (objects-Carved c b lt))
  | inr (e, full) ↦ inr (ap (grow_cache h c) e ∙ (unfold grow_cache in refl), full)
]

same_header : {s t : Slab} (o : Option Slab) → o ≡ some s → o ≡ some t → s ≡ t
same_header o e e' = cc

pub slab_alloc-Outcome :
    (h : Heap) (c : ℕ) → IsSound h → c < 8 → Outcome h (slab_alloc h c) (obj_size c) 0
unfolding slab_alloc
slab_alloc-Outcome h c v lt = elim (alloc_listed-cases h (h.slabs c)) [
  | inr (page, o, os, s, g, e, q, r) ↦
      let (t, e', owner) = v.listed c page g in
      let same : s.cache ≡ c =
        ap (λ (u : Slab). u.cache) (same_header (h.headers page) e e') ∙ owner in
      let handed =
        subst (λ d. Handed h (pop_object h page s os) (obj_size d) o) same
          (pop-Handed h page o os s v e q) in
      rw (r, slab_alloc) (inl (o, refl, handed))
  | inl nothing ↦ rw (nothing, slab_alloc) (grow_cache-Outcome h c v lt)
]
