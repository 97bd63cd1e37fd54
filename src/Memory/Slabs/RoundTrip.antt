-- ===== src/Memory/Slabs/RoundTrip.antt =====
-- `kmalloc`, `kfree` and `kcalloc` of kernel/memory.c together.
use mathlib.Core.Path.{subst}
use ovsb_mk.Base.{
  ℕ, zero, suc, ◌+◌, ◌*◌, ◌%◌, ◌^◌, ◌≡◌, ◌≢◌, ◌∙◌, ◌↔◌, ℕ_discrete, ap, sym, ◌&&◌, arith, ltb, leb,
  if◌then◌else◌, Option, none, some, inl, inr,
}
use ovsb_mk.Memory.Slabs.{Heap, slab_magic, alloc_size, kmalloc, kfree, clear, zeroed, kcalloc}
use ovsb_mk.Memory.Slabs.Layout.{IsSound, IsOwned, Adds}
use ovsb_mk.Memory.Slabs.Alloc.{room, Handed}
use ovsb_mk.Memory.Slabs.Kmalloc.{kmalloc-Outcome}
use ovsb_mk.Memory.Slabs.Free.{kfree-Freed}

-- An address that `kmalloc` returns.
pub kmalloc-Handed :
    (h : Heap) (size x : ℕ)
    → IsSound h
    → (kmalloc h size).0 ≡ some x
    → Handed h (kmalloc h size).1 (alloc_size size) x
unfolding kmalloc
kmalloc-Handed h size x v e = elim (ℕ_discrete size 0) [
  | yes z ↦ let nothing : (kmalloc h size).0 ≡ none = ground (arith, z) in absurd (cc)
  | no ne ↦ elim (kmalloc-Outcome h size v ne) [
    | inl (o, q, handed) ↦
        let same : o ≡ x = cc in subst (Handed h (kmalloc h size).1 (alloc_size size)) same handed
    | inr (q, full) ↦ let nothing : (kmalloc h size).0 ≡ none = ap (λ r. r.0) q in absurd (cc)
  ]
]

-- What has been given out, when an address has been taken from one heap and put back.
same_owned :
    (h m h' : Heap) (x : ℕ) → Adds h m x → Adds h' m x → (y : ℕ) → IsOwned h y ↔ IsOwned h' y
same_owned h m h' x a b y = elim (ℕ_discrete y x) [
  | yes e ↦ (
    λ own. absurd (a.before (subst (IsOwned h) e own)),
    λ own. absurd (b.before (subst (IsOwned h') e own)),
  )
  | no ne ↦ (λ own. b.none_new y ne (a.kept y ne own), λ own. a.none_new y ne (b.kept y ne own))
]

-- What `kmalloc` of any size hands out on a sound heap, `kfree` takes back, where no owner of pages
-- has stored the magic number of a slab at their start: the heap is sound then, and exactly the
-- addresses from before are given out.
pub kmalloc-kfree :
    (h : Heap) (stored : ℕ → ℕ) (size x : ℕ)
    → IsSound h
    → ((page : ℕ) → stored page ≢ slab_magic)
    → (kmalloc h size).0 ≡ some x
    → (h' : Heap) × (kfree (kmalloc h size).1 stored x ≡ some h')
      × IsSound h'
      × ((y : ℕ) → IsOwned h y ↔ IsOwned h' y)
kmalloc-kfree h stored size x v plain e =
    let a = kmalloc-Handed h size x v e in
    let (h', q, f) = kfree-Freed (kmalloc h size).1 stored x a.sound plain a.adds.after in
    (h', q, f.sound, same_owned h (kmalloc h size).1 h' x a.adds f.adds)

clear_lem :
    (bytes : ℕ → ℕ) (p n y : ℕ)
    → clear bytes p n y ≡ (if leb p y && ltb y (p + n) then 0 else bytes y)
unfolding clear
clear_lem bytes p zero y = ground arith
clear_lem bytes p (suc n) y = ground (arith, clear_lem bytes p n y)

zeroed-some :
    (bytes : ℕ → ℕ) (total x : ℕ) (r : Option ℕ × Heap)
    → (zeroed bytes total r).0 ≡ some x
    → (r.0 ≡ some x) × (zeroed bytes total r ≡ (some x, r.1, clear bytes x (alloc_size total)))
unfolding zeroed
zeroed-some bytes total x (none, h) e = absurd (cc)
zeroed-some bytes total x (some p, h) e =
    let same : p ≡ x = cc in (e, ap (λ a. (some a, h, clear bytes a (alloc_size total))) same)

-- Where `kcalloc` returns an address on a sound heap, the memory differs from what its call of
-- `kmalloc` left only at the bytes that there are at this address, and all of these are zero.
pub kcalloc-Cleared :
    (h : Heap) (left : ℕ → ℕ) (count size x y : ℕ)
    → IsSound h
    → (kcalloc h left count size).0 ≡ some x
    → (kcalloc h left count size).2 y
      ≡ (if leb x y && ltb y (x + room (kcalloc h left count size).1 x) then 0 else left y)
unfolding kcalloc
kcalloc-Cleared h left count size x y v e =
    let total = count * size % 2 ^ 64 in
    let (got, q) = zeroed-some left total x (kmalloc h total) e in
    let handed = kmalloc-Handed h total x v got in
    let exact : room (zeroed left total (kmalloc h total)).1 x ≡ alloc_size total =
      ap (λ r. room r.1 x) q ∙ handed.holds in
    ap (λ r. r.2 y) q
    ∙ clear_lem left x (alloc_size total) y
    ∙ ap (λ n. if leb x y && ltb y (x + n) then 0 else left y) (sym exact)
