-- ===== src/Memory/Slabs/Free.antt =====
-- `kfree` of kernel/memory.c on what the kernel has been given.
use Prim.Native.Nat.{bit_and}
use mathlib.Core.Path.{subst}
use ovsb_mk.Base.{
  ℕ, suc, ◌+◌, ◌-◌, ◌%◌, ◌^◌, ◌≤◌, ◌<◌, ◌≡◌, ◌≢◌, ◌∙◌, ℕ_discrete, ap, ◌∷◌, refl, sym, true, false,
  arith, ◌==◌, none, some, inl, inr,
}
use ovsb_mk.Memory.Words.{fields, frame_aligned}
use ovsb_mk.Memory.Types.{Memory, count, addr_to_frame, frame_to_addr}
use ovsb_mk.Memory.Buddy.{buddy_free}
use ovsb_mk.Memory.Buddy.Free.{buddy_free-IsSound}
use ovsb_mk.Memory.Slabs.{
  Slab, Heap, obj_per_slab, put_object, slab_free, first_word, slab_magic, kfree,
}
use ovsb_mk.Memory.Slabs.Slots.{object_at, object_within, cache_Sizes, tally-le, tally-only}
use ovsb_mk.Memory.Slabs.Layout.{is_used, IsSound, IsObject, IsBlock, IsOwned, Adds, SameOthers}
use ovsb_mk.Memory.Slabs.Adds.{Pops, Pops-Adds, Opens-Adds, Takes-Adds}
use ovsb_mk.Memory.Slabs.Keep.{Pops-IsSlab_back, replace-IsSound, pages-IsSound, close-IsSound}

-- The address has been taken back, and nothing else has.
pub record Freed (h h' : Heap) (x : ℕ) : Type 0 where
  pub sound : IsSound h'
  pub adds : Adds h' h x

module _ (h : Heap) (v : IsSound h) (p x : ℕ) (s : Slab) (e : h.headers p ≡ some s)
    (there : addr_to_frame x ≡ p)
    (place : (k : ℕ) × (k < obj_per_slab s.cache) × (x ≡ object_at s.cache p k))
    (used : count x s.freelist ≡ 0) where
  -- The last object of a slab.
  last-Freed : s.in_use ≡ 1 → Freed h (put_object h p x s) x
  unfolding put_object
  last-Freed one =
      let h' = put_object h p x s in
      let at = v.headers p s e in
      let (sound, gone, others) =
        buddy_free-IsSound h.pages p 0 v.pages at.inside (omega arith) (inl at.taken) in
      let none_left : ((s.in_use + 2 ^ 32 - 1) % 2 ^ 32 == 0) ≡ true = ground (arith, one) in
      let kept : SameOthers h.pages h'.pages p = rw none_left others in
      let clear : h'.headers p ≡ none = rw none_left (ground arith) in
      let same : (c : ℕ) → c ≢ p → h'.headers c ≡ h.headers c =
        λ c ne. rw none_left (ground (arith, ne)) in
      let (k, below, q) = place in
      let hit : is_used p s k ≡ true = rw (← q) (ground (arith, used)) in
      record {
        sound = close-IsSound h h' p s v (rw none_left sound) kept e clear same (rw none_left refl);
        adds = Opens-Adds h' h p x s (record {
          old = clear;
          was_free = rw none_left gone;
          new = e;
          headers = λ c ne. sym (same c ne);
          others = λ c ne g. ground (arith, kept c ne, g);
          page = there;
          place = place;
          gone = used;
          rest = λ j under ne.
              let other : j ≢ k = λ r. ne (ap (object_at s.cache p) r ∙ sym q) in
              let idle =
                tally-only (is_used p s) (obj_per_slab s.cache) k j (sym at.slab.counted ∙ one)
                  below hit under other in
              ground (arith, idle);
        });
      }

  -- An object of a slab that keeps others.
  more-Freed : 2 ≤ s.in_use → Freed h (put_object h p x s) x
  unfolding put_object
  more-Freed more =
      let h' = put_object h p x s in
      let at = v.headers p s e in
      let few = tally-le (is_used p s) (obj_per_slab s.cache) in
      let z = cache_Sizes s.cache at.slab.cache in
      let left : ℕ = (s.in_use + 2 ^ 32 - 1) % 2 ^ 32 in
      let fewer : s.in_use ≡ suc left = omega (arith, at.slab.counted, few, z.few) in
      let some_left : (left == 0) ≡ false = ground (arith, fewer) in
      let s' : Slab = record s { freelist = x ∷ s.freelist; in_use = left } in
      let new : h'.headers p ≡ some s' = rw some_left (ground arith) in
      let same : (c : ℕ) → c ≢ p → h'.headers c ≡ h.headers c =
        λ c ne. rw some_left (ground (arith, ne)) in
      let pages : h'.pages ≡ h.pages = rw some_left refl in
      let pop : Pops h' h p x s' s = record {
        old = new;
        new = e;
        headers = λ c ne. sym (same c ne);
        frames = λ c. ap (λ (m : Memory). m.frames c) (sym pages);
        cache = refl;
        front = refl;
        once = used;
        page = there;
        place = place;
      } in
      let good = Pops-IsSlab_back h' h p x s' s pop at.slab fewer (omega arith) in
      record {
        sound = replace-IsSound h h' p s s' v e new same pages (rw some_left refl) refl good;
        adds = Pops-Adds h' h p x s' s pop;
      }

  put_object-Freed : Freed h (put_object h p x s) x
  put_object-Freed = elim (ℕ_discrete s.in_use 1) [
    | yes one ↦ last-Freed one
    | no ne ↦ more-Freed (omega (arith, (v.headers p s e).slab.used))
  ]

-- The address of an object passes the guards.
object_guards :
    (x p k c : ℕ)
    → c < 8
    → p < 16384
    → k < obj_per_slab c
    → x ≡ object_at c p k
    → (0x900000 ≤ x) × (x < 0x900000 + 67108864)
object_guards x p k c lt inside below e = omega (arith, object_within c k lt below)

kfree-object :
    (h : Heap) (stored : ℕ → ℕ) (x : ℕ)
    → IsSound h
    → IsObject h x
    → (h' : Heap) × (kfree h stored x ≡ some h') × Freed h h' x
unfolding kfree slab_free first_word
kfree-object h stored x v (s, e, place, used) =
    let p = addr_to_frame x in
    let at = v.headers p s e in
    let (lo, hi) = object_guards x p place.0 s.cache at.slab.cache at.inside place.1 place.2 in
    (
      put_object h p x s,
      rw (e, kfree, first_word, slab_free) (ground (arith, lo, hi)),
      put_object-Freed h v p x s e refl place used,
    )

kfree-block :
    (h : Heap) (stored : ℕ → ℕ) (x : ℕ)
    → IsSound h
    → stored (addr_to_frame x) ≢ slab_magic
    → IsBlock h x
    → (h' : Heap) × (kfree h stored x ≡ some h') × Freed h h' x
unfolding kfree first_word
kfree-block h stored x v plain (place, inside, clear, (o, le, mark)) =
    let b = addr_to_frame x in
    let h' : Heap = record h { pages = buddy_free h.pages (frame_to_addr b) o } in
    let (sound, gone, others) = buddy_free-IsSound h.pages b o v.pages inside le (inl mark) in
    let f = fields o le in
    let start : (bit_and x 4095 == 0) ≡ true =
      ground (arith, ap (λ a. bit_and a 4095) place, frame_aligned b) in
    let taken : (bit_and (h.pages.frames b) 0x80 == 0) ≡ false = rw mark f.taken in
    let lo : 0x900000 ≤ x = omega (arith, place) in
    let hi : x < 0x900000 + 67108864 = omega (arith, place) in
    let miss : (stored b == slab_magic) ≡ false = ground (arith, plain) in
    let order : bit_and (h.pages.frames b) 0x3F ≡ o = rw mark f.order in
    (
      h',
      rw (clear, kfree, first_word) (ground (arith, lo, hi, start, taken, miss))
          ∙ ap (λ q. some (record h { pages = buddy_free h.pages x q })) order
          ∙ ap (λ a. some (record h { pages = buddy_free h.pages a o })) place,
      record {
        sound = pages-IsSound h h' b v sound others clear refl refl;
        adds = subst (Adds h' h) (sym place) (
            Takes-Adds h' h b o (record {
              inside = inside;
              small = le;
              no_slab = clear;
              was_free = gone;
              mark = mark;
              headers = λ c. refl;
              others = λ c ne g. ground (arith, others c ne, g);
            }));
      },
    )

-- On a sound heap `kfree` takes back what has been given out, where the owner of a block has not
-- stored the magic number of a slab at its start: the heap stays sound, the address is no longer
-- given out, and everything else is as it was.
pub kfree-Freed :
    (h : Heap) (stored : ℕ → ℕ) (x : ℕ)
    → IsSound h
    → ((page : ℕ) → stored page ≢ slab_magic)
    → IsOwned h x
    → (h' : Heap) × (kfree h stored x ≡ some h') × Freed h h' x
kfree-Freed h stored x v plain (inl object) = kfree-object h stored x v object
kfree-Freed h stored x v plain (inr block) =
    kfree-block h stored x v (plain (addr_to_frame x)) block
