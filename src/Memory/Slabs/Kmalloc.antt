-- ===== src/Memory/Slabs/Kmalloc.antt =====
-- `kmalloc` of kernel/memory.c on every path.
use Prim.Native.Nat.{bit_and}
use ovsb_mk.Base.{
  ℕ, ◌+◌, ◌-◌, ◌*◌, ◌/◌, ◌%◌, ◌^◌, ◌≤◌, ◌<◌, ◌≡◌, ◌≢◌, ◌∙◌, ap, refl, Bool, true, false, arith,
  ◌==◌, ltb, leb, if◌then◌else◌, Bool-cases, Option, all_below, all_below_sound, ◌&&◌, none, some,
  inl, inr,
}
use ovsb_mk.Memory.Words.{fields, pow-pos}
use ovsb_mk.Memory.Types.{Memory, addr_to_frame, frame_to_addr, frame_size}
use ovsb_mk.Memory.Buddy.Result.{Allocated, buddy_alloc-Allocated}
use ovsb_mk.Memory.Pages.Order.{order_of-Smallest}
use ovsb_mk.Memory.Pages.Unmap.{buddy_alloc-big}
use ovsb_mk.Memory.Slabs.{
  Heap, obj_size, cache_for, page_order, alloc_size, alloc_pages, alloc_small, kmalloc,
}
use ovsb_mk.Memory.Slabs.Layout.{IsSound}
use ovsb_mk.Memory.Slabs.Adds.{Takes-Adds}
use ovsb_mk.Memory.Slabs.Keep.{pages-IsSound}
use ovsb_mk.Memory.Slabs.Alloc.{room-block, Handed, fresh_header, Outcome, slab_alloc-Outcome}

-- `kmalloc` of pages.
alloc_pages-Handed :
    (h : Heap) (m : Memory) (order b : ℕ)
    → IsSound h
    → order ≤ 14
    → Allocated h.pages m order false b
    → Handed h (record h { pages = m }) (2 ^ order * frame_size) (frame_to_addr b)
alloc_pages-Handed h m order b v le a =
    let h' : Heap = record h { pages = m } in
    let inside : b < 16384 = omega (arith, a.fits, pow-pos order) in
    let clear = fresh_header h b v a.was_free in
    let back : addr_to_frame (frame_to_addr b) ≡ b = omega arith in
    let mark : bit_and (m.frames (addr_to_frame (frame_to_addr b))) 0x3F ≡ order =
      rw (back, a.mark) (fields order le).order in
    record {
      sound = pages-IsSound h h' b v a.sound a.others clear refl refl;
      adds = Takes-Adds h h' b order (record {
        inside = inside;
        small = le;
        no_slab = clear;
        was_free = a.was_free;
        mark = a.mark;
        headers = λ c. refl;
        others = a.others;
      });
      holds =
          room-block h' (frame_to_addr b) (ap h.headers back ∙ clear) ∙ ap (λ o. 2 ^ o * 4096) mark;
    }

alloc_pages-Outcome :
    (h : Heap) (size : ℕ)
    → IsSound h
    → Outcome h (alloc_pages h size) (2 ^ page_order size * frame_size) (page_order size)
unfolding alloc_pages
alloc_pages-Outcome h size v = elim (Bool-cases (ltb 14 (page_order size))) [
  | inl big ↦
      let e = buddy_alloc-big h.pages (page_order size) false (ground (arith, big)) in
      inr (ap (λ r. (r.0, record h { pages = r.1 })) e, λ p lo hi. absurd (ground (arith, big)))
  | inr small ↦
      let le : page_order size ≤ 14 = ground (arith, small) in
      elim (buddy_alloc-Allocated h.pages (page_order size) false v.pages le) [
        | inl (b, e, a) ↦
            inl (frame_to_addr b, e, alloc_pages-Handed h _ (page_order size) b v le a)
        | inr (e, full) ↦ inr (ap (λ r. (r.0, record h { pages = r.1 })) e, full)
      ]
]

-- Below 2048 bytes there is a cache, and `kcalloc` comes to the same one.
abbrev cache_test : ℕ → Bool
cache_test n = elim (cache_for n 0 8) [
  | none ↦ false
  | some i ↦
      ltb i 8
      && leb n (obj_size i)
      && elim (cache_for (if ltb n 16 then 16 else n) 0 8) [ none ↦ false | some j ↦ i == j ]
]

cache_table : all_below 2048 cache_test ≡ true
unfolding all_below cache_for
cache_table = refl

-- What `kmalloc` and `kcalloc` make of a size below 2048.
small_cache :
    (n : ℕ)
    → n < 2048
    → (i : ℕ) × (i < 8)
      × (n ≤ obj_size i)
      × (cache_for n 0 8 ≡ some i)
      × (cache_for (if ltb n 16 then 16 else n) 0 8 ≡ some i)
small_cache n lt =
    let t : cache_test n ≡ true = all_below_sound 2048 cache_test n cache_table lt in
    pick (cache_for n 0 8) (cache_for (if ltb n 16 then 16 else n) 0 8) refl refl t
  where
    pick :
        (o q : Option ℕ)
        → cache_for n 0 8 ≡ o
        → cache_for (if ltb n 16 then 16 else n) 0 8 ≡ q
        → (elim o [
          | none ↦ false
          | some i ↦ ltb i 8 && leb n (obj_size i) && elim q [ none ↦ false | some j ↦ i == j ]
        ])
          ≡ true
        → (i : ℕ) × (i < 8)
          × (n ≤ obj_size i)
          × (cache_for n 0 8 ≡ some i)
          × (cache_for (if ltb n 16 then 16 else n) 0 8 ≡ some i)
    pick none q e e' t = absurd (cc)
    pick (some i) none e e' t = absurd (ground (arith, t))
    pick (some i) (some j) e e' t =
        (i, ground (arith, t), ground (arith, t), e, e' ∙ ap some (ground (arith, t)))

-- What `kmalloc` hands out has at least the size that was asked for.
pub alloc_size-ge : (size : ℕ) → size + 4095 < 2 ^ 64 → size ≤ alloc_size size
unfolding alloc_size
alloc_size-ge size fits = elim (Bool-cases (ltb size 2048)) [
  | inl small ↦
      let (i, lt, le, e, e') = small_cache size (ground (arith, small)) in
      rw (small, e, alloc_size) le
  | inr large ↦
      let pages = (size + frame_size - 1) % 2 ^ 64 / 4096 in
      let s = order_of-Smallest pages (omega arith) in
      let held : pages ≤ 2 ^ page_order size = s.holds in rw large (omega (arith, held))
]

-- The order from which `kmalloc` needs a free block.
abbrev pub needed : ℕ → ℕ
needed size = if ltb size 2048 then 0 else page_order size

-- On a sound heap `kmalloc` of a size that is not 0 hands out an address with `alloc_size` bytes
-- that was not given out, keeps the heap sound and what else is given out; or it returns NULL, and
-- then it changes nothing and no block of the order that it needs is free.
pub kmalloc-Outcome :
    (h : Heap) (size : ℕ)
    → IsSound h
    → size ≢ 0
    → Outcome h (kmalloc h size) (alloc_size size) (needed size)
unfolding kmalloc alloc_size alloc_small
kmalloc-Outcome h size v ne =
    let some_size : (size == 0) ≡ false = ground (arith, ne) in
    elim (Bool-cases (ltb size 2048)) [
      | inl small ↦
          let (i, lt, le, e, e') = small_cache size (ground (arith, small)) in
          let below : leb 2048 (if ltb size 16 then 16 else size) ≡ false = ground (arith, small) in
          rw (some_size, below, small, e, e', kmalloc, alloc_size, alloc_small)
            (slab_alloc-Outcome h i v lt)
      | inr large ↦
          let above : leb 2048 (if ltb size 16 then 16 else size) ≡ true = ground (arith, large) in
          let same : (if ltb size 16 then 16 else size) ≡ size = ground (arith, large) in
          rw (some_size, above, large, same) (alloc_pages-Outcome h size v)
    ]
