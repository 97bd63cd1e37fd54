-- ===== src/Memory/Slabs/Tests.antt =====
-- `kmalloc`, `kfree` and `kcalloc` of kernel/memory.c on small runs.
use ovsb_mk.Base.{ℕ, ◌≡◌, ◌↔◌, refl, arith, some, ◌+◌, ◌*◌, ◌&&◌, ltb, leb, if◌then◌else◌}
use ovsb_mk.Memory.Types.{list_add, list_remove, erase}
use ovsb_mk.Memory.Buddy.{memory_init, find_order, split_block, take_block, buddy_alloc}
use ovsb_mk.Memory.Buddy.Layout.{memory_init-IsSound}
use ovsb_mk.Memory.Pages.{order_loop, order_of}
use ovsb_mk.Memory.Slabs.{
  Heap, heap_init, alloc_listed, carve, new_slab, grow_cache, slab_alloc, cache_for, alloc_pages,
  alloc_small, kmalloc, kfree, alloc_size, zeroed, kcalloc,
}
use ovsb_mk.Memory.Slabs.Layout.{IsSound, IsOwned}
use ovsb_mk.Memory.Slabs.Alloc.{room, Handed, Outcome}
use ovsb_mk.Memory.Slabs.Kmalloc.{needed, kmalloc-Outcome}
use ovsb_mk.Memory.Slabs.Free.{Freed, kfree-Freed}
use ovsb_mk.Memory.Slabs.RoundTrip.{kmalloc-Handed, kmalloc-kfree, kcalloc-Cleared}

heap_init-IsSound : IsSound heap_init
unfolding heap_init
heap_init-IsSound = record {
  pages = memory_init-IsSound;
  headers = λ page s e. absurd (cc);
  listed = λ i page g. absurd (omega arith);
}

-- An object of 1024 bytes, the last of the first page.
abbrev first : Heap
first = (kmalloc heap_init 1000).1

first-place : (kmalloc heap_init 1000).0 ≡ some (0x900000 + 48 + 2 * 1024)
unfolding heap_init memory_init find_order split_block take_block buddy_alloc list_add list_remove
    erase alloc_listed carve new_slab grow_cache slab_alloc cache_for alloc_small kmalloc
first-place = refl

-- 5000 bytes take two pages.
pages-place : (kmalloc first 5000).0 ≡ some (0x900000 + 2 * 4096)
unfolding heap_init memory_init find_order split_block take_block buddy_alloc list_add list_remove
    erase alloc_listed carve new_slab grow_cache slab_alloc cache_for alloc_small kmalloc
    alloc_pages order_of order_loop
pages-place = refl

first-Handed : Handed heap_init first 1024 (0x900000 + 48 + 2 * 1024)
unfolding alloc_size cache_for
first-Handed =
    kmalloc-Handed heap_init 1000 (0x900000 + 48 + 2 * 1024) heap_init-IsSound first-place

first-IsSound : IsSound first
first-IsSound = first-Handed.sound

kmalloc-Outcome_example : Outcome heap_init (kmalloc heap_init 1000) (alloc_size 1000) (needed 1000)
kmalloc-Outcome_example = kmalloc-Outcome heap_init 1000 heap_init-IsSound (omega arith)

kfree-Freed_example :
    (h' : Heap) × (kfree first (λ page. 0) (0x900000 + 48 + 2 * 1024) ≡ some h')
    × Freed first h' (0x900000 + 48 + 2 * 1024)
kfree-Freed_example =
    kfree-Freed first (λ page. 0) (0x900000 + 48 + 2 * 1024) first-IsSound (λ page. omega arith)
      first-Handed.adds.after

kmalloc-kfree_example :
    (h' : Heap) × (kfree (kmalloc heap_init 1000).1 (λ page. 0) (0x900000 + 48 + 2 * 1024)
      ≡ some h')
    × IsSound h'
    × ((y : ℕ) → IsOwned heap_init y ↔ IsOwned h' y)
kmalloc-kfree_example =
    kmalloc-kfree heap_init (λ page. 0) 1000 (0x900000 + 48 + 2 * 1024) heap_init-IsSound
      (λ page. omega arith) first-place

zeros-place : (kcalloc heap_init (λ y. 7) 10 100).0 ≡ some (0x900000 + 48 + 2 * 1024)
unfolding heap_init memory_init find_order split_block take_block buddy_alloc list_add list_remove
    erase alloc_listed carve new_slab grow_cache slab_alloc cache_for alloc_small kmalloc zeroed
    kcalloc
zeros-place = refl

-- The last byte of the object, which the program did not ask for.
kcalloc-Cleared_example : (kcalloc heap_init (λ y. 7) 10 100).2 (0x900000 + 4095) ≡ (
    if leb (0x900000 + 48 + 2 * 1024) (0x900000 + 4095)
      && ltb (0x900000 + 4095) (
          0x900000
          + 48
          + 2 * 1024
          + room (kcalloc heap_init (λ y. 7) 10 100).1 (0x900000 + 48 + 2 * 1024))
    then 0
    else 7)
kcalloc-Cleared_example =
    kcalloc-Cleared heap_init (λ y. 7) 10 100 (0x900000 + 48 + 2 * 1024) (0x900000 + 4095)
      heap_init-IsSound zeros-place
