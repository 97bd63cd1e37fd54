-- ===== src/Memory/Buddy.antt =====
-- kernel/memory.c: `buddy_alloc`, `buddy_free` and the part of `memory_init` that sets them up.
-- Memory has one processor, so `mem_lock` and `mem_unlock` leave no trace here.
pub mod Layout
pub mod Merge
pub mod Partner
pub mod Free
pub mod Split
pub mod Alloc
pub mod Result
pub mod Disjoint
use Prim.Native.Nat.{bit_and, bit_or, bit_xor}
use ovsb_mk.Base.{
  ℕ, zero, suc, ◌+◌, ◌-◌, ◌*◌, ◌^◌, List, [], ◌∷◌, Bool, true, false, ◌||◌, Option, none, some,
  ◌==◌, ltb, leb, not, if◌then◌else◌,
}
use ovsb_mk.Memory.Types.{
  Memory, heap_phys, heap_size, frame_size, max_order, frame_alloc, frame_user, frame_order, update,
  addr_to_frame, frame_to_addr, list_add, list_remove, set_frame,
}

-- The first order from `o` on with a free block, `n` orders being left to try.
unfoldable pub find_order : Memory → (o n : ℕ) → Option ℕ
find_order m o zero = none
find_order m o (suc n) =
    let rest = find_order m (o + 1) n in elim (m.free_area o) [ [] ↦ rest | b ∷ bs ↦ some o ]

-- The second loop of `buddy_alloc`, from the order `order + n` down to `order`: the upper half of
-- the block goes to the free list below.
unfoldable pub split_block : Memory → (block order n : ℕ) → Memory
split_block m block order zero = m
split_block m block order (suc n) =
    let o = order + n in
    let buddy = bit_xor block (2 ^ o) in
    split_block (list_add (set_frame m buddy o) o buddy) block order n

-- `buddy_alloc` from the order that was found.
unfoldable pub take_block : Memory → (order found : ℕ) → (user : Bool) → List ℕ → Option ℕ × Memory
take_block m order found user [] = (none, m)
take_block m order found user (block ∷ bs) =
    let m' = split_block (list_remove m found block) block order (found - order) in
    let flags : ℕ = bit_or order frame_alloc in
    (
      some (frame_to_addr block),
      set_frame m' block (if user then bit_or flags frame_user else flags),
    )

-- NULL is `none`. An `int` order that is negative does not occur: the callers pass 0 or count up.
unfoldable pub buddy_alloc : Memory → (order : ℕ) → (user : Bool) → Option ℕ × Memory
buddy_alloc m order user =
    if ltb max_order order then (none, m) else elim (find_order m order (max_order + 1 - order)) [
      | none ↦ (none, m)
      | some found ↦ take_block m order found user (m.free_area found)
    ]

-- The loop of `buddy_free`, and of `munmap_all_user`, and the insertion behind it. `n` is how many
-- orders are above `order`.
unfoldable pub merge_block : Memory → (idx order n : ℕ) → Memory
merge_block m idx order zero = list_add m order idx
merge_block m idx order (suc n) =
    let buddy = bit_xor idx (2 ^ order) in
    let low : ℕ = if ltb idx buddy then idx else buddy in
    let merged =
      merge_block (set_frame (list_remove m order buddy) low (order + 1)) low (order + 1) n in
    let last = list_add m order idx in
    if bit_and (m.frames buddy) (bit_or frame_alloc frame_order) == order then merged else last

-- An address outside the heap or inside a frame is ignored.
unfoldable pub buddy_free : Memory → (addr order : ℕ) → Memory
buddy_free m addr order =
    if addr == 0 || ltb max_order order
    then m
    else if ltb addr heap_phys || leb (heap_phys + heap_size) addr
    then m
    else if not (bit_and addr (frame_size - 1) == 0)
    then m
    else merge_block (set_frame m (addr_to_frame addr) order) (addr_to_frame addr) order
        (max_order - order)

-- The heap is one free block of order 14.
unfoldable pub memory_init : Memory
memory_init = record {
  frames = update (λ i. 0) 0 max_order;
  free_area = update (λ o. []) max_order (0 ∷ []);
}
