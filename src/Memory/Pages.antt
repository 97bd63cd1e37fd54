-- ===== src/Memory/Pages.antt =====
-- kernel/memory.c: `mmap_user`, `munmap_user`, `munmap_all_user`, `page_alloc` and `page_free`.
pub mod Order
pub mod Unmap
pub mod Sweep
use Prim.Native.Nat.{bit_and}
use ovsb_mk.Base.{
  ℕ, zero, suc, ◌+◌, ◌-◌, ◌/◌, ◌%◌, ◌^◌, Bool, true, false, Option, none, some, ◌==◌, ltb, leb, not,
  if◌then◌else◌, ℤ, pos, negsuc,
}
use ovsb_mk.Memory.Types.{
  Memory, frame_size, frame_count, max_order, frame_alloc, frame_user, frame_order, addr_to_frame,
  set_frame,
}
use ovsb_mk.Memory.Buddy.{buddy_alloc, buddy_free, merge_block}

-- `while ((1UL << order) < pages) order++`, with `n` rounds to go.
unfoldable pub order_loop : (pages order n : ℕ) → ℕ
order_loop pages order zero = order
order_loop pages order (suc n) =
    let rest = order_loop pages (order + 1) n in if ltb (2 ^ order) pages then rest else order

-- A `size_t` shift has 64 places.
unfoldable pub order_of : ℕ → ℕ
order_of pages = order_loop pages 0 63

-- `(length + FRAME_SIZE - 1) / FRAME_SIZE`, in `size_t`.
abbrev pub page_count : ℕ → ℕ
page_count length = (length + frame_size - 1) % 2 ^ 64 / frame_size

-- The address, the protection and the flags are not used.
unfoldable pub mmap_user : Memory → (length : ℕ) → Option ℕ × Memory
mmap_user m length =
    let pages = page_count length in buddy_alloc m (order_of (if pages == 0 then 1 else pages)) true

-- The length is not used.
unfoldable pub munmap_user : Memory → (addr length : ℕ) → ℤ × Memory
munmap_user m addr length =
    let idx = addr_to_frame addr in
    if addr == 0
    then (pos 0, m)
    else if not (bit_and addr (frame_size - 1) == 0)
    then (negsuc 0, m)
    else if leb frame_count idx
    then (negsuc 0, m)
    else if bit_and (m.frames idx) frame_alloc == 0
    then (pos 0, m)
    else (pos 0, buddy_free m addr (bit_and (m.frames idx) frame_order))

-- `f & (FRAME_ALLOC | FRAME_USER)` has both bits.
abbrev pub is_user_mark : ℕ → Bool
is_user_mark f = bit_and f 0xC0 == 0xC0

-- The loop of `munmap_all_user` from the frame `i`, with at most `n` rounds to go.
unfoldable pub sweep : Memory → (i n : ℕ) → Memory
sweep m i zero = m
sweep m i (suc n) =
    let order = bit_and (m.frames i) frame_order in
    let freed =
      sweep (merge_block (set_frame m i order) i order (max_order - order)) (i + 2 ^ order) n in
    let next = sweep m (i + 1) n in
    if leb frame_count i then m else if is_user_mark (m.frames i) then freed else next

unfoldable pub munmap_all_user : Memory → Memory
munmap_all_user m = sweep m 0 frame_count

unfoldable pub page_alloc : Memory → Option ℕ × Memory
page_alloc m = buddy_alloc m 0 false

unfoldable pub page_free : Memory → ℕ → Memory
page_free m addr = buddy_free m addr 0
