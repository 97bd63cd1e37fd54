-- ===== src/Memory/Slabs.antt =====
-- kernel/memory.c: the slab caches, and `kmalloc`, `kfree` and `kcalloc` over them.
-- A slab is the page with its header at the start. A list of slabs, and a list of free objects, is
-- the list of what its links join: pages by the index of their frame, objects by their address.
pub mod Slots
pub mod Layout
pub mod Adds
pub mod Keep
pub mod Carve
pub mod Alloc
pub mod Kmalloc
pub mod Free
pub mod RoundTrip
mod Tests
use Prim.Native.Nat.{bit_and}
use ovsb_mk.Base.{
  ℕ, zero, suc, ◌+◌, ◌-◌, ◌*◌, ◌/◌, ◌%◌, ◌^◌, List, [], ◌∷◌, Bool, true, false, ◌||◌, Option, none,
  some, ◌==◌, ltb, leb, not, if◌then◌else◌, get_or, length,
}
use ovsb_mk.Memory.Types.{
  Memory, heap_phys, heap_size, frame_size, frame_count, frame_alloc, frame_order, update,
  addr_to_frame, frame_to_addr, erase,
}
use ovsb_mk.Memory.Buddy.{buddy_alloc, buddy_free, memory_init}
use ovsb_mk.Memory.Pages.{order_of}

abbrev pub slab_magic : ℕ
slab_magic = 0x534C4142

abbrev pub cache_count : ℕ
cache_count = 8

-- `sizeof(slab_t)`: two words of 32 bits, one of 16, and four pointers.
abbrev pub header_size : ℕ
header_size = 48

abbrev pub sizes : List ℕ
sizes = 16 ∷ 32 ∷ 64 ∷ 128 ∷ 256 ∷ 512 ∷ 1024 ∷ 2048 ∷ []

-- `kmalloc_caches[i].obj_size` and `kmalloc_caches[i].obj_per_slab`, as `memory_init` sets them.
abbrev pub obj_size : ℕ → ℕ
obj_size i = get_or sizes i 0

abbrev pub obj_per_slab : ℕ → ℕ
obj_per_slab i = (frame_size - header_size) / obj_size i

-- `slab_t`; `cache` is the index of the cache.
pub record Slab : Type 0 where
  pub in_use : ℕ
  pub total : ℕ
  pub freelist : List ℕ
  pub cache : ℕ

-- The page allocator, the header of each page that is a slab, and `kmalloc_caches[i].slabs`.
pub record Heap : Type 0 where
  pub pages : Memory
  pub headers : ℕ → Option Slab
  pub slabs : ℕ → List ℕ

unfoldable pub heap_init : Heap
heap_init = record { pages = memory_init; headers = λ p. none; slabs = λ i. [] }

-- The object `obj` leaves the free list of the slab at `page`.
abbrev pub pop_object : Heap → (page : ℕ) → Slab → (rest : List ℕ) → Heap
pop_object h page s rest = record h {
  headers =
      update h.headers page (some (record s { freelist = rest; in_use = (s.in_use + 1) % 2 ^ 32 }));
}

-- The first loop of `slab_alloc`, over the slabs from the first on.
unfoldable pub alloc_listed : Heap → List ℕ → Option (ℕ × Heap)
alloc_listed h [] = none
alloc_listed h (page ∷ ps) =
    let rest = alloc_listed h ps in
    elim (h.headers page) [
      | none ↦ rest
      | some s ↦ elim s.freelist [ [] ↦ rest | obj ∷ os ↦ some (obj, pop_object h page s os) ]
    ]

-- The second loop of `slab_alloc`: `head` are the objects so far, `n` the rounds at most.
unfoldable pub carve : (size address end n : ℕ) → (head : List ℕ) → List ℕ
carve size address end zero head = head
carve size address end (suc n) head =
    let more = carve size (address + size) end n (address ∷ head) in
    if leb (address + size) end then more else head

-- An object has 16 bytes at least: 253 rounds are enough.
abbrev pub objects : (cache page : ℕ) → List ℕ
objects cache page =
    carve (obj_size cache) (frame_to_addr page + header_size) (frame_to_addr page + frame_size) 254
      []

-- `slab_alloc` from the page on that it got. A page without room for an object does not occur.
unfoldable pub new_slab : Heap → (cache page : ℕ) → List ℕ → Option ℕ × Heap
new_slab h cache page [] = (none, h)
new_slab h cache page (obj ∷ os) = (
  some obj,
  record h {
    headers = update h.headers page (
        some (record {
          in_use = 1;
          total = (suc (length os)) % 2 ^ 16;
          freelist = os;
          cache = cache;
        }));
    slabs = update h.slabs cache (page ∷ h.slabs cache);
  },
)

-- `slab_alloc` behind the loop: `page_alloc` has returned the address, or NULL.
unfoldable pub grow_cache : Heap → (cache : ℕ) → Option ℕ × Memory → Option ℕ × Heap
grow_cache h cache (none, m) = (none, record h { pages = m })
grow_cache h cache (some a, m) =
    let page = addr_to_frame a in new_slab (record h { pages = m }) cache page (objects cache page)

unfoldable pub slab_alloc : Heap → (cache : ℕ) → Option ℕ × Heap
slab_alloc h cache =
    let grown = grow_cache h cache (buddy_alloc h.pages 0 false) in
    elim (alloc_listed h (h.slabs cache)) [ some (obj, h') ↦ (some obj, h') | none ↦ grown ]

-- `slab_free` once the header is read: the object goes back, and a slab without objects in use goes
-- back to the page allocator.
unfoldable pub put_object : Heap → (page ptr : ℕ) → Slab → Heap
put_object h page ptr s =
    let left : ℕ = (s.in_use + 2 ^ 32 - 1) % 2 ^ 32 in
    if left == 0
    then record {
      pages = buddy_free h.pages (frame_to_addr page) 0;
      headers = update h.headers page none;
      slabs = update h.slabs s.cache (erase page (h.slabs s.cache));
    }
    else record h {
      headers =
          update h.headers page (some (record s { freelist = ptr ∷ s.freelist; in_use = left }));
    }

-- `none` is the case that a page which is no slab has the magic number at its start.
unfoldable pub slab_free : Heap → (ptr : ℕ) → Option Heap
slab_free h ptr =
    let page = addr_to_frame ptr in
    if ptr == 0
    then some h
    else elim (h.headers page) [ none ↦ none | some s ↦ some (put_object h page ptr s) ]

-- The loop of `kmalloc` over the caches from `i` on, `n` caches being left.
unfoldable pub cache_for : (size i n : ℕ) → Option ℕ
cache_for size i zero = none
cache_for size i (suc n) =
    let rest = cache_for size (i + 1) n in if leb size (obj_size i) then some i else rest

abbrev pub page_order : ℕ → ℕ
page_order size = order_of ((size + frame_size - 1) % 2 ^ 64 / frame_size)

-- `kmalloc` of at least 2048 bytes.
unfoldable pub alloc_pages : Heap → (size : ℕ) → Option ℕ × Heap
alloc_pages h size =
    let (addr, m) = buddy_alloc h.pages (page_order size) false in (addr, record h { pages = m })

unfoldable pub alloc_small : Heap → (size : ℕ) → Option ℕ × Heap
alloc_small h size = elim (cache_for size 0 cache_count) [
  | none ↦ (none, h)
  | some i ↦ slab_alloc h i
]

unfoldable pub kmalloc : Heap → (size : ℕ) → Option ℕ × Heap
kmalloc h size =
    let wanted : ℕ = if ltb size 16 then 16 else size in
    if size == 0
    then (none, h)
    else if leb 2048 wanted
    then alloc_pages h wanted
    else alloc_small h wanted

-- The first 32 bits of a page: a slab has the magic number there, and any other page what its owner
-- has stored.
unfoldable pub first_word : Heap → (stored : ℕ → ℕ) → (page : ℕ) → ℕ
first_word h stored page = elim (h.headers page) [ some s ↦ slab_magic | none ↦ stored page ]

unfoldable pub kfree : Heap → (stored : ℕ → ℕ) → (ptr : ℕ) → Option Heap
kfree h stored ptr =
    let idx = addr_to_frame ptr in
    if ptr == 0
    then some h
    else if ltb ptr heap_phys || leb (heap_phys + heap_size) ptr
    then some h
    else if first_word h stored idx == slab_magic
    then slab_free h ptr
    else if not (bit_and ptr (frame_size - 1) == 0)
    then some h
    else if leb frame_count idx
    then some h
    else if bit_and (h.pages.frames idx) frame_alloc == 0
    then some h
    else some
        (record h { pages = buddy_free h.pages ptr (bit_and (h.pages.frames idx) frame_order) })

-- `alloc_size` of `kcalloc`.
unfoldable pub alloc_size : (total : ℕ) → ℕ
alloc_size total =
    if ltb total 2048
    then elim (cache_for total 0 cache_count) [ none ↦ total | some i ↦ obj_size i ]
    else 2 ^ page_order total * frame_size

-- `((uint8_t *)p)[i] = 0` for `n` bytes from `p` on.
unfoldable pub clear : (bytes : ℕ → ℕ) → (p n : ℕ) → ℕ → ℕ
clear bytes p zero = bytes
clear bytes p (suc n) = update (clear bytes p n) (p + n) 0

-- `kcalloc` once `kmalloc` has returned, and has left the bytes `left` in the memory.
unfoldable pub zeroed : (left : ℕ → ℕ) → (total : ℕ) → Option ℕ × Heap → Option ℕ × Heap × (ℕ → ℕ)
zeroed left total (none, h) = (none, h, left)
zeroed left total (some p, h) = (some p, h, clear left p (alloc_size total))

-- `left` is the memory as `kmalloc` leaves it, with the headers and the links that it writes into
-- pages and objects; the memory behind the loop of `kcalloc` is a part of the result.
unfoldable pub kcalloc : Heap → (left : ℕ → ℕ) → (count size : ℕ) → Option ℕ × Heap × (ℕ → ℕ)
kcalloc h left count size = let total = count * size % 2 ^ 64 in zeroed left total (kmalloc h total)
