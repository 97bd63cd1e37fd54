-- ===== src/Memory/Types.antt =====
-- The state of the page allocator of kernel/memory.c: `frames` and `free_area`.
-- A block is named by the index of its first frame; its address is 0x900000 plus 4096 times that.
-- A free list is the list of its blocks, the head first: what the links `next` and `prev` join.
use ovsb_mk.Base.{
  ℕ, suc, ◌+◌, ◌-◌, ◌*◌, ◌/◌, ◌%◌, ◌^◌, ◌≡◌, List, [], ◌∷◌, arith, ◌==◌, if◌then◌else◌,
}

abbrev pub heap_phys : ℕ
heap_phys = 0x900000

abbrev pub frame_size : ℕ
frame_size = 4096

-- 64 MB in frames of 4096 bytes.
abbrev pub frame_count : ℕ
frame_count = 16384

abbrev pub heap_size : ℕ
heap_size = 67108864

abbrev pub max_order : ℕ
max_order = 14

-- FRAME_ALLOC, FRAME_USER and FRAME_ORDER.
abbrev pub frame_alloc : ℕ
frame_alloc = 0x80

abbrev pub frame_user : ℕ
frame_user = 0x40

abbrev pub frame_order : ℕ
frame_order = 0x3F

pub record Memory : Type 0 where
  pub frames : ℕ → ℕ
  pub free_area : ℕ → List ℕ

-- `a[i] = v`
abbrev pub update {ℓ} : {A : Type ℓ} → (ℕ → A) → ℕ → A → ℕ → A
update f i v j = if j == i then v else f j

-- `uint64_t` subtraction: an address below the heap gives an index far above it.
abbrev pub addr_to_frame : ℕ → ℕ
addr_to_frame addr = (addr + 2 ^ 64 - heap_phys) % 2 ^ 64 / frame_size

abbrev pub frame_to_addr : ℕ → ℕ
frame_to_addr idx = heap_phys + idx * frame_size

-- How often a block stands in a list.
abbrev pub count : ℕ → List ℕ → ℕ
count b [] = 0
count b (x ∷ xs) = if b == x then suc (count b xs) else count b xs

-- A list less the first entry that is `b`.
unfoldable pub erase : ℕ → List ℕ → List ℕ
erase b [] = []
erase b (x ∷ xs) = if b == x then xs else x ∷ erase b xs

pub count-erase :
    (b c : ℕ) (xs : List ℕ) → count c (erase b xs) ≡ (if c == b then count c xs - 1 else count c xs)
unfolding erase
count-erase b c [] = ground arith
count-erase b c (x ∷ xs) = ground (arith, count-erase b c xs)

-- `list_add(&free_area[o], blk)`
unfoldable pub list_add : Memory → (o blk : ℕ) → Memory
list_add m o blk = record m { free_area = update m.free_area o (blk ∷ m.free_area o) }

-- `list_remove(&free_area[o], blk)`
unfoldable pub list_remove : Memory → (o blk : ℕ) → Memory
list_remove m o blk = record m { free_area = update m.free_area o (erase blk (m.free_area o)) }

-- `frames[i] = v`
abbrev pub set_frame : Memory → (i v : ℕ) → Memory
set_frame m i v = record m { frames = update m.frames i v }
