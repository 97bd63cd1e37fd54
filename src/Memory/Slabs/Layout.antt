-- ===== src/Memory/Slabs/Layout.antt =====
-- The invariant of the slab caches of kernel/memory.c, and what the kernel has been given: objects
-- of slabs, and blocks of pages.
use ovsb_mk.Base.{ℕ, ◌+◌, ◌≤◌, ◌<◌, ◌≡◌, ◌≢◌, ◌⊎◌, inl, inr, Bool, some, none, arith, ◌==◌}
use ovsb_mk.Memory.Types.{Memory, count, addr_to_frame, frame_to_addr}
use ovsb_mk.Memory.Buddy.Layout as Buddy
use ovsb_mk.Memory.Slabs.{Slab, Heap, obj_per_slab}
use ovsb_mk.Memory.Slabs.Slots.{object_at, tally}

-- The object `k` is in use: it is not in the free list.
abbrev pub is_used : (page : ℕ) → Slab → ℕ → Bool
is_used page s k = count (object_at s.cache page k) s.freelist == 0

-- A slab of a cache whose free list has objects of the slab, each once, and that counts the others.
pub record IsSlab (page : ℕ) (s : Slab) : Type 0 where
  pub cache : s.cache < 8
  pub counted : s.in_use ≡ tally (is_used page s) (obj_per_slab s.cache)
  pub used : 1 ≤ s.in_use
  pub listed :
      (x : ℕ)
      → 1 ≤ count x s.freelist
      → (k : ℕ) × (k < obj_per_slab s.cache) × (x ≡ object_at s.cache page k)
  pub once : (x : ℕ) → count x s.freelist ≤ 1

-- Where a header stands, the page is a taken block of one frame, and its cache lists it once.
pub record HasSlab (h : Heap) (page : ℕ) (s : Slab) : Type 0 where
  pub inside : page < 16384
  pub taken : h.pages.frames page ≡ 128
  pub slab : IsSlab page s
  pub listed : count page (h.slabs s.cache) ≡ 1

pub record IsSound (h : Heap) : Type 0 where
  pub pages : Buddy.IsSound h.pages
  pub headers : (page : ℕ) (s : Slab) → h.headers page ≡ some s → HasSlab h page s
  pub listed :
      (i page : ℕ)
      → 1 ≤ count page (h.slabs i)
      → (s : Slab) × (h.headers page ≡ some s) × (s.cache ≡ i)

-- The address of an object of a slab that is in use.
abbrev pub IsObject : Heap → ℕ → Type 0
IsObject h x =
    (s : Slab) × (h.headers (addr_to_frame x) ≡ some s)
    × ((k : ℕ) × (k < obj_per_slab s.cache) × (x ≡ object_at s.cache (addr_to_frame x) k))
    × (count x s.freelist ≡ 0)

-- The address of a block of pages that the kernel has.
abbrev pub IsBlock : Heap → ℕ → Type 0
IsBlock h x =
    (x ≡ frame_to_addr (addr_to_frame x))
    × (addr_to_frame x < 16384)
    × (h.headers (addr_to_frame x) ≡ none)
    × ((o : ℕ) × (o ≤ 14) × (h.pages.frames (addr_to_frame x) ≡ 128 + o))

abbrev pub IsOwned : Heap → ℕ → Type 0
IsOwned h x = IsObject h x ⊎ IsBlock h x

-- The second heap has given out `x` and is otherwise the same.
pub record Adds (h h' : Heap) (x : ℕ) : Type 0 where
  pub before : IsOwned h x → ⊥
  pub after : IsOwned h' x
  pub kept : (y : ℕ) → y ≢ x → IsOwned h y → IsOwned h' y
  pub none_new : (y : ℕ) → y ≢ x → IsOwned h' y → IsOwned h y

-- But for the frame `b`, the marks of taken blocks are the same.
abbrev pub SameOthers : Memory → Memory → ℕ → Type 0
SameOthers m m' b =
    (c : ℕ) → c ≢ b → (128 ≤ m.frames c) ⊎ (128 ≤ m'.frames c) → m'.frames c ≡ m.frames c

-- Another page's objects and blocks do not depend on what has changed at one page.
pub owned_elsewhere :
    (h h' : Heap) (y : ℕ)
    → h'.headers (addr_to_frame y) ≡ h.headers (addr_to_frame y)
    → ((128 ≤ h.pages.frames (addr_to_frame y))
        → h'.pages.frames (addr_to_frame y) ≡ h.pages.frames (addr_to_frame y))
    → IsOwned h y
    → IsOwned h' y
owned_elsewhere h h' y same frames (inl (s, e, k, free)) = inl (s, cc, k, free)
owned_elsewhere h h' y same frames (inr (at, inside, e, (o, le, mark))) =
    inr (at, inside, cc, (o, le, omega (arith, frames (omega arith))))
