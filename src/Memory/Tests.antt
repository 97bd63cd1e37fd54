-- ===== src/Memory/Tests.antt =====
-- The page allocator of kernel/memory.c on a small run: eight frames for a user process, one for the
-- kernel.
use ovsb_mk.Base.{
  ℕ, ◌+◌, ◌^◌, ◌≤◌, ◌<◌, ◌≡◌, ◌≢◌, ◌⊎◌, inl, inr, refl, ap, [], true, false, some, none, arith, pos,
}
use ovsb_mk.Memory.Types.{Memory, frame_to_addr}
use ovsb_mk.Memory.Buddy.{memory_init, find_order, split_block, take_block, buddy_alloc, buddy_free}
use ovsb_mk.Memory.Types.{list_add, list_remove, erase}
use ovsb_mk.Memory.Buddy.Layout.{IsSound, memory_init-IsSound}
use ovsb_mk.Memory.Buddy.Free.{SameTaken, buddy_free-IsSound}
use ovsb_mk.Memory.Buddy.Result.{Allocated, buddy_alloc-Allocated}
use ovsb_mk.Memory.Buddy.Disjoint.{buddy_alloc-disjoint}
use ovsb_mk.Memory.Pages.{order_loop, order_of, mmap_user, munmap_user, munmap_all_user}
use ovsb_mk.Memory.Pages.Unmap.{mmap_user-munmap_user}
use ovsb_mk.Memory.Pages.Sweep.{Swept, munmap_all_user-Swept}

-- Eight frames, taken from the whole heap for a user process.
abbrev eight : Memory
eight = (buddy_alloc memory_init 3 true).1

eight-place : (buddy_alloc memory_init 3 true).0 ≡ some 0x900000
unfolding memory_init find_order split_block take_block buddy_alloc
eight-place = refl

eight-mark : eight.frames 0 ≡ 195
unfolding memory_init find_order split_block take_block buddy_alloc list_add list_remove erase
eight-mark = refl

eight-IsSound : IsSound eight
eight-IsSound = elim (buddy_alloc-Allocated memory_init 3 true memory_init-IsSound (omega arith)) [
  | inl (b, e, a) ↦ a.sound
  | inr (e, all) ↦ absurd (ground (arith, e, eight-place))
]

-- One more frame for the kernel.
nine-place : (buddy_alloc eight 0 false).0 ≡ some (frame_to_addr 8)
unfolding memory_init find_order split_block take_block buddy_alloc list_add list_remove erase
nine-place = refl

mmap-place : (mmap_user memory_init 20000).0 ≡ some 0x900000
unfolding memory_init find_order split_block take_block buddy_alloc mmap_user order_of order_loop
mmap-place = refl

buddy_alloc-Allocated_example :
    ((b : ℕ) × ((buddy_alloc memory_init 3 true).0 ≡ some (frame_to_addr b))
      × Allocated memory_init (buddy_alloc memory_init 3 true).1 3 true b)
    ⊎ ((buddy_alloc memory_init 3 true ≡ (none, memory_init))
        × ((p : ℕ) → 3 ≤ p → p ≤ 14 → memory_init.free_area p ≡ []))
buddy_alloc-Allocated_example =
    buddy_alloc-Allocated memory_init 3 true memory_init-IsSound (omega arith)

buddy_free-IsSound_example :
    IsSound (buddy_free eight (frame_to_addr 0) 3)
    × ((buddy_free eight (frame_to_addr 0) 3).frames 0 < 128)
    × ((c : ℕ)
        → c ≢ 0
        → (128 ≤ eight.frames c) ⊎ (128 ≤ (buddy_free eight (frame_to_addr 0) 3).frames c)
        → (buddy_free eight (frame_to_addr 0) 3).frames c ≡ eight.frames c)
buddy_free-IsSound_example =
    buddy_free-IsSound eight 0 3 eight-IsSound (omega arith) (omega arith) (inr eight-mark)

buddy_alloc-disjoint_example : (8 + 2 ^ 0 ≤ 0) ⊎ (0 + 2 ^ 3 ≤ 8)
buddy_alloc-disjoint_example =
    buddy_alloc-disjoint eight (buddy_alloc eight 0 false).1 0 false 8 0 3 eight-IsSound
      (omega arith) (ap (λ o. (o, (buddy_alloc eight 0 false).1)) nine-place) (omega arith)
      (omega arith) (inr eight-mark)

mmap_user-munmap_user_example :
    ((munmap_user (mmap_user memory_init 20000).1 0x900000 20000).0 ≡ pos 0)
    × IsSound (munmap_user (mmap_user memory_init 20000).1 0x900000 20000).1
    × SameTaken memory_init (munmap_user (mmap_user memory_init 20000).1 0x900000 20000).1
mmap_user-munmap_user_example =
    mmap_user-munmap_user memory_init (mmap_user memory_init 20000).1 0x900000 20000 20000
      memory_init-IsSound (ap (λ o. (o, (mmap_user memory_init 20000).1)) mmap-place)

munmap_all_user-Swept_example : Swept eight (munmap_all_user eight)
munmap_all_user-Swept_example = munmap_all_user-Swept eight eight-IsSound
