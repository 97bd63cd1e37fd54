-- ===== src/Libc/Heap/First.antt =====
-- `malloc` of userland/libc/stdlib.c on a heap that nothing has been taken from.
use ovsb_mk.Base.{
  ℕ, suc, ◌+◌, ◌-◌, ◌^◌, ◌≤◌, ◌<◌, ◌≡◌, ◌∙◌, ap, refl, inl, true, false, some, arith, ◌==◌, leb,
  pos,
}
use ovsb_mk.Libc.{Mem}
use ovsb_mk.Libc.Heap.{
  heap_size, hdr_sz, mmap_thresh, align, Arena, next_of, set_next, size_of, at_least, hinit,
  take_chunk, search_free, malloc,
}
use ovsb_mk.Libc.Heap.Words.{load64-save64, load64-save64-apart}
use ovsb_mk.Memory.Tables.{load64, save64}

-- The memory that `hinit` leaves.
abbrev pub fresh : Mem → ℕ → Mem
fresh m heap = set_next (save64 m heap (heap_size - hdr_sz)) heap heap

pub fresh-next : (m : Mem) (heap : ℕ) → heap < 2 ^ 64 → next_of (fresh m heap) heap ≡ heap
fresh-next m heap lt = load64-save64 (save64 m heap (heap_size - hdr_sz)) (heap + 8) heap lt

pub fresh-size : (m : Mem) (heap : ℕ) → size_of (fresh m heap) heap ≡ pos (heap_size - hdr_sz)
fresh-size m heap =
    let word : load64 (fresh m heap) heap ≡ heap_size - hdr_sz =
      load64-save64-apart (save64 m heap (heap_size - hdr_sz)) (heap + 8) heap heap
        (inl (omega arith))
      ∙ load64-save64 m heap (heap_size - hdr_sz) (omega arith) in
    rw word refl

pub take-freep : (m : Mem) (prev curr need : ℕ) → (take_chunk m prev curr need).freep ≡ prev
unfolding take_chunk
take-freep m prev curr need = refl

-- The search ends at the first block.
search-first :
    (a : Arena) (rounds prev curr need size : ℕ)
    → size_of a.mem curr ≡ pos size
    → need ≤ size
    → search_free a (suc rounds) prev curr need
      ≡ some (curr + hdr_sz, take_chunk a.mem prev curr need)
unfolding search_free
search-first a rounds prev curr need size e le =
    let fits : at_least (size_of a.mem curr) need ≡ true =
      ap (λ z. at_least z need) e ∙ ground (arith, le) in
    rw fits refl

pub malloc-fresh :
    (a : Arena) (heap rounds : ℕ) (mmap : ℕ → ℕ) (n : ℕ)
    → a.hinit ≡ false
    → 0 < n
    → n < mmap_thresh
    → heap < 2 ^ 64
    → malloc a heap (suc rounds) mmap (pos n)
      ≡ some (heap + hdr_sz, take_chunk (fresh a.mem heap) heap heap (align 8 n + hdr_sz))
unfolding malloc hinit
malloc-fresh a heap rounds mmap n new positive small lt =
    let m = fresh a.mem heap in
    let need = align 8 n + hdr_sz in
    let is_zero : (n == 0) ≡ false = ground (arith, positive) in
    let mapped : leb mmap_thresh n ≡ false = ground (arith, small) in
    let b : Arena = record { mem = m; hinit = true; freep = heap } in
    let begin : next_of m heap ≡ heap = fresh-next a.mem heap lt in
    let found =
      search-first b rounds heap heap need (heap_size - hdr_sz) (fresh-size a.mem heap)
        (omega (arith, small)) in
    rw (new, is_zero, mapped, begin, found) refl

-- In a heap that nothing has been taken from, a `malloc` of 1 to 2047 bytes returns the bytes behind
-- the first header, and `freep` stays at that header: the word that the program then stores at the
-- start of its block is the successor of `freep`, where the next search begins.
pub malloc-freep :
    (a : Arena) (heap rounds : ℕ) (mmap : ℕ → ℕ) (n w : ℕ)
    → a.hinit ≡ false
    → 0 < n
    → n < mmap_thresh
    → heap < 2 ^ 64
    → w < 2 ^ 64
    → (a' : Arena) × (malloc a heap (suc rounds) mmap (pos n) ≡ some (heap + hdr_sz, a'))
      × (a'.freep ≡ heap)
      × (next_of (save64 a'.mem (heap + hdr_sz) w) a'.freep ≡ w)
malloc-freep a heap rounds mmap n w new positive small lt wlt =
    let a' = take_chunk (fresh a.mem heap) heap heap (align 8 n + hdr_sz) in
    let at_heap : a'.freep ≡ heap = take-freep (fresh a.mem heap) heap heap (align 8 n + hdr_sz) in
    (
      a',
      malloc-fresh a heap rounds mmap n new positive small lt,
      at_heap,
      ap (λ z. next_of (save64 a'.mem (heap + hdr_sz) w) z) at_heap
          ∙ load64-save64 a'.mem (heap + hdr_sz) w wlt,
    )
