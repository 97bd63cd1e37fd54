-- ===== src/Libc/Heap/Return.antt =====
-- `free` of userland/libc/stdlib.c on the only block that is out.
use Prim.Native.Nat.{bit_and, bit_or}
use ovsb_mk.Base.{
  ℕ, suc, ◌+◌, ◌-◌, ◌%◌, ◌^◌, ◌≤◌, ◌<◌, ◌≡◌, ◌∙◌, refl, ◌⊎◌, inl, inr, true, false, ◌||◌, none,
  some, arith, ◌==◌, ltb, leb, pos,
}
use ovsb_mk.Base.Masks.{bit_and-even, bit_or-one}
use ovsb_mk.Libc.{Mem}
use ovsb_mk.Libc.Heap.{
  heap_size, hdr_sz, mmap_thresh, align, amask, Arena, next_of, size_of, take_chunk, malloc,
  find_place, give_back, link_block, free,
}
use ovsb_mk.Libc.Heap.First.{fresh, fresh-next, fresh-size, take-freep, malloc-fresh}
use ovsb_mk.Libc.Heap.Words.{load64-save64, load64-save64-apart, load64-same}
use ovsb_mk.Memory.Tables.{load64, save64}
use ovsb_mk.Libc.Heap.Join.{Whole, place-itself, give_back-Whole}

-- The heap is a block in use of `need` bytes, then a free one with the rest, which is the successor of
-- the first and has it as its own successor.
abbrev Split : Mem → (heap need : ℕ) → Type 0
Split m heap need =
    (load64 m heap ≡ need + 1)
    × (load64 m (heap + 8) ≡ heap + need)
    × (load64 m (heap + need) ≡ heap_size - hdr_sz - need)
    × (load64 m (heap + need + 8) ≡ heap)

take-Split :
    (m : Mem) (heap need : ℕ)
    → size_of m heap ≡ pos (heap_size - hdr_sz)
    → next_of m heap ≡ heap
    → heap + heap_size < 2 ^ 64
    → need % 2 ≡ 0
    → 16 ≤ need
    → need < 4096
    → Split (take_chunk m heap heap need).mem heap need
unfolding take_chunk
take-Split m heap need size next fits even min max =
    let rest = heap + need in
    let a = save64 m rest (heap_size - hdr_sz - need) in
    let b = save64 a (rest + 8) heap in
    let c = save64 b heap (need + 1) in
    let marked : bit_or need 1 ≡ need + 1 = omega (arith, bit_or-one need, even) in
    let large : leb (need + hdr_sz + 16) (heap_size - hdr_sz) ≡ true = ground (arith, max) in
    rw (size, large, next, marked)
      (
        load64-save64-apart c (heap + 8) rest heap (inl (omega arith))
            ∙ load64-save64 b heap (need + 1) (omega (arith, max)),
        load64-save64 c (heap + 8) rest (omega (arith, fits, max)),
        load64-save64-apart c (heap + 8) rest rest (inr (omega (arith, min)))
            ∙ load64-save64-apart b heap (need + 1) rest (inr (omega (arith, min)))
            ∙ load64-save64-apart a (rest + 8) heap rest (inl (omega arith))
            ∙ load64-save64 m rest (heap_size - hdr_sz - need) (omega arith),
        load64-save64-apart c (heap + 8) rest (rest + 8) (inr (omega (arith, min)))
            ∙ load64-save64-apart b heap (need + 1) (rest + 8) (inr (omega (arith, min)))
            ∙ load64-save64 a (rest + 8) heap (omega (arith, fits)),
      )

link_block-placed :
    (b : Arena) (heap rounds curr : ℕ)
    → find_place b.mem rounds heap b.freep b.freep (next_of b.mem b.freep) ≡ some (heap, curr)
    → link_block b rounds heap ≡ some (give_back b heap heap curr, none)
unfolding link_block
link_block-placed b heap rounds curr place = rw (link_block, place) refl

-- The block that is out has the size `need` and is the successor of the last free one.
free-Split :
    (a : Arena) (heap rounds need : ℕ)
    → a.freep ≡ heap
    → Split a.mem heap need
    → need % 2 ≡ 0
    → 16 ≤ need
    → need < 4096
    → heap < 2 ^ 64
    → (a' : Arena) × (free a heap (suc (suc rounds)) (heap + hdr_sz) ≡ some (a', none))
      × Whole a' heap
unfolding free
free-Split a heap rounds need freep (used, next, free_size, back) even min max fits =
    let rest = heap + need in
    let m = save64 a.mem heap need in
    let unused : bit_and (need + 1) amask ≡ need =
      omega (arith, bit_and-even (need + 1) (omega (arith, max)), even) in
    let at_header : heap + hdr_sz - hdr_sz ≡ heap = omega arith in
    let not_null : (heap + hdr_sz == 0) ≡ false = ground arith in
    let inside : (ltb heap heap || leb (heap + heap_size) heap) ≡ false = ground arith in
    let kept : (at : ℕ) → heap + 8 ≤ at → load64 m at ≡ load64 a.mem at =
      λ at ge. load64-save64-apart a.mem heap need at (inr ge) in
    let successor : next_of m heap ≡ rest = kept (heap + 8) (omega arith) ∙ next in
    let round : next_of m rest ≡ heap = kept (rest + 8) (omega arith) ∙ back in
    let place =
      place-itself m rounds heap need a.freep freep (omega (arith, min)) successor round in
    let b : Arena = record a { mem = m } in
    let linked = link_block-placed b heap (suc (suc rounds)) rest place in
    let run : free a heap (suc (suc rounds)) (heap + hdr_sz)
        ≡ some (give_back b heap heap rest, none) =
      rw (at_header, not_null, inside, used, unused) linked in
    (
      give_back b heap heap rest,
      run,
      give_back-Whole b heap need (load64-save64 a.mem heap need (omega (arith, max)))
          (kept rest (omega (arith, min)) ∙ free_size) round even min max fits,
    )

-- A program that takes 1 to 2047 bytes from a heap that nothing has been taken from, writes to its
-- bytes but for the first 8, and gives them back: both calls succeed, and the free list is the
-- whole heap again.
pub malloc-free :
    (a : Arena) (heap rounds : ℕ) (mmap : ℕ → ℕ) (n : ℕ) (write : Mem → Mem)
    → a.hinit ≡ false
    → 0 < n
    → n < mmap_thresh
    → heap + heap_size < 2 ^ 64
    → ((m : Mem) (j : ℕ) → (j < heap + 16) ⊎ (heap + 8 + n ≤ j) → write m j ≡ m j)
    → (a' a'' : Arena) × (malloc a heap (suc (suc rounds)) mmap (pos n) ≡ some (heap + hdr_sz, a'))
      × (free (record a' { mem = write a'.mem }) heap (suc (suc rounds)) (heap + hdr_sz)
          ≡ some (a'', none))
      × Whole a'' heap
malloc-free a heap rounds mmap n write new positive small fits own =
    let need = align 8 n + hdr_sz in
    let m = fresh a.mem heap in
    let a' = take_chunk m heap heap need in
    let even : need % 2 ≡ 0 = omega arith in
    let min : 16 ≤ need = omega (arith, positive) in
    let max : need < 4096 = omega (arith, small) in
    let lt : heap < 2 ^ 64 = omega (arith, fits) in
    let low : (at : ℕ) → at + 8 ≤ heap + 16 → load64 (write a'.mem) at ≡ load64 a'.mem at = λ at le.
      load64-same (write a'.mem) a'.mem at
        (λ j ge below. own a'.mem j (inl (omega (arith, le, below)))) in
    let high : (at : ℕ) → heap + 8 + n ≤ at → load64 (write a'.mem) at ≡ load64 a'.mem at = λ at le.
      load64-same (write a'.mem) a'.mem at
        (λ j ge below. own a'.mem j (inr (omega (arith, le, ge)))) in
    let (used, next, free_size, back) =
      take-Split m heap need (fresh-size a.mem heap) (fresh-next a.mem heap lt) fits even min max in
    let split : Split (write a'.mem) heap need = (
      low heap (omega arith) ∙ used,
      low (heap + 8) (omega arith) ∙ next,
      high (heap + need) (omega (arith, positive)) ∙ free_size,
      high (heap + need + 8) (omega (arith, positive)) ∙ back,
    ) in
    let (a'', run, whole) =
      free-Split (record a' { mem = write a'.mem }) heap rounds need (take-freep m heap heap need)
        split even min max lt in
    (a', a'', malloc-fresh a heap (suc rounds) mmap n new positive small lt, run, whole)
