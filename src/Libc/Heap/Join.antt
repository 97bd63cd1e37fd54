-- ===== src/Libc/Heap/Join.antt =====
-- The end of `free` of userland/libc/stdlib.c: the block goes to its place and takes in the next.
use Prim.Native.Nat.{bit_and}
use ovsb_mk.Base.{
  ℕ, suc, ◌+◌, ◌-◌, ◌%◌, ◌^◌, ◌≤◌, ◌<◌, ◌≡◌, ◌∙◌, ap, refl, ◌⊎◌, inl, inr, true, false, some, arith,
  ◌==◌, ltb, pos, int_eq,
}
use ovsb_mk.Base.Masks.{bit_and-even}
use ovsb_mk.Libc.{Mem}
use ovsb_mk.Libc.Heap.{
  heap_size, hdr_sz, amask, Arena, next_of, set_next, size_of, find_place, join, give_back,
}
use ovsb_mk.Libc.Heap.Words.{load64-save64, load64-save64-apart}
use ovsb_mk.Memory.Tables.{load64, save64}

-- The free list is the whole heap again.
abbrev pub Whole : Arena → (heap : ℕ) → Type 0
Whole a heap =
    (a.freep ≡ heap) × (next_of a.mem heap ≡ heap) × (size_of a.mem heap ≡ pos (heap_size - hdr_sz))

-- The search for the place of the block comes back to the block itself.
pub place-itself :
    (m : Mem) (rounds heap need freep : ℕ)
    → freep ≡ heap
    → 0 < need
    → next_of m heap ≡ heap + need
    → next_of m (heap + need) ≡ heap
    → find_place m (suc (suc rounds)) heap freep freep (next_of m freep) ≡ some (heap, heap + need)
unfolding find_place
place-itself m rounds heap need freep at_heap positive next back =
    let same : ltb heap heap ≡ false = ground arith in
    let before : ltb (heap + need) heap ≡ false = ground arith in
    let behind : ltb heap (heap + need) ≡ true = ground (arith, positive) in
    let other : (heap + need == heap) ≡ false = ground (arith, positive) in
    let here : (heap == heap) ≡ true = ground arith in
    rw (at_heap, next, back, same, before, behind, other, here, next) refl

-- A header with an even size.
size-even : (m : Mem) (b n : ℕ) → load64 m b ≡ n → n % 2 ≡ 0 → n < 2 ^ 31 → size_of m b ≡ pos n
size-even m b n e even small =
    let kept : bit_and n amask ≡ n = omega (arith, bit_and-even n (omega (arith, small)), even) in
    let low : n % 2 ^ 32 ≡ n = omega (arith, small) in
    let positive : ltb n (2 ^ 31) ≡ true = ground (arith, small) in rw (e, kept, low, positive) refl

join-adjacent :
    (m : Mem) (b n k : ℕ)
    → load64 m b ≡ n
    → load64 m (b + n) ≡ k
    → n % 2 ≡ 0
    → k % 2 ≡ 0
    → n + k < 2 ^ 31
    → join m b (b + n) ≡ set_next (save64 m b (n + k)) b (next_of m (b + n))
unfolding join
join-adjacent m b n k size other n_even k_even small =
    let here : int_eq (pos (b + n)) (pos (b + n)) ≡ true = ground arith in
    let first : bit_and n amask ≡ n =
      omega (arith, bit_and-even n (omega (arith, small)), n_even) in
    let second : bit_and k amask ≡ k =
      omega (arith, bit_and-even k (omega (arith, small)), k_even) in
    let low : (n + k) % 2 ^ 64 ≡ n + k = omega (arith, small) in
    rw (size-even m b n size n_even (omega (arith, small)), here, size, other, first, second, low)
      refl

join-apart : (m : Mem) (b c n : ℕ) → size_of m b ≡ pos n → c < b + n → join m b c ≡ m
unfolding join
join-apart m b c n size lt =
    let differ : int_eq (pos (b + n)) (pos c) ≡ false = ground (arith, lt) in rw (size, differ) refl

pub give_back-Whole :
    (a : Arena) (heap need : ℕ)
    → load64 a.mem heap ≡ need
    → load64 a.mem (heap + need) ≡ heap_size - hdr_sz - need
    → load64 a.mem (heap + need + 8) ≡ heap
    → need % 2 ≡ 0
    → 16 ≤ need
    → need < 4096
    → heap < 2 ^ 64
    → Whole (give_back a heap heap (heap + need)) heap
unfolding give_back
give_back-Whole a heap need size free_size back even min max fits =
    let rest = heap + need in
    let total = need + (heap_size - hdr_sz - need) in
    let one = save64 a.mem (heap + 8) rest in
    let linked = save64 one (heap + 8) heap in
    let kept : (at : ℕ)
        → (at + 8 ≤ heap + 8) ⊎ (heap + 8 + 8 ≤ at)
        → load64 linked at ≡ load64 a.mem at =
      λ at apart.
        load64-save64-apart one (heap + 8) heap at apart
        ∙ load64-save64-apart a.mem (heap + 8) rest at apart in
    let joined =
      join-adjacent linked heap need (heap_size - hdr_sz - need)
        (kept heap (inl (omega arith)) ∙ size) (kept rest (inr (omega (arith, min))) ∙ free_size)
        even (omega (arith, even)) (omega (arith, max)) in
    let successor : next_of linked rest ≡ heap =
      kept (rest + 8) (inr (omega (arith, min))) ∙ back in
    let whole = set_next (save64 linked heap total) heap heap in
    let header : size_of whole heap ≡ pos total =
      size-even whole heap total
        (load64-save64-apart (save64 linked heap total) (heap + 8) heap heap (inl (omega arith))
          ∙ load64-save64 linked heap total (omega (arith, max)))
        (omega (arith, max, even)) (omega (arith, max)) in
    let again : join whole heap heap ≡ whole =
      join-apart whole heap heap total header (omega (arith, min)) in
    rw (joined, successor, again)
      (
        refl,
        load64-save64 (save64 linked heap total) (heap + 8) heap fits,
        header ∙ ap pos (omega (arith, max)),
      )
