-- ===== src/Libc/Heap/Resize.antt =====
-- userland/libc/stdlib.c: `calloc` and `realloc`, on `malloc` and `free`.
use mathlib.Core.Option
use ovsb_mk.Base.{
  ℕ, zero, suc, ◌+◌, ◌-◌, ◌*◌, ◌^◌, Bool, Option, none, some, ◌==◌, leb, if◌then◌else◌, ℤ, pos,
  negsuc,
}
use ovsb_mk.Libc.{memset, copy_up}
use ovsb_mk.Libc.Heap.{hdr_sz, Arena, size_of, at_least, size_or_0, malloc, Unmapped, free}

abbrev minus : ℕ → ℤ
minus zero = pos 0
minus (suc k) = negsuc k

-- `n*size`, with the `int` that it gives.
abbrev pub product : ℤ → ℤ → ℤ
product (pos a) (pos b) = pos (a * b)
product (pos a) (negsuc b) = minus (a * (b + 1))
product (negsuc a) (pos b) = minus ((a + 1) * b)
product (negsuc a) (negsuc b) = pos ((a + 1) * (b + 1))

abbrev pub overflows : ℤ → Bool
overflows (pos a) = leb (2 ^ 31) a
overflows (negsuc a) = leb (2 ^ 31) a

-- `for(int i=0;i<t;i++)cp[i]=0`
unfoldable pub clear_block : (t : ℤ) → ℕ × Arena → ℕ × Arena
clear_block t (p, a) =
    if p == 0 then (0, a) else (p, record a { mem = memset a.mem p 0 (size_or_0 t) })

unfoldable pub calloc :
    Arena → (heap rounds : ℕ) → (mmap : ℕ → ℕ) → (n size : ℤ) → Option (ℕ × Arena)
calloc a heap rounds mmap n size =
    let t = product n size in
    if overflows t then none else Option.map (clear_block t) (malloc a heap rounds mmap t)

-- `realloc` with the block that `malloc` has returned: the bytes of the old one go there.
unfoldable pub move_block : (heap rounds p old : ℕ) → ℕ × Arena → Option (ℕ × Arena × Unmapped)
move_block heap rounds p old (new, a) =
    let copied = record a { mem = copy_up a.mem new p 0 old } in
    if new == 0
    then some (0, a, none)
    else Option.map (λ (b, u). (new, b, u)) (free copied heap rounds p)

-- The block is large enough when its size less the header is at least `n`.
unfoldable pub realloc :
    Arena → (heap rounds : ℕ) → (mmap : ℕ → ℕ) → (p : ℕ) → (n : ℤ) → Option (ℕ × Arena × Unmapped)
realloc a heap rounds mmap p (negsuc k) =
    if p == 0 then some (0, a, none) else Option.map (λ (b, u). (0, b, u)) (free a heap rounds p)
realloc a heap rounds mmap p (pos n) =
    let size = size_of a.mem (p - hdr_sz) in
    if p == 0
    then Option.map (λ (new, b). (new, b, none)) (malloc a heap rounds mmap (pos n))
    else if n == 0
    then Option.map (λ (b, u). (0, b, u)) (free a heap rounds p)
    else if at_least size (n + hdr_sz)
    then some (p, a, none)
    else elim (malloc a heap rounds mmap (pos n)) [
      | none ↦ none
      | some r ↦ move_block heap rounds p (size_or_0 size - hdr_sz) r
    ]
