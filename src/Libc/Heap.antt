-- ===== src/Libc/Heap.antt =====
-- userland/libc/stdlib.c: the heap of a program. Its memory is a function from addresses to bytes,
-- `heap` the address of `_heap`, and what `_syscall` returns is an argument. `none` is a search that
-- does not end within its rounds, or an `int` that overflows.
pub mod First
pub mod Return
pub mod Join
pub mod Resize
mod Words
use Prim.Native.Nat.{bit_and, bit_or}
use ovsb_mk.Base.{
  ℕ, zero, suc, ◌+◌, ◌-◌, ◌*◌, ◌/◌, ◌%◌, ◌^◌, Bool, true, false, ◌&&◌, ◌||◌, Option, none, some,
  ◌==◌, ltb, leb, if◌then◌else◌, ℤ, pos, negsuc, int_eq,
}
use ovsb_mk.Libc.{Mem}
use ovsb_mk.Memory.Tables.{load64, save64}
use ovsb_mk.Syscall.Types.{int_of}

abbrev pub heap_size : ℕ
heap_size = 65536

abbrev pub hdr_sz : ℕ
hdr_sz = 8

abbrev pub mmap_thresh : ℕ
mmap_thresh = 2048

-- AMASK: all bits but USED.
abbrev pub amask : ℕ
amask = 2 ^ 64 - 2

-- `ALIGN8(n)`, and the same for pages.
abbrev pub align : (unit n : ℕ) → ℕ
align unit n = (n + (unit - 1)) / unit * unit

pub record Arena : Type 0 where
  pub mem : Mem
  pub hinit : Bool
  pub freep : ℕ

-- `NEXT(b)`
abbrev pub next_of : Mem → ℕ → ℕ
next_of m b = load64 m (b + hdr_sz)

abbrev pub set_next : Mem → (b v : ℕ) → Mem
set_next m b v = save64 m (b + hdr_sz) v

-- `(int)(*b & AMASK)`
abbrev pub size_of : Mem → ℕ → ℤ
size_of m b = int_of (bit_and (load64 m b) amask)

-- `csize >= need`, for a `need` that is not negative.
abbrev pub at_least : ℤ → ℕ → Bool
at_least (pos a) n = leb n a
at_least (negsuc a) n = false

abbrev pub size_or_0 : ℤ → ℕ
size_or_0 (pos a) = a
size_or_0 (negsuc a) = 0

unfoldable pub hinit : Arena → (heap : ℕ) → Arena
hinit a heap = if a.hinit then a else record {
  mem = set_next (save64 a.mem heap (heap_size - hdr_sz)) heap heap;
  hinit = true;
  freep = heap;
}

-- The block `curr` behind `prev` is large enough.
unfoldable pub take_chunk : Mem → (prev curr need : ℕ) → Arena
take_chunk m prev curr need =
    let csize = size_or_0 (size_of m curr) in
    let rest = curr + need in
    let split =
      set_next
        (save64 (set_next (save64 m rest (csize - need)) rest (next_of m curr)) curr
          (bit_or need 1))
        prev rest in
    let marked = save64 m curr (bit_or (load64 m curr) 1) in
    record {
      mem =
          if leb (need + hdr_sz + 16) csize
          then split
          else set_next marked prev (next_of marked curr);
      hinit = true;
      freep = prev;
    }

-- The loop of `malloc` over the free list, with at most `rounds` rounds. NULL is 0.
unfoldable pub search_free : Arena → (rounds prev curr need : ℕ) → Option (ℕ × Arena)
search_free a zero prev curr need = none
search_free a (suc rounds) prev curr need =
    let rest = search_free a rounds curr (next_of a.mem curr) need in
    if at_least (size_of a.mem curr) need
    then some (curr + hdr_sz, take_chunk a.mem prev curr need)
    else if next_of a.mem curr == a.freep
    then some (0, a)
    else rest

-- A size from MMAP_THRESH on: `page` is what `mmap` returns for `total` bytes.
unfoldable pub map_chunk : Arena → (total page : ℕ) → ℕ × Arena
map_chunk a total page =
    if page == 0
    then (0, a)
    else (page + hdr_sz, record a { mem = save64 a.mem page (bit_or total 1) })

unfoldable pub malloc : Arena → (heap rounds : ℕ) → (mmap : ℕ → ℕ) → (n : ℤ) → Option (ℕ × Arena)
malloc a heap rounds mmap (negsuc k) = some (0, a)
malloc a heap rounds mmap (pos n) =
    let b = hinit a heap in
    let total = align 4096 (n + hdr_sz) in
    if n == 0
    then some (0, a)
    else if leb mmap_thresh n && leb (2 ^ 31) (n + hdr_sz + 4095)
    then none
    else if leb mmap_thresh n
    then some (map_chunk b total (mmap total))
    else search_free b rounds b.freep (next_of b.mem b.freep) (align 8 n + hdr_sz)

-- The place of `h` in the list, with the block behind it.
unfoldable pub find_place : Mem → (rounds h freep prev curr : ℕ) → Option (ℕ × ℕ)
find_place m zero h freep prev curr = none
find_place m (suc rounds) h freep prev curr =
    let rest = find_place m rounds h freep curr (next_of m curr) in
    if ltb prev h && ltb h curr
    then some (prev, curr)
    else if ltb curr prev && (ltb prev h || ltb h curr)
    then some (prev, curr)
    else if curr == freep
    then some (curr, next_of m curr)
    else rest

-- `(char*)b + n`
abbrev pub offset : ℕ → ℤ → ℤ
offset b (pos n) = pos (b + n)
offset b (negsuc n) = if ltb n b then pos (b - n - 1) else negsuc (n - b)

-- The sum of two sizes, where the second block ends the first: `b` takes `c` in.
unfoldable pub join : Mem → (b c : ℕ) → Mem
join m b c =
    if int_eq (offset b (size_of m b)) (pos c)
    then set_next (save64 m b ((bit_and (load64 m b) amask + bit_and (load64 m c) amask) % 2 ^ 64))
        b (next_of m c)
    else m

-- `free` of a block of `_heap`.
unfoldable pub give_back : Arena → (h prev curr : ℕ) → Arena
give_back a h prev curr =
    let linked = set_next (set_next a.mem h curr) prev h in
    record a { mem = join (join linked h curr) prev h; freep = prev }

-- What `free` asks `munmap` for: the address and the size of a block.
abbrev pub Unmapped : Type 0
Unmapped = Option (ℕ × ℤ)

-- `free` behind the mark of the block.
unfoldable pub link_block : Arena → (rounds h : ℕ) → Option (Arena × Unmapped)
link_block b rounds h = elim (find_place b.mem rounds h b.freep b.freep (next_of b.mem b.freep)) [
  | none ↦ none
  | some (prev, curr) ↦ some (give_back b h prev curr, none)
]

unfoldable pub free : Arena → (heap rounds p : ℕ) → Option (Arena × Unmapped)
free a heap rounds p =
    let h = p - hdr_sz in
    let b = record a { mem = save64 a.mem h (bit_and (load64 a.mem h) amask) } in
    if p == 0
    then some (a, none)
    else if ltb h heap || leb (heap + heap_size) h
    then some (a, some (h, size_of a.mem h))
    else link_block b rounds h
