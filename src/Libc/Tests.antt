-- ===== src/Libc/Tests.antt =====
-- userland/libc/string.c and stdlib.c on a small memory: "abab" at 10, "ab" at 20, room from 40 on.
use mathlib.Core.Option
use ovsb_mk.Base.{
  ℕ, ◌+◌, ◌<◌, ◌≡◌, ◌⊎◌, ◌&&◌, inl, refl, false, inr, List, [], ◌∷◌, ◌++◌, some, arith, ◌==◌, ltb,
  leb, if◌then◌else◌, length, negsuc, pos, Option, none, ◌≤◌,
}
use ovsb_mk.Libc.Convert.{itoa, atoi}
use ovsb_mk.Libc.Convert.RoundTrip.{atoi-itoa}
use ovsb_mk.Libc.Heap.{
  hdr_sz, Arena, hinit, take_chunk, search_free, malloc, find_place, join, give_back, link_block,
  free,
}
use ovsb_mk.Libc.Heap.Join.{Whole}
use ovsb_mk.Libc.Heap.Return.{malloc-free}
use ovsb_mk.Memory.Tables.{load, save}
use ovsb_mk.Libc.{Mem, memmove, strcat, strstr, strtok, skip, strchr, poke}
use ovsb_mk.Libc.Moves.{moved, memmove-moved}
use ovsb_mk.Libc.Strings.{IsString, strcat-IsString}
use ovsb_mk.Libc.Search.{first_at, strstr-first_at}

abbrev small : Mem
small j =
    if (leb 10 j && ltb j 14)
    then (if (j == 10) then b'a' else if j == 12 then b'a' else b'b')
    else if j == 20
    then b'a'
    else if j == 21
    then b'b'
    else 0

abbrev abab : List ℕ
abab = b'a' ∷ b'b' ∷ b'a' ∷ b'b' ∷ []

abbrev ab : List ℕ
ab = b'a' ∷ b'b' ∷ []

small-abab : IsString small 10 abab
small-abab =
    (refl, omega arith, (refl, omega arith, (refl, omega arith, (refl, omega arith, refl))))

small-ab : IsString small 20 ab
small-ab = (refl, omega arith, (refl, omega arith, refl))

-- Two bytes to the right within themselves.
memmove-moved_example : memmove small 11 10 4 12 ≡ moved small 11 10 0 4 12
memmove-moved_example = memmove-moved small 11 10 4 12

strcat-IsString_example :
    (m' : Mem) × (strcat small 5 20 10 ≡ some m')
    × IsString m' 20 (ab ++ abab)
    × ((j : ℕ) → (j < 20) ⊎ (20 + length (ab ++ abab) < j) → m' j ≡ small j)
strcat-IsString_example =
    strcat-IsString small 20 10 ab abab 5 small-ab small-abab (inl (omega arith)) (omega arith)
      (omega arith)

strstr-first_at_example :
    strstr small 5 10 20 ≡ some (if length ab == 0 then 10 else first_at 10 abab ab)
strstr-first_at_example =
    strstr-first_at small 10 20 abab ab 5 small-abab small-ab (omega arith) (omega arith)

-- With "b" as the delimiter at 21, the first token of "abab" is "a", which gets a terminator.
small-token : strtok small 9 0 10 21 ≡ some (10, 12, poke small 11 0)
unfolding strtok skip strchr
small-token = refl

atoi-itoa_example :
    (m' : Mem) × (itoa small (negsuc 41) 40 ≡ some (40, m')) × (atoi m' 12 40 ≡ some (negsuc 41))
atoi-itoa_example = atoi-itoa small (negsuc 41) 40 12 (omega arith) (omega arith)

-- A heap at 4096 that nothing has been taken from.
abbrev untouched : Arena
untouched = record { mem = λ j. 0; hinit = false; freep = 0 }

-- The program writes a byte to its block.
abbrev own_store : Mem → Mem
own_store m = poke m 4115 9

own_store-own : (m : Mem) (j : ℕ) → (j < 4096 + 16) ⊎ (4096 + 8 + 20 ≤ j) → own_store m j ≡ m j
own_store-own m j (inl lt) = ground (arith, lt)
own_store-own m j (inr ge) = ground (arith, ge)

malloc-free_example :
    (a' a'' : Arena) × (malloc untouched 4096 2 (λ total. 0) (pos 20) ≡ some (4096 + hdr_sz, a'))
    × (free (record a' { mem = own_store a'.mem }) 4096 2 (4096 + hdr_sz) ≡ some (a'', none))
    × Whole a'' 4096
malloc-free_example =
    malloc-free untouched 4096 0 (λ total. 0) 20 own_store refl (omega arith) (omega arith)
      (omega arith) own_store-own

-- Two blocks of 16 bytes, then the first back, then a request for 100.
abbrev two_blocks : Option Arena
two_blocks = elim (malloc untouched 4096 4 (λ total. 0) (pos 16)) [
  | none ↦ none
  | some (p, a) ↦ Option.map (λ (q, b). b) (malloc a 4096 4 (λ total. 0) (pos 16))
]

abbrev lost_rest : Option ℕ
lost_rest = elim two_blocks [
  | none ↦ none
  | some a ↦ elim (free a 4096 4 4104) [
    | none ↦ none
    | some (b, u) ↦ Option.map (λ (p, c). p) (malloc b 4096 4 (λ total. 0) (pos 100))
  ]
]

-- The rest of the heap is no longer found.
lost_rest-null : lost_rest ≡ some 0
unfolding malloc hinit search_free take_chunk free find_place give_back link_block join load save
lost_rest-null = refl
