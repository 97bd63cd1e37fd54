-- ===== src/Libc.antt =====
-- userland/libc/string.c: the functions on strings and on memory. The memory is a function from the
-- address to the byte, and a pointer is an address. A loop that runs to a terminator has at most
-- `fuel` rounds, and gives `none` if they do not reach. A length is an `int` that is not negative.
pub mod Convert
pub mod Heap
mod Moves
mod Strings
mod Search
mod Tests
use ovsb_mk.Base.{
  ℕ, zero, suc, ◌+◌, ◌-◌, ◌≤◌, ◌<◌, Bool, true, false, ◌&&◌, ◌||◌, not, Option, none, some, ◌==◌,
  ltb, if◌then◌else◌, ℤ, pos, negsuc, int_eq,
}

abbrev pub Mem : Type 0
Mem = ℕ → ℕ

abbrev pub poke : Mem → (at c : ℕ) → Mem
poke m at c j = if j == at then c else m j

-- `while (s[n]) n++`
unfoldable pub strlen_from : Mem → (fuel s n : ℕ) → Option ℕ
strlen_from m zero s n = none
strlen_from m (suc fuel) s n =
    let rest = strlen_from m fuel s (n + 1) in if m (s + n) == 0 then some n else rest

unfoldable pub strlen : Mem → (fuel s : ℕ) → Option ℕ
strlen m fuel s = strlen_from m fuel s 0

-- The difference of two `unsigned char`.
abbrev pub difference : ℕ → ℕ → ℤ
difference a b = if ltb a b then negsuc (b - a - 1) else pos (a - b)

unfoldable pub strcmp : Mem → (fuel a b : ℕ) → Option ℤ
strcmp m zero a b = none
strcmp m (suc fuel) a b =
    let rest = strcmp m fuel (a + 1) (b + 1) in
    if not (m a == 0) && (m a == m b) then rest else some (difference (m a) (m b))

-- The loop from the index `i` on, with `n` to go.
unfoldable pub strncmp_from : Mem → (a b i n : ℕ) → ℤ
strncmp_from m a b i zero = pos 0
strncmp_from m a b i (suc n) =
    let rest = strncmp_from m a b (i + 1) n in
    if not (m (a + i) == m (b + i))
    then difference (m (a + i)) (m (b + i))
    else if m (a + i) == 0
    then pos 0
    else rest

unfoldable pub strncmp : Mem → (a b n : ℕ) → ℤ
strncmp m a b n = strncmp_from m a b 0 n

-- `while ((*p++ = *src++))`
unfoldable pub copy_string : Mem → (fuel p src : ℕ) → Option Mem
copy_string m zero p src = none
copy_string m (suc fuel) p src =
    let m' = poke m p (m src) in
    let rest = copy_string m' fuel (p + 1) (src + 1) in if m src == 0 then some m' else rest

unfoldable pub strcpy : Mem → (fuel dst src : ℕ) → Option Mem
strcpy m fuel dst src = copy_string m fuel dst src

-- No padding: the copy ends at the terminator, or behind `n` characters.
unfoldable pub strncpy : Mem → (dst src n : ℕ) → Mem
strncpy m dst src zero = m
strncpy m dst src (suc n) =
    let m' = poke m dst (m src) in
    let rest = strncpy m' (dst + 1) (src + 1) n in if m src == 0 then m' else rest

unfoldable pub strcat : Mem → (fuel dst src : ℕ) → Option Mem
strcat m fuel dst src = elim (strlen m fuel dst) [
  | none ↦ none
  | some n ↦ copy_string m fuel (dst + n) src
]

-- The address, or 0 for NULL. The character is compared as a byte.
unfoldable pub strchr : Mem → (fuel s c : ℕ) → Option ℕ
strchr m zero s c = none
strchr m (suc fuel) s c =
    let rest = strchr m fuel (s + 1) c in
    if m s == 0 then some 0 else if m s == c then some s else rest

unfoldable pub strrchr_from : Mem → (fuel s c p : ℕ) → Option ℕ
strrchr_from m zero s c p = none
strrchr_from m (suc fuel) s c p =
    let rest = strrchr_from m fuel (s + 1) c (if m s == c then s else p) in
    if m s == 0 then some p else rest

unfoldable pub strrchr : Mem → (fuel s c : ℕ) → Option ℕ
strrchr m fuel s c = strrchr_from m fuel s c 0

-- The test of `strstr` at an address.
abbrev pub starts : Mem → (haystack needle nl : ℕ) → Bool
starts m haystack needle nl = int_eq (strncmp m haystack needle nl) (pos 0)

unfoldable pub strstr_from : Mem → (fuel haystack needle nl : ℕ) → Option ℕ
strstr_from m zero haystack needle nl = none
strstr_from m (suc fuel) haystack needle nl =
    let rest = strstr_from m fuel (haystack + 1) needle nl in
    if m haystack == 0 then some 0 else if starts m haystack needle nl then some haystack else rest

unfoldable pub strstr : Mem → (fuel haystack needle : ℕ) → Option ℕ
strstr m fuel haystack needle = elim (strlen m fuel needle) [
  | none ↦ none
  | some nl ↦
      (let found = strstr_from m fuel haystack needle nl in
        if nl == 0 then some haystack else found)
]

unfoldable pub memset : Mem → (s c n : ℕ) → Mem
memset m s c zero = m
memset m s c (suc n) = memset (poke m s c) (s + 1) c n

-- `for (int i = ..; i < n; i++)`, with `n` to go.
unfoldable pub copy_up : Mem → (dst src i n : ℕ) → Mem
copy_up m dst src i zero = m
copy_up m dst src i (suc n) = copy_up (poke m (dst + i) (m (src + i))) dst src (i + 1) n

-- `for (int i = n - 1; i >= 0; i--)`
unfoldable pub copy_down : Mem → (dst src n : ℕ) → Mem
copy_down m dst src zero = m
copy_down m dst src (suc n) = copy_down (poke m (dst + n) (m (src + n))) dst src n

unfoldable pub memcpy : Mem → (dst src n : ℕ) → Mem
memcpy m dst src n = copy_up m dst src 0 n

unfoldable pub memmove : Mem → (dst src n : ℕ) → Mem
memmove m dst src n =
    if ltb dst src
    then copy_up m dst src 0 n
    else if not (src == dst)
    then copy_down m dst src n
    else m

-- With the address that `malloc` returns for a size, 0 for NULL.
unfoldable pub strdup : Mem → (fuel s : ℕ) → (malloc : ℕ → ℕ) → Option (ℕ × Mem)
strdup m fuel s malloc = if s == 0 then some (0, m) else elim (strlen m fuel s) [
  | none ↦ none
  | some n ↦
      (let p = malloc (n + 1) in if p == 0 then some (0, m) else some (p, copy_up m p s 0 (n + 1)))
]

-- `while (*next && strchr(delim, *next)) next++`, and the other loop of `strtok` with `wanted` false.
unfoldable pub skip : Mem → (fuel delim : ℕ) → (wanted : Bool) → (at : ℕ) → Option ℕ
skip m fuel delim wanted at = skip_from fuel at
  where
    in_set : ℕ → Option Bool
    in_set c = elim (strchr m fuel delim c) [ none ↦ none | some p ↦ some (not (p == 0)) ]

    skip_from : ℕ → ℕ → Option ℕ
    skip_from zero at = none
    skip_from (suc rounds) at =
        let rest = skip_from rounds (at + 1) in
        if m at == 0 then some at else elim (in_set (m at)) [
          | none ↦ none
          | some is_delim ↦
              if (is_delim && wanted) || (not is_delim && not wanted) then rest else some at
        ]

-- With the static `next`, 0 for NULL: the token, the new `next`, the memory.
unfoldable pub strtok : Mem → (fuel next str delim : ℕ) → Option (ℕ × ℕ × Mem)
strtok m fuel next str delim =
    let from = if str == 0 then next else str in
    let first = skip m fuel delim true from in
    if from == 0 then some (0, from, m) else elim first [
      | none ↦ none
      | some start ↦
          if m start == 0 then some (0, start, m) else elim (skip m fuel delim false start) [
            | none ↦ none
            | some end ↦
                some (if m end == 0 then (start, end, m) else (start, end + 1, poke m end 0))
          ]
    ]
