-- ===== src/Libc/Convert.antt =====
-- userland/libc/stdlib.c: `atoi` and `itoa`. `none` is a loop that does not end within its rounds, or
-- an `int` that overflows.
pub mod RoundTrip
use ovsb_mk.Base.{
  ℕ, zero, suc, ◌+◌, ◌-◌, ◌*◌, ◌/◌, ◌%◌, ◌^◌, ◌≤◌, List, [], ◌∷◌, Bool, ◌&&◌, Option, none, some,
  ◌==◌, leb, if◌then◌else◌, ℤ, pos, negsuc,
}
use ovsb_mk.Libc.{Mem, poke}

-- `while(*s==' ')s++`
unfoldable pub skip_blanks : Mem → (fuel s : ℕ) → Option ℕ
skip_blanks m zero s = none
skip_blanks m (suc fuel) s =
    let rest = skip_blanks m fuel (s + 1) in if m s == b' ' then rest else some s

abbrev pub is_digit : ℕ → Bool
is_digit c = leb b'0' c && leb c b'9'

-- `while(*s>='0'&&*s<='9'){n=n*10+(*s-'0');s++;}`
unfoldable pub read_digits : Mem → (fuel s n : ℕ) → Option ℕ
read_digits m zero s n = none
read_digits m (suc fuel) s n =
    let next = n * 10 + (m s - b'0') in
    let rest = read_digits m fuel (s + 1) next in
    let checked : Option ℕ = if leb (2 ^ 31) next then none else rest in
    if is_digit (m s) then checked else some n

-- `-n`
abbrev pub negative : ℕ → ℤ
negative zero = pos 0
negative (suc k) = negsuc k

-- `sign*n`
unfoldable pub with_sign : (sign : ℕ → ℤ) → Option ℕ → Option ℤ
with_sign sign none = none
with_sign sign (some n) = some (sign n)

-- `atoi` behind the blanks.
unfoldable pub signed_digits : Mem → (fuel s : ℕ) → Option ℤ
signed_digits m fuel s =
    if m s == b'-'
    then with_sign negative (read_digits m fuel (s + 1) 0)
    else if m s == b'+'
    then with_sign pos (read_digits m fuel (s + 1) 0)
    else with_sign pos (read_digits m fuel s 0)

unfoldable pub atoi : Mem → (fuel s : ℕ) → Option ℤ
atoi m fuel s = elim (skip_blanks m fuel s) [ none ↦ none | some p ↦ signed_digits m fuel p ]

-- The digits of `u` in front of `done`: what the first loop pushes to `tmp` and the second takes
-- off. A number below 2 ^ 32 has at most 10.
unfoldable pub decimal : (places u : ℕ) → (done : List ℕ) → List ℕ
decimal zero u done = done
decimal (suc places) u done =
    let more = decimal places (u / 10) ((b'0' + u % 10) ∷ done) in
    if u / 10 == 0 then (b'0' + u % 10) ∷ done else more

-- `*p++ = c` for each character, and `*p = 0`.
unfoldable pub put_text : Mem → (p : ℕ) → List ℕ → Mem
put_text m p [] = poke m p 0
put_text m p (c ∷ cs) = put_text (poke m p c) (p + 1) cs

-- For the least `int`, `-n` overflows.
unfoldable pub itoa_text : ℤ → Option (List ℕ)
itoa_text (pos n) = some (decimal 10 n [])
itoa_text (negsuc k) = if leb (2 ^ 31 - 1) k then none else some (b'-' ∷ decimal 10 (k + 1) [])

unfoldable pub itoa : Mem → ℤ → (buf : ℕ) → Option (ℕ × Mem)
itoa m n buf = elim (itoa_text n) [ none ↦ none | some cs ↦ some (buf, put_text m buf cs) ]
