-- ===== src/Libc/Convert/RoundTrip.antt =====
-- `atoi` of userland/libc/stdlib.c on what `itoa` has written.
use mathlib.Core.Path.{subst}
use native.Mathlib.Nat.{pow-suc}
use ovsb_mk.Base.{
  ℕ, zero, suc, ◌+◌, ◌-◌, ◌*◌, ◌/◌, ◌%◌, ◌^◌, ◌≤◌, ◌<◌, ◌≡◌, ◌≢◌, ◌∙◌, ap, refl, List, [], ◌∷◌,
  true, false, some, arith, ◌==◌, leb, Bool-cases, inl, inr, length, ℤ, pos, negsuc,
}
use ovsb_mk.Libc.{Mem, poke}
use ovsb_mk.Libc.Strings.{IsString}
use ovsb_mk.Libc.Convert.{
  skip_blanks, is_digit, read_digits, negative, with_sign, signed_digits, atoi, decimal, put_text,
  itoa_text, itoa,
}

-- Every character is a digit.
abbrev Digits : List ℕ → Type 0
Digits [] = Unit {0}
Digits (c ∷ cs) = (48 ≤ c) × (c ≤ 57) × Digits cs

-- No character is the terminator.
abbrev Text : List ℕ → Type 0
Text [] = Unit {0}
Text (c ∷ cs) = (c ≢ 0) × Text cs

-- The value of digits that follow the number `n`.
unfoldable pub following : ℕ → List ℕ → ℕ
following n [] = n
following n (c ∷ cs) = following (n * 10 + (c - 48)) cs

following-ge : (n : ℕ) (cs : List ℕ) → n ≤ following n cs
unfolding following
following-ge n [] = omega arith
following-ge n (c ∷ cs) = omega (arith, following-ge (n * 10 + (c - 48)) cs)

decimal-Digits : (places u : ℕ) (done : List ℕ) → Digits done → Digits (decimal places u done)
unfolding decimal
decimal-Digits zero u done d = d
decimal-Digits (suc places) u done d = elim (Bool-cases (u / 10 == 0)) [
  | inl ends ↦ rw ends (omega arith, omega arith, d)
  | inr more ↦
      rw more (decimal-Digits places (u / 10) ((48 + u % 10) ∷ done) (omega arith, omega arith, d))
]

length-decimal :
    (places u : ℕ) (done : List ℕ) → length (decimal places u done) ≤ places + length done
unfolding decimal
length-decimal zero u done = omega arith
length-decimal (suc places) u done =
    ground (arith, length-decimal places (u / 10) ((48 + u % 10) ∷ done))

ten-suc : (p : ℕ) → 10 ^ suc p ≡ 10 * 10 ^ p
ten-suc p = omega (arith, pow-suc 10 p)

-- With room for them all, the digits have the value of the number.
following-decimal :
    (places u : ℕ) (done : List ℕ)
    → u < 10 ^ places
    → following 0 (decimal places u done) ≡ following u done
unfolding decimal following
following-decimal zero u done lt = ap (λ k. following k done) (omega arith)
following-decimal (suc places) u done lt = elim (Bool-cases (u / 10 == 0)) [
  | inl ends ↦ rw ends (ap (λ k. following k done) (ground (arith, ends)))
  | inr more ↦
      let step : u / 10 * 10 + (48 + u % 10 - 48) ≡ u = omega arith in
      rw more (
        following-decimal places (u / 10) ((48 + u % 10) ∷ done) (omega (arith, ten-suc places))
        ∙ ap (λ k. following k done) step)
]

-- What is put is a string.
put_text-below : (m : Mem) (p : ℕ) (cs : List ℕ) (j : ℕ) → j < p → put_text m p cs j ≡ m j
unfolding put_text
put_text-below m p [] j lt = ground arith
put_text-below m p (c ∷ cs) j lt = ground (arith, put_text-below (poke m p c) (p + 1) cs j)

put_text-IsString : (m : Mem) (p : ℕ) (cs : List ℕ) → Text cs → IsString (put_text m p cs) p cs
unfolding put_text
put_text-IsString m p [] t = ground arith
put_text-IsString m p (c ∷ cs) (ne, t) = (
  put_text-below (poke m p c) (p + 1) cs p (omega arith) ∙ ground arith,
  ne,
  put_text-IsString (poke m p c) (p + 1) cs t,
)

-- The loop of `atoi` on a string of digits.
read_digits-following :
    (m : Mem) (fuel s n : ℕ) (cs : List ℕ)
    → IsString m s cs
    → Digits cs
    → length cs < fuel
    → following n cs < 2 ^ 31
    → read_digits m fuel s n ≡ some (following n cs)
unfolding read_digits following
read_digits-following m zero s n cs h d lt fits = absurd (omega (arith, lt))
read_digits-following m (suc fuel) s n [] h d lt fits =
    let ends : is_digit (m s) ≡ false = ground (arith, h) in rw ends refl
read_digits-following m (suc fuel) s n (c ∷ cs) (e, ne, rest) (lo, hi, d) lt fits =
    let more : is_digit (m s) ≡ true = ground (arith, e) in
    let low : leb (2 ^ 31) (n * 10 + (c - 48)) ≡ false =
      ground (arith, following-ge (n * 10 + (c - 48)) cs, fits) in
    rw (more, e, low)
      (read_digits-following m fuel (s + 1) (n * 10 + (c - 48)) cs rest d (omega (arith, lt)) fits)

Digits-Text : (cs : List ℕ) → Digits cs → Text cs
Digits-Text [] d = tt
Digits-Text (c ∷ cs) (lo, hi, d) = (omega arith, Digits-Text cs d)

decimal-value : (u : ℕ) → u < 2 ^ 31 → following 0 (decimal 10 u []) ≡ u
decimal-value u lt = following-decimal 10 u [] (omega arith) ∙ (unfold following in refl)

-- The digits of a number, read where they stand.
read_digits-decimal :
    (m : Mem) (fuel s u : ℕ)
    → IsString m s (decimal 10 u [])
    → u < 2 ^ 31
    → 11 ≤ fuel
    → read_digits m fuel s 0 ≡ some u
read_digits-decimal m fuel s u h lt enough =
    let value = decimal-value u lt in
    read_digits-following m fuel s 0 (decimal 10 u []) h (decimal-Digits 10 u [] tt)
      (omega (arith, length-decimal 10 u [])) (omega (arith, value))
    ∙ ap some value

-- A string of digits does not begin with a blank or a sign.
plain_head :
    (m : Mem) (s : ℕ) (c : ℕ) (cs : List ℕ)
    → IsString m s (c ∷ cs)
    → Digits (c ∷ cs)
    → ((m s == b' ') ≡ false) × ((m s == b'-') ≡ false) × ((m s == b'+') ≡ false)
plain_head m s c cs (e, ne, rest) (lo, hi, d) =
    (ground (arith, e), ground (arith, e), ground (arith, e))

decimal-ne-nil :
    (places u : ℕ) (done : List ℕ)
    → (c : ℕ) × (cs : List ℕ) × (decimal (suc places) u done ≡ c ∷ cs)
unfolding decimal
decimal-ne-nil zero u done = elim (Bool-cases (u / 10 == 0)) [
  | inl ends ↦ (48 + u % 10, done, rw ends refl)
  | inr more ↦ (48 + u % 10, done, rw more refl)
]
decimal-ne-nil (suc places) u done = elim (Bool-cases (u / 10 == 0)) [
  | inl ends ↦ (48 + u % 10, done, rw ends refl)
  | inr more ↦
      let (c, cs, e) = decimal-ne-nil places (u / 10) ((48 + u % 10) ∷ done) in (c, cs, rw more e)
]

-- `int`, but for the least one.
abbrev pub InRange : ℤ → Type 0
InRange (pos n) = n < 2 ^ 31
InRange (negsuc k) = k < 2 ^ 31 - 1

positive :
    (m : Mem) (fuel buf u : ℕ)
    → u < 2 ^ 31
    → 12 ≤ fuel
    → atoi (put_text m buf (decimal 10 u [])) fuel buf ≡ some (pos u)
unfolding atoi signed_digits skip_blanks with_sign
positive m zero buf u lt enough = absurd (omega (arith, enough))
positive m (suc fuel) buf u lt enough =
    let m' = put_text m buf (decimal 10 u []) in
    let d = decimal-Digits 10 u [] tt in
    let h = put_text-IsString m buf (decimal 10 u []) (Digits-Text (decimal 10 u []) d) in
    let (c, cs, e) = decimal-ne-nil 9 u [] in
    let (blank, minus, plus) =
      plain_head m' buf c cs (subst (IsString m' buf) e h) (subst Digits e d) in
    rw (blank, atoi)
      (rw (minus, plus)
        (ap (with_sign pos) (read_digits-decimal m' (suc fuel) buf u h lt (omega (arith, enough)))))

negated :
    (m : Mem) (fuel buf k : ℕ)
    → k < 2 ^ 31 - 1
    → 12 ≤ fuel
    → atoi (put_text m buf (b'-' ∷ decimal 10 (k + 1) [])) fuel buf ≡ some (negsuc k)
unfolding atoi signed_digits skip_blanks with_sign
negated m zero buf k lt enough = absurd (omega (arith, enough))
negated m (suc fuel) buf k lt enough =
    let text = b'-' ∷ decimal 10 (k + 1) [] in
    let m' = put_text m buf text in
    let d = decimal-Digits 10 (k + 1) [] tt in
    let (e, ne, rest) =
      put_text-IsString m buf text (omega arith, Digits-Text (decimal 10 (k + 1) []) d) in
    let blank : (m' buf == b' ') ≡ false = ground (arith, e) in
    let minus : (m' buf == b'-') ≡ true = ground (arith, e) in
    let read =
      read_digits-decimal m' (suc fuel) (buf + 1) (k + 1) rest (omega arith)
        (omega (arith, enough)) in
    let next : k + 1 ≡ suc k = omega arith in
    let value : negative (k + 1) ≡ negsuc k = ap negative next in
    rw (blank, atoi) (rw minus (ap (with_sign negative) read ∙ ap some value))

-- `itoa` of any `int` but the least one writes a string that `atoi` reads back as this number.
pub atoi-itoa :
    (m : Mem) (n : ℤ) (buf fuel : ℕ)
    → InRange n
    → 12 ≤ fuel
    → (m' : Mem) × (itoa m n buf ≡ some (buf, m')) × (atoi m' fuel buf ≡ some n)
unfolding itoa itoa_text
atoi-itoa m (pos n) buf fuel lt enough =
    (put_text m buf (decimal 10 n []), refl, positive m fuel buf n lt enough)
atoi-itoa m (negsuc k) buf fuel lt enough =
    let small : leb (2 ^ 31 - 1) k ≡ false = ground (arith, lt) in
    (
      put_text m buf (b'-' ∷ decimal 10 (k + 1) []),
      rw (small, itoa) refl,
      negated m fuel buf k lt enough,
    )
