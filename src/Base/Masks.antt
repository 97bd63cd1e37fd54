-- ===== src/Base/Masks.antt =====
-- The mask of the lowest bits: `x & (2 ^ k - 1)` is the remainder by 2 ^ k.
use Prim.Native.Nat.{
  ℕ, zero, suc, ◌+◌, ◌-◌, ◌*◌, ◌/◌, ◌%◌, ◌^◌, ◌≤◌, ◌<◌, min, max, bit_and, bit_or, digits,
  bit_and-bitwise, bit_or-bitwise,
}
use mathlib.Core.Path.{◌≡◌, refl, ap, ◌∙◌, sym}
use native.Mathlib.Nat.{pow-suc, add-zero, add-suc}
use native.Mathlib.Omega.{arith}

-- The recursion behind `bit_and`, which takes as many rounds as it is given.
abbrev and_rounds : ℕ → ℕ → ℕ → ℕ
and_rounds rounds a b = digits (λ b. zero) min rounds a b

-- A round past the last digit of `x` changes nothing.
one_more : (x y n : ℕ) → x ≤ n → and_rounds (suc n) x y ≡ and_rounds n x y
one_more zero y zero h = refl
one_more zero y (suc n) h = refl
one_more (suc x) y zero h = absurd (omega arith)
one_more (suc x) y (suc n) h = omega (arith, one_more (suc x / 2) (y / 2) n (omega arith))

any_more : (x y n extra : ℕ) → x ≤ n → and_rounds (n + extra) x y ≡ and_rounds n x y
any_more x y n zero h = rw add-zero refl
any_more x y n (suc extra) h =
    rw add-suc (one_more x y (n + extra) (omega arith) ∙ any_more x y n extra h)

-- `bit_and` from any number of rounds that is large enough.
rounds-bit_and : (x y n : ℕ) → x ≤ n → and_rounds n x y ≡ bit_and x y
rounds-bit_and x y n h =
    let total : x + (n - x) ≡ n = omega arith in
    let more = any_more x y x (n - x) (omega arith) in
    (rw total at more) ∙ sym (bit_and-bitwise x y)

-- The lowest digit, and the rest.
pub bit_and-halves : (a b : ℕ) → bit_and a b ≡ bit_and (a / 2) (b / 2) * 2 + min (a % 2) (b % 2)
bit_and-halves a b =
    let unroll : and_rounds (suc a) a b ≡ and_rounds a (a / 2) (b / 2) * 2 + min (a % 2) (b % 2) =
      round a b a in
    omega (
      arith,
      unroll,
      rounds-bit_and a b (suc a) (omega arith),
      rounds-bit_and (a / 2) (b / 2) a (omega arith),
    )
  where
    empty_round : (n y : ℕ) → and_rounds n 0 y ≡ 0
    empty_round zero y = refl
    empty_round (suc n) y = refl

    round :
        (x y n : ℕ)
        → and_rounds (suc n) x y ≡ and_rounds n (x / 2) (y / 2) * 2 + min (x % 2) (y % 2)
    round zero y n = omega (arith, empty_round n (y / 2))
    round (suc x) y n = refl

-- No digit of 0 is set.
rounds_of_zero : (x n : ℕ) → and_rounds n x 0 ≡ 0
rounds_of_zero x zero = refl
rounds_of_zero zero (suc n) = refl
rounds_of_zero (suc x) (suc n) = omega (arith, rounds_of_zero (suc x / 2) n)

and_with_zero : (x : ℕ) → bit_and x 0 ≡ 0
and_with_zero x = bit_and-bitwise x 0 ∙ rounds_of_zero x x

mod-double : (a r : ℕ) → 0 < r → a % (2 * r) ≡ a / 2 % r * 2 + a % 2
mod-double a r h = grind arith

pow-positive : (k : ℕ) → 0 < 2 ^ k
pow-positive zero = omega arith
pow-positive (suc k) = omega (arith, pow-suc 2 k, pow-positive k)

pub bit_and-mask : (k a : ℕ) → bit_and a (2 ^ k - 1) ≡ a % 2 ^ k
bit_and-mask zero a = omega (arith, and_with_zero a)
bit_and-mask (suc k) a =
    let double : 2 ^ suc k ≡ 2 * 2 ^ k = omega (arith, pow-suc 2 k) in
    let half : (2 ^ suc k - 1) / 2 ≡ 2 ^ k - 1 = omega (arith, pow-positive k) in
    let odd : (2 ^ suc k - 1) % 2 ≡ 1 = omega (arith, pow-positive k) in
    let rest : bit_and (a / 2) ((2 ^ suc k - 1) / 2) ≡ a / 2 % 2 ^ k =
      ap (bit_and (a / 2)) half ∙ bit_and-mask k (a / 2) in
    let whole : a % 2 ^ suc k ≡ a % (2 * 2 ^ k) = ap (λ n. a % n) double in
    omega (arith, bit_and-halves a (2 ^ suc k - 1), mod-double a (2 ^ k) (pow-positive k))

-- All bits of a word but the lowest.
pub bit_and-even : (x : ℕ) → x < 2 ^ 64 → bit_and x (2 ^ 64 - 2) ≡ x / 2 * 2
bit_and-even x lt = omega (arith, bit_and-halves x (2 ^ 64 - 2), bit_and-mask 63 (x / 2))

abbrev or_rounds : ℕ → ℕ → ℕ → ℕ
or_rounds rounds a b = digits (λ b. b) max rounds a b

-- The lowest bit of a word, set.
pub bit_or-one : (x : ℕ) → bit_or x 1 ≡ x / 2 * 2 + 1
bit_or-one zero = refl
bit_or-one (suc x) =
    let begin : bit_or (suc x) 1 ≡ or_rounds x (suc x / 2) 0 * 2 + max (suc x % 2) 1 =
      bit_or-bitwise (suc x) 1 in
    let rest = rounds_with_zero x (suc x / 2) (omega arith) in omega (arith, begin, rest)
  where
    rounds_with_zero : (n x : ℕ) → x ≤ n → or_rounds n x 0 ≡ x
    rounds_with_zero zero zero h = refl
    rounds_with_zero zero (suc x) h = absurd (omega arith)
    rounds_with_zero (suc n) zero h = refl
    rounds_with_zero (suc n) (suc x) h =
        omega (arith, rounds_with_zero n (suc x / 2) (omega (arith, h)))
