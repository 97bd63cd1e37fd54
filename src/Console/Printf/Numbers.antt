-- ===== src/Console/Printf/Numbers.antt =====
-- The numbers that `console_printf` of kernel/console.c prints.
use ovsb_mk.Base.{
  ℕ, zero, suc, ◌+◌, ◌-◌, ◌*◌, ◌/◌, ◌%◌, ◌^◌, ◌≤◌, ◌<◌, ◌≡◌, ◌⊎◌, ◌∙◌, ap, inl, inr, List, [], ◌∷◌,
  arith, ◌==◌, ltb, if◌then◌else◌, Bool-cases,
}
use native.Mathlib.Nat.{div-lt_iff_lt-mul, pow-zero, pow-suc, mod-lt, div-add-mod}
use ovsb_mk.Console.Printf.{digit, digits, number}

-- The value of a digit, and of a row of digits behind the value `acc`.
abbrev pub digit_value : ℕ → ℕ
digit_value c = if ltb c b'a' then c - b'0' else c + 10 - b'a'

abbrev pub value : (base acc : ℕ) → List ℕ → ℕ
value base acc [] = acc
value base acc (c ∷ cs) = value base (acc * base + digit_value c) cs

digit_value-digit : (d : ℕ) → d < 16 → digit_value (digit d) ≡ d
digit_value-digit d lt = ground arith

-- The digits in front of others, where the places are enough.
value-digits :
    (base places v : ℕ) (done : List ℕ)
    → 2 ≤ base
    → base ≤ 16
    → v < base ^ places
    → value base 0 (digits base places v done) ≡ value base v done
unfolding digits
value-digits base zero v done lo hi lt =
    let one_left : base ^ 0 ≡ 1 = pow-zero base in
    let none_left : 0 ≡ v = omega (arith, one_left, lt) in ap (λ x. value base x done) none_left
value-digits base (suc places) v done lo hi lt = elim (Bool-cases (v == 0)) [
  | inl none_left ↦
      let zero_left : 0 ≡ v = ground (arith, none_left) in
      rw none_left (ap (λ x. value base x done) zero_left)
  | inr more ↦
      let small : v / base < base ^ places =
        (div-lt_iff_lt-mul {k = base} {x = v} {y = base ^ places} (omega arith)).1
          (rw (pow-suc base places) at lt) in
      let last : v / base * base + digit_value (digit (v % base)) ≡ v =
        let low = mod-lt v {m = base} (omega arith) in
        let whole = div-add-mod v base in
        rw (digit_value-digit (v % base) (omega (arith, low, hi))) (grind (arith, whole)) in
      rw more (
        value-digits base places (v / base) (digit (v % base) ∷ done) lo hi small
        ∙ ap (λ x. value base x done) last)
]

-- The digits that are printed for a number below 2 ^ 32, to the base 10 or 16, have its value.
pub value-number :
    (base v : ℕ) → (base ≡ 10) ⊎ (base ≡ 16) → v < 2 ^ 32 → value base 0 (number base v) ≡ v
unfolding number
value-number base v which lt = elim (Bool-cases (v == 0)) [
  | inl nothing ↦ rw nothing (ground (arith, nothing))
  | inr more ↦ rw more (in_base which)
]
  where
    in_base : (base ≡ 10) ⊎ (base ≡ 16) → value base 0 (digits base 10 v []) ≡ v
    in_base (inl ten) = rw ten (value-digits 10 10 v [] (omega arith) (omega arith) (omega arith))
    in_base (inr hex) = rw hex (value-digits 16 10 v [] (omega arith) (omega arith) (omega arith))
