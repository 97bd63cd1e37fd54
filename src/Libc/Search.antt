-- ===== src/Libc/Search.antt =====
-- `strstr` of userland/libc/string.c against the search in lists.
use ovsb_mk.Base.{
  ℕ, zero, suc, ◌+◌, ◌<◌, ◌≡◌, ◌≢◌, inl, inr, refl, List, [], ◌∷◌, Bool, true, false, ◌&&◌, some,
  arith, ◌==◌, ltb, if◌then◌else◌, length, Bool-cases, pos, int_eq,
}
use ovsb_mk.Libc.{Mem, difference, strncmp_from, strncmp, strstr_from, strstr, starts}
use ovsb_mk.Libc.Strings.{IsString, strlen-IsString}

abbrev pub is_prefix : (needle haystack : List ℕ) → Bool
is_prefix [] hs = true
is_prefix (d ∷ ds) [] = false
is_prefix (d ∷ ds) (c ∷ cs) = (c == d) && is_prefix ds cs

-- The address of the first occurrence of a needle that is not empty, 0 if there is none; the
-- haystack stands at `at`.
abbrev pub first_at : (at : ℕ) → (haystack needle : List ℕ) → ℕ
first_at at [] ns = 0
first_at at (c ∷ cs) ns = if is_prefix ns (c ∷ cs) then at else first_at (at + 1) cs ns

difference_apart : (a b : ℕ) → a ≢ b → int_eq (difference a b) (pos 0) ≡ false
difference_apart a b ne = elim (Bool-cases (ltb a b)) [
  | inl less ↦ rw less refl
  | inr more ↦ rw more (ground (arith, more, ne))
]

strncmp_from-is_prefix :
    (m : Mem) (a b i : ℕ) (hs ns : List ℕ)
    → IsString m (a + i) hs
    → IsString m (b + i) ns
    → int_eq (strncmp_from m a b i (length ns)) (pos 0) ≡ is_prefix ns hs
unfolding strncmp_from
strncmp_from-is_prefix m a b i hs [] h n = refl
strncmp_from-is_prefix m a b i [] (d ∷ ds) h (e, ne, rest) =
    let apart : (m (a + i) == m (b + i)) ≡ false = ground (arith, h, e, ne) in
    rw apart (difference_apart (m (a + i)) (m (b + i)) (λ q. ground (arith, apart, q)))
strncmp_from-is_prefix m a b i (c ∷ cs) (d ∷ ds) (e', ne', rest') (e, ne, rest) =
    elim (Bool-cases (c == d)) [
      | inl same ↦
          let equal : (m (a + i) == m (b + i)) ≡ true = ground (arith, e, e', same) in
          let more : (m (a + i) == 0) ≡ false = ground (arith, e', ne') in
          let next_a : a + i + 1 ≡ a + (i + 1) = omega arith in
          let next_b : b + i + 1 ≡ b + (i + 1) = omega arith in
          rw (equal, more, same)
            (strncmp_from-is_prefix m a b (i + 1) cs ds (rw next_a at rest') (rw next_b at rest))
      | inr other ↦
          let apart : (m (a + i) == m (b + i)) ≡ false = ground (arith, e, e', other) in
          rw (apart, other)
            (difference_apart (m (a + i)) (m (b + i)) (λ q. ground (arith, apart, q)))
    ]

starts-is_prefix :
    (m : Mem) (h n : ℕ) (hs ns : List ℕ)
    → IsString m h hs
    → IsString m n ns
    → starts m h n (length ns) ≡ is_prefix ns hs
unfolding strncmp
starts-is_prefix m h n hs ns sh sn =
    let start_h : h + 0 ≡ h = omega arith in
    let start_n : n + 0 ≡ n = omega arith in
    strncmp_from-is_prefix m h n 0 hs ns (rw start_h sh) (rw start_n sn)

strstr_from-first_at :
    (m : Mem) (h n : ℕ) (hs ns : List ℕ) (fuel : ℕ)
    → IsString m h hs
    → IsString m n ns
    → length hs < fuel
    → strstr_from m fuel h n (length ns) ≡ some (first_at h hs ns)
unfolding strstr_from
strstr_from-first_at m h n hs ns zero sh sn lt = absurd (omega (arith, lt))
strstr_from-first_at m h n [] ns (suc fuel) sh sn lt =
    let ends : (m h == 0) ≡ true = ground (arith, sh) in rw ends refl
strstr_from-first_at m h n (c ∷ cs) ns (suc fuel) (e, ne, rest) sn lt =
    let more : (m h == 0) ≡ false = ground (arith, e, ne) in
    let test = starts-is_prefix m h n (c ∷ cs) ns (e, ne, rest) sn in
    let later = strstr_from-first_at m (h + 1) n cs ns fuel rest sn (omega (arith, lt)) in
    elim (Bool-cases (is_prefix ns (c ∷ cs))) [
      | inl found ↦ rw (more, test, found) refl
      | inr missed ↦ rw (more, test, missed) later
    ]

-- `strstr` of two strings in memory ends with as many rounds as the longer one has bytes, and gives
-- the address of the first occurrence in the haystack, as the search through the lists finds it, or
-- NULL; for an empty needle it gives the haystack.
pub strstr-first_at :
    (m : Mem) (h n : ℕ) (hs ns : List ℕ) (fuel : ℕ)
    → IsString m h hs
    → IsString m n ns
    → length hs < fuel
    → length ns < fuel
    → strstr m fuel h n ≡ some (if length ns == 0 then h else first_at h hs ns)
unfolding strstr
strstr-first_at m h n hs ns fuel sh sn lh ln =
    let found = strstr_from-first_at m h n hs ns fuel sh sn lh in
    let size = strlen-IsString m n ns fuel sn ln in
    elim (Bool-cases (length ns == 0)) [
      | inl empty ↦ rw (size, strstr, empty) refl
      | inr some_char ↦ rw (size, strstr, some_char) found
    ]
