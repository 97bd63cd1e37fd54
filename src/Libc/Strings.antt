-- ===== src/Libc/Strings.antt =====
-- `strlen`, `strcpy` and `strcat` of userland/libc/string.c on strings in memory.
use ovsb_mk.Base.{
  ℕ, zero, suc, ◌+◌, ◌≤◌, ◌<◌, ◌≡◌, ◌≢◌, ◌⊎◌, ◌∙◌, ap, inl, inr, refl, List, [], ◌∷◌, ◌++◌, true,
  false, some, arith, ◌==◌, length, length-append,
}
use ovsb_mk.Libc.{Mem, poke, strlen_from, strlen, copy_string, strcat}

-- The characters of the list and a terminator stand at the address.
abbrev pub IsString : Mem → ℕ → List ℕ → Type 0
IsString m s [] = m s ≡ 0
IsString m s (c ∷ cs) = (m s ≡ c) × (c ≢ 0) × IsString m (s + 1) cs

-- A string depends on its own bytes.
pub IsString-kept :
    (m m' : Mem) (s : ℕ) (cs : List ℕ)
    → ((j : ℕ) → s ≤ j → j ≤ s + length cs → m' j ≡ m j)
    → IsString m s cs
    → IsString m' s cs
IsString-kept m m' s [] same e = same s (omega arith) (omega arith) ∙ e
IsString-kept m m' s (c ∷ cs) same (e, ne, rest) = (
  same s (omega arith) (omega arith) ∙ e,
  ne,
  IsString-kept m m' (s + 1) cs (λ j lo hi. same j (omega arith) (omega arith)) rest,
)

strlen_from-IsString :
    (m : Mem) (s n : ℕ) (cs : List ℕ) (fuel : ℕ)
    → IsString m (s + n) cs
    → length cs < fuel
    → strlen_from m fuel s n ≡ some (n + length cs)
unfolding strlen_from
strlen_from-IsString m s n cs zero h lt = absurd (omega (arith, lt))
strlen_from-IsString m s n [] (suc fuel) h lt =
    let ends : (m (s + n) == 0) ≡ true = ground (arith, h) in
    let count : n + 0 ≡ n = omega arith in rw (ends, count) refl
strlen_from-IsString m s n (c ∷ cs) (suc fuel) (e, ne, rest) lt =
    let more : (m (s + n) == 0) ≡ false = ground (arith, e, ne) in
    let place : s + n + 1 ≡ s + (n + 1) = omega arith in
    let count : n + 1 + length cs ≡ n + suc (length cs) = omega arith in
    rw more (
      strlen_from-IsString m s (n + 1) cs fuel (rw place at rest) (omega (arith, lt))
      ∙ ap some count)

pub strlen-IsString :
    (m : Mem) (s : ℕ) (cs : List ℕ) (fuel : ℕ)
    → IsString m s cs
    → length cs < fuel
    → strlen m fuel s ≡ some (length cs)
unfolding strlen
strlen-IsString m s cs fuel h lt =
    let start : s + 0 ≡ s = omega arith in
    let none_before : 0 + length cs ≡ length cs = omega arith in
    strlen_from-IsString m s 0 cs fuel (rw start h) lt ∙ ap some none_before

poke_here : (m : Mem) (p c : ℕ) → poke m p c p ≡ c
poke_here m p c = let hit : (p == p) ≡ true = ground arith in rw hit refl

poke_away : (m : Mem) (p c j : ℕ) → j ≢ p → poke m p c j ≡ m j
poke_away m p c j ne = let miss : (j == p) ≡ false = ground arith in rw miss refl

-- The memory after a copy: a string at `p`, and nothing else changed.
pub record Copied (m m' : Mem) (p : ℕ) (cs : List ℕ) : Type 0 where
  pub copy : IsString m' p cs
  pub others : (j : ℕ) → (j < p) ⊎ (p + length cs < j) → m' j ≡ m j

pub copy_string-Copied :
    (m : Mem) (p src : ℕ) (cs : List ℕ) (fuel : ℕ)
    → IsString m src cs
    → (p < src) ⊎ (src + length cs < p)
    → length cs < fuel
    → (m' : Mem) × (copy_string m fuel p src ≡ some m') × Copied m m' p cs
unfolding copy_string
copy_string-Copied m p src cs zero h apart lt = absurd (omega (arith, lt))
copy_string-Copied m p src [] (suc fuel) h apart lt =
    let ends : (m src == 0) ≡ true = ground (arith, h) in
    (
      poke m p (m src),
      rw ends refl,
      record {
        copy = poke_here m p (m src) ∙ h;
        others = λ j far. poke_away m p (m src) j (outside p j far);
      },
    )
  where
    outside : (p j : ℕ) → (j < p) ⊎ (p + 0 < j) → j ≢ p
    outside p j (inl lt) = omega arith
    outside p j (inr gt) = omega arith
copy_string-Copied m p src (c ∷ cs) (suc fuel) (e, ne, rest) apart lt =
    let more : (m src == 0) ≡ false = ground (arith, e, ne) in
    let kept =
      IsString-kept m (poke m p (m src)) (src + 1) cs
        (λ j lo hi. poke_away m p (m src) j (source_kept apart j lo hi)) rest in
    let (m', done, copied) =
      copy_string-Copied (poke m p (m src)) (p + 1) (src + 1) cs fuel kept (still_apart apart)
        (omega (arith, lt)) in
    (
      m',
      rw more done,
      record {
        copy = (copied.others p (inl (omega arith)) ∙ poke_here m p (m src) ∙ e, ne, copied.copy);
        others = λ j far. copied.others j (beyond j far) ∙ poke_away m p (m src) j (outside j far);
      },
    )
  where
    source_kept :
        (p < src) ⊎ (src + length (c ∷ cs) < p)
        → (j : ℕ) → src + 1 ≤ j
        → j ≤ src + 1 + length cs
        → j ≢ p
    source_kept (inl before) j lo hi = omega arith
    source_kept (inr after) j lo hi = omega (arith, after)

    still_apart :
        (p < src) ⊎ (src + length (c ∷ cs) < p) → (p + 1 < src + 1) ⊎ (src + 1 + length cs < p + 1)
    still_apart (inl before) = inl (omega arith)
    still_apart (inr after) = inr (omega (arith, after))

    beyond : (j : ℕ) → (j < p) ⊎ (p + length (c ∷ cs) < j) → (j < p + 1) ⊎ (p + 1 + length cs < j)
    beyond j (inl lt) = inl (omega arith)
    beyond j (inr gt) = inr (omega (arith, gt))

    outside : (j : ℕ) → (j < p) ⊎ (p + length (c ∷ cs) < j) → j ≢ p
    outside j (inl lt) = omega arith
    outside j (inr gt) = omega (arith, gt)

append-IsString :
    (m m' : Mem) (s : ℕ) (xs ys : List ℕ)
    → IsString m s xs
    → ((j : ℕ) → s ≤ j → j < s + length xs → m' j ≡ m j)
    → IsString m' (s + length xs) ys
    → IsString m' s (xs ++ ys)
append-IsString m m' s [] ys h same rest = let start : s + 0 ≡ s = omega arith in rw start at rest
append-IsString m m' s (x ∷ xs) ys (e, ne, more) same rest =
    let place : s + suc (length xs) ≡ s + 1 + length xs = omega arith in
    (
      same s (omega arith) (omega arith) ∙ e,
      ne,
      append-IsString m m' (s + 1) xs ys more (λ j lo hi. same j (omega arith) (omega arith))
          (rw place at rest),
    )

-- `strcat` of two strings, where the source lies before the destination or behind the result, ends
-- with as many rounds as the longer one has bytes. Then the first string followed by the second
-- stands at the destination, and no byte outside the result has changed.
pub strcat-IsString :
    (m : Mem) (dst src : ℕ) (xs ys : List ℕ) (fuel : ℕ)
    → IsString m dst xs
    → IsString m src ys
    → (src + length ys < dst) ⊎ (dst + length xs + length ys < src)
    → length xs < fuel
    → length ys < fuel
    → (m' : Mem) × (strcat m fuel dst src ≡ some m')
      × IsString m' dst (xs ++ ys)
      × ((j : ℕ) → (j < dst) ⊎ (dst + length (xs ++ ys) < j) → m' j ≡ m j)
unfolding strcat
strcat-IsString m dst src xs ys fuel hx hy apart lx ly =
    let (m', done, copied) =
      copy_string-Copied m (dst + length xs) src ys fuel hy (behind apart) ly in
    (
      m',
      rw (strlen-IsString m dst xs fuel hx lx, strcat) done,
      append-IsString m m' dst xs ys hx (λ j lo hi. copied.others j (inl hi)) copied.copy,
      λ j far. copied.others j (outside j far),
    )
  where
    behind :
        (src + length ys < dst) ⊎ (dst + length xs + length ys < src)
        → (dst + length xs < src) ⊎ (src + length ys < dst + length xs)
    behind (inl before) = inr (omega arith)
    behind (inr after) = inl (omega arith)

    outside :
        (j : ℕ)
        → (j < dst) ⊎ (dst + length (xs ++ ys) < j)
        → (j < dst + length xs) ⊎ (dst + length xs + length ys < j)
    outside j (inl lt) = inl (omega arith)
    outside j (inr gt) = inr (omega (arith, gt, length-append xs ys))
