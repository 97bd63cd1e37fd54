-- ===== src/Fat/Name/Fields.antt =====
-- What `name_to_83` of fs/fat32.c writes, as two padded fields.
use ovsb_mk.Base.{
  ℕ, zero, suc, ◌+◌, ◌-◌, ◌≡◌, ◌∙◌, sym, refl, ap, List, [], ◌∷◌, ◌++◌, true, false, Bool, Option,
  none, ◌⊎◌, ◌≢◌, ◌==◌, ==_iff, map, take, get_or, get_or-beyond, all_below, all_below_sound, some,
  arith, ltb, if◌then◌else◌, length, length-append, append_nil, set, replicate, Bool-cases,
  Option-cases, inl, inr,
}
use ovsb_mk.Fat.Name.{is_dots, upper, base_of, extension_of, put_chars, put_upper, name_to_83}

-- The first `k` characters in upper case, and spaces up to `k` characters.
abbrev pub padded : ℕ → List ℕ → List ℕ
padded zero cs = []
padded (suc k) [] = b' ' ∷ padded k []
padded (suc k) (c ∷ cs) = upper c ∷ padded k cs

abbrev pub extension_or_none : Option (List ℕ) → List ℕ
extension_or_none none = []
extension_or_none (some ext) = ext

padded_nil : (k : ℕ) → padded k [] ≡ replicate k b' '
padded_nil zero = refl
padded_nil (suc k) = ap (λ cs. b' ' ∷ cs) (padded_nil k)

append_assoc : (xs ys zs : List ℕ) → (xs ++ ys) ++ zs ≡ xs ++ (ys ++ zs)
append_assoc [] ys zs = refl
append_assoc (x ∷ xs) ys zs = ap (λ l. x ∷ l) (append_assoc xs ys zs)

set_append :
    (pre suf : List ℕ) (x y : ℕ) → set (pre ++ (x ∷ suf)) (length pre) y ≡ (pre ++ (y ∷ [])) ++ suf
set_append [] suf x y = refl
set_append (p ∷ pre) suf x y = ap (λ l. p ∷ l) (set_append pre suf x y)

-- The loop fills a field of `k` spaces that begins behind `pre`.
put_upper_field :
    (pre rest : List ℕ) (k : ℕ) (cs : List ℕ)
    → put_upper (pre ++ (replicate k b' ' ++ rest)) (length pre) (length pre + k) cs
      ≡ pre ++ (padded k cs ++ rest)
unfolding put_upper
put_upper_field pre rest k [] = ap (λ l. pre ++ (l ++ rest)) (sym (padded_nil k))
put_upper_field pre rest zero (c ∷ cs) =
    let full : ltb (length pre) (length pre + 0) ≡ false = ground arith in rw full refl
put_upper_field pre rest (suc k) (c ∷ cs) =
    let room : ltb (length pre) (length pre + suc k) ≡ true = ground arith in
    let longer : length (pre ++ (upper c ∷ [])) ≡ length pre + 1 =
      length-append pre (upper c ∷ []) in
    let limit : length pre + suc k ≡ length pre + 1 + k = omega arith in
    let ih = put_upper_field (pre ++ (upper c ∷ [])) rest k cs in
    rw (room, set_append pre (replicate k b' ' ++ rest) b' ' (upper c), limit)
      (rw longer at ih ∙ append_assoc pre (upper c ∷ []) (padded k cs ++ rest))

length-padded : (k : ℕ) (cs : List ℕ) → length (padded k cs) ≡ k
length-padded zero cs = refl
length-padded (suc k) [] = ap suc (length-padded k [])
length-padded (suc k) (c ∷ cs) = ap suc (length-padded k cs)

-- The field of the base, then that of the extension.
both_fields :
    (base ext : List ℕ)
    → put_upper (put_upper (replicate 11 b' ') 0 8 base) 8 11 ext ≡ padded 8 base ++ padded 3 ext
both_fields base ext =
    let first : put_upper (replicate 11 b' ') 0 8 base ≡ padded 8 base ++ replicate 3 b' ' =
      put_upper_field [] (replicate 3 b' ') 8 base in
    let second = put_upper_field (padded 8 base) [] 3 ext in
    let at = rw (length-padded 8 base) at second in
    rw first (at ∙ ap (λ l. padded 8 base ++ l) (append_nil (padded 3 ext)))

-- Only "." and ".." pass the first test.
dots_kept :
    (name : List ℕ)
    → is_dots name ≡ true
    → put_chars (replicate 11 b' ') 0 11 name ≡ name ++ replicate (11 - length name) b' '
unfolding is_dots put_chars
dots_kept [] e = absurd (ground (arith, e))
dots_kept (a ∷ []) e = refl
dots_kept (a ∷ b ∷ []) e = refl
dots_kept (a ∷ b ∷ c ∷ cs) e = absurd (ground (arith, e))

-- What the branches of `name_to_83` write.
name_to_83-branches :
    (name : List ℕ)
    → name_to_83 name ≡ (
        if is_dots name
        then name ++ replicate (11 - length name) b' '
        else padded 8 (base_of name) ++ padded 3 (extension_or_none (extension_of name)))
unfolding name_to_83
name_to_83-branches name = elim (Bool-cases (is_dots name)) [
  | inl dots ↦ rw dots (dots_kept name dots)
  | inr plain ↦ elim (Option-cases (extension_of name)) [
    | inl e ↦ rw (plain, e, name_to_83) (put_upper_field [] (replicate 3 b' ') 8 (base_of name))
    | inr (ext, e) ↦ rw (plain, e, name_to_83) (both_fields (base_of name) ext)
  ]
]

abbrev alphabet : List ℕ
alphabet =
    b'A' ∷ b'B' ∷ b'C' ∷ b'D' ∷ b'E' ∷ b'F' ∷ b'G' ∷ b'H' ∷ b'I' ∷ b'J' ∷ b'K' ∷ b'L' ∷ b'M' ∷ b'N'
    ∷ b'O' ∷ b'P' ∷ b'Q' ∷ b'R' ∷ b'S' ∷ b'T' ∷ b'U' ∷ b'V' ∷ b'W' ∷ b'X' ∷ b'Y' ∷ b'Z' ∷ []

-- The capital of a letter of the alphabet; any other character stays.
abbrev pub capital : ℕ → ℕ
capital c = if ltb c b'a' then c else get_or alphabet (c - b'a') c

-- The first `k` characters in capitals, and spaces behind them up to `k` characters.
abbrev pub field : ℕ → List ℕ → List ℕ
field k cs = take k (map capital cs) ++ replicate (k - length cs) b' '

abbrev pub NoDot : List ℕ → Type 0
NoDot [] = Unit
NoDot (c ∷ cs) = (c ≢ b'.') × NoDot cs

abbrev capital_table : ℕ → Bool
capital_table c = upper c == capital c

capital_checked : all_below 123 capital_table ≡ true
unfolding all_below
capital_checked = refl

upper-capital : (c : ℕ) → upper c ≡ capital c
upper-capital c = elim (Bool-cases (ltb c 123)) [
  | inl low ↦
      (==_iff (upper c) (capital c)).0
        (all_below_sound 123 capital_table c capital_checked (ground (arith, low)))
  | inr high ↦ ground (arith, high, get_or-beyond alphabet (c - b'a') c)
]

padded-field : (k : ℕ) (cs : List ℕ) → padded k cs ≡ field k cs
padded-field zero cs = let none_left : 0 - length cs ≡ 0 = omega arith in rw none_left refl
padded-field (suc k) [] =
    let all_left : suc k - 0 ≡ suc k = omega arith in rw all_left (padded_nil (suc k))
padded-field (suc k) (c ∷ cs) =
    let left : suc k - suc (length cs) ≡ k - length cs = omega arith in
    rw (upper-capital c, padded-field k cs, left) refl

base_of-NoDot : (base : List ℕ) → NoDot base → base_of base ≡ base
unfolding base_of
base_of-NoDot [] plain = refl
base_of-NoDot (c ∷ cs) (ne, plain) =
    let test : (c == b'.') ≡ false = ground (arith, ne) in rw (test, base_of-NoDot cs plain) refl

base_of-dot : (base ext : List ℕ) → NoDot base → base_of (base ++ (b'.' ∷ ext)) ≡ base
unfolding base_of
base_of-dot [] ext plain = refl
base_of-dot (c ∷ cs) ext (ne, plain) =
    let test : (c == b'.') ≡ false = ground (arith, ne) in rw (test, base_of-dot cs ext plain) refl

extension_of-NoDot : (base : List ℕ) → NoDot base → extension_of base ≡ none
unfolding extension_of
extension_of-NoDot [] plain = refl
extension_of-NoDot (c ∷ cs) (ne, plain) =
    let test : (c == b'.') ≡ false = ground (arith, ne) in rw test (extension_of-NoDot cs plain)

extension_of-dot : (base ext : List ℕ) → NoDot base → extension_of (base ++ (b'.' ∷ ext)) ≡ some ext
unfolding extension_of
extension_of-dot [] ext plain = refl
extension_of-dot (c ∷ cs) ext (ne, plain) =
    let test : (c == b'.') ≡ false = ground (arith, ne) in rw test (extension_of-dot cs ext plain)

is_dots-NoDot : (base : List ℕ) → NoDot base → is_dots base ≡ false
unfolding is_dots
is_dots-NoDot [] plain = refl
is_dots-NoDot (a ∷ []) plain = ground (arith, plain.0)
is_dots-NoDot (a ∷ b ∷ []) plain = ground (arith, plain.0)
is_dots-NoDot (a ∷ b ∷ c ∷ cs) plain = refl

is_dots_lem : (name : List ℕ) → is_dots name ≡ true → (name ≡ b'.' ∷ []) ⊎ (name ≡ b'.' ∷ b'.' ∷ [])
unfolding is_dots
is_dots_lem [] e = absurd (ground (arith, e))
is_dots_lem (a ∷ []) e = let one : a ≡ b'.' = ground (arith, e) in inl (rw one refl)
is_dots_lem (a ∷ b ∷ []) e =
    let one : a ≡ b'.' = ground (arith, e) in
    let two : b ≡ b'.' = ground (arith, e) in inr (rw (one, two) refl)
is_dots_lem (a ∷ b ∷ c ∷ cs) e = absurd (ground (arith, e))

name_to_83-parts :
    (name base : List ℕ) (r : Option (List ℕ))
    → is_dots name ≡ false
    → base_of name ≡ base
    → extension_of name ≡ r
    → name_to_83 name ≡ field 8 base ++ field 3 (extension_or_none r)
name_to_83-parts name base r e1 e2 e3 =
    name_to_83-branches name
    ∙ rw (e1, e2, e3, padded-field 8 base, padded-field 3 (extension_or_none r)) refl

-- `name_to_83` gives for a base without a dot the first 8 characters of the base and 3 spaces, and
-- for a base without a dot, a dot and an extension the first 8 characters of the base and the first
-- 3 of the extension, where the name is neither . nor ..; the letters are in capitals, and each
-- field is filled with spaces. It gives . and .. followed by spaces.
pub name_to_83-fields :
    (base ext : List ℕ)
    → NoDot base
    → base ++ (b'.' ∷ ext) ≢ b'.' ∷ []
    → base ++ (b'.' ∷ ext) ≢ b'.' ∷ b'.' ∷ []
    → (name_to_83 base ≡ field 8 base ++ field 3 [])
      × (name_to_83 (base ++ (b'.' ∷ ext)) ≡ field 8 base ++ field 3 ext)
      × (name_to_83 (b'.' ∷ []) ≡ b'.' ∷ replicate 10 b' ')
      × (name_to_83 (b'.' ∷ b'.' ∷ []) ≡ b'.' ∷ b'.' ∷ replicate 9 b' ')
unfolding name_to_83 is_dots put_chars
name_to_83-fields base ext plain no_dot no_dots =
    let name = base ++ (b'.' ∷ ext) in
    let longer : is_dots name ≡ false = elim (Bool-cases (is_dots name)) [
      | inr e ↦ e
      | inl e ↦ elim (is_dots_lem name e) [ inl q ↦ absurd (no_dot q) | inr q ↦ absurd (no_dots q) ]
    ] in
    (
      name_to_83-parts base base none (is_dots-NoDot base plain) (base_of-NoDot base plain)
          (extension_of-NoDot base plain),
      name_to_83-parts name base (some ext) longer (base_of-dot base ext plain)
          (extension_of-dot base ext plain),
      refl,
      refl,
    )
