-- ===== src/Env/Lookup.antt =====
-- What a lookup gives after a change of a table of kernel/env.c.
use ovsb_mk.Base.{
  ℕ, zero, suc, ◌+◌, ◌≤◌, ◌<◌, ◌≡◌, ◌≢◌, ◌∙◌, ◌⊎◌, inl, inr, refl, ap, sym, List, [], ◌∷◌, ◌++◌,
  true, false, none, some, arith, ltb, if◌then◌else◌, length, take, Bool-cases,
}
use ovsb_mk.Env.{
  Row, strcmp_equal, find_row, replace_row, set_row, env_get, env_set, alias_get, alias_set,
  alias_unset,
}

strcmp_equal_self : (xs : List ℕ) → strcmp_equal xs xs ≡ true
unfolding strcmp_equal
strcmp_equal_self [] = refl
strcmp_equal_self (x ∷ xs) = ground (arith, strcmp_equal_self xs)

strcmp_equal_iff : (xs ys : List ℕ) → strcmp_equal xs ys ≡ true → xs ≡ ys
unfolding strcmp_equal
strcmp_equal_iff [] [] e = refl
strcmp_equal_iff [] (y ∷ ys) e = absurd (cc)
strcmp_equal_iff (x ∷ xs) [] e = absurd (cc)
strcmp_equal_iff (x ∷ xs) (y ∷ ys) e = ground (arith, strcmp_equal_iff xs ys)

take_short : (n : ℕ) (xs : List ℕ) → length xs ≤ n → take n xs ≡ xs
take_short zero [] h = refl
take_short zero (x ∷ xs) h = absurd (omega arith)
take_short (suc n) [] h = refl
take_short (suc n) (x ∷ xs) h = ap (λ ys. x ∷ ys) (take_short n xs (omega arith))

find_row-append :
    (t : List Row) (r : Row) (name : List ℕ)
    → find_row t name ≡ none
    → find_row (t ++ (r ∷ [])) name ≡ find_row (r ∷ []) name
unfolding find_row
find_row-append [] r name e = refl
find_row-append (q ∷ t) r name e = ground (arith, find_row-append t r name, e)

-- A row that is not the one looked for.
strcmp_equal_ne : (xs ys : List ℕ) → xs ≢ ys → strcmp_equal xs ys ≡ false
strcmp_equal_ne xs ys ne = ground (arith, strcmp_equal_iff xs ys)

-- The value of `name` is replaced, and the values of other names are kept.
record Replaced (t t' : List Row) (name val : List ℕ) : Type 0 where
  found : find_row t' name ≡ some (take 255 val)
  others : (other : List ℕ) → other ≢ name → find_row t' other ≡ find_row t other

-- The first row has the name.
replace_here :
    (r : Row) (t : List Row) (name val : List ℕ)
    → strcmp_equal r.name name ≡ true
    → Replaced (r ∷ t) (record r { val = take 255 val } ∷ t) name val
unfolding find_row
replace_here r t name val hit =
    let same : r.name ≡ name = strcmp_equal_iff r.name name hit in
    record {
      found = rw hit refl;
      others = λ other ne.
          let miss : strcmp_equal r.name other ≡ false =
            strcmp_equal_ne r.name other (λ e. ne (sym e ∙ same)) in
          rw miss refl;
    }

-- A later row has the name.
replace_below :
    (r : Row) (t t' : List Row) (name val : List ℕ)
    → strcmp_equal r.name name ≡ false
    → Replaced t t' name val
    → Replaced (r ∷ t) (r ∷ t') name val
unfolding find_row
replace_below r t t' name val miss c = record {
  found = rw miss c.found;
  others = λ other ne.
      ap (λ rest. if strcmp_equal r.name other then some r.val else rest) (c.others other ne);
}

replace_row-cases :
    (t : List Row) (name val : List ℕ)
    → ((replace_row t name val ≡ none) × (find_row t name ≡ none))
      ⊎ ((t' : List Row) × (replace_row t name val ≡ some t')
          × Replaced t t' name val
          × (find_row t name ≢ none))
unfolding replace_row find_row
replace_row-cases [] name val = inl (refl, refl)
replace_row-cases (r ∷ t) name val = elim (Bool-cases (strcmp_equal r.name name)) [
  | inl hit ↦ inr (
    record r { val = take 255 val } ∷ t,
    rw hit refl,
    replace_here r t name val hit,
    λ z. ground (arith, hit, z),
  )
  | inr miss ↦ elim (replace_row-cases t name val) [
    | inl (e, f) ↦ inl (rw (miss, e) refl, rw miss f)
    | inr (t', e, c, present) ↦ inr (
      r ∷ t',
      rw (miss, e) refl,
      replace_below r t t' name val miss c,
      λ z. present (rw miss at z),
    )
  ]
]

-- A new row at the end of the table.
append-Replaced :
    (t : List Row) (name val : List ℕ)
    → find_row t name ≡ none
    → Replaced t (t ++ (record { name = name; val = take 255 val } ∷ [])) name val
unfolding find_row
append-Replaced t name val e = record {
  found = find_row-append t _ name e ∙ rw (strcmp_equal_self name) refl;
  others = λ other ne. append_other t _ other (strcmp_equal_ne name other (λ q. ne (sym q)));
}
  where
    append_other :
        (t : List Row) (r : Row) (other : List ℕ)
        → strcmp_equal r.name other ≡ false
        → find_row (t ++ (r ∷ [])) other ≡ find_row t other
    append_other [] r other miss = rw miss refl
    append_other (q ∷ t) r other miss =
        ap (λ rest. if strcmp_equal q.name other then some q.val else rest)
          (append_other t r other miss)

set_row-Replaced :
    (limit width : ℕ) (t : List Row) (name val : List ℕ)
    → length name ≤ width
    → (length t < limit) ⊎ (find_row t name ≢ none)
    → Replaced t (set_row limit width t name val) name val
unfolding set_row
set_row-Replaced limit width t name val short room = elim (replace_row-cases t name val) [
  | inr (t', e, c, present) ↦ rw (e, set_row) c
  | inl (e, f) ↦
      let free : ltb (length t) limit ≡ true = ground (arith, room, f) in
      rw (e, set_row, free, take_short width name short) (append-Replaced t name val f)
]

-- The lookup of any name in the changed table.
find_row-Replaced :
    (t t' : List Row) (name val other : List ℕ)
    → Replaced t t' name val
    → find_row t' other
      ≡ (if strcmp_equal name other then some (take 255 val) else find_row t other)
find_row-Replaced t t' name val other c = elim (Bool-cases (strcmp_equal name other)) [
  | inl hit ↦ rw hit (ap (find_row t') (sym (strcmp_equal_iff name other hit)) ∙ c.found)
  | inr miss ↦
      let ne : other ≢ name = λ e. ground (arith, miss, strcmp_equal_self name, e) in
      rw miss (c.others other ne)
]

-- Once a variable with a name of at most 31 characters is set, and it was in the table or the table
-- had room, it reads as its new value, cut to 255 characters, and every other one as before.
pub env_get-env_set :
    (t : List Row) (name val other : List ℕ)
    → length name ≤ 31
    → (length t < 32) ⊎ (env_get t name ≢ none)
    → env_get (env_set t name val) other
      ≡ (if strcmp_equal name other then some (take 255 val) else env_get t other)
unfolding env_get env_set
env_get-env_set t name val other short room =
    find_row-Replaced t _ name val other (set_row-Replaced 32 31 t name val short room)

-- Once an alias with a name of at most 63 characters is set, and it was in the table or the table
-- had room, it reads as its new value, cut to 255 characters, and every other one as before.
pub alias_get-alias_set :
    (t : List Row) (name val other : List ℕ)
    → length name ≤ 63
    → (length t < 32) ⊎ (alias_get t name ≢ none)
    → alias_get (alias_set t name val) other
      ≡ (if strcmp_equal name other then some (take 255 val) else alias_get t other)
unfolding alias_get alias_set
alias_get-alias_set t name val other short room =
    find_row-Replaced t _ name val other (set_row-Replaced 32 63 t name val short room)

length-take_le : (n : ℕ) (xs : List ℕ) → length (take n xs) ≤ n
length-take_le zero xs = omega arith
length-take_le (suc n) [] = omega arith
length-take_le (suc n) (x ∷ xs) = omega (arith, length-take_le n xs)

-- A variable that was not in the table, with a name of more than 31 characters, cannot be read after
-- it has been set: its name is cut, and the lookup compares with the whole name.
pub env_get-env_set_long :
    (t : List Row) (name val : List ℕ)
    → 31 < length name
    → env_get t name ≡ none
    → env_get (env_set t name val) name ≡ none
unfolding env_get env_set set_row find_row
env_get-env_set_long t name val long missing =
    let cut : take 31 name ≢ name = λ e. omega (arith, length-take_le 31 name, ap length e) in
    let r : Row = record { name = take 31 name; val = take 255 val } in
    let miss : strcmp_equal r.name name ≡ false = strcmp_equal_ne (take 31 name) name cut in
    elim (replace_row-cases t name val) [
      | inr (t', e, c, present) ↦ absurd (present missing)
      | inl (e, f) ↦ elim (Bool-cases (ltb (length t) 32)) [
        | inl room ↦ rw (e, set_row, room) (find_row-append t r name missing ∙ rw miss refl)
        | inr full ↦ rw (e, set_row, full) missing
      ]
    ]

-- `alias_unset` answers 1 and takes one row out if the alias is there, and otherwise answers 0 and
-- changes nothing.
pub alias_unset-cases :
    (t : List Row) (name : List ℕ)
    → (((alias_unset t name).0 ≡ 1)
        × (alias_get t name ≢ none)
        × (length t ≡ length (alias_unset t name).1 + 1))
      ⊎ ((alias_unset t name ≡ (0, t)) × (alias_get t name ≡ none))
unfolding alias_unset alias_get find_row
alias_unset-cases [] name = inr (refl, refl)
alias_unset-cases (r ∷ t) name = ground (arith, alias_unset-cases t name)

-- Every other alias reads after `alias_unset` as before.
pub alias_get-alias_unset :
    (t : List Row) (name other : List ℕ)
    → other ≢ name
    → alias_get (alias_unset t name).1 other ≡ alias_get t other
unfolding alias_unset alias_get find_row
alias_get-alias_unset [] name other ne = refl
alias_get-alias_unset (r ∷ t) name other ne = ground (
  arith,
  alias_get-alias_unset t name other ne,
  strcmp_equal_iff r.name name,
  strcmp_equal_iff r.name other,
)
