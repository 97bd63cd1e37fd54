-- ===== src/Env.antt =====
-- kernel/env.c: the variables and the aliases of the shell, two tables of strings.
-- A C string is the list of its characters before the terminator. A table is the list of its first
-- `env_count` or `alias_count` rows: no other row is read.
pub mod Lookup
mod Tests
use ovsb_mk.Base.{
  ℕ, zero, suc, ◌+◌, ◌-◌, List, [], ◌∷◌, ◌++◌, Bool, true, false, ◌&&◌, Option, none, some, ◌==◌,
  ltb, if◌then◌else◌, length, take,
}

abbrev pub env_max : ℕ
env_max = 32

abbrev pub alias_max : ℕ
alias_max = 32

-- A row of `env_name` and `env_val`, or of `alias_name` and `alias_val`.
pub record Row : Type 0 where
  pub name : List ℕ
  pub val : List ℕ

-- `strcmp(a, b) == 0`
unfoldable pub strcmp_equal : List ℕ → List ℕ → Bool
strcmp_equal [] [] = true
strcmp_equal [] (y ∷ ys) = false
strcmp_equal (x ∷ xs) [] = false
strcmp_equal (x ∷ xs) (y ∷ ys) = (x == y) && strcmp_equal xs ys

-- The loop of `env_get` and `alias_get`.
unfoldable pub find_row : List Row → List ℕ → Option (List ℕ)
find_row [] name = none
find_row (r ∷ rs) name = if strcmp_equal r.name name then some r.val else find_row rs name

-- The loop of `env_set` and `alias_set`: the value of the first row with the name is replaced.
unfoldable pub replace_row : List Row → (name val : List ℕ) → Option (List Row)
replace_row [] name val = none
replace_row (r ∷ rs) name val =
    if strcmp_equal r.name name
    then some (record r { val = take 255 val } ∷ rs)
    else elim (replace_row rs name val) [ none ↦ none | some rs' ↦ some (r ∷ rs') ]

-- Both setters: rows for `limit` names of `width` characters. A full table ignores a new name.
unfoldable pub set_row : (limit width : ℕ) → List Row → (name val : List ℕ) → List Row
set_row limit width t name val = elim (replace_row t name val) [
  | some t' ↦ t'
  | none ↦
      if ltb (length t) limit
      then t ++ (record { name = take width name; val = take 255 val } ∷ [])
      else t
]

unfoldable pub env_get : List Row → List ℕ → Option (List ℕ)
env_get t name = find_row t name

unfoldable pub env_set : List Row → (name val : List ℕ) → List Row
env_set t name val = set_row env_max 31 t name val

unfoldable pub env_init : List Row → List Row
env_init t =
    let t1 = env_set t (b'P' ∷ b'A' ∷ b'T' ∷ b'H' ∷ []) (
      b'/' ∷ b'B' ∷ b'I' ∷ b'N' ∷ b':' ∷ b'/' ∷ b'U' ∷ b'S' ∷ b'R' ∷ b'/' ∷ b'B' ∷ b'I' ∷ b'N'
      ∷ b':' ∷ b'/' ∷ b'L' ∷ b'O' ∷ b'C' ∷ b'A' ∷ b'L' ∷ b'/' ∷ b'B' ∷ b'I' ∷ b'N' ∷ []) in
    let t2 = env_set t1 (b'H' ∷ b'O' ∷ b'M' ∷ b'E' ∷ []) (b'/' ∷ []) in
    let t3 =
      env_set t2 (b'E' ∷ b'D' ∷ b'I' ∷ b'T' ∷ b'O' ∷ b'R' ∷ []) (b'e' ∷ b'd' ∷ b'i' ∷ b't' ∷ []) in
    let t4 = env_set t3 (b'S' ∷ b'H' ∷ b'E' ∷ b'L' ∷ b'L' ∷ []) (b'M' ∷ b'k' ∷ []) in
    env_set t4 (b'P' ∷ b'S' ∷ b'1' ∷ []) (b'[' ∷ 92 ∷ b'w' ∷ b']' ∷ 92 ∷ b'$' ∷ b' ' ∷ [])

unfoldable pub alias_get : List Row → List ℕ → Option (List ℕ)
alias_get t name = find_row t name

unfoldable pub alias_set : List Row → (name val : List ℕ) → List Row
alias_set t name val = set_row alias_max 63 t name val

-- The later rows move up by one; the result is 1 if the name was there.
unfoldable pub alias_unset : List Row → List ℕ → ℕ × List Row
alias_unset [] name = (0, [])
alias_unset (r ∷ rs) name =
    if strcmp_equal r.name name
    then (1, rs)
    else (let (found, rs') = alias_unset rs name in (found, r ∷ rs'))
