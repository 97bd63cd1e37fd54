-- ===== src/Env/Tests.antt =====
-- kernel/env.c on a table with two rows.
use ovsb_mk.Base.{ℕ, ◌≡◌, inl, refl, List, [], ◌∷◌, some, none, arith, replicate, if◌then◌else◌}
use ovsb_mk.Env.{Row, find_row, strcmp_equal, env_get, env_set}
use ovsb_mk.Env.Lookup.{env_get-env_set}

abbrev home : List ℕ
home = b'H' ∷ b'O' ∷ b'M' ∷ b'E' ∷ []

abbrev shell : List ℕ
shell = b'S' ∷ b'H' ∷ []

abbrev two_rows : List Row
two_rows =
    record { name = home; val = b'/' ∷ [] } ∷ record { name = shell; val = b'M' ∷ b'k' ∷ [] } ∷ []

env_get-env_set_example :
    env_get (env_set two_rows home (b'x' ∷ [])) shell
    ≡ (if strcmp_equal home shell then some (b'x' ∷ []) else env_get two_rows shell)
env_get-env_set_example =
    env_get-env_set two_rows home (b'x' ∷ []) shell (omega arith) (inl (omega arith))

-- A name of 40 characters.
abbrev long_name : List ℕ
long_name = replicate 40 b'A'

long_name-missing : env_get two_rows long_name ≡ none
unfolding env_get find_row strcmp_equal
long_name-missing = refl
