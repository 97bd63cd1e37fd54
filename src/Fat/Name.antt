-- ===== src/Fat/Name.antt =====
-- `name_to_83` of fs/fat32.c: a file name as the 11 bytes of a directory entry.
-- A name is the list of its characters before the terminator.
pub mod Fields
use ovsb_mk.Base.{
  ℕ, zero, suc, ◌+◌, ◌-◌, List, [], ◌∷◌, Bool, true, false, ◌&&◌, Option, none, some, ◌==◌, ltb,
  leb, if◌then◌else◌, set, replicate,
}

-- The test for "." and "..".
unfoldable pub is_dots : List ℕ → Bool
is_dots [] = false
is_dots (a ∷ []) = a == b'.'
is_dots (a ∷ b ∷ []) = (a == b'.') && (b == b'.')
is_dots (a ∷ b ∷ c ∷ cs) = false

-- `if (c >= 'a' && c <= 'z') c -= 0x20;`
abbrev pub upper : ℕ → ℕ
upper c = if leb b'a' c && leb c b'z' then c - 0x20 else c

-- The characters up to the first dot.
unfoldable pub base_of : List ℕ → List ℕ
base_of [] = []
base_of (c ∷ cs) = if c == b'.' then [] else c ∷ base_of cs

-- The characters behind the first dot, if there is one.
unfoldable pub extension_of : List ℕ → Option (List ℕ)
extension_of [] = none
extension_of (c ∷ cs) = if c == b'.' then some cs else extension_of cs

-- `while (*p && pos < limit) out[pos++] = *p++`
unfoldable pub put_chars : List ℕ → (pos limit : ℕ) → List ℕ → List ℕ
put_chars out pos limit [] = out
put_chars out pos limit (c ∷ cs) =
    let rest = put_chars (set out pos c) (pos + 1) limit cs in if ltb pos limit then rest else out

-- The same with each character in upper case.
unfoldable pub put_upper : List ℕ → (pos limit : ℕ) → List ℕ → List ℕ
put_upper out pos limit [] = out
put_upper out pos limit (c ∷ cs) =
    let rest = put_upper (set out pos (upper c)) (pos + 1) limit cs in
    if ltb pos limit then rest else out

unfoldable pub name_to_83 : List ℕ → List ℕ
unfolding is_dots base_of extension_of put_chars put_upper
name_to_83 name =
    let out = replicate 11 b' ' in
    let based = put_upper out 0 8 (base_of name) in
    if is_dots name
    then put_chars out 0 11 name
    else elim (extension_of name) [ none ↦ based | some ext ↦ put_upper based 8 11 ext ]
