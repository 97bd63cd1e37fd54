-- ===== src/Fat/Path/Bounds.antt =====
-- The bytes that `fat32_get_cwd_name` of fs/fat32.c leaves in the buffer of its caller.
use ovsb_mk.Base.{
  ℕ, ◌-◌, ◌≤◌, ◌<◌, ◌≡◌, inl, inr, List, [], ◌∷◌, ◌++◌, some, arith, ◌==◌, ltb, if◌then◌else◌,
  length, length-append, Bool-cases, Option-cases,
}
use ovsb_mk.Fat.Types.{Volume}
use ovsb_mk.Fat.Path.{cwd_stack, put_name, put_names, fat32_get_cwd_name}

-- A character is added where there is room.
abbrev add_if_room : (maxlen c : ℕ) → List ℕ → List ℕ
add_if_room maxlen c out = if ltb (length out) (maxlen - 1) then out ++ (c ∷ []) else out

add_if_room-lt :
    (maxlen c : ℕ) (out : List ℕ) → length out < maxlen → length (add_if_room maxlen c out) < maxlen
add_if_room-lt maxlen c out lt = elim (Bool-cases (ltb (length out) (maxlen - 1))) [
  | inl room ↦ rw room (ground (arith, length-append out (c ∷ []), room))
  | inr full ↦ rw full lt
]

put_name-lt :
    (maxlen : ℕ) (out name : List ℕ)
    → length out < maxlen
    → length (put_name maxlen out name) < maxlen
unfolding put_name
put_name-lt maxlen out [] lt = lt
put_name-lt maxlen out (c ∷ cs) lt = elim (Bool-cases (c == b' ')) [
  | inl space ↦ rw space lt
  | inr letter ↦
      rw letter (put_name-lt maxlen (add_if_room maxlen c out) cs (add_if_room-lt maxlen c out lt))
]

put_names-lt :
    (maxlen : ℕ) (out : List ℕ) (names : List (List ℕ))
    → length out < maxlen
    → length (put_names maxlen out names) < maxlen
unfolding put_names
put_names-lt maxlen out [] lt = lt
put_names-lt maxlen out (n ∷ []) lt = put_name-lt maxlen out n lt
put_names-lt maxlen out (n ∷ m ∷ ns) lt =
    put_names-lt maxlen (add_if_room maxlen b'/' (put_name maxlen out n)) (m ∷ ns)
      (add_if_room-lt maxlen b'/' (put_name maxlen out n) (put_name-lt maxlen out n lt))

-- Where the buffer has at least 2 bytes and `fat32_get_cwd_name` returns, with at most 16
-- directories found on the way, the string that it leaves fits into the buffer with its terminator.
pub fat32_get_cwd_name-lt :
    (v : Volume) (hops depth maxlen : ℕ) (out : List ℕ)
    → 2 ≤ maxlen
    → fat32_get_cwd_name v hops depth maxlen ≡ some out
    → length out < maxlen
unfolding fat32_get_cwd_name
fat32_get_cwd_name-lt v hops depth maxlen out room e =
    elim (Bool-cases (v.current_dir_cluster == v.root_cluster)) [
      | inl root ↦ let same : (b'/' ∷ []) ≡ out = ground (arith, rw root at e) in rw⁻¹ same room
      | inr below ↦ elim (Option-cases (cwd_stack v hops depth v.current_dir_cluster [])) [
        | inl lost ↦ absurd (ground (arith, rw (below, fat32_get_cwd_name, lost) at e))
        | inr (stack, q) ↦
            let same : put_names maxlen (b'/' ∷ []) stack ≡ out =
              ground (arith, rw (below, fat32_get_cwd_name, q) at e) in
            rw⁻¹ same (put_names-lt maxlen (b'/' ∷ []) stack room)
      ]
    ]
