-- ===== src/Fat/Path.antt =====
-- `fat32_get_cwd_name` of fs/fat32.c: the names from the current directory up to the root.
pub mod Bounds
use ovsb_mk.Base.{
  ℕ, zero, suc, ◌+◌, ◌-◌, ◌*◌, ◌/◌, ◌%◌, ◌^◌, List, [], ◌∷◌, ◌++◌, Bool, true, false, ◌&&◌, ◌||◌,
  not, Option, none, some, ◌==◌, ltb, leb, if◌then◌else◌, length, replicate, ℤ, pos, negsuc,
}
use ovsb_mk.Fat.Types.{
  Volume, Bytes, ata_read_sector, ata_write_sector, write_byte, cluster_to_sector, in_chain, err_io,
  err_exists, err_nospace, err_notfound, err_notdir, err_notempty,
}
use ovsb_mk.Fat.Walk.{Flow, go, back, each_entry, each_cluster, finish}
use ovsb_mk.Fat.Entry.{
  DirEntry, entry_at, entry_name, entry_attr, name_byte, same_name, is_end, is_deleted, is_long,
  first_cluster_of, set_name, set_cluster,
}

-- The loop of `fat32_get_cwd_name` for the entry `..`, from the entry `i` on.
unfoldable pub dotdot_cluster : Volume → Bytes → (i n : ℕ) → ℕ
dotdot_cluster v b i zero = v.root_cluster
dotdot_cluster v b i (suc n) =
    let rest = dotdot_cluster v b (i + 1) n in
    let parent = first_cluster_of (entry_at b i) in
    if not (is_deleted b i)
      && not (is_long b i)
      && (name_byte b i 0 == b'.')
      && (name_byte b i 1 == b'.')
      && (name_byte b i 2 == b' ')
    then (if parent == 0 then v.root_cluster else parent)
    else rest

unfoldable pub parent_of : Volume → ℕ → ℕ
unfolding dotdot_cluster
parent_of v c = elim (ata_read_sector v (cluster_to_sector v c)) [
  | none ↦ v.root_cluster
  | some b ↦ dotdot_cluster v b 0 16
]

-- The name of the entry whose first cluster is `c`.
unfoldable pub name_slot : ℕ → Bytes → ℕ → Unit {0} → Flow (Unit {0}) (List ℕ)
name_slot c b i st =
    if is_end b i || is_deleted b i || is_long b i
    then go st
    else if first_cluster_of (entry_at b i) == c
    then back (entry_name b i)
    else go st

-- In the directory of the parent: `some []` if there is none. A sector that cannot be read ends its
-- cluster.
unfoldable pub name_in : Volume → (hops parent c : ℕ) → Option (List ℕ)
name_in v hops parent c =
    finish (λ st. [])
      (each_cluster v (λ sector b. each_entry (name_slot c b) 0 16) (λ st. go st) hops parent tt)

-- The names from the cluster `c` up to the root, pushed on the stack. `stack` has 16 places, which
-- the code does not test: with a name more, it writes behind the array, and the model gives `none`.
unfoldable pub cwd_stack : Volume → (hops depth c : ℕ) → List (List ℕ) → Option (List (List ℕ))
cwd_stack v hops zero c stack = none
cwd_stack v hops (suc depth) c stack =
    let parent = parent_of v c in
    elim (c == v.root_cluster) [
      | true ↦ some stack
      | false ↦ elim (name_in v hops parent c) [
        | none ↦ none
        | some [] ↦ cwd_stack v hops depth parent stack
        | some (x ∷ xs) ↦
            let rest = cwd_stack v hops depth parent ((x ∷ xs) ∷ stack) in
            if leb 16 (length stack) then none else rest
      ]
    ]

-- The characters up to a space, while there is room before the terminator.
unfoldable pub put_name : (maxlen : ℕ) → (out name : List ℕ) → List ℕ
put_name maxlen out [] = out
put_name maxlen out (c ∷ cs) =
    let rest =
      put_name maxlen (if ltb (length out) (maxlen - 1) then out ++ (c ∷ []) else out) cs in
    if c == b' ' then out else rest

-- The stack from its top, joined by slashes.
unfoldable pub put_names : (maxlen : ℕ) → (out : List ℕ) → List (List ℕ) → List ℕ
unfolding put_name
put_names maxlen out [] = out
put_names maxlen out (n ∷ []) = put_name maxlen out n
put_names maxlen out (n ∷ m ∷ ns) =
    let named = put_name maxlen out n in
    put_names maxlen (if ltb (length named) (maxlen - 1) then named ++ (b'/' ∷ []) else named)
      (m ∷ ns)

-- The string that `fat32_get_cwd_name` leaves in `out`, with at most `depth` directories on the way.
unfoldable pub fat32_get_cwd_name : Volume → (hops depth maxlen : ℕ) → Option (List ℕ)
fat32_get_cwd_name v hops depth maxlen =
    if v.current_dir_cluster == v.root_cluster
    then some (b'/' ∷ [])
    else elim (cwd_stack v hops depth v.current_dir_cluster []) [
      | none ↦ none
      | some stack ↦ some (put_names maxlen (b'/' ∷ []) stack)
    ]
