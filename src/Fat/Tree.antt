-- ===== src/Fat/Tree.antt =====
-- The calls of fs/fat32.c on directories: `fat32_mkdir`, `fat32_rename` and `fat32_rmdir`.
pub mod Remove
use ovsb_mk.Base.{
  ℕ, zero, suc, ◌+◌, ◌-◌, ◌*◌, ◌/◌, ◌%◌, ◌^◌, List, [], ◌∷◌, ◌++◌, Bool, true, false, ◌&&◌, ◌||◌,
  not, Option, none, some, ◌==◌, ltb, leb, if◌then◌else◌, length, replicate, ℤ, pos, negsuc,
}
use ovsb_mk.Fat.Types.{
  Volume, Bytes, ata_read_sector, ata_write_sector, write_byte, cluster_to_sector, in_chain, err_io,
  err_exists, err_nospace, err_notfound, err_notdir, err_notempty,
}
use ovsb_mk.Fat.Name.{name_to_83}
use ovsb_mk.Fat.Table.{fat_read_entry, fat_write_entry, fat_find_free}
use ovsb_mk.Fat.Walk.{Flow, go, back, each_entry, each_cluster, finish}
use ovsb_mk.Fat.Entry.{
  DirEntry, entry_at, entry_name, entry_attr, name_byte, same_name, is_end, is_deleted, is_long,
  first_cluster_of, set_name, set_cluster,
}
use ovsb_mk.Fat.Dir.{find_entry, create_entry_at, store, is_directory}

-- The entry at `i` of a new directory, with a name of 11 bytes.
unfoldable pub dot_entry : Bytes → (i : ℕ) → (name : List ℕ) → (cluster : ℕ) → Bytes
dot_entry b i name cluster =
    set_cluster (write_byte (set_name b i name) (32 * i + 11) 0x10) i cluster

-- The first sector of a new directory: the entries `.` and `..`.
unfoldable pub dir_sector : (new_cluster parent : ℕ) → Bytes
unfolding dot_entry
dir_sector new_cluster parent =
    dot_entry (dot_entry (λ i. 0) 0 (b'.' ∷ replicate 10 b' ') new_cluster) 1
      (b'.' ∷ b'.' ∷ replicate 9 b' ') parent

-- The entry of the new directory is on the disk: the cluster is taken and filled.
unfoldable pub make_cluster : Volume → (new_cluster : ℕ) → ℤ × Volume
make_cluster v new_cluster =
    let ended = fat_write_entry v new_cluster 0x0FFFFFFF in
    let filled =
      store ended.1 (cluster_to_sector v new_cluster) (dir_sector new_cluster v.current_dir_cluster)
        (pos 0) err_io in
    elim ended.0 [ false ↦ (err_io, ended.1) | true ↦ filled ]

unfoldable pub mkdir_slot :
    Volume → List ℕ → (new_cluster sector : ℕ) → Bytes → ℕ → Unit {0} → Flow (Unit {0}) (ℤ × Volume)
mkdir_slot v name83 new_cluster sector b i st =
    let linked = ata_write_sector v sector (set_cluster b i new_cluster) in
    if is_deleted b i || is_long b i
    then go st
    else if same_name (entry_name b i) name83 && is_directory (entry_attr b i)
    then back
        (elim linked.0 [ false ↦ (err_io, linked.1) | true ↦ make_cluster linked.1 new_cluster ])
    else go st

-- The second half of `fat32_mkdir`, once the entry has been created.
unfoldable pub link_dir :
    Volume → (hops : ℕ) → (name : List ℕ) → (new_cluster : ℕ) → Option (ℤ × Volume)
link_dir v hops name new_cluster =
    finish (λ st. (negsuc 0, v))
      (each_cluster v
        (λ sector b. each_entry (mkdir_slot v (name_to_83 name) new_cluster sector b) 0 16)
        (λ st. back (err_io, v)) hops v.current_dir_cluster tt)

unfoldable pub create_dir :
    Volume → (hops : ℕ) → (name : List ℕ) → (new_cluster : ℕ) → Option (ℤ × Volume)
create_dir v hops name new_cluster = elim (create_entry_at v hops v.current_dir_cluster name 0x10) [
  | none ↦ none
  | some (negsuc e, v') ↦ some (negsuc e, v')
  | some (pos zero, v') ↦ link_dir v' hops name new_cluster
  | some (pos (suc n), v') ↦ some (pos (suc n), v')
]

unfoldable pub fat32_mkdir : Volume → (hops : ℕ) → (name : List ℕ) → Option (ℤ × Volume)
fat32_mkdir v hops name =
    if fat_find_free v == 0
    then some (err_nospace, v)
    else elim (find_entry v hops v.current_dir_cluster name) [
      | none ↦ none
      | some (some e) ↦ some (err_exists, v)
      | some none ↦ create_dir v hops name (fat_find_free v)
    ]

unfoldable pub rename_slot :
    Volume
    → (old83 new83 : List ℕ) → (sector : ℕ) → Bytes
    → ℕ
    → Unit {0}
    → Flow (Unit {0}) (ℤ × Volume)
rename_slot v old83 new83 sector b i st =
    if is_end b i || is_deleted b i || is_long b i
    then go st
    else if same_name (entry_name b i) old83
    then back (store v sector (set_name b i new83) (pos 0) err_io)
    else go st

unfoldable pub fat32_rename : Volume → (hops : ℕ) → (oldname newname : List ℕ) → Option (ℤ × Volume)
fat32_rename v hops oldname newname =
    finish (λ st. (err_notfound, v))
      (each_cluster v
        (λ sector b.
          each_entry (rename_slot v (name_to_83 oldname) (name_to_83 newname) sector b) 0 16)
        (λ st. back (err_io, v)) hops v.current_dir_cluster tt)

-- The entries from `i` on, `n` of them, are free.
unfoldable pub all_free : Bytes → (i n : ℕ) → Bool
all_free b i zero = true
all_free b i (suc n) = (is_end b i || is_deleted b i) && all_free b (i + 1) n

-- `do { .. } while (cl >= 2 && cl < 0x0FFFFFF8)`: every cluster of the chain becomes free.
unfoldable pub free_chain : Volume → (rounds cl : ℕ) → Option Volume
free_chain v zero cl = none
free_chain v (suc rounds) cl =
    let next = fat_read_entry v cl in
    let freed = (fat_write_entry v cl 0).1 in
    let rest = free_chain freed rounds next in if in_chain next then rest else some freed

-- The directory of the entry is empty, as far as its first sector shows, or cannot be read.
unfoldable pub looks_empty : Volume → ℕ → Bool
unfolding all_free
looks_empty v cl = elim (ata_read_sector v (cluster_to_sector v cl)) [
  | none ↦ true
  | some db ↦ all_free db 2 14
]

-- An entry of the directory to remove.
unfoldable pub remove_entry : Volume → (rounds sector : ℕ) → Bytes → ℕ → Option (ℤ × Volume)
remove_entry v rounds sector b i =
    let cl = first_cluster_of (entry_at b i) in
    let deleted = write_byte b (32 * i) 0xE5 in
    if cl == 0
    then some (store v sector deleted (pos 0) err_io)
    else if not (looks_empty v cl)
    then some (err_notempty, v)
    else elim (free_chain v rounds cl) [
      | none ↦ none
      | some v' ↦ some (store v' sector deleted (pos 0) err_io)
    ]

unfoldable pub rmdir_slot :
    Volume
    → (rounds : ℕ) → List ℕ
    → (sector : ℕ) → Bytes
    → ℕ
    → Unit {0}
    → Flow (Unit {0}) (Option (ℤ × Volume))
rmdir_slot v rounds name83 sector b i st =
    if is_end b i || is_deleted b i || is_long b i
    then go st
    else if same_name (entry_name b i) name83
    then back (
        if is_directory (entry_attr b i)
        then remove_entry v rounds sector b i
        else some (err_notdir, v))
    else go st

abbrev join : Option (Option (ℤ × Volume)) → Option (ℤ × Volume)
join none = none
join (some r) = r

unfoldable pub fat32_rmdir : Volume → (hops rounds : ℕ) → (name : List ℕ) → Option (ℤ × Volume)
fat32_rmdir v hops rounds name = join (
    finish (λ st. some (err_notfound, v))
      (each_cluster v (λ sector b. each_entry (rmdir_slot v rounds (name_to_83 name) sector b) 0 16)
        (λ st. back (some (err_io, v))) hops v.current_dir_cluster tt))
