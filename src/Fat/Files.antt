-- ===== src/Fat/Files.antt =====
-- The calls of fs/fat32.c on files and on the current directory. `hops` is the number of clusters of
-- a directory that a call follows at most, `rounds` the number of clusters of a file.
pub mod Cwd
use ovsb_mk.Base.{
  ℕ, zero, suc, ◌+◌, ◌-◌, ◌*◌, ◌/◌, ◌%◌, ◌^◌, List, [], ◌∷◌, Bool, true, false, ◌&&◌, ◌||◌, not,
  Option, none, some, ◌==◌, ltb, leb, if◌then◌else◌, length, ℤ, pos, negsuc,
}
use ovsb_mk.Fat.Types.{
  Volume, Bytes, ata_read_sector, read16, read32, u32, err_notfound, err_notdir,
}
use ovsb_mk.Fat.Name.{name_to_83}
use ovsb_mk.Fat.Table.{fat_write_entry, fat_find_free}
use ovsb_mk.Fat.Chain.{Reading, failed, got, read_chain, write_chain, min32}
use ovsb_mk.Fat.Walk.{Flow, go, back, each_entry, each_cluster, finish}
use ovsb_mk.Fat.Entry.{
  DirEntry, entry_name, same_name, is_deleted, is_long, first_cluster_of, set_size, set_cluster,
}
use ovsb_mk.Fat.Dir.{
  Found, find_entry, list_dir_at, Console, create_entry_at, delete_entry_at, store, is_directory,
}

-- The boot sector is copied before its signature is tested.
unfoldable pub fat32_init : Volume → ℤ × Volume
fat32_init v = elim (ata_read_sector v 0) [
  | none ↦ (negsuc 0, v)
  | some b ↦
      (let booted = record v { total_sectors = read32 b 32; root_cluster = read32 b 44 } in
        if read16 b 510 == 0xAA55
        then (
          pos 0,
          record booted {
            sectors_per_cluster = b 13;
            first_data_sector = u32 (read16 b 14 + b 16 * read32 b 36);
            fat_start_sector = read16 b 14;
            current_dir_cluster = read32 b 44;
          },
        )
        else (negsuc 0, booted))
]

unfoldable pub fat32_create_file : Volume → (hops : ℕ) → List ℕ → Option (ℤ × Volume)
fat32_create_file v hops name = create_entry_at v hops v.current_dir_cluster name 0x20

unfoldable pub fat32_delete_file : Volume → (hops : ℕ) → List ℕ → Option (ℤ × Volume)
fat32_delete_file v hops name = delete_entry_at v hops v.current_dir_cluster name

-- The file behind an entry.
unfoldable pub read_found : Volume → (rounds size : ℕ) → Found → Option Reading
read_found v rounds size none = some failed
read_found v rounds size (some (entry, sector)) =
    let chain = read_chain v rounds (first_cluster_of entry) (min32 size entry.size) in
    if first_cluster_of entry == 0 then some (got []) else chain

unfoldable pub fat32_read_file :
    Volume → (hops rounds : ℕ) → (name : List ℕ) → (size : ℕ) → Option Reading
fat32_read_file v hops rounds name size = elim (find_entry v hops v.current_dir_cluster name) [
  | none ↦ none
  | some found ↦ read_found v rounds size found
]

-- The cluster to write to: a new one if the file has none. 0 is -1.
unfoldable pub start_cluster : Volume → DirEntry → ℕ × Volume
start_cluster v entry =
    let free = fat_find_free v in
    let ended = fat_write_entry v free 0x0FFFFFFF in
    if not (first_cluster_of entry == 0)
    then (first_cluster_of entry, v)
    else if free == 0
    then (0, v)
    else elim ended.0 [ false ↦ (0, ended.1) | true ↦ (free, ended.1) ]

-- The entry gets the size and the cluster. This search does not stop at the end mark.
unfoldable pub update_slot :
    Volume
    → List ℕ
    → (size cluster sector : ℕ) → Bytes
    → ℕ
    → Unit {0}
    → Flow (Unit {0}) (ℤ × Volume)
update_slot v name83 size cluster sector b i st =
    if is_deleted b i || is_long b i
    then go st
    else if same_name (entry_name b i) name83
    then back (store v sector (set_cluster (set_size b i size) i cluster) (pos size) (negsuc 0))
    else go st

unfoldable pub update_entry :
    Volume → (hops : ℕ) → (name : List ℕ) → (size cluster : ℕ) → Option (ℤ × Volume)
update_entry v hops name size cluster =
    finish (λ st. (pos size, v))
      (each_cluster v
        (λ sector b. each_entry (update_slot v (name_to_83 name) size cluster sector b) 0 16)
        (λ st. back (pos size, v)) hops v.current_dir_cluster tt)

-- The bytes go to the chain that begins at the cluster, then the entry is brought up to date.
unfoldable pub write_at :
    (hops rounds : ℕ) → (name contents : List ℕ) → ℕ × Volume → Option (ℤ × Volume)
write_at hops rounds name contents (cluster, v) =
    if cluster == 0 then some (negsuc 0, v) else elim (write_chain v rounds cluster contents) [
      | none ↦ none
      | some (false, v') ↦ some (negsuc 0, v')
      | some (true, v') ↦ update_entry v' hops name (length contents) cluster
    ]

-- The size is the number of bytes, which fits an `int`.
unfoldable pub fat32_write_file :
    Volume → (hops rounds : ℕ) → (name contents : List ℕ) → Option (ℤ × Volume)
fat32_write_file v hops rounds name contents = elim (find_entry v hops v.current_dir_cluster name) [
  | none ↦ none
  | some none ↦ some (negsuc 0, v)
  | some (some (entry, sector)) ↦ write_at hops rounds name contents (start_cluster v entry)
]

unfoldable pub fat32_list_dir : Volume → (hops : ℕ) → Option (ℤ × List Console)
fat32_list_dir v hops = list_dir_at v hops v.current_dir_cluster

unfoldable pub fat32_get_cwd : Volume → ℕ
fat32_get_cwd v = v.current_dir_cluster

unfoldable pub fat32_set_cwd : Volume → ℕ → Volume
fat32_set_cwd v cluster = record v { current_dir_cluster = cluster }

-- The end of `fat32_change_dir`: an entry of a directory becomes the current directory.
unfoldable pub enter : Volume → Found → ℤ × Volume
enter v none = (err_notfound, v)
enter v (some (entry, sector)) =
    let first = first_cluster_of entry in
    if is_directory entry.attr
    then (pos 0, fat32_set_cwd v (if first == 0 then v.root_cluster else first))
    else (err_notdir, v)

-- The search in the current directory.
unfoldable pub enter_name : Volume → (hops : ℕ) → List ℕ → Option (ℤ × Volume)
enter_name v hops name = elim (find_entry v hops v.current_dir_cluster name) [
  | none ↦ none
  | some found ↦ some (enter v found)
]

-- A name that begins with a slash is looked up from the root.
unfoldable pub fat32_change_dir : Volume → (hops : ℕ) → List ℕ → Option (ℤ × Volume)
fat32_change_dir v hops [] = some (pos 0, fat32_set_cwd v v.root_cluster)
fat32_change_dir v hops (c ∷ []) =
    if c == b'/' then some (pos 0, fat32_set_cwd v v.root_cluster) else enter_name v hops (c ∷ [])
fat32_change_dir v hops (c ∷ d ∷ ds) =
    if c == b'/'
    then enter_name (fat32_set_cwd v v.root_cluster) hops (d ∷ ds)
    else enter_name v hops (c ∷ d ∷ ds)

-- `*size`, `*attr`, `*mtime` and `*mdate`; `none` for FAT_ERR_NOTFOUND.
unfoldable pub fat32_stat : Volume → (hops : ℕ) → List ℕ → Option (Option (ℕ × ℕ × ℕ × ℕ))
fat32_stat v hops name = elim (find_entry v hops v.current_dir_cluster name) [
  | none ↦ none
  | some none ↦ some none
  | some (some (e, sector)) ↦ some (some (e.size, e.attr, e.modification_time, e.modification_date))
]

-- Nothing is kept back.
abbrev pub fat32_sync : Volume → Volume
fat32_sync v = v
