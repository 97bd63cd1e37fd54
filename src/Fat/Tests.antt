-- ===== src/Fat/Tests.antt =====
-- fs/fat32.c on a small volume: six clusters of one sector, the root directory in cluster 2 and the
-- chain 3, 4.
use ovsb_mk.Base.{
  ℕ, ◌/◌, ◌%◌, ◌^◌, ◌<◌, ◌≡◌, ◌≢◌, refl, List, [], ◌∷◌, ◌++◌, true, false, ◌||◌, some, arith, ◌==◌,
  if◌then◌else◌, length, replicate, length-replicate,
}
use ovsb_mk.Fat.Types.{
  Volume, Bytes, err_notfound, ata_read_sector, ata_write_sector, cluster_to_sector, in_chain,
}
use ovsb_mk.Fat.Disk.{written}
use ovsb_mk.Fat.Name.{name_to_83}
use ovsb_mk.Fat.Name.Fields.{field, name_to_83-fields}
use ovsb_mk.Fat.Table.{
  fat_read_entry, fat_write_entry, find_free, fat_find_free, cluster_end, link_free,
}
use ovsb_mk.Fat.Table.Entries.{IsTable, Answers}
use ovsb_mk.Fat.Table.Grow.{Linked, link_free-Linked}
use ovsb_mk.Fat.Layout.{Geometry, member}
use ovsb_mk.Fat.Chain.RoundTrip.{Run, Stored, read_chain-write_chain}
use ovsb_mk.Fat.Walk.{each_entry, each_sector, each_cluster}
use ovsb_mk.Fat.Entry.{set_name, set_size, set_cluster, first_cluster_of, entry_at, fill_entry}
use ovsb_mk.Fat.Dir.{find_slot, find_entry}
use ovsb_mk.Fat.Files.{fat32_set_cwd, enter, enter_name, fat32_change_dir}
use ovsb_mk.Fat.Files.Cwd.{Outcome, fat32_change_dir-Outcome}
use ovsb_mk.Fat.Path.{
  cwd_stack, parent_of, dotdot_cluster, name_in, name_slot, put_names, put_name, fat32_get_cwd_name,
}
use ovsb_mk.Fat.Path.Bounds.{fat32_get_cwd_name-lt}
use ovsb_mk.Fat.Tree.{free_chain}
use ovsb_mk.Fat.Tree.Remove.{IsChain, free_chain-frees}

-- The table: the clusters 2 and 4 end their chains, 3 goes on with 4, the others are free.
abbrev table_bytes : Bytes
table_bytes j =
    if (j / 4 == 2) || (j / 4 == 4)
    then (if j % 4 == 3 then 0x0F else 0xFF)
    else if j == 12
    then 4
    else 0

abbrev small : Volume
small = record {
  sectors = λ s. if s == 1 then table_bytes else (λ j. 0);
  readable = λ s. true;
  writable = λ s. true;
  total_sectors = 9;
  root_cluster = 2;
  first_data_sector = 3;
  sectors_per_cluster = 1;
  current_dir_cluster = 4;
  fat_start_sector = 1;
}

small-IsTable : IsTable small
small-IsTable = record { bytes = λ s j. ground arith; within = omega arith }

small-Answers : Answers small
small-Answers = record { reads = λ s. refl; writes = λ s. refl }

small-end : cluster_end small ≡ 8
small-end = refl

small-Geometry : Geometry small
small-Geometry = record { table = omega arith; clusters = omega arith; ends = omega arith }

small-entries :
    (fat_read_entry small 2 ≡ 0x0FFFFFFF)
    × (fat_read_entry small 3 ≡ 4)
    × (fat_read_entry small 4 ≡ 0x0FFFFFFF)
    × (fat_read_entry small 5 ≡ 0)
unfolding fat_read_entry ata_read_sector
small-entries = (refl, refl, refl, refl)

small-write : (fat_write_entry small 5 0x0FFFFFFF).0 ≡ true
unfolding fat_write_entry ata_read_sector ata_write_sector
small-write = refl

small-link : (link_free small 4).0 ≢ 0
unfolding link_free fat_find_free find_free fat_read_entry fat_write_entry ata_read_sector
    ata_write_sector
small-link = omega arith

link_free-Linked_example : Linked small (link_free small 4).1 4 (link_free small 4).0
link_free-Linked_example =
    link_free-Linked small 4 small-IsTable (omega arith) (omega arith) small-link

name_to_83-fields_example :
    (name_to_83 (b'a' ∷ []) ≡ field 8 (b'a' ∷ []) ++ field 3 [])
    × (name_to_83 (b'a' ∷ b'.' ∷ b'c' ∷ []) ≡ field 8 (b'a' ∷ []) ++ field 3 (b'c' ∷ []))
    × (name_to_83 (b'.' ∷ []) ≡ b'.' ∷ replicate 10 b' ')
    × (name_to_83 (b'.' ∷ b'.' ∷ []) ≡ b'.' ∷ b'.' ∷ replicate 9 b' ')
name_to_83-fields_example =
    name_to_83-fields (b'a' ∷ []) (b'c' ∷ []) (omega arith, tt) (λ e. ground (arith, e))
      (λ e. ground (arith, e))

small-Run : Run small 3 (4 ∷ [])
small-Run = ((omega arith, omega arith), small-entries.1, refl, (omega arith, omega arith))

read_chain-write_chain_example : Stored small 3 (4 ∷ []) (replicate 600 7)
read_chain-write_chain_example =
    read_chain-write_chain small 3 (4 ∷ []) (replicate 600 7) small-Geometry small-Answers small-Run
      (omega (arith, length-replicate {A = ℕ} 600 7))

small-chain_end : in_chain (fat_read_entry small (fat_read_entry small 3)) ≡ false
unfolding fat_read_entry ata_read_sector
small-chain_end = refl

abbrev file : List ℕ
file = b'a' ∷ []

abbrev after : Volume
after = written small 3 (fill_entry (λ j. 0) 0 (name_to_83 file) 0x20)

small-refused :
    fat32_change_dir small 1 (b'/' ∷ b'a' ∷ []) ≡ some (err_notfound, fat32_set_cwd small 2)
unfolding fat32_change_dir enter_name enter fat32_set_cwd find_entry each_cluster each_sector
    each_entry find_slot cluster_to_sector ata_read_sector
small-refused = refl

fat32_change_dir-Outcome_example :
    Outcome (fat32_set_cwd small 2) 1 (b'a' ∷ []) (err_notfound, fat32_set_cwd small 2)
fat32_change_dir-Outcome_example =
    fat32_change_dir-Outcome small 1 (b'/' ∷ b'a' ∷ []) (err_notfound, fat32_set_cwd small 2)
      small-refused

small-IsChain : IsChain small 3 (4 ∷ [])
unfolding fat_read_entry ata_read_sector
small-IsChain = (omega arith, small-entries.1, refl, refl, (omega arith, small-chain_end))

free_chain-frees_example :
    (v' : Volume) × (free_chain small 2 3 ≡ some v')
    × ((d : ℕ)
        → d < 2 ^ 28
        → fat_read_entry v' d ≡ (if member d (3 ∷ 4 ∷ []) then 0 else fat_read_entry small d))
free_chain-frees_example =
    free_chain-frees small 3 (4 ∷ []) small-IsTable small-Answers small-IsChain

-- The root has a directory "A" in cluster 4, which is the current one.
abbrev with_dir : Volume
with_dir = written small 3 (set_cluster (fill_entry (λ j. 0) 0 (b'A' ∷ replicate 10 b' ') 0x10) 0 4)

abbrev dir_path : List ℕ
dir_path = b'/' ∷ b'A' ∷ []

with_dir-path : fat32_get_cwd_name with_dir 2 2 64 ≡ some dir_path
unfolding fat32_get_cwd_name cwd_stack parent_of dotdot_cluster name_in name_slot put_names put_name
    entry_at first_cluster_of fill_entry set_name set_size set_cluster each_cluster each_sector
    each_entry cluster_to_sector ata_read_sector
with_dir-path = refl

fat32_get_cwd_name-lt_example : length dir_path < 64
fat32_get_cwd_name-lt_example =
    fat32_get_cwd_name-lt with_dir 2 2 64 dir_path (omega arith) with_dir-path
