-- ===== src/Fat/Table.antt =====
-- The file allocation table of fs/fat32.c: its entries, the search for a free cluster, and the
-- growth of a chain.
pub mod Entries
pub mod Free
pub mod Grow
use ovsb_mk.Base.{
  ℕ, zero, suc, ◌+◌, ◌-◌, ◌*◌, ◌/◌, ◌%◌, ◌^◌, Bool, true, false, Option, none, some, ◌==◌, leb,
  if◌then◌else◌,
}
use ovsb_mk.Fat.Types.{
  Volume, Bytes, ata_read_sector, ata_write_sector, read32, write32, u32, sub32,
}

abbrev pub fat_sector : Volume → ℕ → ℕ
fat_sector v cluster = u32 (v.fat_start_sector + u32 (cluster * 4) / 512)

abbrev pub ent_offset : ℕ → ℕ
ent_offset cluster = u32 (cluster * 4) % 512

-- A sector that cannot be read gives 0.
unfoldable pub fat_read_entry : Volume → ℕ → ℕ
fat_read_entry v cluster = elim (ata_read_sector v (fat_sector v cluster)) [
  | none ↦ 0
  | some sector ↦ read32 sector (ent_offset cluster) % 2 ^ 28
]

-- The upper 4 bits of the entry are kept. `true` is 0, `false` is -1.
unfoldable pub fat_write_entry : Volume → (cluster value : ℕ) → Bool × Volume
fat_write_entry v cluster value = elim (ata_read_sector v (fat_sector v cluster)) [
  | none ↦ (false, v)
  | some sector ↦
      (let old = read32 sector (ent_offset cluster) in
        ata_write_sector v (fat_sector v cluster)
          (write32 sector (ent_offset cluster) (old / 2 ^ 28 * 2 ^ 28 + value % 2 ^ 28)))
]

-- The loop of `fat_find_free` from the cluster `c`, with `n` clusters left to try.
unfoldable pub find_free : Volume → (c n : ℕ) → ℕ
find_free v c zero = 0
find_free v c (suc n) =
    let rest = find_free v (c + 1) n in if fat_read_entry v c == 0 then c else rest

-- `total_clusters + 2` wraps around as the code's bound does.
abbrev pub cluster_end : Volume → ℕ
cluster_end v = u32 (sub32 v.total_sectors v.first_data_sector / v.sectors_per_cluster + 2)

unfoldable pub fat_find_free : Volume → ℕ
fat_find_free v = find_free v 2 (cluster_end v - 2)

-- At most `hops` steps; `none` if the end is further.
unfoldable pub fat_chain_last : Volume → (hops start : ℕ) → Option ℕ
fat_chain_last v zero c = none
fat_chain_last v (suc hops) c =
    let next = fat_read_entry v c in
    let rest = fat_chain_last v hops next in
    if leb 0x0FFFFFF8 next then some c else if next == 0 then some c else rest

-- A free cluster is linked behind the cluster `prev`: 0 for the cluster is -1.
unfoldable pub link_free : Volume → ℕ → ℕ × Volume
link_free v prev =
    let free = fat_find_free v in
    let linked = fat_write_entry v prev free in
    let ended = fat_write_entry linked.1 free 0x0FFFFFFF in
    if free == 0 then (0, v) else elim linked.0 [
      | false ↦ (0, linked.1)
      | true ↦ elim ended.0 [ false ↦ (0, ended.1) | true ↦ (free, ended.1) ]
    ]

-- `true` is 0, `false` is -1.
unfoldable pub alloc_clusters : Volume → (start count : ℕ) → Bool × Volume
alloc_clusters v prev zero = (true, v)
alloc_clusters v prev (suc count) =
    let step = link_free v prev in
    let rest = alloc_clusters step.1 step.0 count in if step.0 == 0 then (false, step.1) else rest
