-- ===== src/Fat/Layout.antt =====
-- How a volume of fs/fat32.c is laid out: the table before the clusters, all within the numbers of
-- the drive.
use ovsb_mk.Base.{
  ℕ, List, [], ◌∷◌, Bool, false, ◌||◌, ◌==◌, ltb, Bool-cases, ◌+◌, ◌-◌, ◌*◌, ◌/◌, ◌%◌, ◌^◌, ◌≤◌,
  ◌<◌, ◌≡◌, ◌≢◌, ◌⊎◌, inl, inr, refl, arith, ap,
}
use ovsb_mk.Memory.Words.{mul_le}
use ovsb_mk.Fat.Types.{Volume, Bytes, lba28, cluster_to_sector}
use ovsb_mk.Fat.Disk.{written, on}
use ovsb_mk.Fat.Table.Entries.{fat_read_entry-written, fat_read_entry_good, fat_read_entry_bad}
use ovsb_mk.Fat.Table.{fat_read_entry, fat_sector, cluster_end}

pub record Geometry (v : Volume) : Type 0 where
  pub table : v.fat_start_sector + cluster_end v / 128 < v.first_data_sector
  pub clusters : v.first_data_sector + (cluster_end v - 2) * v.sectors_per_cluster ≤ 2 ^ 28
  pub ends : cluster_end v ≤ 0x0FFFFFF8

abbrev pub member : ℕ → List ℕ → Bool
member x [] = false
member x (y ∷ ys) = (x == y) || member x ys

-- A cluster of the volume.
abbrev pub InVolume : Volume → ℕ → Type 0
InVolume v c = (2 ≤ c) × (c < cluster_end v)

-- Where a cluster begins, and that it ends within the drive.
pub cluster_place :
    (v : Volume) (c : ℕ)
    → Geometry v
    → InVolume v c
    → (cluster_to_sector v c ≡ v.first_data_sector + (c - 2) * v.sectors_per_cluster)
      × (cluster_to_sector v c + v.sectors_per_cluster ≤ 2 ^ 28)
unfolding cluster_to_sector
cluster_place v c g (lo, hi) =
    let room = mul_le v.sectors_per_cluster (c - 2 + 1) (cluster_end v - 2) (omega arith) in
    let row : (c - 2 + 1) * v.sectors_per_cluster
        ≡ (c - 2) * v.sectors_per_cluster + v.sectors_per_cluster =
      grind arith in
    let small : (c + 2 ^ 32 - 2) % 2 ^ 32 ≡ c - 2 = omega (arith, g.ends) in
    let first : (v.first_data_sector + (c + 2 ^ 32 - 2) % 2 ^ 32 * v.sectors_per_cluster) % 2 ^ 32
        ≡ v.first_data_sector + (c - 2) * v.sectors_per_cluster =
      rw small (omega (arith, room, row, g.clusters)) in
    (first, omega (arith, first, room, row, g.clusters))

-- A sector of a cluster.
pub cluster_sector :
    (v : Volume) (c s : ℕ)
    → Geometry v
    → InVolume v c
    → s < v.sectors_per_cluster
    → (cluster_to_sector v c + s ≡ v.first_data_sector + (c - 2) * v.sectors_per_cluster + s)
      × (cluster_to_sector v c + s < 2 ^ 28)
cluster_sector v c s g c_in ls =
    let (first, last) = cluster_place v c g c_in in (ap (λ x. x + s) first, omega arith)

-- A sector of the table.
pub table_sector :
    (v : Volume) (c : ℕ)
    → Geometry v
    → c < cluster_end v
    → (lba28 (fat_sector v c) ≡ v.fat_start_sector + c / 128)
      × (v.fat_start_sector + c / 128 < v.first_data_sector)
table_sector v c g lt = (omega (arith, g.table, g.clusters, g.ends), omega (arith, g.table))

-- A write to a sector of a cluster leaves the table as it was.
pub fat_read_entry-cluster :
    (v : Volume) (c d s : ℕ) (b : Bytes)
    → Geometry v
    → c < cluster_end v
    → InVolume v d
    → s < v.sectors_per_cluster
    → fat_read_entry (written v (cluster_to_sector v d + s) b) c ≡ fat_read_entry v c
fat_read_entry-cluster v c d s b g lc d_in ls =
    let (at, small) = cluster_sector v d s g d_in ls in
    let (table, before) = table_sector v c g lc in
    fat_read_entry-written v c (cluster_to_sector v d + s) b (omega arith)

-- Where a cluster begins.
abbrev pub place : Volume → ℕ → ℕ
place v c = v.first_data_sector + (c - 2) * v.sectors_per_cluster

-- Clusters do not overlap.
pub clusters_apart :
    (v : Volume) (c d s : ℕ)
    → 2 ≤ c
    → 2 ≤ d
    → c ≢ d
    → place v c ≤ s
    → s < place v c + v.sectors_per_cluster
    → (s < place v d) ⊎ (place v d + v.sectors_per_cluster ≤ s)
clusters_apart v c d s lc ld ne lo hi = elim (Bool-cases (ltb c d)) [
  | inl before ↦
      let row : (c - 2 + 1) * v.sectors_per_cluster
          ≡ (c - 2) * v.sectors_per_cluster + v.sectors_per_cluster =
        grind arith in
      let room = mul_le v.sectors_per_cluster (c - 2 + 1) (d - 2) (ground (arith, before)) in
      inl (omega arith)
  | inr after ↦
      let row : (d - 2 + 1) * v.sectors_per_cluster
          ≡ (d - 2) * v.sectors_per_cluster + v.sectors_per_cluster =
        grind arith in
      let room = mul_le v.sectors_per_cluster (d - 2 + 1) (c - 2) (ground (arith, after, ne)) in
      inr (omega arith)
]

-- The table is before the clusters: an entry depends on the sectors before them.
pub fat_read_entry-on :
    (v : Volume) (f : ℕ → Bytes) (c : ℕ)
    → Geometry v
    → c < cluster_end v
    → ((s : ℕ) → s < v.first_data_sector → f s ≡ v.sectors s)
    → fat_read_entry (on v f) c ≡ fat_read_entry v c
fat_read_entry-on v f c g lt same =
    let (table, before) = table_sector v c g lt in
    let here = same (lba28 (fat_sector v c)) (omega arith) in
    elim (Bool-cases (v.readable (lba28 (fat_sector v c)))) [
      | inl r ↦ rw (fat_read_entry_good (on v f) c r, fat_read_entry_good v c r, here) refl
      | inr r ↦ rw (fat_read_entry_bad (on v f) c r, fat_read_entry_bad v c r) refl
    ]
