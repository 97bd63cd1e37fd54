-- ===== src/Fat/Chain/Read.antt =====
-- `read_chain` of fs/fat32.c, cluster by cluster: the sectors that a read depends on.
use ovsb_mk.Base.{
  ℕ, zero, suc, ◌+◌, ◌-◌, ◌*◌, ◌/◌, ◌%◌, ◌^◌, ◌≤◌, ◌<◌, ◌≡◌, inl, inr, refl, List, [], true, some,
  arith, ◌==◌, ltb, Bool-cases, Option-cases,
}
use ovsb_mk.Fat.Types.{Volume, Bytes, ata_read_sector, lba28, in_chain, cluster_to_sector}
use ovsb_mk.Fat.Disk.{on}
use ovsb_mk.Fat.Table.{fat_read_entry}
use ovsb_mk.Fat.Chain.{
  cluster_bytes, read_sectors, read_cluster, read_chain, Reading, got, behind, min32,
}

-- The contents agree on the sectors from `lo` up to `hi`.
abbrev pub Agree : (f g : ℕ → Bytes) → (lo hi : ℕ) → Type 0
Agree f g lo hi = (s : ℕ) → lo ≤ s → s < hi → f s ≡ g s

pub ata_read_sector-same :
    (v : Volume) (f : ℕ → Bytes) (sector : ℕ)
    → sector < 2 ^ 28
    → f sector ≡ v.sectors sector
    → ata_read_sector (on v f) sector ≡ ata_read_sector v sector
unfolding ata_read_sector
ata_read_sector-same v f sector small same =
    let place : lba28 sector ≡ sector = omega arith in rw (place, same) refl

pub read_sectors-same :
    (v : Volume) (f : ℕ → Bytes) (sector n : ℕ)
    → sector + n ≤ 2 ^ 28
    → Agree f v.sectors sector (sector + n)
    → read_sectors (on v f) sector n ≡ read_sectors v sector n
unfolding read_sectors
read_sectors-same v f sector zero small same = refl
read_sectors-same v f sector (suc n) small same =
    let first =
      ata_read_sector-same v f sector (omega arith) (same sector (omega arith) (omega arith)) in
    let rest =
      read_sectors-same v f (sector + 1) n (omega arith)
        (λ s lo hi. same s (omega arith) (omega arith)) in
    elim (Option-cases (ata_read_sector v sector)) [
      | inl e ↦ rw (read_sectors, first, e) refl
      | inr (b, e) ↦ rw (read_sectors, first, e, rest) refl
    ]

-- A read from a cluster of `k` sectors depends on them alone.
pub read_cluster-same :
    (v : Volume) (f : ℕ → Bytes) (sector k to_read : ℕ)
    → sector + k ≤ 2 ^ 28
    → to_read ≤ 512 * k
    → Agree f v.sectors sector (sector + k)
    → read_cluster (on v f) sector to_read ≡ read_cluster v sector to_read
unfolding read_cluster
read_cluster-same v f sector k to_read small fits same =
    let whole =
      read_sectors-same v f sector (to_read / 512) (omega arith)
        (λ s lo hi. same s lo (omega arith)) in
    elim (Option-cases (read_sectors v sector (to_read / 512))) [
      | inl e ↦ rw (read_cluster, whole, e) refl
      | inr (xs, e) ↦ elim (Bool-cases (to_read % 512 == 0)) [
        | inl even ↦ rw (read_cluster, whole, e, even) refl
        | inr odd ↦
            let last =
              ata_read_sector-same v f (sector + to_read / 512) (ground arith)
                (same _ (omega arith) (ground arith)) in
            rw (read_cluster, whole, e, odd, last) refl
      ]
    ]

-- Nothing is left to read.
pub read_chain_done :
    (v : Volume) (rounds c left : ℕ) → left ≡ 0 → read_chain v (suc rounds) c left ≡ some (got [])
unfolding read_chain
read_chain_done v rounds c left none_left = elim (Bool-cases (in_chain c)) [
  | inl e ↦ rw (none_left, e) refl
  | inr e ↦ rw (none_left, e) refl
]

-- One round.
pub read_chain_round :
    (v : Volume) (rounds c left amount : ℕ) (xs : List ℕ) (r : Reading)
    → in_chain c ≡ true
    → 0 < left
    → min32 left (cluster_bytes v) ≡ amount
    → read_cluster v (cluster_to_sector v c) amount ≡ some xs
    → read_chain v rounds (fat_read_entry v c) (left - amount) ≡ some r
    → read_chain v (suc rounds) c left ≡ some (behind xs r)
unfolding read_chain
read_chain_round v rounds c left amount xs r inside more e cluster rest =
    let some_left : ltb 0 left ≡ true = ground arith in
    rw (inside, some_left, e, cluster, e, rest) refl
