-- ===== src/Fat/Chain.antt =====
-- `read_chain` and `write_chain` of fs/fat32.c: the contents of a file along its clusters.
pub mod Read
pub mod Write
pub mod RoundTrip
use ovsb_mk.Base.{
  ℕ, zero, suc, ◌+◌, ◌-◌, ◌*◌, ◌/◌, ◌%◌, ◌^◌, List, [], ◌∷◌, ◌++◌, Bool, true, false, ◌&&◌, ◌||◌,
  not, Option, none, some, ◌==◌, ltb, leb, if◌then◌else◌, length, take, drop,
}
use ovsb_mk.Fat.Types.{
  Volume, Bytes, ata_read_sector, ata_write_sector, bytes_from, put_bytes, cluster_to_sector,
  in_chain, u32,
}
use ovsb_mk.Fat.Table.{fat_read_entry, link_free}

abbrev pub cluster_bytes : Volume → ℕ
cluster_bytes v = v.sectors_per_cluster * 512

-- `n` whole sectors; `none` if one of them cannot be read.
unfoldable pub read_sectors : Volume → (sector n : ℕ) → Option (List ℕ)
read_sectors v sector zero = some []
read_sectors v sector (suc n) = elim (ata_read_sector v sector) [
  | none ↦ none
  | some b ↦ elim (read_sectors v (sector + 1) n) [
    | none ↦ none
    | some rest ↦ some (bytes_from b 0 512 ++ rest)
  ]
]

-- The body of the loop in `read_chain`: `to_read` bytes of a cluster.
unfoldable pub read_cluster : Volume → (sector to_read : ℕ) → Option (List ℕ)
read_cluster v sector to_read = elim (read_sectors v sector (to_read / 512)) [
  | none ↦ none
  | some whole ↦
      if to_read % 512 == 0 then some whole else elim (ata_read_sector v (sector + to_read / 512)) [
        | none ↦ none
        | some tmp ↦ some (whole ++ bytes_from tmp 0 (to_read % 512))
      ]
]

-- The result of a read: -1, or the bytes in the buffer, whose number is the result.
pub data Reading : Type 0 where
  failed : Reading
  got : List ℕ → Reading

-- The bytes that were read before the others.
abbrev pub behind : List ℕ → Reading → Reading
behind xs failed = failed
behind xs (got ys) = got (xs ++ ys)

abbrev pub min32 : ℕ → ℕ → ℕ
min32 a b = if ltb a b then a else b

-- The loop with `left = size - offset` bytes to go and at most `rounds` rounds; `none` if they do
-- not reach.
unfoldable pub read_chain : Volume → (rounds cluster left : ℕ) → Option Reading
read_chain v zero cluster left = none
read_chain v (suc rounds) cluster left =
    let to_read = min32 left (cluster_bytes v) in
    let rest = read_chain v rounds (fat_read_entry v cluster) (left - to_read) in
    if in_chain cluster && ltb 0 left
    then elim (read_cluster v (cluster_to_sector v cluster) to_read) [
      | none ↦ some failed
      | some xs ↦ elim rest [ none ↦ none | some r ↦ some (behind xs r) ]
    ]
    else some (got [])

-- The whole sectors of the bytes; `false` if one cannot be written.
unfoldable pub write_sectors : Volume → (sector n : ℕ) → List ℕ → Bool × Volume
write_sectors v sector zero xs = (true, v)
write_sectors v sector (suc n) xs =
    let (done, v') = ata_write_sector v sector (put_bytes (λ i. 0) 0 (take 512 xs)) in
    let rest = write_sectors v' (sector + 1) n (drop 512 xs) in if done then rest else (false, v')

-- The bytes of a cluster: the last sector keeps what stands behind them.
unfoldable pub write_cluster : Volume → (sector : ℕ) → List ℕ → Bool × Volume
write_cluster v sector xs =
    let n = length xs / 512 in
    let (done, v') = write_sectors v sector n xs in
    if not done
    then (false, v')
    else if length xs % 512 == 0
    then (true, v')
    else elim (ata_read_sector v' (sector + n)) [
      | none ↦ (false, v')
      | some tmp ↦ ata_write_sector v' (sector + n) (put_bytes tmp 0 (drop (n * 512) xs))
    ]

-- The next cluster of the chain, which grows where it ends; 0 is -1.
unfoldable pub next_cluster : Volume → ℕ → ℕ × Volume
next_cluster v cluster =
    let next = fat_read_entry v cluster in
    if next == 0 || leb 0x0FFFFFF8 next then link_free v cluster else (next, v)

-- The loop with at most `rounds` rounds: `some (true, v)` if all the bytes are written, `some
-- (false, v)` for -1.
unfoldable pub write_chain : Volume → (rounds cluster : ℕ) → List ℕ → Option (Bool × Volume)
write_chain v rounds cluster [] = some (true, v)
write_chain v zero cluster (x ∷ xs) = none
write_chain v (suc rounds) cluster (x ∷ xs) =
    let now = take (cluster_bytes v) (x ∷ xs) in
    let later = drop (cluster_bytes v) (x ∷ xs) in
    let written = write_cluster v (cluster_to_sector v cluster) now in
    let next = next_cluster written.1 cluster in
    let rest = write_chain next.1 rounds next.0 later in
    elim written.0 [
      | false ↦ some (false, written.1)
      | true ↦ elim later [
        | [] ↦ some (true, written.1)
        | y ∷ ys ↦ if next.0 == 0 then some (false, next.1) else rest
      ]
    ]
