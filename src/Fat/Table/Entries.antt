-- ===== src/Fat/Table/Entries.antt =====
-- A FAT entry that is written, and every other one.
use ovsb_mk.Base.{
  ℕ, ◌+◌, ◌*◌, ◌/◌, ◌%◌, ◌^◌, ◌≤◌, ◌<◌, ◌≡◌, ◌≢◌, ◌⊎◌, ap, sym, inl, inr, refl, true, false, arith,
  ◌==◌, if◌then◌else◌, Bool-cases, ℕ_discrete,
}
use ovsb_mk.Fat.Types.{Volume, Bytes, lba28, read32, write32}
use ovsb_mk.Fat.Disk.{
  written, ata_read_sector_good, ata_read_sector_bad, ata_write_sector_good, ata_read_sector-cases,
  ata_write_sector-cases,
}
use ovsb_mk.Fat.Words.{IsBytes, read32-write32, read32-write32_away, read32-lt}
use ovsb_mk.Fat.Table.{fat_read_entry, fat_write_entry, fat_sector, ent_offset, cluster_end}

-- The sectors hold bytes, and the table lies within the 28 bits of a sector number.
pub record IsTable (v : Volume) : Type 0 where
  pub bytes : (s : ℕ) → IsBytes (v.sectors s)
  pub within : v.fat_start_sector + 2 ^ 23 ≤ 2 ^ 28

-- The place of an entry, for a cluster of 28 bits.
place :
    (v : Volume) (c : ℕ)
    → IsTable v
    → c < 2 ^ 28
    → (lba28 (fat_sector v c) ≡ v.fat_start_sector + c / 128) × (ent_offset c ≡ c % 128 * 4)
place v c t lt = (omega (arith, t.within), omega arith)

-- The word that `fat_write_entry` stores.
abbrev entry_word : (old value : ℕ) → ℕ
entry_word old value = old / 2 ^ 28 * 2 ^ 28 + value % 2 ^ 28

-- What is read where the sector is known.
pub fat_read_entry_good :
    (v : Volume) (c : ℕ)
    → v.readable (lba28 (fat_sector v c)) ≡ true
    → fat_read_entry v c ≡ read32 (v.sectors (lba28 (fat_sector v c))) (ent_offset c) % 2 ^ 28
unfolding fat_read_entry
fat_read_entry_good v c r = rw (ata_read_sector_good v (fat_sector v c) r, fat_read_entry)

pub fat_read_entry_bad :
    (v : Volume) (c : ℕ) → v.readable (lba28 (fat_sector v c)) ≡ false → fat_read_entry v c ≡ 0
unfolding fat_read_entry
fat_read_entry_bad v c r = rw (ata_read_sector_bad v (fat_sector v c) r, fat_read_entry)

-- The sector with the new entry.
abbrev entry_sector : Volume → (c value : ℕ) → Bytes
entry_sector v c value =
    let old = v.sectors (lba28 (fat_sector v c)) in
    write32 old (ent_offset c) (entry_word (read32 old (ent_offset c)) value)

-- A write that succeeds.
fat_write_entry_good :
    (v : Volume) (c value : ℕ)
    → (fat_write_entry v c value).0 ≡ true
    → (v.readable (lba28 (fat_sector v c)) ≡ true)
      × ((fat_write_entry v c value).1 ≡ written v (fat_sector v c) (entry_sector v c value))
unfolding fat_write_entry
fat_write_entry_good v c value e = elim (ata_read_sector-cases v (fat_sector v c)) [
  | inr (n, q) ↦ absurd (ground (arith, e, q))
  | inl (r, q) ↦ elim (ata_write_sector-cases v (fat_sector v c) (entry_sector v c value)) [
    | inr (n, p) ↦ absurd (ground (arith, e, q, p))
    | inl (w, p) ↦ (r, rw (q, fat_write_entry, p) refl)
  ]
]

-- A write that fails changes nothing.
pub fat_write_entry_bad :
    (v : Volume) (c value : ℕ)
    → (fat_write_entry v c value).0 ≡ false
    → (fat_write_entry v c value).1 ≡ v
unfolding fat_write_entry
fat_write_entry_bad v c value e = elim (ata_read_sector-cases v (fat_sector v c)) [
  | inr (n, q) ↦ rw (q, fat_write_entry) refl
  | inl (r, q) ↦ elim (ata_write_sector-cases v (fat_sector v c) (entry_sector v c value)) [
    | inr (n, p) ↦ rw (q, fat_write_entry, p) refl
    | inl (w, p) ↦ absurd (ground (arith, e, q, p))
  ]
]

-- The words of the sector with the new entry.
entry_sector_self :
    (v : Volume) (c value : ℕ)
    → IsTable v
    → read32 (entry_sector v c value) (ent_offset c) % 2 ^ 28 ≡ value % 2 ^ 28
entry_sector_self v c value t =
    let old = v.sectors (lba28 (fat_sector v c)) in
    let lt = read32-lt old (ent_offset c) (t.bytes (lba28 (fat_sector v c))) in
    let word = entry_word (read32 old (ent_offset c)) value in
    rw (read32-write32 old (ent_offset c) word (omega arith)) (omega arith)

entry_sector_away :
    (v : Volume) (c value j : ℕ)
    → (j + 3 < ent_offset c) ⊎ (ent_offset c + 3 < j)
    → read32 (entry_sector v c value) j ≡ read32 (v.sectors (lba28 (fat_sector v c))) j
entry_sector_away v c value j h =
    read32-write32_away (v.sectors (lba28 (fat_sector v c))) (ent_offset c) _ j h

-- The word of the entry of `d` after the write.
word_after :
    (v : Volume) (c value d : ℕ)
    → IsTable v
    → c < 2 ^ 28
    → d < 2 ^ 28
    → read32
          ((written v (fat_sector v c) (entry_sector v c value)).sectors (lba28 (fat_sector v d)))
          (ent_offset d)
        % 2 ^ 28
      ≡ (if c == d
          then value % 2 ^ 28
          else read32 (v.sectors (lba28 (fat_sector v d))) (ent_offset d) % 2 ^ 28)
word_after v c value d t lc ld =
    let (pc, oc) = place v c t lc in
    let (pd, od) = place v d t ld in
    elim (ℕ_discrete c d) [
      | yes e ↦
          let hit : (c == d) ≡ true = ground arith in
          let here : (lba28 (fat_sector v d) == lba28 (fat_sector v c)) ≡ true =
            ground (arith, pc, pd) in
          let off : ent_offset d ≡ ent_offset c = omega arith in
          rw (hit, here, off) (entry_sector_self v c value t)
      | no ne ↦
          let miss : (c == d) ≡ false = ground arith in
          elim (Bool-cases (lba28 (fat_sector v d) == lba28 (fat_sector v c))) [
            | inr other ↦ rw (miss, other) refl
            | inl same ↦
                let at_same : lba28 (fat_sector v d) ≡ lba28 (fat_sector v c) = ground arith in
                let apart : (ent_offset d + 3 < ent_offset c) ⊎ (ent_offset c + 3 < ent_offset d) =
                  ground (arith, pc, pd, oc, od, at_same) in
                let word = entry_sector_away v c value (ent_offset d) apart in
                let old = ap (λ s. read32 (v.sectors s) (ent_offset d)) at_same in
                rw (miss, same, word) (ap (λ x. x % 2 ^ 28) (sym old))
          ]
    ]

-- Where a write to the entry of the cluster `c` succeeds, it reads as the lower 28 bits of the
-- value, and every other entry as before. Clusters have 28 bits, and the table lies within the
-- numbers of the drive.
pub fat_read_entry-fat_write_entry :
    (v : Volume) (c value d : ℕ)
    → IsTable v
    → c < 2 ^ 28
    → d < 2 ^ 28
    → (fat_write_entry v c value).0 ≡ true
    → fat_read_entry (fat_write_entry v c value).1 d
      ≡ (if c == d then value % 2 ^ 28 else fat_read_entry v d)
fat_read_entry-fat_write_entry v c value d t lc ld e =
    let (r, q) = fat_write_entry_good v c value e in
    let w = written v (fat_sector v c) (entry_sector v c value) in
    rw q (elim (Bool-cases (v.readable (lba28 (fat_sector v d)))) [
      | inr bad ↦
          let differ : c ≢ d =
            λ same. ground (arith, r, bad, ap (λ x. v.readable (lba28 (fat_sector v x))) same) in
          rw (fat_read_entry_bad w d bad, fat_read_entry_bad v d bad) (ground arith)
      | inl good ↦
          rw (fat_read_entry_good w d good, fat_read_entry_good v d good)
            (word_after v c value d t lc ld)
    ])

entry_sector-IsBytes : (v : Volume) (c value : ℕ) → IsTable v → IsBytes (entry_sector v c value)
entry_sector-IsBytes v c value t j = ground (arith, t.bytes (lba28 (fat_sector v c)) j)

written-IsTable :
    (v : Volume) (lba : ℕ) (b : Bytes) → IsTable v → IsBytes b → IsTable (written v lba b)
written-IsTable v lba b t h = record {
  bytes = λ s j. ground (arith, t.bytes s j, h j);
  within = t.within;
}

-- A write to the table leaves a table, whether it succeeds or not.
pub fat_write_entry-IsTable :
    (v : Volume) (c value : ℕ) → IsTable v → IsTable (fat_write_entry v c value).1
fat_write_entry-IsTable v c value t = elim (Bool-cases (fat_write_entry v c value).0) [
  | inl e ↦ rw ((fat_write_entry_good v c value e).1) (
      written-IsTable v (fat_sector v c) (entry_sector v c value) t
        (entry_sector-IsBytes v c value t))
  | inr e ↦ rw (fat_write_entry_bad v c value e) t
]

-- Nothing of the volume but its sectors changes.
pub fat_write_entry-cluster_end :
    (v : Volume) (c value : ℕ) → cluster_end (fat_write_entry v c value).1 ≡ cluster_end v
fat_write_entry-cluster_end v c value = elim (Bool-cases (fat_write_entry v c value).0) [
  | inl e ↦ rw ((fat_write_entry_good v c value e).1) refl
  | inr e ↦ rw (fat_write_entry_bad v c value e) refl
]

-- A drive that answers every request.
pub record Answers (v : Volume) : Type 0 where
  pub reads : (s : ℕ) → v.readable s ≡ true
  pub writes : (s : ℕ) → v.writable s ≡ true

pub fat_write_entry-Answers :
    (v : Volume) (c value : ℕ)
    → Answers v
    → ((fat_write_entry v c value).0 ≡ true) × Answers (fat_write_entry v c value).1
unfolding fat_write_entry
fat_write_entry-Answers v c value a =
    rw
      (
        ata_read_sector_good v (fat_sector v c) (a.reads _),
        fat_write_entry,
        ata_write_sector_good v (fat_sector v c) (entry_sector v c value) (a.writes _),
      )
      (refl, record { reads = a.reads; writes = a.writes })

-- An entry does not change with a sector that is not its own.
pub fat_read_entry-written :
    (v : Volume) (c lba : ℕ) (b : Bytes)
    → lba28 (fat_sector v c) ≢ lba28 lba
    → fat_read_entry (written v lba b) c ≡ fat_read_entry v c
fat_read_entry-written v c lba b ne =
    let miss : (lba28 (fat_sector v c) == lba28 lba) ≡ false = ground arith in
    elim (Bool-cases (v.readable (lba28 (fat_sector v c)))) [
      | inl r ↦ rw (fat_read_entry_good (written v lba b) c r, fat_read_entry_good v c r, miss) refl
      | inr r ↦ rw (fat_read_entry_bad (written v lba b) c r, fat_read_entry_bad v c r) refl
    ]
