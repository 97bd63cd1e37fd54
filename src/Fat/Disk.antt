-- ===== src/Fat/Disk.antt =====
-- The two calls of drivers/ata.c, by whether the drive answers.
use ovsb_mk.Base.{
  ℕ, ◌≡◌, ◌⊎◌, inl, inr, refl, true, false, none, some, ◌==◌, if◌then◌else◌, Bool-cases,
}
use ovsb_mk.Fat.Types.{Volume, Bytes, ata_read_sector, ata_write_sector, lba28}

-- The disk with another content of a sector.
abbrev pub written : Volume → (lba : ℕ) → Bytes → Volume
written v lba b = record v { sectors = λ s. if s == lba28 lba then b else v.sectors s }

-- The disk with other contents.
abbrev pub on : Volume → (ℕ → Bytes) → Volume
on v f = record v { sectors = f }

pub ata_read_sector_good :
    (v : Volume) (lba : ℕ)
    → v.readable (lba28 lba) ≡ true
    → ata_read_sector v lba ≡ some (v.sectors (lba28 lba))
unfolding ata_read_sector
ata_read_sector_good v lba e = rw e refl

pub ata_read_sector_bad :
    (v : Volume) (lba : ℕ) → v.readable (lba28 lba) ≡ false → ata_read_sector v lba ≡ none
unfolding ata_read_sector
ata_read_sector_bad v lba e = rw e refl

pub ata_write_sector_good :
    (v : Volume) (lba : ℕ) (b : Bytes)
    → v.writable (lba28 lba) ≡ true
    → ata_write_sector v lba b ≡ (true, written v lba b)
unfolding ata_write_sector
ata_write_sector_good v lba b e = rw e refl

pub ata_write_sector_bad :
    (v : Volume) (lba : ℕ) (b : Bytes)
    → v.writable (lba28 lba) ≡ false
    → ata_write_sector v lba b ≡ (false, v)
unfolding ata_write_sector
ata_write_sector_bad v lba b e = rw e refl

-- The two outcomes.
pub ata_read_sector-cases :
    (v : Volume) (lba : ℕ)
    → ((v.readable (lba28 lba) ≡ true) × (ata_read_sector v lba ≡ some (v.sectors (lba28 lba))))
      ⊎ ((v.readable (lba28 lba) ≡ false) × (ata_read_sector v lba ≡ none))
ata_read_sector-cases v lba = elim (Bool-cases (v.readable (lba28 lba))) [
  | inl e ↦ inl (e, ata_read_sector_good v lba e)
  | inr e ↦ inr (e, ata_read_sector_bad v lba e)
]

pub ata_write_sector-cases :
    (v : Volume) (lba : ℕ) (b : Bytes)
    → ((v.writable (lba28 lba) ≡ true) × (ata_write_sector v lba b ≡ (true, written v lba b)))
      ⊎ ((v.writable (lba28 lba) ≡ false) × (ata_write_sector v lba b ≡ (false, v)))
ata_write_sector-cases v lba b = elim (Bool-cases (v.writable (lba28 lba))) [
  | inl e ↦ inl (e, ata_write_sector_good v lba b e)
  | inr e ↦ inr (e, ata_write_sector_bad v lba b e)
]
