-- ===== src/Fat/Types.antt =====
-- The state of fs/fat32.c: its static variables, and the disk behind drivers/ata.c.
-- A sector is a function from the offset of a byte to the byte. A drive that times out is given by
-- the sectors that cannot be read or written.
use ovsb_mk.Base.{
  ℕ, zero, suc, ◌+◌, ◌-◌, ◌*◌, ◌/◌, ◌%◌, ◌^◌, List, [], ◌∷◌, Bool, Option, none, some, ◌==◌, ltb,
  leb, ◌&&◌, if◌then◌else◌, ℤ, negsuc,
}

abbrev pub Bytes : Type 0
Bytes = ℕ → ℕ

pub record Volume : Type 0 where
  pub sectors : ℕ → Bytes
  pub readable : ℕ → Bool
  pub writable : ℕ → Bool
  -- `boot.total_sectors_32` and `boot.root_cluster`.
  pub total_sectors : ℕ
  pub root_cluster : ℕ
  pub first_data_sector : ℕ
  pub sectors_per_cluster : ℕ
  pub current_dir_cluster : ℕ
  pub fat_start_sector : ℕ

-- The sector that the drive gets: 28 bits of the number.
abbrev pub lba28 : ℕ → ℕ
lba28 lba = lba % 2 ^ 28

-- -1 is `none`.
unfoldable pub ata_read_sector : Volume → ℕ → Option Bytes
ata_read_sector v lba = if v.readable (lba28 lba) then some (v.sectors (lba28 lba)) else none

-- 0 is `true`; a write that fails leaves the disk as it was.
unfoldable pub ata_write_sector : Volume → ℕ → Bytes → Bool × Volume
ata_write_sector v lba b =
    if v.writable (lba28 lba)
    then (Bool.true, record v { sectors = λ s. if s == lba28 lba then b else v.sectors s })
    else (Bool.false, v)

-- FAT_ERR_NOTFOUND and the others; -1 is also what the plain failures return.
abbrev pub err_notfound : ℤ
err_notfound = negsuc 0

abbrev pub err_exists : ℤ
err_exists = negsuc 1

abbrev pub err_io : ℤ
err_io = negsuc 2

abbrev pub err_nospace : ℤ
err_nospace = negsuc 3

abbrev pub err_notdir : ℤ
err_notdir = negsuc 4

abbrev pub err_notempty : ℤ
err_notempty = negsuc 5

-- Little-endian words at an offset.
abbrev pub read16 : Bytes → ℕ → ℕ
read16 b i = b i + 256 * b (i + 1)

abbrev pub read32 : Bytes → ℕ → ℕ
read32 b i = b i + 256 * b (i + 1) + 65536 * b (i + 2) + 16777216 * b (i + 3)

abbrev pub write_byte : Bytes → (i x : ℕ) → Bytes
write_byte b i x j = if j == i then x else b j

abbrev pub write16 : Bytes → (i x : ℕ) → Bytes
write16 b i x = write_byte (write_byte b i (x % 256)) (i + 1) (x / 256 % 256)

abbrev pub write32 : Bytes → (i x : ℕ) → Bytes
write32 b i x = write16 (write16 b i x) (i + 2) (x / 65536)

-- `n` bytes from the offset `i` on.
abbrev pub bytes_from : Bytes → (i n : ℕ) → List ℕ
bytes_from b i zero = []
bytes_from b i (suc n) = b i ∷ bytes_from b (i + 1) n

-- The bytes of a list over those from the offset `i` on.
abbrev pub put_bytes : Bytes → ℕ → List ℕ → Bytes
put_bytes b i [] = b
put_bytes b i (x ∷ xs) = put_bytes (write_byte b i x) (i + 1) xs

-- `uint32_t` arithmetic.
abbrev pub u32 : ℕ → ℕ
u32 n = n % 2 ^ 32

abbrev pub sub32 : ℕ → ℕ → ℕ
sub32 a b = (a + 2 ^ 32 - b) % 2 ^ 32

unfoldable pub cluster_to_sector : Volume → ℕ → ℕ
cluster_to_sector v cluster = u32 (v.first_data_sector + sub32 cluster 2 * v.sectors_per_cluster)

-- `cluster >= 2 && cluster < 0x0FFFFFF8`
abbrev pub in_chain : ℕ → Bool
in_chain cluster = leb 2 cluster && ltb cluster 0x0FFFFFF8
