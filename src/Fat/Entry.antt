-- ===== src/Fat/Entry.antt =====
-- `fat32_dir_entry_t` of fs/fat32.h: the entry at an index of a sector, 32 bytes for each.
pub mod Fields
use ovsb_mk.Base.{
  ℕ, zero, suc, ◌+◌, ◌*◌, ◌/◌, ◌%◌, ◌^◌, List, [], ◌∷◌, Bool, true, false, ◌&&◌, ◌||◌, ◌==◌,
}
use ovsb_mk.Fat.Types.{Bytes, read16, read32, write_byte, write16, write32, bytes_from, put_bytes}

-- What `*out = entries[i]` copies, less the fields that nothing reads.
pub record DirEntry : Type 0 where
  pub name : List ℕ
  pub attr : ℕ
  pub modification_time : ℕ
  pub modification_date : ℕ
  pub first_cluster_high : ℕ
  pub first_cluster_low : ℕ
  pub size : ℕ

abbrev pub name_byte : Bytes → (i j : ℕ) → ℕ
name_byte b i j = b (32 * i + j)

abbrev pub entry_name : Bytes → ℕ → List ℕ
entry_name b i = bytes_from b (32 * i) 11

abbrev pub entry_attr : Bytes → ℕ → ℕ
entry_attr b i = b (32 * i + 11)

unfoldable pub entry_at : Bytes → ℕ → DirEntry
entry_at b i = record {
  name = entry_name b i;
  attr = entry_attr b i;
  modification_time = read16 b (32 * i + 22);
  modification_date = read16 b (32 * i + 24);
  first_cluster_high = read16 b (32 * i + 20);
  first_cluster_low = read16 b (32 * i + 26);
  size = read32 b (32 * i + 28);
}

-- `((uint32_t)high << 16) | low`, for a low half of 16 bits.
unfoldable pub first_cluster_of : DirEntry → ℕ
first_cluster_of e = e.first_cluster_high * 65536 + e.first_cluster_low

-- The loop with `match`: both names have 11 bytes.
unfoldable pub same_name : List ℕ → List ℕ → Bool
same_name [] ys = true
same_name (x ∷ xs) [] = false
same_name (x ∷ xs) (y ∷ ys) = (x == y) && same_name xs ys

unfoldable pub set_cluster : Bytes → (i cluster : ℕ) → Bytes
set_cluster b i cluster =
    write16 (write16 b (32 * i + 26) (cluster % 65536)) (32 * i + 20) (cluster / 65536 % 65536)

unfoldable pub set_size : Bytes → (i size : ℕ) → Bytes
set_size b i size = write32 b (32 * i + 28) size

unfoldable pub set_name : Bytes → ℕ → List ℕ → Bytes
set_name b i name = put_bytes b (32 * i) name

-- `name[0]` is 0x00 at the end of a directory, 0xE5 in a deleted entry; `attr` is 0x0F in a part of
-- a long name.
abbrev pub is_end : Bytes → ℕ → Bool
is_end b i = name_byte b i 0 == 0

abbrev pub is_deleted : Bytes → ℕ → Bool
is_deleted b i = name_byte b i 0 == 0xE5

abbrev pub is_long : Bytes → ℕ → Bool
is_long b i = entry_attr b i == 0x0F

-- The loop of `create_entry_at` over a free entry.
unfoldable pub fill_entry : Bytes → (i : ℕ) → (name83 : List ℕ) → (attr : ℕ) → Bytes
unfolding set_name set_size set_cluster
fill_entry b i name83 attr =
    set_cluster (set_size (write_byte (set_name b i name83) (32 * i + 11) attr) i 0) i 0
