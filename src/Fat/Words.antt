-- ===== src/Fat/Words.antt =====
-- Words written into a sector and read back.
use ovsb_mk.Base.{ℕ, ◌+◌, ◌/◌, ◌%◌, ◌^◌, ◌<◌, ◌≡◌, ◌⊎◌, refl, arith, ◌==◌, if◌then◌else◌}
use ovsb_mk.Fat.Types.{Bytes, read32, write_byte, write32}

-- Every value is a byte.
abbrev pub IsBytes : Bytes → Type 0
IsBytes b = (i : ℕ) → b i < 256

pub write_byte_at : (b : Bytes) (i x j : ℕ) → write_byte b i x j ≡ (if j == i then x else b j)
write_byte_at b i x j = refl

-- The byte `k` of the word at `i`.
pub write32_at :
    (b : Bytes) (i x : ℕ)
    → (write32 b i x i ≡ x % 256)
      × (write32 b i x (i + 1) ≡ x / 256 % 256)
      × (write32 b i x (i + 2) ≡ x / 65536 % 256)
      × (write32 b i x (i + 3) ≡ x / 16777216 % 256)
write32_at b i x = (ground arith, ground arith, ground arith, ground arith)

pub write32_away : (b : Bytes) (i x j : ℕ) → (j < i) ⊎ (i + 3 < j) → write32 b i x j ≡ b j
write32_away b i x j h = ground arith

pub read32-write32 : (b : Bytes) (i x : ℕ) → x < 2 ^ 32 → read32 (write32 b i x) i ≡ x
read32-write32 b i x lt =
    let (e0, e1, e2, e3) = write32_at b i x in rw (e0, e1, e2, e3) (omega arith)

pub read32-write32_away :
    (b : Bytes) (i x j : ℕ) → (j + 3 < i) ⊎ (i + 3 < j) → read32 (write32 b i x) j ≡ read32 b j
read32-write32_away b i x j h =
    let e0 = write32_away b i x j (ground arith) in
    let e1 = write32_away b i x (j + 1) (ground arith) in
    let e2 = write32_away b i x (j + 2) (ground arith) in
    let e3 = write32_away b i x (j + 3) (ground arith) in rw (e0, e1, e2, e3) refl

pub read32-lt : (b : Bytes) (i : ℕ) → IsBytes b → read32 b i < 2 ^ 32
read32-lt b i h = omega (arith, h i, h (i + 1), h (i + 2), h (i + 3))
