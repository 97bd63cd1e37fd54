-- ===== src/Devices/Mouse/Encoding.antt =====
-- The bytes of a mouse that moves, as drivers/mouse.c reads them.
use Prim.Native.Nat.{bit_and}
use ovsb_mk.Base.{
  ℕ, ◌+◌, ◌-◌, ◌*◌, ◌/◌, ◌%◌, ◌<◌, ◌≡◌, refl, arith, List, [], ◌∷◌, Bool, true, not, ◌&&◌, ◌==◌, ℤ,
  pos, negsuc, all_below, all_below_sound,
}
use ovsb_mk.Base.Ints.{◌+ℤ◌, ◌-ℤ◌}
use ovsb_mk.Devices.Mouse.{signed}

-- A movement, of at most 256 in a direction.
pub record Motion : Type 0 where
  pub pressed : ℕ
  pub right : ℤ
  pub up : ℤ

abbrev pub sign_bit : ℤ → ℕ
sign_bit (pos n) = 0
sign_bit (negsuc n) = 1

abbrev pub low_byte : ℤ → ℕ
low_byte (pos n) = n
low_byte (negsuc n) = 255 - n

abbrev pub flags : Motion → ℕ
flags t = 8 + t.pressed + 16 * sign_bit t.right + 32 * sign_bit t.up

-- What the mouse sends.
unfoldable pub bytes_of : List Motion → List ℕ
bytes_of [] = []
bytes_of (t ∷ ts) = flags t ∷ low_byte t.right ∷ low_byte t.up ∷ bytes_of ts

abbrev pub Small : ℤ → Type 0
Small (pos n) = n < 256
Small (negsuc n) = n < 256

abbrev pub AllSmall : List Motion → Type 0
AllSmall [] = Unit {0}
AllSmall (t ∷ ts) = (t.pressed < 8) × Small t.right × Small t.up × AllSmall ts

unfoldable pub total_right : List Motion → ℤ
total_right [] = pos 0
total_right (t ∷ ts) = t.right +ℤ total_right ts

unfoldable pub total_up : List Motion → ℤ
total_up [] = pos 0
total_up (t ∷ ts) = t.up +ℤ total_up ts

-- Bytes that begin no packet.
abbrev pub Noise : List ℕ → Type 0
Noise [] = Unit {0}
Noise (d ∷ ds) = (bit_and d 0x08 ≡ 0) × Noise ds

abbrev bits_kept : ℕ → Bool
bits_kept v =
    (bit_and v 0x08 == v / 8 % 2 * 8)
    && (bit_and v 0x10 == v / 16 % 2 * 16)
    && (bit_and v 0x20 == v / 32 % 2 * 32)

bits_table : all_below 64 bits_kept ≡ true
unfolding all_below
bits_table = refl

flag_bits :
    (v : ℕ)
    → v < 64
    → (bit_and v 0x08 ≡ v / 8 % 2 * 8)
      × (bit_and v 0x10 ≡ v / 16 % 2 * 16)
      × (bit_and v 0x20 ≡ v / 32 % 2 * 32)
flag_bits v lt = ground (arith, all_below_sound 64 bits_kept v bits_table lt)

pub signed-low_byte :
    (sign : ℕ) (z : ℤ)
    → Small z
    → (not (sign == 0) ≡ (sign_bit z == 1))
    → signed sign (low_byte z) ≡ z
unfolding signed ◌-ℤ◌
signed-low_byte sign (pos n) small e = rw e refl
signed-low_byte sign (negsuc n) small e = rw e ground (arith, small)

sign_bit-lt : (z : ℤ) → sign_bit z < 2
sign_bit-lt (pos n) = omega arith
sign_bit-lt (negsuc n) = omega arith

-- The bits that the driver reads from the first byte.
pub flags-signs :
    (t : Motion)
    → t.pressed < 8
    → (bit_and (flags t) 0x08 ≡ 8)
      × (bit_and (flags t) 0x10 ≡ 16 * sign_bit t.right)
      × (bit_and (flags t) 0x20 ≡ 32 * sign_bit t.up)
flags-signs t pressed =
    let right = sign_bit-lt t.right in
    let up = sign_bit-lt t.up in
    let (eight, right_bit, up_bit) = flag_bits (flags t) (omega (arith, pressed, right, up)) in
    (
      omega (arith, eight, pressed, right, up),
      omega (arith, right_bit, pressed, right, up),
      omega (arith, up_bit, pressed, right, up),
    )

-- A sign that has been cut out of the first byte.
pub sign-set : (k : ℕ) (z : ℤ) → 0 < k → not (k * sign_bit z == 0) ≡ (sign_bit z == 1)
sign-set k (pos n) lt = ground arith
sign-set k (negsuc n) lt = ground (arith, lt)
