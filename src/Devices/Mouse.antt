-- ===== src/Devices/Mouse.antt =====
-- drivers/mouse.c: three bytes from the mouse are a movement. The static variables are the record
-- `Mouse`, and the position is an integer without bounds, as C leaves the overflow of an `int`
-- undefined.
pub mod Motions
pub mod Encoding
use Prim.Native.Nat.{bit_and}
use ovsb_mk.Base.{
  ℕ, ◌-◌, List, [], ◌∷◌, Bool, not, ◌&&◌, ◌||◌, ◌==◌, if◌then◌else◌, ℤ, pos, negsuc, int_eq,
}
use ovsb_mk.Base.Ints.{◌+ℤ◌, ◌-ℤ◌}

-- `mouse_packet` is the bytes `first`, `second` and `third`.
pub record Mouse : Type 0 where
  pub x : ℤ
  pub y : ℤ
  pub buttons : ℕ
  pub cycle : ℕ
  pub first : ℕ
  pub second : ℕ
  pub third : ℕ
  pub last_x : ℤ
  pub last_y : ℤ

-- A byte, less 256 if the bit of its sign is set.
unfoldable pub signed : (sign byte : ℕ) → ℤ
signed sign byte = if not (sign == 0) then pos byte -ℤ pos 256 else pos byte

-- The third byte.
unfoldable pub finish_packet : Mouse → (d : ℕ) → Mouse
finish_packet m d =
    let dx = signed (bit_and m.first 0x10) m.second in
    let dy = signed (bit_and m.first 0x20) d in
    let moves = not (int_eq dx (pos 0)) || not (int_eq dy (pos 0)) in
    record m {
      third = d;
      cycle = 0;
      buttons = bit_and m.first 0x07;
      x = if moves then m.x +ℤ dx else m.x;
      y = if moves then m.y -ℤ dy else m.y;
    }

unfoldable pub mouse_process_byte : Mouse → (d : ℕ) → Mouse
mouse_process_byte m d =
    if m.cycle == 0
    then (if bit_and d 0x08 == 0 then m else record m { first = d; cycle = 1 })
    else if m.cycle == 1
    then record m { second = d; cycle = 2 }
    else if m.cycle == 2
    then finish_packet m d
    else m

-- Several bytes, one after the other.
unfoldable pub process_bytes : Mouse → List ℕ → Mouse
process_bytes m [] = m
process_bytes m (d ∷ ds) = process_bytes (mouse_process_byte m d) ds

unfoldable pub mouse_get_dx : Mouse → ℤ × Mouse
mouse_get_dx m = (m.x -ℤ m.last_x, record m { last_x = m.x })

unfoldable pub mouse_get_dy : Mouse → ℤ × Mouse
mouse_get_dy m = (m.y -ℤ m.last_y, record m { last_y = m.y })

unfoldable pub mouse_has_moved : Mouse → Bool
mouse_has_moved m = not (int_eq m.x m.last_x) || not (int_eq m.y m.last_y)
