-- ===== src/Devices/Tests.antt =====
-- drivers/mouse.c from the middle of the screen, and kernel/rtc.c on a date.
use ovsb_mk.Base.{List, [], ◌∷◌, ◌++◌, ◌≡◌, refl, arith, pos, negsuc}
use ovsb_mk.Base.Ints.{◌-ℤ◌}
use ovsb_mk.Devices.Mouse.{Mouse, process_bytes, mouse_get_dx, mouse_get_dy}
use ovsb_mk.Devices.Mouse.Encoding.{Motion, bytes_of, total_right, total_up}
use ovsb_mk.Devices.Mouse.Motions.{process_bytes-total}
use ovsb_mk.Devices.Clock.{rtc_read}
use ovsb_mk.Devices.Clock.Digits.{registers, rtc_read-registers}

abbrev at_rest : Mouse
at_rest = record {
  x = pos 512;
  y = pos 384;
  buttons = 0;
  cycle = 0;
  first = 0;
  second = 0;
  third = 0;
  last_x = pos 512;
  last_y = pos 384;
}

-- To the left and up, then down with a button pressed.
abbrev left_then_down : List Motion
left_then_down =
    (record { pressed = 0; right = negsuc 4; up = pos 3 })
    ∷ (record { pressed = 1; right = pos 0; up = negsuc 9 })
    ∷ []

left_then_down-bytes : bytes_of left_then_down ≡ 24 ∷ 251 ∷ 3 ∷ 41 ∷ 0 ∷ 246 ∷ []
unfolding bytes_of
left_then_down-bytes = refl

process_bytes-total_example :
    let m' = process_bytes at_rest ((6 ∷ 0 ∷ []) ++ bytes_of left_then_down) in
    (m'.cycle ≡ 0)
    × ((mouse_get_dx m').0 ≡ total_right left_then_down)
    × ((mouse_get_dy m').0 ≡ pos 0 -ℤ total_up left_then_down)
process_bytes-total_example =
    process_bytes-total at_rest (6 ∷ 0 ∷ []) left_then_down refl refl refl (refl, (refl, tt))
      (omega arith, omega arith, omega arith, (omega arith, omega arith, omega arith, tt))

date-read :
    rtc_read (registers (record { yr = 2026; mo = 11; dy = 26; h = 12; m = 45; s = 7 }))
    ≡ (record { yr = 2026; mo = 11; dy = 26; h = 12; m = 45; s = 7 })
date-read =
    rtc_read-registers 26 11 26 12 45 7 (omega arith) (omega arith) (omega arith) (omega arith)
      (omega arith) (omega arith)
