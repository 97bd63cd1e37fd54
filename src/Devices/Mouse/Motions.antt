-- ===== src/Devices/Mouse/Motions.antt =====
-- drivers/mouse.c on the bytes of a mouse that moves.
use Prim.Native.Nat.{bit_and}
use ovsb_mk.Base.{
  ℕ, ◌*◌, ◌<◌, ◌≡◌, ◌∙◌, ap, refl, arith, List, [], ◌∷◌, ◌++◌, Bool, true, false, not, ◌||◌, ◌==◌,
  if◌then◌else◌, ℤ, pos, int_eq, int_eq_iff,
}
use ovsb_mk.Base.Ints.{◌+ℤ◌, ◌-ℤ◌, int_laws, +ℤ_assoc, minus_minus, plus_cancel, minus_cancel}
use ovsb_mk.Devices.Mouse.{
  Mouse, signed, finish_packet, mouse_process_byte, process_bytes, mouse_get_dx, mouse_get_dy,
}
use ovsb_mk.Devices.Mouse.Encoding.{
  Motion, sign_bit, low_byte, flags, bytes_of, Small, AllSmall, total_right, total_up, Noise,
  signed-low_byte, flags-signs, sign-set,
}

-- The guard of `finish_packet` skips a movement by 0 only.
guarded-plus :
    (moves : Bool) (a d : ℤ) → (moves ≡ false → d ≡ pos 0) → (if moves then a +ℤ d else a) ≡ a +ℤ d
guarded-plus true a d none_moves = refl
guarded-plus false a d none_moves = rw (none_moves refl) omega int_laws

guarded-minus :
    (moves : Bool) (a d : ℤ) → (moves ≡ false → d ≡ pos 0) → (if moves then a -ℤ d else a) ≡ a -ℤ d
guarded-minus true a d none_moves = refl
guarded-minus false a d none_moves = rw (none_moves refl) omega int_laws

no-moves :
    (dx dy : ℤ)
    → (not (int_eq dx (pos 0)) || not (int_eq dy (pos 0))) ≡ false
    → (dx ≡ pos 0) × (dy ≡ pos 0)
no-moves dx dy e =
    ((int_eq_iff dx (pos 0)).0 (ground (arith, e)), (int_eq_iff dy (pos 0)).0 (ground (arith, e)))

-- The mouse has moved, and the driver waits for the next packet.
abbrev Moved : Mouse → (right up : ℤ) → Mouse → Type 0
Moved m right up m' =
    (m'.cycle ≡ 0)
    × (m'.x ≡ m.x +ℤ right)
    × (m'.y ≡ m.y -ℤ up)
    × (m'.last_x ≡ m.last_x)
    × (m'.last_y ≡ m.last_y)

finish-Moved :
    (m : Mouse) (t : Motion)
    → Small t.right
    → Small t.up
    → t.pressed < 8
    → m.first ≡ flags t
    → m.second ≡ low_byte t.right
    → Moved m t.right t.up (finish_packet m (low_byte t.up))
unfolding finish_packet
finish-Moved m t right_small up_small pressed first second =
    let (start, right_bit, up_bit) = flags-signs t pressed in
    let signed_right =
      signed-low_byte (16 * sign_bit t.right) t.right right_small
        (sign-set 16 t.right (omega arith)) in
    let signed_up =
      signed-low_byte (32 * sign_bit t.up) t.up up_small (sign-set 32 t.up (omega arith)) in
    let dx : signed (bit_and m.first 0x10) m.second ≡ t.right =
      rw (first, second, right_bit) signed_right in
    let dy : signed (bit_and m.first 0x20) (low_byte t.up) ≡ t.up = rw (first, up_bit) signed_up in
    let moves = not (int_eq t.right (pos 0)) || not (int_eq t.up (pos 0)) in
    rw (dx, dy)
      (
        refl,
        guarded-plus moves m.x t.right (λ e. (no-moves t.right t.up e).0),
        guarded-minus moves m.y t.up (λ e. (no-moves t.right t.up e).1),
        refl,
        refl,
      )

-- The three bytes of a movement.
process-motion :
    (m : Mouse) (t : Motion) (ds : List ℕ)
    → m.cycle ≡ 0
    → t.pressed < 8
    → Small t.right
    → Small t.up
    → (m' : Mouse) × (process_bytes m (flags t ∷ low_byte t.right ∷ low_byte t.up ∷ ds)
        ≡ process_bytes m' ds)
      × Moved m t.right t.up m'
unfolding process_bytes mouse_process_byte
process-motion m t ds ready pressed right_small up_small =
    let begun : Mouse = record m { first = flags t; second = low_byte t.right; cycle = 2 } in
    let starts : (bit_and (flags t) 0x08 == 0) ≡ false =
      ground (arith, (flags-signs t pressed).0) in
    (
      finish_packet begun (low_byte t.up),
      rw (ready, starts) refl,
      finish-Moved begun t right_small up_small pressed refl refl,
    )

process-noise : (m : Mouse) (d : ℕ) → m.cycle ≡ 0 → bit_and d 0x08 ≡ 0 → mouse_process_byte m d ≡ m
unfolding mouse_process_byte
process-noise m d ready clear = ground (arith, ready, clear)

process_bytes-Noise :
    (m : Mouse) (noise ds : List ℕ)
    → m.cycle ≡ 0
    → Noise noise
    → process_bytes m (noise ++ ds) ≡ process_bytes m ds
unfolding process_bytes
process_bytes-Noise m [] ds ready quiet = refl
process_bytes-Noise m (d ∷ noise) ds ready (clear, quiet) =
    ap (λ z. process_bytes z (noise ++ ds)) (process-noise m d ready clear)
    ∙ process_bytes-Noise m noise ds ready quiet

no-bytes : (m : Mouse) → process_bytes m [] ≡ m
unfolding process_bytes
no-bytes m = refl

process-motions :
    (m : Mouse) (ts : List Motion)
    → m.cycle ≡ 0
    → AllSmall ts
    → Moved m (total_right ts) (total_up ts) (process_bytes m (bytes_of ts))
unfolding bytes_of total_right total_up
process-motions m [] ready small =
    rw (no-bytes m) (ready, omega int_laws, omega int_laws, refl, refl)
process-motions m (t ∷ ts) ready (pressed, right_small, up_small, small) =
    let (m', run, (ready', x, y, last_x, last_y)) =
      process-motion m t (bytes_of ts) ready pressed right_small up_small in
    let (end, all_x, all_y, end_x, end_y) = process-motions m' ts ready' small in
    rw run (
      end,
      all_x ∙ ap (λ z. z +ℤ total_right ts) x ∙ +ℤ_assoc m.x t.right (total_right ts),
      all_y ∙ ap (λ z. z -ℤ total_up ts) y ∙ minus_minus m.y t.up (total_up ts),
      end_x ∙ last_x,
      end_y ∙ last_y,
    )

-- A driver that waits for a packet gets bytes that begin none, and then the bytes of movements by at
-- most 256 in each direction. If nothing had moved since the last call of `mouse_get_dx` and
-- `mouse_get_dy`, they report the sums of the movements, with the screen's y downwards, and the driver
-- waits for the next packet.
pub process_bytes-total :
    (m : Mouse) (noise : List ℕ) (ts : List Motion)
    → m.cycle ≡ 0
    → m.last_x ≡ m.x
    → m.last_y ≡ m.y
    → Noise noise
    → AllSmall ts
    → let m' = process_bytes m (noise ++ bytes_of ts) in
      (m'.cycle ≡ 0)
      × ((mouse_get_dx m').0 ≡ total_right ts)
      × ((mouse_get_dy m').0 ≡ pos 0 -ℤ total_up ts)
unfolding mouse_get_dx mouse_get_dy
process_bytes-total m noise ts ready at_x at_y quiet small =
    let (end, x, y, last_x, last_y) = process-motions m ts ready small in
    let m' = process_bytes m (bytes_of ts) in
    let begin_x = last_x ∙ at_x in
    let begin_y = last_y ∙ at_y in
    rw (process_bytes-Noise m noise (bytes_of ts) ready quiet) (
      end,
      ap (λ z. z -ℤ m'.last_x) x
          ∙ ap (λ z. m.x +ℤ total_right ts -ℤ z) begin_x
          ∙ plus_cancel m.x (total_right ts),
      ap (λ z. z -ℤ m'.last_y) y
          ∙ ap (λ z. m.y -ℤ total_up ts -ℤ z) begin_y
          ∙ minus_cancel m.y (total_up ts),
    )
