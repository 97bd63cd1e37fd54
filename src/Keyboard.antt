-- ===== src/Keyboard.antt =====
-- drivers/keyboard.c: scancodes become characters, which wait in a ring of 256 bytes.
-- The static variables are the record `Keyboard`. `timer_ticks` belongs to kernel/pit.c and comes
-- in as the argument `now`; the byte read from port 0x60 is the argument `sc`.
pub mod Tables
pub mod Queue
pub mod Typing
mod Tests
use Prim.Native.Nat.{bit_and}
use ovsb_mk.Base.{
  ℕ, ◌+◌, ◌-◌, ◌%◌, ◌^◌, List, [], ◌∷◌, Bool, true, false, ◌&&◌, ◌||◌, Option, none, some, ◌==◌,
  ltb, leb, not, if◌then◌else◌, get_or, set,
}
use ovsb_mk.Keyboard.Tables.{norm, shf, ext, ExtRow}

abbrev pub buffer_size : ℕ
buffer_size = 256

-- `sizeof(norm)`.
abbrev pub norm_size : ℕ
norm_size = 121

abbrev pub repeat_delay : ℕ
repeat_delay = 80

abbrev pub repeat_rate : ℕ
repeat_rate = 8

pub record Keyboard : Type 0 where
  pub buffer : List ℕ
  pub head : ℕ
  pub tail : ℕ
  pub shift_pressed : ℕ
  pub ctrl_pressed : ℕ
  pub ext_flag : ℕ
  pub last_make_sc : ℕ
  pub last_repeat_char : ℕ
  pub press_tick : ℕ
  pub last_repeat_tick : ℕ
  pub sigint_pending : ℕ

-- A full ring drops the character.
unfoldable pub kbuf_put : Keyboard → ℕ → Keyboard
kbuf_put k c =
    let n : ℕ = (k.head + 1) % buffer_size in
    if n == k.tail then k else record k { buffer = set k.buffer k.head c; head = n }

unfoldable pub kbuf_put_seq : Keyboard → List ℕ → Keyboard
kbuf_put_seq k [] = k
kbuf_put_seq k (c ∷ s) = kbuf_put_seq (kbuf_put k c) s

unfoldable pub scancode_to_ascii : Keyboard → ℕ → ℕ
scancode_to_ascii k sc =
    if leb norm_size sc
    then 0
    else if not (k.shift_pressed == 0)
    then get_or shf sc 0
    else get_or norm sc 0

-- The loop over `ext`: the sequence of the first row with this scancode.
unfoldable pub find_ext : List ExtRow → ℕ → Option (List ℕ)
find_ext [] sc = none
find_ext (r ∷ rs) sc = if sc == r.sc then some r.seq else find_ext rs sc

-- The tests behind the loop.
unfoldable pub extended_modifier : Keyboard → ℕ → ℕ × Keyboard
extended_modifier k sc =
    if sc == 0x1D
    then (1, record k { ctrl_pressed = 1 })
    else if sc == 0x9D
    then (1, record k { ctrl_pressed = 0 })
    else if sc == 0x38
    then (1, record k { shift_pressed = 2 })
    else if sc == 0xB8
    then (1, record k { shift_pressed = 0 })
    else if sc == 0x35
    then (1, kbuf_put k b'/')
    else (0, k)

-- What is done with the row that the loop finds, or without one.
unfoldable pub send_ext : Keyboard → ℕ → Option (List ℕ) → ℕ × Keyboard
send_ext k sc (some s) = (1, kbuf_put_seq k s)
send_ext k sc none = extended_modifier k sc

unfoldable pub handle_extended : Keyboard → ℕ → ℕ × Keyboard
handle_extended k sc = send_ext k sc (find_ext ext sc)

-- `ctrl` turns a letter into its control character.
unfoldable pub with_ctrl : Keyboard → ℕ → ℕ
with_ctrl k c =
    let low : ℕ =
      if not (k.ctrl_pressed == 0) && leb b'a' c && leb c b'z' then c - b'a' + 1 else c in
    if not (k.ctrl_pressed == 0) && leb b'A' low && leb low b'Z' then low - b'A' + 1 else low

unfoldable pub release : Keyboard → ℕ → Keyboard
release k make =
    if make == k.last_make_sc then record k { last_make_sc = 0; last_repeat_char = 0 } else k

unfoldable pub press : ℕ → Keyboard → ℕ → ℕ → ℕ × Keyboard
press now k sc c = if c == 0 then (0, k) else (
  1,
  record (kbuf_put k c) {
    last_make_sc = sc;
    last_repeat_char = c;
    press_tick = now;
    last_repeat_tick = now;
  },
)

-- The tests of `process_scancode` behind the prefix: modifiers, key releases, key presses.
unfoldable pub plain_scancode : ℕ → Keyboard → ℕ → ℕ × Keyboard
plain_scancode now k sc =
    if sc == 0x2A || sc == 0x36
    then (1, record k { shift_pressed = 1 })
    else if sc == 0xAA || sc == 0xB6
    then (1, record k { shift_pressed = 0 })
    else if sc == 0x1D
    then (1, record k { ctrl_pressed = 1 })
    else if sc == 0x9D
    then (1, record k { ctrl_pressed = 0 })
    else if sc == 0x38
    then (1, record k { shift_pressed = 1 })
    else if sc == 0xB8
    then (1, record k { shift_pressed = 0 })
    else if not (bit_and sc 0x80 == 0)
    then (1, release k (bit_and sc 0x7F))
    else if ltb sc norm_size
    then press now k sc (with_ctrl k (scancode_to_ascii k sc))
    else (0, k)

unfoldable pub process_scancode : ℕ → Keyboard → ℕ → ℕ × Keyboard
process_scancode now k sc =
    if sc == 0xE0
    then (1, record k { ext_flag = 1 })
    else if sc == 0xE1
    then (1, record k { ext_flag = 1 })
    else if not (k.ext_flag == 0)
    then handle_extended (record k { ext_flag = 0 }) sc
    else plain_scancode now k sc

-- The interrupt handler, for the byte that the port gives; the result is not used.
unfoldable pub keyboard_handler : ℕ → Keyboard → ℕ → Keyboard
keyboard_handler now k sc = (process_scancode now k sc).1

-- `uint64_t` subtraction.
abbrev pub sub_u64 : ℕ → ℕ → ℕ
sub_u64 a b = (a + 2 ^ 64 - b) % 2 ^ 64

-- The held key is due: the second half of the loop's body in `keyboard_read`.
unfoldable pub repeat_due : ℕ → Keyboard → Bool
repeat_due now k =
    not (k.last_make_sc == 0)
    && not (k.last_repeat_char == 0)
    && ltb repeat_delay (sub_u64 now k.press_tick)
    && leb repeat_rate (sub_u64 now k.last_repeat_tick)

unfoldable pub read_buffered : Keyboard → ℕ × Keyboard
read_buffered k =
    let c : ℕ = get_or k.buffer k.tail 0 in
    (
      c,
      record k {
        tail = (k.tail + 1) % buffer_size;
        sigint_pending = if c == 3 then 1 else k.sigint_pending;
        last_make_sc = 0;
        last_repeat_char = 0;
      },
    )

-- One round of the loop in `keyboard_read`: a character, or `none` for another round.
unfoldable pub read_round : ℕ → Keyboard → Option ℕ × Keyboard
read_round now k =
    if not (k.head == k.tail)
    then (let (c, k') = read_buffered k in (some c, k'))
    else if repeat_due now k
    then (some k.last_repeat_char, record k { last_repeat_tick = now })
    else (none, k)

-- What happens in the delay between two rounds: the interrupts, each with its scancode, and the
-- ticks that the next round sees.
pub record Delay : Type 0 where
  pub scancodes : List ℕ
  pub ticks : ℕ

unfoldable pub interrupts : ℕ → Keyboard → List ℕ → Keyboard
interrupts now k [] = k
interrupts now k (sc ∷ scs) = interrupts now (keyboard_handler now k sc) scs

-- The end of a round: return, or go on with what the later rounds give.
unfoldable pub answer_or : Option ℕ × Keyboard → Option (ℕ × Keyboard) → Option (ℕ × Keyboard)
answer_or (some c, k) later = some (c, k)
answer_or (none, k) later = later

-- `keyboard_read` against the delays to come; `none` if it still waits when they are used up.
unfoldable pub keyboard_read : ℕ → Keyboard → List Delay → Option (ℕ × Keyboard)
keyboard_read now k [] = answer_or (read_round now k) none
keyboard_read now k (d ∷ ds) =
    let waited = (read_round now k).1 in
    answer_or (read_round now k) (keyboard_read d.ticks (interrupts d.ticks waited d.scancodes) ds)

unfoldable pub keyboard_avail : Keyboard → ℕ
keyboard_avail k = if not (k.head == k.tail) then 1 else 0
