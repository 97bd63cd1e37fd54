-- ===== src/Keyboard/Tests.antt =====
-- drivers/keyboard.c from the state that its static variables start in.
use ovsb_mk.Base.{◌≡◌, refl, [], ◌∷◌, false, some, arith, replicate}
use ovsb_mk.Keyboard.{Keyboard, kbuf_put, keyboard_read, repeat_due}
use ovsb_mk.Keyboard.Tables.{norm}
use ovsb_mk.Keyboard.Queue.{IsValid, contents, kbuf_put-queue}
use ovsb_mk.Keyboard.Typing.{IsTyping, keyboard_read-typed}

abbrev silent : Keyboard
silent = record {
  buffer = replicate 256 0;
  head = 0;
  tail = 0;
  shift_pressed = 0;
  ctrl_pressed = 0;
  ext_flag = 0;
  last_make_sc = 0;
  last_repeat_char = 0;
  press_tick = 0;
  last_repeat_tick = 0;
  sigint_pending = 0;
}

silent-IsValid : IsValid silent
silent-IsValid = record { storage = refl; head_in = omega arith; tail_in = omega arith }

-- Two characters wait.
abbrev two : Keyboard
two = record silent { buffer = b'o' ∷ b'k' ∷ replicate 254 0; head = 2 }

two-IsValid : IsValid two
two-IsValid = record { storage = refl; head_in = omega arith; tail_in = omega arith }

-- The key A.
letter_a : IsTyping silent 0x1E
unfolding norm
letter_a = record {
  no_prefix = refl;
  no_ctrl = refl;
  in_table = omega arith;
  plain = (omega arith, omega arith, omega arith, omega arith);
  printable = omega arith;
}

silent-rests : repeat_due 5 silent ≡ false
unfolding repeat_due
silent-rests = refl

kbuf_put-queue_example : contents (kbuf_put two b'!') ≡ b'o' ∷ b'k' ∷ b'!' ∷ []
kbuf_put-queue_example = kbuf_put-queue two b'!' two-IsValid

keyboard_read-typed_example :
    (k' : Keyboard) × (keyboard_read 5 silent (record { scancodes = 0x1E ∷ []; ticks = 15 } ∷ [])
      ≡ some (b'a', k'))
    × (contents k' ≡ [])
unfolding norm
keyboard_read-typed_example =
    keyboard_read-typed 5 silent 0x1E 15 [] silent-IsValid refl silent-rests letter_a
