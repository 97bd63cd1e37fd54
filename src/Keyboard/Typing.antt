-- ===== src/Keyboard/Typing.antt =====
-- From a scancode to the character that `keyboard_read` returns: drivers/keyboard.c as a whole.
use Prim.Native.Nat.{bit_and}
use ovsb_mk.Base.{
  ℕ, ◌+◌, ◌<◌, ◌≡◌, ◌≢◌, ◌∙◌, refl, ap, List, [], ◌∷◌, ◌++◌, true, false, ◌&&◌, Option, none, some,
  arith, ◌==◌, if◌then◌else◌, get_or, length, not, all_below, all_below_sound,
}
use ovsb_mk.Keyboard.{
  Keyboard, Delay, kbuf_put, kbuf_put_seq, extended_modifier, send_ext, handle_extended, find_ext,
  with_ctrl, scancode_to_ascii, press, release, plain_scancode, process_scancode, keyboard_handler,
  interrupts, read_round, repeat_due, answer_or, keyboard_read,
}
use ovsb_mk.Keyboard.Tables.{ext, norm, shf}
use ovsb_mk.Keyboard.Queue.{
  IsValid, contents, waiting, length-queued, kbuf_put-IsValid, kbuf_put-queue, read_round-queue,
}

pub kbuf_put_seq-IsValid : (k : Keyboard) (s : List ℕ) → IsValid k → IsValid (kbuf_put_seq k s)
unfolding kbuf_put_seq
kbuf_put_seq-IsValid k [] v = v
kbuf_put_seq-IsValid k (c ∷ s) v = kbuf_put_seq-IsValid (kbuf_put k c) s (kbuf_put-IsValid k c v)

send_ext-IsValid :
    (k : Keyboard) (sc : ℕ) (o : Option (List ℕ)) → IsValid k → IsValid (send_ext k sc o).1
unfolding send_ext extended_modifier
send_ext-IsValid k sc none v = ground (arith, kbuf_put-IsValid k b'/')
send_ext-IsValid k sc (some s) v = kbuf_put_seq-IsValid k s v

handle_extended-IsValid : (k : Keyboard) (sc : ℕ) → IsValid k → IsValid (handle_extended k sc).1
unfolding handle_extended
handle_extended-IsValid k sc v = send_ext-IsValid k sc (find_ext ext sc) v

press-IsValid : (now : ℕ) (k : Keyboard) (sc c : ℕ) → IsValid k → IsValid (press now k sc c).1
unfolding press
press-IsValid now k sc c v = ground (arith, kbuf_put-IsValid k c)

plain_scancode-IsValid :
    (now : ℕ) (k : Keyboard) (sc : ℕ) → IsValid k → IsValid (plain_scancode now k sc).1
unfolding plain_scancode release
plain_scancode-IsValid now k sc v =
    ground (arith, press-IsValid now k sc (with_ctrl k (scancode_to_ascii k sc)))

-- Whatever byte the keyboard sends, the interrupt handler keeps a valid ring valid.
pub keyboard_handler-IsValid :
    (now : ℕ) (k : Keyboard) (sc : ℕ) → IsValid k → IsValid (keyboard_handler now k sc)
unfolding keyboard_handler process_scancode
keyboard_handler-IsValid now k sc v =
    ground (
      arith,
      handle_extended-IsValid (record k { ext_flag = 0 }) sc,
      plain_scancode-IsValid now k sc,
    )

low_table : all_below 121 (λ sc. bit_and sc 0x80 == 0) ≡ true
unfolding all_below
low_table = refl

high_table :
    all_below 128 (λ sc. not (bit_and (sc + 128) 0x80 == 0) && (bit_and (sc + 128) 0x7F == sc))
    ≡ true
unfolding all_below
high_table = refl

abbrev IsPlain : ℕ → Type 0
IsPlain sc = (sc ≢ 0x2A) × (sc ≢ 0x36) × (sc ≢ 0x1D) × (sc ≢ 0x38)

-- A scancode that is neither a modifier, a prefix nor a release reaches `press`.
dispatch-press :
    (now : ℕ) (k : Keyboard) (sc : ℕ)
    → k.ext_flag ≡ 0
    → sc < 121
    → IsPlain sc
    → process_scancode now k sc ≡ press now k sc (with_ctrl k (scancode_to_ascii k sc))
unfolding process_scancode plain_scancode
dispatch-press now k sc e lt plain =
    ground (arith, all_below_sound 121 (λ sc. bit_and sc 0x80 == 0) sc low_table lt)

with_ctrl_up : (k : Keyboard) (c : ℕ) → k.ctrl_pressed ≡ 0 → with_ctrl k c ≡ c
unfolding with_ctrl
with_ctrl_up k c e = ground arith

ascii-norm :
    (k : Keyboard) (sc : ℕ)
    → k.shift_pressed ≡ 0
    → sc < 121
    → scancode_to_ascii k sc ≡ get_or norm sc 0
unfolding scancode_to_ascii
ascii-norm k sc e lt = ground arith

ascii-shf :
    (k : Keyboard) (sc : ℕ)
    → k.shift_pressed ≢ 0
    → sc < 121
    → scancode_to_ascii k sc ≡ get_or shf sc 0
unfolding scancode_to_ascii
ascii-shf k sc e lt = ground arith

press_queues :
    (now : ℕ) (k : Keyboard) (sc c : ℕ)
    → IsValid k
    → c ≢ 0
    → length (contents k) < 255
    → contents (press now k sc c).1 ≡ contents k ++ (c ∷ [])
unfolding press
press_queues now k sc c v ne room = ground (arith, kbuf_put-queue k c v)

-- What the key with scancode `sc` types when only shift may be held.
abbrev pub typed : Keyboard → ℕ → ℕ
typed k sc = if k.shift_pressed == 0 then get_or norm sc 0 else get_or shf sc 0

pub record IsTyping (k : Keyboard) (sc : ℕ) : Type 0 where
  pub no_prefix : k.ext_flag ≡ 0
  pub no_ctrl : k.ctrl_pressed ≡ 0
  pub in_table : sc < 121
  pub plain : IsPlain sc
  pub printable : typed k sc ≢ 0

ascii-typed :
    (k : Keyboard) (sc : ℕ) → IsTyping k sc → with_ctrl k (scancode_to_ascii k sc) ≡ typed k sc
ascii-typed k sc t =
    ground (arith, ascii-norm k sc, ascii-shf k sc, with_ctrl_up k (scancode_to_ascii k sc))

handler-press :
    (now : ℕ) (k : Keyboard) (sc : ℕ)
    → IsTyping k sc
    → keyboard_handler now k sc ≡ (press now k sc (typed k sc)).1
unfolding keyboard_handler
handler-press now k sc t =
    ap (λ r. r.1) (dispatch-press now k sc t.no_prefix t.in_table t.plain)
    ∙ ap (λ c. (press now k sc c).1) (ascii-typed k sc t)

-- While fewer than 255 characters wait in a valid ring, the interrupt for a key that types a
-- character, with no prefix pending and the control key up, puts that character behind those that
-- wait.
pub keyboard_handler-typed :
    (now : ℕ) (k : Keyboard) (sc : ℕ)
    → IsValid k
    → IsTyping k sc
    → length (contents k) < 255
    → contents (keyboard_handler now k sc) ≡ contents k ++ (typed k sc ∷ [])
keyboard_handler-typed now k sc v t room =
    rw (handler-press now k sc t) (press_queues now k sc (typed k sc) v t.printable room)

-- `keyboard_read` on a valid ring in which a character waits returns the oldest at once, and
-- leaves the others, whatever comes later.
pub keyboard_read-oldest :
    (now : ℕ) (k : Keyboard) (ds : List Delay) (c : ℕ) (q : List ℕ)
    → IsValid k
    → contents k ≡ c ∷ q
    → (k' : Keyboard) × (keyboard_read now k ds ≡ some (c, k')) × (contents k' ≡ q)
unfolding keyboard_read answer_or
keyboard_read-oldest now k [] c q v e = (
  (read_round now k).1,
  ground (arith, read_round-queue now k c q v e),
  (read_round-queue now k c q v e).1,
)
keyboard_read-oldest now k (d ∷ ds) c q v e = (
  (read_round now k).1,
  ground (arith, read_round-queue now k c q v e),
  (read_round-queue now k c q v e).1,
)

-- Nothing waits and no held key is due: the round leaves the state alone.
read_round_idle :
    (now : ℕ) (k : Keyboard)
    → IsValid k
    → contents k ≡ []
    → repeat_due now k ≡ false
    → read_round now k ≡ (none, k)
unfolding read_round
read_round_idle now k v e idle =
    ground (arith, v, ap length e, length-queued k.buffer k.tail (waiting k))

-- A reader that waits on a valid ring that is empty, with no held key due, gets the character of
-- the key whose interrupt comes in the first delay of its loop, and the ring is empty again: this
-- is the only interrupt of that delay, of a plain key that types a character, with the control key
-- up and no prefix 0xE0 pending.
pub keyboard_read-typed :
    (now : ℕ) (k : Keyboard) (sc ticks : ℕ) (ds : List Delay)
    → IsValid k
    → contents k ≡ []
    → repeat_due now k ≡ false
    → IsTyping k sc
    → (k' : Keyboard) × (keyboard_read now k (record { scancodes = sc ∷ []; ticks = ticks } ∷ ds)
        ≡ some (typed k sc, k'))
      × (contents k' ≡ [])
unfolding keyboard_read interrupts answer_or
keyboard_read-typed now k sc ticks ds v e idle t = rw (read_round_idle now k v e idle) (
    keyboard_read-oldest ticks (keyboard_handler ticks k sc) ds (typed k sc) []
      (keyboard_handler-IsValid ticks k sc v)
      (keyboard_handler-typed ticks k sc v t (rw e (omega arith)) ∙ rw e))

release_forgets :
    (now : ℕ) (k : Keyboard) (sc : ℕ)
    → k.ext_flag ≡ 0
    → sc < 0x60
    → IsPlain sc
    → k.last_make_sc ≡ sc
    → keyboard_handler now k (sc + 128) ≡ record k { last_make_sc = 0; last_repeat_char = 0 }
unfolding keyboard_handler process_scancode plain_scancode release
release_forgets now k sc e lt plain held = ground (
  arith,
  all_below_sound 128 (λ sc. not (bit_and (sc + 128) 0x80 == 0) && (bit_and (sc + 128) 0x7F == sc))
      sc high_table,
)

-- Once the held key is released it repeats no more: no later round finds a repeat due. The key is
-- none of shift, control and alt, its scancode is below 0x60, and no prefix is pending.
pub release_stops_repeat :
    (now later : ℕ) (k : Keyboard) (sc : ℕ)
    → k.ext_flag ≡ 0
    → sc < 0x60
    → IsPlain sc
    → k.last_make_sc ≡ sc
    → repeat_due later (keyboard_handler now k (sc + 128)) ≡ false
unfolding repeat_due
release_stops_repeat now later k sc e lt plain held = rw (release_forgets now k sc e lt plain held)
