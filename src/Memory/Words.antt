-- ===== src/Memory/Words.antt =====
-- Powers of two, aligned blocks and the bits of frame marks, for kernel/memory.c.
use Prim.Native.Nat.{bit_and, bit_or, bit_xor}
use native.Mathlib.Nat.{pow-suc, add-zero, add-suc}
use ovsb_mk.Base.Masks.{bit_and-mask}
use ovsb_mk.Base.{
  leb, Bool, ℕ, zero, suc, ◌+◌, ◌-◌, ◌*◌, ◌%◌, ◌^◌, ◌≤◌, ◌<◌, ◌≡◌, ◌∙◌, ap, sym, refl, true, arith,
  ◌==◌, if◌then◌else◌, all_below, all_below_sound, ◌&&◌, ==_iff, false, not,
}

pub pow-double : (o : ℕ) → 2 ^ suc o ≡ 2 * 2 ^ o
pow-double o = omega (arith, pow-suc 2 o)

pub pow-pos : (o : ℕ) → 0 < 2 ^ o
pow-pos zero = omega arith
pow-pos (suc o) = omega (arith, pow-double o, pow-pos o)

-- The quotient of two powers.
pub pow-split : (a d : ℕ) → 2 ^ (a + d) ≡ 2 ^ d * 2 ^ a
pow-split a zero = rw add-zero (omega arith)
pow-split a (suc d) = rw (add-suc, pow-double (a + d), pow-double d, pow-split a d) (omega arith)

-- Multiples of one number in the order of their factors.
pub le_of_mul : (p a b : ℕ) → 0 < p → a * p ≤ b * p → a ≤ b
le_of_mul p a b h le = grind arith

pub lt_of_mul : (p a b : ℕ) → 0 < p → a * p < b * p → a < b
lt_of_mul p a b h lt = grind arith

pub mul_le : (p a b : ℕ) → a ≤ b → a * p ≤ b * p
mul_le p a b le = grind arith

-- The factor of a block's buddy.
abbrev pub partner : ℕ → ℕ
partner k = if k % 2 == 0 then k + 1 else k - 1

xor_table :
    all_below 14
      (λ o. all_below (2 ^ (14 - o)) (λ k. bit_xor (k * 2 ^ o) (2 ^ o) == partner k * 2 ^ o))
    ≡ true
unfolding all_below
xor_table = refl

-- The index `idx ^ (1 << o)` of the buddy of a block of the order `o`.
pub xor-partner :
    (o k : ℕ) → o < 14 → k < 2 ^ (14 - o) → bit_xor (k * 2 ^ o) (2 ^ o) ≡ partner k * 2 ^ o
xor-partner o k lo lk = (==_iff _ _).0 (
    all_below_sound (2 ^ (14 - o)) (λ k. bit_xor (k * 2 ^ o) (2 ^ o) == partner k * 2 ^ o) k
      (all_below_sound 14
        (λ o. all_below (2 ^ (14 - o)) (λ k. bit_xor (k * 2 ^ o) (2 ^ o) == partner k * 2 ^ o)) o
        xor_table lo)
      lk)

abbrev mark_test : ℕ → Bool
mark_test o =
    (bit_and o 0xBF == o)
    && leb 128 (bit_and (128 + o) 0xBF)
    && leb 128 (bit_and (192 + o) 0xBF)
    && (bit_or o 0x80 == 128 + o)
    && (bit_or (bit_or o 0x80) 0x40 == 192 + o)

mark_table : all_below 15 mark_test ≡ true
unfolding all_below
mark_table = refl

-- The marks of a frame: free, taken, and taken by a user process, each of an order.
pub record Marks (o : ℕ) : Type 0 where
  pub free : bit_and o 0xBF ≡ o
  pub taken : 128 ≤ bit_and (128 + o) 0xBF
  pub user : 128 ≤ bit_and (192 + o) 0xBF
  pub take : bit_or o 0x80 ≡ 128 + o
  pub take_user : bit_or (bit_or o 0x80) 0x40 ≡ 192 + o

pub marks : (o : ℕ) → o ≤ 14 → Marks o
marks o le =
    let t : mark_test o ≡ true = all_below_sound 15 mark_test o mark_table (omega arith) in
    record {
      free = ground (arith, t);
      taken = ground (arith, t);
      user = ground (arith, t);
      take = ground (arith, t);
      take_user = ground (arith, t);
    }

pub mul_lt : (p a b : ℕ) → 0 < p → a < b → a * p < b * p
mul_lt p a b h lt = grind arith

-- In units of the lower size, a block that starts at `2 * c` and is `2 * e` long holds with `k` also
-- the partner of `k`.
partner_inside :
    (p c e k : ℕ)
    → 0 < p
    → (2 * c) * p ≤ k * p
    → k * p < (2 * c + 2 * e) * p
    → ((2 * c) * p ≤ partner k * p) × (partner k * p < (2 * c + 2 * e) * p)
partner_inside p c e k pos lo hi =
    let a : 2 * c ≤ k = le_of_mul p (2 * c) k pos lo in
    let b : k < 2 * c + 2 * e = lt_of_mul p k (2 * c + 2 * e) pos hi in
    (
      mul_le p (2 * c) (partner k) (ground arith),
      mul_lt p (partner k) (2 * c + 2 * e) pos (ground arith),
    )

-- An aligned block of a higher order that meets an aligned place of the order `o` holds the place's
-- partner as well.
pub nested-partner :
    (o d k k' : ℕ)
    → k' * 2 ^ (o + suc d) ≤ k * 2 ^ o
    → k * 2 ^ o < k' * 2 ^ (o + suc d) + 2 ^ (o + suc d)
    → (k' * 2 ^ (o + suc d) ≤ partner k * 2 ^ o)
      × (partner k * 2 ^ o < k' * 2 ^ (o + suc d) + 2 ^ (o + suc d))
nested-partner o d k k' lo hi =
    let size : 2 ^ (o + suc d) ≡ 2 * 2 ^ d * 2 ^ o =
      pow-split o (suc d) ∙ ap (λ n. n * 2 ^ o) (pow-double d) in
    let start : k' * 2 ^ (o + suc d) ≡ 2 * (k' * 2 ^ d) * 2 ^ o = rw size (omega arith) in
    let end : k' * 2 ^ (o + suc d) + 2 ^ (o + suc d) ≡ (2 * (k' * 2 ^ d) + 2 * 2 ^ d) * 2 ^ o =
      rw (start, size) (omega arith) in
    let (lower, upper) =
      partner_inside (2 ^ o) (k' * 2 ^ d) (2 ^ d) k (pow-pos o) (omega arith) (omega arith) in
    (omega arith, omega arith)

-- An aligned block of a lower or equal order that meets an aligned place starts there.
pub aligned_start :
    (a d k k' : ℕ)
    → k' * 2 ^ a ≤ k * 2 ^ (a + d)
    → k * 2 ^ (a + d) < k' * 2 ^ a + 2 ^ a
    → k' * 2 ^ a ≡ k * 2 ^ (a + d)
aligned_start a d k k' lo hi =
    let place : k * 2 ^ (a + d) ≡ k * 2 ^ d * 2 ^ a = rw (pow-split a d) (omega arith) in
    let lower : k' ≤ k * 2 ^ d = le_of_mul (2 ^ a) k' (k * 2 ^ d) (pow-pos a) (omega arith) in
    let upper : k * 2 ^ d < k' + 1 =
      lt_of_mul (2 ^ a) (k * 2 ^ d) (k' + 1) (pow-pos a) (omega arith) in
    let same : k' ≡ k * 2 ^ d = omega arith in ap (λ n. n * 2 ^ a) same ∙ sym place

-- The place of an address in its frame.
pub offset_in_frame : (addr : ℕ) → bit_and addr 4095 ≡ addr % 4096
offset_in_frame addr = bit_and-mask 12 addr

-- The address of a frame is a multiple of the frame size.
pub frame_aligned : (b : ℕ) → bit_and (0x900000 + b * 4096) 4095 ≡ 0
frame_aligned b = omega (arith, offset_in_frame (0x900000 + b * 4096))

abbrev field_test : ℕ → Bool
field_test o =
    not (bit_and (128 + o) 0x80 == 0)
    && not (bit_and (192 + o) 0x80 == 0)
    && (bit_and (128 + o) 0x3F == o)
    && (bit_and (192 + o) 0x3F == o)
    && not (bit_and (128 + o) 0xC0 == 0xC0)
    && (bit_and (192 + o) 0xC0 == 0xC0)

field_table : all_below 15 field_test ≡ true
unfolding all_below
field_table = refl

abbrev low_test : ℕ → Bool
low_test x = (bit_and x 0x80 == 0) && not (bit_and x 0xC0 == 0xC0)

low_table : all_below 128 low_test ≡ true
unfolding all_below
low_table = refl

-- What the code reads off the mark of a taken block: FRAME_ALLOC, FRAME_ORDER and both flags.
pub record Fields (o : ℕ) : Type 0 where
  pub taken : (bit_and (128 + o) 0x80 == 0) ≡ false
  pub taken_user : (bit_and (192 + o) 0x80 == 0) ≡ false
  pub order : bit_and (128 + o) 0x3F ≡ o
  pub order_user : bit_and (192 + o) 0x3F ≡ o
  pub kernel : (bit_and (128 + o) 0xC0 == 0xC0) ≡ false
  pub user : (bit_and (192 + o) 0xC0 == 0xC0) ≡ true

pub fields : (o : ℕ) → o ≤ 14 → Fields o
fields o le =
    let t : field_test o ≡ true = all_below_sound 15 field_test o field_table (omega arith) in
    record {
      taken = ground (arith, t);
      taken_user = ground (arith, t);
      order = ground (arith, t);
      order_user = ground (arith, t);
      kernel = ground (arith, t);
      user = ground (arith, t);
    }

-- A mark below 128 has neither flag.
pub low_mark :
    (x : ℕ) → x < 128 → ((bit_and x 0x80 == 0) ≡ true) × ((bit_and x 0xC0 == 0xC0) ≡ false)
low_mark x lt =
    let t : low_test x ≡ true = all_below_sound 128 low_test x low_table lt in
    (ground (arith, t), ground (arith, t))
