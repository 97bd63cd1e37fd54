-- ===== src/Devices/Clock/Digits.antt =====
-- kernel/rtc.c on registers that hold the digits of a date.
use ovsb_mk.Base.{ℕ, ◌+◌, ◌*◌, ◌/◌, ◌%◌, ◌^◌, ◌<◌, ◌≡◌, refl, arith, ◌==◌, if◌then◌else◌}
use ovsb_mk.Base.Masks.{bit_and-mask}
use ovsb_mk.Devices.Clock.{Time, bcd_to_dec, rtc_read}

-- The tens in the upper four bits, the ones in the lower.
abbrev pub bcd : ℕ → ℕ
bcd n = n / 10 * 16 + n % 10

-- The registers of a clock that shows a time; the century is left out.
abbrev pub registers : Time → ℕ → ℕ
registers t r =
    if r == 0x00
    then bcd t.s
    else if r == 0x02
    then bcd t.m
    else if r == 0x04
    then bcd t.h
    else if r == 0x07
    then bcd t.dy
    else if r == 0x08
    then bcd t.mo
    else if r == 0x09
    then bcd (t.yr % 100)
    else 0

bcd_to_dec-bcd : (n : ℕ) → bcd_to_dec (bcd n) ≡ n
unfolding bcd_to_dec
bcd_to_dec-bcd n = omega (arith, bit_and-mask 4 (n / 10 * 16 + n % 10))

-- Where the clock shows a time of this century as decimal digits, `rtc_read` returns it.
pub rtc_read-registers :
    (yr mo dy h m s : ℕ)
    → yr < 100
    → mo < 100
    → dy < 100
    → h < 100
    → m < 100
    → s < 100
    → rtc_read (registers (record { yr = 2000 + yr; mo = mo; dy = dy; h = h; m = m; s = s }))
      ≡ (record { yr = 2000 + yr; mo = mo; dy = dy; h = h; m = m; s = s })
unfolding rtc_read
rtc_read-registers yr mo dy h m s yr_lt mo_lt dy_lt h_lt m_lt s_lt =
    let year : (bcd_to_dec (bcd ((2000 + yr) % 100)) + 2000) % 2 ^ 16 ≡ 2000 + yr =
      omega (arith, bcd_to_dec-bcd ((2000 + yr) % 100), yr_lt) in
    rw (year, byte mo mo_lt, byte dy dy_lt, byte h h_lt, byte m m_lt, byte s s_lt) refl
  where
    byte : (n : ℕ) → n < 100 → bcd_to_dec (bcd n) % 2 ^ 8 ≡ n
    byte n lt = omega (arith, bcd_to_dec-bcd n, lt)
