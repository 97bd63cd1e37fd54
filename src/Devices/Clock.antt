-- ===== src/Devices/Clock.antt =====
-- kernel/rtc.c: the clock's registers, two decimal digits each. The registers are a function from
-- the number to the byte.
pub mod Digits
use Prim.Native.Nat.{bit_and}
use ovsb_mk.Base.{ℕ, ◌+◌, ◌*◌, ◌/◌, ◌%◌, ◌^◌}

-- `rtc_time_t`
pub record Time : Type 0 where
  pub yr : ℕ
  pub mo : ℕ
  pub dy : ℕ
  pub h : ℕ
  pub m : ℕ
  pub s : ℕ

unfoldable pub bcd_to_dec : ℕ → ℕ
bcd_to_dec v = bit_and v 0x0F + v / 2 ^ 4 * 10

unfoldable pub rtc_read : (read_cmos : ℕ → ℕ) → Time
rtc_read read_cmos = record {
  s = bcd_to_dec (read_cmos 0x00) % 2 ^ 8;
  m = bcd_to_dec (read_cmos 0x02) % 2 ^ 8;
  h = bcd_to_dec (read_cmos 0x04) % 2 ^ 8;
  dy = bcd_to_dec (read_cmos 0x07) % 2 ^ 8;
  mo = bcd_to_dec (read_cmos 0x08) % 2 ^ 8;
  yr = (bcd_to_dec (read_cmos 0x09) + 2000) % 2 ^ 16;
}
