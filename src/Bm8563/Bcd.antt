-- ===== src/Bm8563/Bcd.antt =====
-- Packed decimal digits in the clock's registers.
use espp.Prelude.{
  ℕ, ◌+◌, ◌%◌, ◌^◌, ◌≤◌, ◌<◌, ◌≡◌, refl, ltb, ◌==◌, ==_iff, Bool, true, false, if◌then◌else◌, arith,
  bit_and, bit_or,
}
use espp.Prelude.Bits.{every_below, every_below_sound}
use espp.Bm8563.{Date, Time, bcd2byte, byte2bcd, date_bytes, bytes_date, time_bytes, bytes_time}

-- The dates that the registers can hold. A month's days are not counted: 31 is the bound.
pub record IsDate (d : Date) : Type 0 where
  pub year_from : 1900 ≤ d.year
  pub year_to : d.year < 2100
  pub month_to : d.month ≤ 12
  pub weekday_to : d.weekday < 7
  pub day_to : d.day ≤ 31

pub record IsTime (t : Time) : Type 0 where
  pub hour_to : t.hour < 24
  pub minute_to : t.minute < 60
  pub second_to : t.second < 60

low_digits : ℕ → ℕ → Bool
unfolding bcd2byte byte2bcd
low_digits mask x = bcd2byte (bit_and (byte2bcd x) mask) == x

low :
    (n mask x : ℕ)
    → every_below n (low_digits mask) ≡ true
    → x < n
    → bcd2byte (bit_and (byte2bcd x) mask) ≡ x
unfolding low_digits
low n mask x h small =
    (==_iff (bcd2byte (bit_and (byte2bcd x) mask)) x).0
      (every_below_sound n (low_digits mask) x h small)

days : every_below 32 (low_digits 63) ≡ true
unfolding low_digits bcd2byte byte2bcd every_below
days = refl

weekdays : every_below 7 (low_digits 7) ≡ true
unfolding low_digits bcd2byte byte2bcd every_below
weekdays = refl

years : every_below 100 (low_digits 255) ≡ true
unfolding low_digits bcd2byte byte2bcd every_below
years = refl

minutes : every_below 60 (low_digits 127) ≡ true
unfolding low_digits bcd2byte byte2bcd every_below
minutes = refl

-- A month's byte with or without the century bit.
month_digits : ℕ → ℕ → Bool
unfolding bcd2byte byte2bcd
month_digits century x = bcd2byte (bit_and (bit_or (byte2bcd x) century % 2 ^ 8) 31) == x

century_bit : ℕ → ℕ → Bool
unfolding byte2bcd
century_bit century x = bit_and (bit_or (byte2bcd x) century % 2 ^ 8) 128 == century

month_fields :
    (century x : ℕ)
    → every_below 13 (month_digits century) ≡ true
    → every_below 13 (century_bit century) ≡ true
    → x < 13
    → (bcd2byte (bit_and (bit_or (byte2bcd x) century % 2 ^ 8) 31) ≡ x)
      × (bit_and (bit_or (byte2bcd x) century % 2 ^ 8) 128 ≡ century)
unfolding month_digits century_bit
month_fields century x h k small = (
  (==_iff (bcd2byte (bit_and (bit_or (byte2bcd x) century % 2 ^ 8) 31)) x).0
      (every_below_sound 13 (month_digits century) x h small),
  (==_iff (bit_and (bit_or (byte2bcd x) century % 2 ^ 8) 128) century).0
      (every_below_sound 13 (century_bit century) x k small),
)

months :
    (x : ℕ) (old : Bool)
    → x < 13
    → let century : ℕ = if old then 128 else 0 in
      (bcd2byte (bit_and (bit_or (byte2bcd x) century % 2 ^ 8) 31) ≡ x)
      × (bit_and (bit_or (byte2bcd x) century % 2 ^ 8) 128 ≡ century)
unfolding month_digits century_bit bcd2byte byte2bcd every_below
months x true small = month_fields 128 x refl refl small
months x false small = month_fields 0 x refl refl small

-- The bytes that are written for a date from 1900 to 2099 are read as that date.
pub bytes_date-date_bytes : (d : Date) → IsDate d → bytes_date (date_bytes d) ≡ d
unfolding bytes_date date_bytes
bytes_date-date_bytes d v =
    let (m, c) = months d.month (ltb d.year 2000) (omega (arith, v.month_to)) in
    rw
      (
        m,
        c,
        low 32 63 d.day days (omega (arith, v.day_to)),
        low 7 7 d.weekday weekdays v.weekday_to,
        low 100 255 (d.year % 100) years (omega arith),
      )
      (let y : (if (if ltb d.year 2000 then 128 else 0) == 0 then 2000 else 1900) + d.year % 100
            ≡ d.year =
          ground (arith, v.year_from, v.year_to) in
        rw y refl)

pub bytes_time-time_bytes : (t : Time) → IsTime t → bytes_time (time_bytes t) ≡ t
unfolding bytes_time time_bytes
bytes_time-time_bytes t v =
    rw
      (
        low 32 63 t.hour days (omega (arith, v.hour_to)),
        low 60 127 t.minute minutes v.minute_to,
        low 60 127 t.second minutes v.second_to,
      )
      refl
