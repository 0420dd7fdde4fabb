-- ===== src/Bm8563.antt =====
-- The real-time clock BM8563 (components/bm8563/include/bm8563.hpp) over the register access of
-- BasePeripheral.
use espp.Prelude.{
  ℕ, ◌+◌, ◌*◌, ◌/◌, ◌%◌, ◌^◌, List, [], ◌∷◌, ltb, ◌==◌, if◌then◌else◌, get_or, bit_and, bit_or,
}
use espp.Peripheral.{
  Config, ErrorCode, no_error, io_error, operation_not_supported, Reading, write_many_to_register,
  read_many_from_register,
}
mod Bcd
mod Clock
mod Tests

pub record Date : Type 0 where
  pub year : ℕ
  pub month : ℕ
  pub weekday : ℕ
  pub day : ℕ

pub record Time : Type 0 where
  pub hour : ℕ
  pub minute : ℕ
  pub second : ℕ

pub record DateTime : Type 0 where
  pub date : Date
  pub time : Time

-- `return {}`.
abbrev pub no_date : Date
no_date = record { year = 0; month = 0; weekday = 0; day = 0 }

abbrev pub no_time : Time
no_time = record { hour = 0; minute = 0; second = 0 }

abbrev pub no_date_time : DateTime
no_date_time = record { date = no_date; time = no_time }

pub bcd2byte : ℕ → ℕ
bcd2byte value = (value / 2 ^ 4 * 10 + bit_and value 15) % 2 ^ 8

pub byte2bcd : ℕ → ℕ
byte2bcd value = (value / 10 * 2 ^ 4 + value % 10) % 2 ^ 8

-- The bytes of `set_date`: `% 2 ^ 8` is the conversion to `uint8_t`.
unfoldable pub date_bytes : Date → List ℕ
unfolding byte2bcd
date_bytes d =
    byte2bcd d.day
    ∷ byte2bcd d.weekday
    ∷ (bit_or (byte2bcd d.month) (if ltb d.year 2000 then 128 else 0) % 2 ^ 8)
    ∷ byte2bcd (d.year % 100)
    ∷ []

unfoldable pub time_bytes : Time → List ℕ
unfolding byte2bcd
time_bytes t = byte2bcd t.second ∷ byte2bcd t.minute ∷ byte2bcd t.hour ∷ []

-- `base_year` is 1900 where the century bit is set.
unfoldable pub bytes_date : List ℕ → Date
unfolding bcd2byte
bytes_date data' = record {
  year =
      (if bit_and (get_or data' 2 0) 128 == 0 then 2000 else 1900)
      + bcd2byte (bit_and (get_or data' 3 0) 255);
  month = bcd2byte (bit_and (get_or data' 2 0) 31);
  weekday = bcd2byte (bit_and (get_or data' 1 0) 7);
  day = bcd2byte (bit_and (get_or data' 0 0) 63);
}

unfoldable pub bytes_time : List ℕ → Time
unfolding bcd2byte
bytes_time data' = record {
  hour = bcd2byte (bit_and (get_or data' 2 0) 63);
  minute = bcd2byte (bit_and (get_or data' 1 0) 127);
  second = bcd2byte (bit_and (get_or data' 0 0) 127);
}

module _ {S : Type 0} where
  date_read : Reading S → ErrorCode × Date × S
  unfolding bytes_date
  date_read (no_error, data', bus) = (no_error, bytes_date data', bus)
  date_read (io_error, data', bus) = (io_error, no_date, bus)
  date_read (operation_not_supported, data', bus) = (operation_not_supported, no_date, bus)

  time_read : Reading S → ErrorCode × Time × S
  unfolding bytes_time
  time_read (no_error, data', bus) = (no_error, bytes_time data', bus)
  time_read (io_error, data', bus) = (io_error, no_time, bus)
  time_read (operation_not_supported, data', bus) = (operation_not_supported, no_time, bus)

  -- The buffers of the two reads are not initialised: `before` is what they happen to hold.
  pub get_date : (before : List ℕ) → Config S → S → ErrorCode × Date × S
  unfolding date_read
  get_date before config bus = date_read (read_many_from_register config 5 before bus)

  pub get_time : (before : List ℕ) → Config S → S → ErrorCode × Time × S
  unfolding time_read
  get_time before config bus = time_read (read_many_from_register config 2 before bus)

  pub set_date : Config S → Date → S → ErrorCode × S
  unfolding date_bytes
  set_date config d bus = write_many_to_register config 5 (date_bytes d) bus

  pub set_time : Config S → Time → S → ErrorCode × S
  unfolding time_bytes
  set_time config t bus = write_many_to_register config 2 (time_bytes t) bus

  with_date : Time → ErrorCode × Date × S → ErrorCode × DateTime × S
  with_date t (no_error, d, bus) = (no_error, record { date = d; time = t }, bus)
  with_date t (io_error, d, bus) = (io_error, no_date_time, bus)
  with_date t (operation_not_supported, d, bus) = (operation_not_supported, no_date_time, bus)

  then_date : List ℕ → Config S → ErrorCode × Time × S → ErrorCode × DateTime × S
  unfolding with_date
  then_date date_before config (no_error, t, bus) = with_date t (get_date date_before config bus)
  then_date date_before config (io_error, t, bus) = (io_error, no_date_time, bus)
  then_date date_before config (operation_not_supported, t, bus) =
      (operation_not_supported, no_date_time, bus)

  pub get_date_time : (time_before date_before : List ℕ) → Config S → S → ErrorCode × DateTime × S
  unfolding then_date
  get_date_time time_before date_before config bus =
      then_date date_before config (get_time time_before config bus)

  then_time : Config S → Time → ErrorCode × S → ErrorCode × S
  then_time config t (no_error, bus) = set_time config t bus
  then_time config t (io_error, bus) = (io_error, bus)
  then_time config t (operation_not_supported, bus) = (operation_not_supported, bus)

  pub set_date_time : Config S → DateTime → S → ErrorCode × S
  unfolding then_time
  set_date_time config dt bus = then_time config dt.time (set_date config dt.date bus)

  -- The constructor's only transfer: both control registers are cleared.
  pub init : Config S → S → ErrorCode × S
  init config bus = write_many_to_register config 0 (0 ∷ 0 ∷ []) bus
