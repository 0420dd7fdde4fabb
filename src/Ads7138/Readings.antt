-- ===== src/Ads7138/Readings.antt =====
-- What is read of the ADS7138, and the start of a conversion: components/ads7138/include/
-- ads7138.hpp.
use espp.Prelude.{
  resize, length, ℕ, ◌+◌, ◌*◌, ◌/◌, ◌%◌, ◌^◌, ◌==◌, Bool, true, false, not, List, [], ◌∷◌, get_or,
  bit_or, if◌then◌else◌,
}
use espp.Peripheral.{Config, ErrorCode, no_error, io_error, operation_not_supported}
use espp.Ads7138.{
  Channel, DataFormat, raw, averaged, Error, clear, failed, invalid_argument, protocol_error,
  Driver, bit_of, is_manual,
}
use espp.Ads7138.Commands.{
  ch0, ch1, ch2, ch3, ch4, ch5, ch6, ch7, number, is_digital_input, is_analog_input, unless_failed,
  read_one, read_two, read_block, set_bits, write_one,
}

-- A bit of what was read, `false` after an error.
unfoldable pub bit_read : {S : Type 0} → ℕ → Error × ℕ × S → Error × Bool × S
bit_read bit (clear, value, s) = (clear, value / bit % 2 == 1, s)
bit_read bit (failed e, value, s) = (failed e, false, s)
bit_read bit (invalid_argument, value, s) = (invalid_argument, false, s)
bit_read bit (protocol_error, value, s) = (protocol_error, false, s)

abbrev pub channels : List Channel
channels = ch0 ∷ (ch1 ∷ (ch2 ∷ (ch3 ∷ (ch4 ∷ (ch5 ∷ (ch6 ∷ (ch7 ∷ [])))))))

-- The values of the analog inputs among the channels, in the order of the channels.
unfoldable pub analog_values : Driver → List ℕ → List Channel → List ℕ
analog_values d raw_values [] = []
analog_values d raw_values (c ∷ cs) =
    let rest = analog_values d raw_values cs in
    if is_analog_input d c
    then bit_or (get_or raw_values (number c * 2 + 1) 0 * 2 ^ 8)
        (get_or raw_values (number c * 2) 0)
      ∷ rest
    else rest

unfoldable pub values_read : {S : Type 0} → Driver → ErrorCode × List ℕ × S → Error × List ℕ × S
values_read d (no_error, buffer, s) =
    (clear, resize (length d.analog_inputs) 0 (analog_values d buffer channels), s)
values_read d (io_error, buffer, s) = (failed io_error, [], s)
values_read d (operation_not_supported, buffer, s) = (failed operation_not_supported, [], s)

module _ {S : Type 0} (config : Config S) (d : Driver) where
  unfoldable pub get_digital_input_value : Channel → S → Error × Bool × S
  get_digital_input_value c s =
      if not (is_digital_input d c)
      then (invalid_argument, false, s)
      else bit_read (bit_of c) (read_one config 0x0D s)

  unfoldable pub read_recent : Channel → List ℕ → S → Error × ℕ × S
  read_recent c buffer s =
      if not (is_analog_input d c)
      then (invalid_argument, 0, s)
      else if not d.statistics_enabled
      then (protocol_error, 0, s)
      else read_two config (0xA0 + number c * 2) buffer s

  -- `raw_values` is the buffer of 16 bytes before it is read into.
  unfoldable pub read_recent_all : List ℕ → S → Error × List ℕ × S
  read_recent_all raw_values s =
      if not d.statistics_enabled
      then (protocol_error, [], s)
      else values_read d (read_block config 0xA0 raw_values s)

  unfoldable pub select_channel : Channel → S → Error × S
  select_channel c s =
      if not (is_manual d.mode) then (protocol_error, s) else write_one config 0x11 (number c) s

  unfoldable pub start_conversion : S → Error × S
  start_conversion s = set_bits config 0x01 0x08 s

  unfoldable pub trigger_conversion : Channel → S → Error × S
  trigger_conversion c s =
      if not (is_analog_input d c)
      then (invalid_argument, s)
      else unless_failed (select_channel c s) start_conversion

  unfoldable pub complete : DataFormat → S → Error × Bool × S
  complete raw s = (protocol_error, true, s)
  complete averaged s = bit_read 0x08 (read_one config 0x00 s)

  unfoldable pub conversion_complete : S → Error × Bool × S
  conversion_complete s = complete d.data_format s
