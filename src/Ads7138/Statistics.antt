-- ===== src/Ads7138/Statistics.antt =====
-- The statistics, the event flags and the reset of the ADS7138: components/ads7138/include/
-- ads7138.hpp. The wait after a reset is not modelled.
use espp.Prelude.{ℕ, ◌+◌, ◌*◌, ◌^◌, not, List, [], ◌∷◌, get_or, bit_or, if◌then◌else◌}
use espp.Peripheral.{Config, ErrorCode, no_error, io_error, operation_not_supported}
use espp.Ads7138.{Channel, Error, clear, failed, invalid_argument, protocol_error, Driver}
use espp.Ads7138.Commands.{
  number, is_analog_input, read_one, read_two, read_block, set_bits, write_one,
}
use espp.Ads7138.Readings.{channels, values_read}

-- The values of the analog inputs by their channels, in the order of the channels.
unfoldable pub mapped_values : Driver → List ℕ → List Channel → List (Channel × ℕ)
mapped_values d raw_values [] = []
mapped_values d raw_values (c ∷ cs) =
    let rest = mapped_values d raw_values cs in
    if is_analog_input d c
    then (
      c,
      bit_or (get_or raw_values (number c * 2 + 1) 0 * 2 ^ 8) (get_or raw_values (number c * 2) 0),
    )
      ∷ rest
    else rest

unfoldable pub mapped_read :
    {S : Type 0} → Driver → ErrorCode × List ℕ × S → Error × List (Channel × ℕ) × S
mapped_read d (no_error, buffer, s) = (clear, mapped_values d buffer channels, s)
mapped_read d (io_error, buffer, s) = (failed io_error, [], s)
mapped_read d (operation_not_supported, buffer, s) = (failed operation_not_supported, [], s)

module _ {S : Type 0} (config : Config S) (d : Driver) where
  unfoldable pub read_max : Channel → List ℕ → S → Error × ℕ × S
  read_max c buffer s =
      if not (is_analog_input d c)
      then (invalid_argument, 0, s)
      else if not d.statistics_enabled
      then (protocol_error, 0, s)
      else read_two config (0x60 + number c * 2) buffer s

  unfoldable pub read_max_all : List ℕ → S → Error × List ℕ × S
  read_max_all raw_values s =
      if not d.statistics_enabled
      then (protocol_error, [], s)
      else values_read d (read_block config 0x60 raw_values s)

  unfoldable pub read_min : Channel → List ℕ → S → Error × ℕ × S
  read_min c buffer s =
      if not (is_analog_input d c)
      then (invalid_argument, 0, s)
      else if not d.statistics_enabled
      then (protocol_error, 0, s)
      else read_two config (0x80 + number c * 2) buffer s

  unfoldable pub read_min_all : List ℕ → S → Error × List ℕ × S
  read_min_all raw_values s =
      if not d.statistics_enabled
      then (protocol_error, [], s)
      else values_read d (read_block config 0x80 raw_values s)

  unfoldable pub read_mapped_recent_all : List ℕ → S → Error × List (Channel × ℕ) × S
  read_mapped_recent_all raw_values s =
      if not d.statistics_enabled
      then (protocol_error, [], s)
      else mapped_read d (read_block config 0xA0 raw_values s)

module _ {S : Type 0} (config : Config S) where
  unfoldable pub get_event_flags : S → Error × ℕ × S
  get_event_flags s = read_one config 0x18 s

  unfoldable pub get_event_high_flag : S → Error × ℕ × S
  get_event_high_flag s = read_one config 0x1A s

  unfoldable pub get_event_low_flag : S → Error × ℕ × S
  get_event_low_flag s = read_one config 0x1C s

  unfoldable pub clear_event_high_flag : ℕ → S → Error × S
  clear_event_high_flag flags s = set_bits config 0x1A flags s

  unfoldable pub clear_event_low_flag : ℕ → S → Error × S
  clear_event_low_flag flags s = set_bits config 0x1C flags s

  unfoldable pub get_digital_input_values : S → Error × ℕ × S
  get_digital_input_values s = read_one config 0x0D s

  unfoldable pub reset : S → Error × S
  reset s = write_one config 0x01 0x01 s
