-- ===== src/Ads7138/Commands.antt =====
-- The commands of the ADS7138 and the driver's state: components/ads7138/include/ads7138.hpp.
use espp.Prelude.{ℕ, ◌*◌, ◌^◌, ◌==◌, Bool, false, ◌||◌, List, [], ◌∷◌, get_or, bit_or}
use espp.Peripheral.{
  Config, ErrorCode, no_error, io_error, operation_not_supported, write, write_then_read,
}

pub data Channel : Type 0 where
  ch0 ch1 ch2 ch3 ch4 ch5 ch6 ch7 : Channel

unfoldable pub number : Channel → ℕ
number ch0 = 0
number ch1 = 1
number ch2 = 2
number ch3 = 3
number ch4 = 4
number ch5 = 5
number ch6 = 6
number ch7 = 7

pub data Mode : Type 0 where
  manual auto_seq autonomous : Mode

pub data OutputMode : Type 0 where
  open_drain push_pull : OutputMode

pub data DataFormat : Type 0 where
  raw averaged : DataFormat

pub data Append : Type 0 where
  append_none append_channel_id append_status : Append

-- What `ec` holds: an error of the bus is `failed`.
pub data Error : Type 0 where
  clear : Error
  failed : ErrorCode → Error
  invalid_argument protocol_error : Error

pub record Driver : Type 0 where
  pub mode : Mode
  pub data_format : DataFormat
  pub statistics_enabled : Bool
  pub num_data_bytes : ℕ
  pub analog_inputs : List Channel
  pub digital_inputs : List Channel
  pub digital_outputs : List Channel

unfoldable pub has : List Channel → Channel → Bool
has [] c = false
has (d ∷ channels) c = (number d == number c) || has channels c

unfoldable pub is_digital_input : Driver → Channel → Bool
is_digital_input d c = has d.digital_inputs c

unfoldable pub is_digital_output : Driver → Channel → Bool
is_digital_output d c = has d.digital_outputs c

unfoldable pub is_analog_input : Driver → Channel → Bool
is_analog_input d c = has d.analog_inputs c

unfoldable pub error_of : ErrorCode → Error
error_of no_error = clear
error_of io_error = failed io_error
error_of operation_not_supported = failed operation_not_supported

module _ {S : Type 0} where
  -- What follows `if (ec) return;`.
  unfoldable pub unless_failed : Error × S → (S → Error × S) → Error × S
  unless_failed (clear, s) next = next s
  unless_failed (failed e, s) next = (failed e, s)
  unless_failed (invalid_argument, s) next = (invalid_argument, s)
  unless_failed (protocol_error, s) next = (protocol_error, s)

  unfoldable pub byte_read : ErrorCode × List ℕ × S → Error × ℕ × S
  byte_read (no_error, buffer, s) = (clear, get_or buffer 0 0, s)
  byte_read (io_error, buffer, s) = (failed io_error, 0, s)
  byte_read (operation_not_supported, buffer, s) = (failed operation_not_supported, 0, s)

  unfoldable pub word_read : ErrorCode × List ℕ × S → Error × ℕ × S
  word_read (no_error, buffer, s) =
      (clear, bit_or (get_or buffer 1 0 * 2 ^ 8) (get_or buffer 0 0), s)
  word_read (io_error, buffer, s) = (failed io_error, 0, s)
  word_read (operation_not_supported, buffer, s) = (failed operation_not_supported, 0, s)

module _ {S : Type 0} (config : Config S) where
  unfoldable pub command : List ℕ → S → Error × S
  command bytes s = let r = write config bytes s in (error_of (r.0), r.1)

  unfoldable pub read_one : ℕ → S → Error × ℕ × S
  read_one reg s = byte_read (write_then_read config (0x10 ∷ (reg ∷ [])) (0 ∷ []) s)

  -- The buffer is not set before it is read into; what it holds is a parameter.
  unfoldable pub read_block : ℕ → List ℕ → S → ErrorCode × List ℕ × S
  read_block reg buffer s = write_then_read config (0x30 ∷ (reg ∷ [])) buffer s

  unfoldable pub read_two : ℕ → List ℕ → S → Error × ℕ × S
  read_two reg buffer s = word_read (read_block reg buffer s)

  unfoldable pub set_bits : ℕ → ℕ → S → Error × S
  set_bits reg bit s = command (0x18 ∷ (reg ∷ (bit ∷ []))) s

  unfoldable pub clear_bits : ℕ → ℕ → S → Error × S
  clear_bits reg bit s = command (0x20 ∷ (reg ∷ (bit ∷ []))) s

  unfoldable pub write_one : ℕ → ℕ → S → Error × S
  write_one reg value s = command (0x08 ∷ (reg ∷ (value ∷ []))) s

  unfoldable pub write_block : ℕ → List ℕ → S → Error × S
  write_block reg bytes s = command (0x28 ∷ (reg ∷ bytes)) s
