-- ===== src/Ads7138.antt =====
-- The analog-to-digital converter of components/ads7138/include/ads7138.hpp, over the transfers of
-- its base class. `ec` is clear before an operation.
mod Commands
mod Setup
mod Readings
mod Statistics
mod Voltages
mod Conversions
mod OpcodeFile
mod Alerts
mod Masks
mod PinEffects
mod Pins
mod Init
mod Tests
use espp.Prelude.{
  Option, none, some, ℤ, pos, negsuc, ℕ, zero, suc, ◌+◌, ◌*◌, ◌/◌, ◌%◌, ◌^◌, ◌-◌, ◌==◌, ltb, Bool,
  true, false, not, List, [], ◌∷◌, bit_and, bit_or, if◌then◌else◌,
}
use espp.Peripheral.{Config}
pub use Commands.{
  Channel, Mode, manual, auto_seq, autonomous, OutputMode, open_drain, push_pull, DataFormat, raw,
  averaged, Append, append_none, append_channel_id, append_status, Error, clear, failed,
  invalid_argument, protocol_error, Driver,
}
use Commands.{
  number, is_digital_input, is_digital_output, is_analog_input, unless_failed, read_one, read_two,
  set_bits, clear_bits, write_one, write_block,
}

pub data AnalogEvent : Type 0 where
  outside inside : AnalogEvent

pub data DigitalEvent : Type 0 where
  high low : DigitalEvent

pub data EventRegion : Type 0 where
  outside_or_high inside_or_low : EventRegion

pub data AlertLogic : Type 0 where
  active_low active_high pulsed_low pulsed_high : AlertLogic

unfoldable pub logic_bits : AlertLogic → ℕ
logic_bits active_low = 0
logic_bits active_high = 1
logic_bits pulsed_low = 2
logic_bits pulsed_high = 3

unfoldable pub bit_of : Channel → ℕ
bit_of c = 2 ^ number c

unfoldable pub analog_region : AnalogEvent → EventRegion
analog_region inside = inside_or_low
analog_region outside = outside_or_high

unfoldable pub digital_region : DigitalEvent → EventRegion
digital_region high = outside_or_high
digital_region low = inside_or_low

unfoldable pub is_autonomous : Mode → Bool
is_autonomous manual = false
is_autonomous auto_seq = false
is_autonomous autonomous = true

unfoldable pub is_manual : Mode → Bool
is_manual manual = true
is_manual auto_seq = false
is_manual autonomous = false

unfoldable pub is_open_drain : OutputMode → Bool
is_open_drain open_drain = true
is_open_drain push_pull = false

-- `std::accumulate` with `bit_pred`.
unfoldable pub mask_of : List Channel → ℕ → ℕ
mask_of [] data' = data'
mask_of (c ∷ channels) data' = mask_of channels (bit_or data' (bit_of c))

-- The four registers of a channel, from the hysteresis on.
unfoldable pub event_bytes : ℕ → ℕ → ℕ → List ℕ
event_bytes low_threshold high_threshold event_count =
    bit_and high_threshold 0x0F * 2 ^ 4 % 2 ^ 8
    ∷ (high_threshold / 2 ^ 4 % 2 ^ 8
        ∷ (bit_or (bit_and low_threshold 0x0F * 2 ^ 4) event_count % 2 ^ 8
            ∷ (low_threshold / 2 ^ 4 % 2 ^ 8 ∷ [])))

module _ {S : Type 0} (config : Config S) where
  -- Sets the bits, or clears them.
  unfoldable pub switch : Bool → ℕ → ℕ → S → Error × S
  switch on reg bits s = if on then set_bits config reg bits s else clear_bits config reg bits s

  unfoldable pub enable_threshold_comparison : Bool → S → Error × S
  enable_threshold_comparison enable s = switch enable 0x01 0x10 s

  unfoldable pub configure_alert : OutputMode → AlertLogic → S → Error × S
  configure_alert output_mode alert_logic s =
      unless_failed (switch (is_open_drain output_mode) 0x17 0x04 s) (λ s1.
        unless_failed (clear_bits config 0x17 0x03 s1) (λ s2.
          unless_failed (set_bits config 0x17 (logic_bits alert_logic) s2)
            (enable_threshold_comparison true)))

  unfoldable pub set_event_region : Channel → EventRegion → S → Error × S
  set_event_region c inside_or_low s = set_bits config 0x1E (bit_of c) s
  set_event_region c outside_or_high s = clear_bits config 0x1E (bit_of c) s

  -- The count, where it is one from 0 to 15.
  unfoldable pub write_event : Channel → ℕ → ℕ → ℤ → S → Error × S
  write_event c low_threshold high_threshold (negsuc n) s = (invalid_argument, s)
  write_event c low_threshold high_threshold (pos n) s =
      if ltb 15 n
      then (invalid_argument, s)
      else write_block config (0x20 + number c * 4) (event_bytes low_threshold high_threshold n) s

  module _ {V : Type 0} (mv_to_raw : V → ℕ) (d : Driver) where
    unfoldable pub configure_event : Channel → V → V → ℤ → S → Error × S
    configure_event c low_threshold_mv high_threshold_mv event_count s =
        if not (is_analog_input d c)
        then (invalid_argument, s)
        else write_event c (mv_to_raw low_threshold_mv) (mv_to_raw high_threshold_mv) event_count s

    -- The thresholds are passed on as the caller orders them.
    unfoldable pub set_analog_alert : Channel → V → V → AnalogEvent → ℤ → S → Error × S
    set_analog_alert c high_threshold_mv low_threshold_mv event event_count s =
        if not (is_analog_input d c)
        then (invalid_argument, s)
        else unless_failed (set_bits config 0x14 (bit_of c) s) (λ s1.
          unless_failed (set_event_region c (analog_region event) s1) (λ s2.
            unless_failed (configure_event c high_threshold_mv low_threshold_mv event_count s2)
              (enable_threshold_comparison true)))

  module _ (d : Driver) where
    unfoldable pub set_digital_alert : Channel → DigitalEvent → S → Error × S
    set_digital_alert c event s =
        if not (is_digital_input d c)
        then (invalid_argument, s)
        else unless_failed (set_bits config 0x14 (bit_of c) s) (λ s1.
          unless_failed (set_event_region c (digital_region event) s1)
            (enable_threshold_comparison true))

    unfoldable pub set_digital_output_mode : Channel → OutputMode → S → Error × S
    set_digital_output_mode c output_mode s =
        if not (is_digital_output d c)
        then (invalid_argument, s)
        else switch (not (is_open_drain output_mode)) 0x09 (bit_of c) s

    unfoldable pub set_digital_output_value : Channel → Bool → S → Error × S
    set_digital_output_value c value s =
        if not (is_digital_output d c)
        then (invalid_argument, s)
        else switch value 0x0B (bit_of c) s

  -- `none` leaves the three flags of the caller as they were.
  unfoldable pub get_event_data : S → Error × Option (ℕ × ℕ × ℕ) × S
  get_event_data s = flags_read (read_one config 0x18 s)
    where
      cleared : ℕ → ℕ → ℕ → Error × S → Error × Option (ℕ × ℕ × ℕ) × S
      cleared flags up down r = (r.0, some (flags, up, down), r.1)

      low_read : ℕ → ℕ → Error × ℕ × S → Error × Option (ℕ × ℕ × ℕ) × S
      low_read flags up (clear, down, s) =
          cleared flags up down
            (unless_failed (set_bits config 0x1A up s) (set_bits config 0x1C down))
      low_read flags up (e, down, s) = (e, none, s)

      high_read : ℕ → Error × ℕ × S → Error × Option (ℕ × ℕ × ℕ) × S
      high_read flags (clear, up, s) = low_read flags up (read_one config 0x1C s)
      high_read flags (e, up, s) = (e, none, s)

      flags_read : Error × ℕ × S → Error × Option (ℕ × ℕ × ℕ) × S
      flags_read (clear, flags, s) = high_read flags (read_one config 0x1A s)
      flags_read (e, flags, s) = (e, none, s)
