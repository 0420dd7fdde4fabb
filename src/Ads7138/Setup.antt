-- ===== src/Ads7138/Setup.antt =====
-- The set-up of the ADS7138: init of components/ads7138/include/ads7138.hpp. An operation that sets a
-- member of the driver has the driver as a part of its state.
use espp.Prelude.{ℕ, ◌&&◌, ◌==◌, Bool, true, false, List, [], ◌∷◌, if◌then◌else◌}
use espp.Peripheral.{Config}
use espp.Ads7138.{
  Channel, Mode, OutputMode, DataFormat, raw, averaged, Append, append_none, append_channel_id,
  append_status, Error, clear, protocol_error, Driver, switch, mask_of, is_autonomous, is_manual,
  set_digital_output_mode, set_digital_output_value,
}
use espp.Ads7138.Commands.{unless_failed, set_bits, clear_bits, write_one}

-- What init uses of the configuration; the maps of the outputs are lists in the order in which they
-- are walked.
pub record Setup : Type 0 where
  pub oversampling_ratio : ℕ
  pub statistics_on : Bool
  pub digital_output_modes : List (Channel × OutputMode)
  pub digital_output_values : List (Channel × Bool)

-- The members after the constructor, which then calls init if the configuration says so. The
-- ratio 0 is OversamplingRatio::NONE.
unfoldable pub new_driver : Mode → Setup → List Channel → List Channel → List Channel → Driver
new_driver mode setup analog_inputs digital_inputs digital_outputs = record {
  mode = mode;
  data_format = if setup.oversampling_ratio == 0 then raw else averaged;
  statistics_enabled = setup.statistics_on;
  num_data_bytes = 2;
  analog_inputs = analog_inputs;
  digital_inputs = digital_inputs;
  digital_outputs = digital_outputs;
}

unfoldable pub is_averaged : DataFormat → Bool
is_averaged raw = false
is_averaged averaged = true

unfoldable pub appends : Append → Bool
appends append_none = false
appends append_channel_id = true
appends append_status = true

module _ {S : Type 0} (config : Config S) where
  unfoldable pub set_append : Append → S → Error × S
  set_append append_none s = (clear, s)
  set_append append_channel_id s = set_bits config 0x02 0x10 s
  set_append append_status s = set_bits config 0x02 0x20 s

  -- The members that are set once the register is.
  unfoldable pub formatted : DataFormat → Append → Driver → S → Error × (Driver × S)
  formatted format append d s = (
    clear,
    (
      record d {
        num_data_bytes = if is_averaged format && appends append then 3 else 2;
        data_format = format;
      },
      s,
    ),
  )

  unfoldable pub with_driver : Driver → Error × S → Error × (Driver × S)
  with_driver d r = (r.0, (d, r.1))

  unfoldable pub set_data_format : DataFormat → Append → Driver × S → Error × (Driver × S)
  set_data_format format append (d, s) =
      unless_failed
        (with_driver d (unless_failed (clear_bits config 0x02 0x30 s) (set_append append)))
        (λ t. formatted format append (t.0) (t.1))

  unfoldable pub set_oversampling_ratio : ℕ → S → Error × S
  set_oversampling_ratio ratio s = write_one config 0x03 ratio s

  unfoldable pub set_statistics_enabled : Bool → Driver × S → Error × (Driver × S)
  set_statistics_enabled enabled (d, s) =
      unless_failed (with_driver d (switch config enabled 0x01 0x20 s))
        (λ t. (clear, (record (t.0) { statistics_enabled = enabled }, t.1)))

  module _ (d : Driver) where
    unfoldable pub set_pin_configuration : S → Error × S
    set_pin_configuration s =
        write_one config 0x05 (mask_of d.digital_outputs (mask_of d.digital_inputs 0)) s

    unfoldable pub set_digital_io_direction : S → Error × S
    set_digital_io_direction s = write_one config 0x07 (mask_of d.digital_outputs 0) s

    unfoldable pub set_analog_inputs : S → Error × S
    set_analog_inputs s =
        if is_autonomous d.mode
        then write_one config 0x12 (mask_of d.analog_inputs 0) s
        else (clear, s)

    unfoldable pub set_auto_conversion : Bool → S → Error × S
    set_auto_conversion enable s = switch config enable 0x04 0x20 s

    -- `true` is SequenceMode::AUTO.
    unfoldable pub set_sequence_mode : Bool → S → Error × S
    set_sequence_mode auto s = switch config auto 0x10 0x01 s

    unfoldable pub start_auto_conversion : S → Error × S
    start_auto_conversion s =
        if is_manual d.mode then (protocol_error, s) else set_bits config 0x10 0x10 s

    unfoldable pub stop_auto_conversion : S → Error × S
    stop_auto_conversion s =
        if is_manual d.mode then (protocol_error, s) else clear_bits config 0x10 0x10 s

    unfoldable pub set_operational_mode : S → Error × S
    set_operational_mode s = unless_failed (set_auto_conversion (is_autonomous d.mode) s) (λ s1.
        if is_manual d.mode
        then set_sequence_mode false s1
        else unless_failed (set_sequence_mode true s1) start_auto_conversion)

    unfoldable pub set_output_modes : List (Channel × OutputMode) → S → Error × S
    set_output_modes [] s = (clear, s)
    set_output_modes ((c, output_mode) ∷ modes) s =
        unless_failed (set_digital_output_mode config d c output_mode s) (set_output_modes modes)

    unfoldable pub set_output_values : List (Channel × Bool) → S → Error × S
    set_output_values [] s = (clear, s)
    set_output_values ((c, value) ∷ values) s =
        unless_failed (set_digital_output_value config d c value s) (set_output_values values)

    -- The part of init that leaves the members alone.
    unfoldable pub set_pins : Setup → S → Error × S
    set_pins setup s = unless_failed (set_pin_configuration s) (λ s1.
        unless_failed (set_output_modes setup.digital_output_modes s1) (λ s2.
          unless_failed (set_output_values setup.digital_output_values s2) (λ s3.
            unless_failed (set_digital_io_direction s3)
              (λ s4. unless_failed (set_analog_inputs s4) set_operational_mode))))

  unfoldable pub init : Setup → Driver × S → Error × (Driver × S)
  init setup (d, s) = unless_failed (set_data_format d.data_format append_channel_id (d, s)) (λ t1.
      unless_failed (with_driver (t1.0) (set_oversampling_ratio setup.oversampling_ratio (t1.1)))
        (λ t2.
          unless_failed (set_statistics_enabled setup.statistics_on t2)
            (λ t3. with_driver (t3.0) (set_pins (t3.0) setup (t3.1)))))
