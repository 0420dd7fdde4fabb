-- ===== src/Ads7138/Pins.antt =====
-- What the set-up of the pins leaves in the registers: components/ads7138/include/ads7138.hpp.
use espp.Prelude.{
  ℕ, ◌≡◌, ◌==◌, refl, ap, ◌∙◌, Bool, true, false, not, List, [], ◌∷◌, if◌then◌else◌, All,
}
use mathlib.Core.Bool.{false≢true}
use espp.Peripheral.{Config}
use espp.Peripheral.RegisterFile.{stored}
use espp.Peripheral.Effects.{Registers, put}
use espp.Ads7138.{
  Channel, OutputMode, Error, clear, protocol_error, Driver, switch, bit_of, mask_of, is_autonomous,
  is_manual, is_open_drain, set_digital_output_mode, set_digital_output_value,
}
use espp.Ads7138.Commands.{is_digital_output, unless_failed, set_bits, write_one}
use espp.Ads7138.Setup.{
  Setup, set_pin_configuration, set_digital_io_direction, set_analog_inputs, set_auto_conversion,
  set_sequence_mode, start_auto_conversion, set_operational_mode, set_output_modes,
  set_output_values, set_pins,
}
use espp.Ads7138.OpcodeFile.{
  IsOpcodeFile, Works, switched, unless_failed-Works, clear-Works, write_one-Works, switch-Works,
}
use espp.Ads7138.PinEffects.{
  driven, valued, sequenced, selected, put-apart, selected-apart, selected-here, selected-not,
  switched-apart, driven-apart, valued-apart, sequenced-apart,
}

module _ {S : Type 0} (config : Config S) (registers : S → Registers)
    (file : IsOpcodeFile config registers) (d : Driver) where
  allowed :
      (b : Bool) (x op : S → Error × S) (effect : Registers → Registers)
      → b ≡ true
      → Works registers op effect
      → Works registers (λ s. if not b then x s else op s) effect
  allowed true x op effect e h = h
  allowed false x op effect e h = absurd (false≢true e)

  modes-Works :
      (modes : List (Channel × OutputMode))
      → All (λ p. is_digital_output d (p.0) ≡ true) modes
      → Works registers (set_output_modes config d modes) (driven modes)
  unfolding set_output_modes driven set_digital_output_mode
  modes-Works [] h = clear-Works registers
  modes-Works ((c, m) ∷ modes) h =
      unless_failed-Works registers _ _ _ _
        (allowed (is_digital_output d c) _ _ _ (h.0)
          (switch-Works config registers file (not (is_open_drain m)) 0x09 (bit_of c)))
        (modes-Works modes (h.1))

  values-Works :
      (values : List (Channel × Bool))
      → All (λ p. is_digital_output d (p.0) ≡ true) values
      → Works registers (set_output_values config d values) (valued values)
  unfolding set_output_values valued set_digital_output_value
  values-Works [] h = clear-Works registers
  values-Works ((c, v) ∷ values) h =
      unless_failed-Works registers _ _ _ _
        (allowed (is_digital_output d c) _ _ _ (h.0)
          (switch-Works config registers file v 0x0B (bit_of c)))
        (values-Works values (h.1))

  -- The sequence is started only where the mode is not manual, which the start asks again.
  sequence-Works :
      (b : Bool)
      → Works registers
          (λ s.
            if b
            then set_sequence_mode config d false s
            else unless_failed
                (set_sequence_mode config d true s)
                (λ s. if b then (protocol_error, s) else set_bits config 0x10 0x10 s))
          (sequenced b)
  unfolding set_sequence_mode sequenced switch
  sequence-Works true = switch-Works config registers file false 0x10 0x01
  sequence-Works false =
      unless_failed-Works registers _ _ _ _ (switch-Works config registers file true 0x10 0x01)
        (switch-Works config registers file true 0x10 0x10)

  operational-Works :
      Works registers
        (set_operational_mode config d)
        (λ f. sequenced (is_manual d.mode) (switched (is_autonomous d.mode) 0x04 0x20 f))
  unfolding set_operational_mode set_auto_conversion start_auto_conversion
  operational-Works =
      unless_failed-Works registers _ _ _ _
        (switch-Works config registers file (is_autonomous d.mode) 0x04 0x20)
        (sequence-Works (is_manual d.mode))

  analog-Works :
      Works registers
        (set_analog_inputs config d)
        (selected (is_autonomous d.mode) (mask_of d.analog_inputs 0))
  unfolding set_analog_inputs selected
  analog-Works = choice (is_autonomous d.mode)
    where
      choice :
          (b : Bool)
          → Works registers
              (λ s. if b then write_one config 0x12 (mask_of d.analog_inputs 0) s else (clear, s))
              (selected b (mask_of d.analog_inputs 0))
      choice true = write_one-Works config registers file 0x12 (mask_of d.analog_inputs 0)
      choice false = clear-Works registers

  module _ (setup : Setup)
      (modes_allowed : All (λ p. is_digital_output d (p.0) ≡ true) setup.digital_output_modes)
      (values_allowed : All
        (λ p. is_digital_output d (p.0) ≡ true)
        setup.digital_output_values) where
    abbrev outputs_set : Registers → Registers
    outputs_set f = valued setup.digital_output_values (
        driven setup.digital_output_modes
          (put 0x05 (mask_of d.digital_outputs (mask_of d.digital_inputs 0)) f))

    abbrev pub pins_set : Registers → Registers
    pins_set f = sequenced (is_manual d.mode) (
        switched (is_autonomous d.mode) 0x04 0x20 (
          selected (is_autonomous d.mode) (mask_of d.analog_inputs 0)
            (put 0x07 (mask_of d.digital_outputs 0) (outputs_set f))))

    pub set_pins-Works : Works registers (set_pins config d setup) pins_set
    unfolding set_pins set_pin_configuration set_digital_io_direction
    set_pins-Works =
        unless_failed-Works registers _ _ _ _ (write_one-Works config registers file 0x05 _) (
          unless_failed-Works registers _ _ _ _
            (modes-Works setup.digital_output_modes modes_allowed)
            (unless_failed-Works registers _ _ _ _
              (values-Works setup.digital_output_values values_allowed)
              (unless_failed-Works registers _ _ _ _ (write_one-Works config registers file 0x07 _)
                (unless_failed-Works registers _ _ _ _ analog-Works operational-Works))))

    -- What the end of the set-up leaves of a register that it does not touch.
    ending :
        (r : ℕ) (f : Registers)
        → (r == 0x10) ≡ false
        → (r == 0x04) ≡ false
        → sequenced (is_manual d.mode) (switched (is_autonomous d.mode) 0x04 0x20 f) r ≡ f r
    ending r f h k =
        sequenced-apart (is_manual d.mode) r _ h
        ∙ switched-apart (is_autonomous d.mode) 0x04 0x20 r f k

    -- The registers that the set-up of the pins leaves alone.
    pub pins_set-apart :
        (r : ℕ) (f : Registers)
        → (r == 0x05) ≡ false
        → (r == 0x09) ≡ false
        → (r == 0x0B) ≡ false
        → (r == 0x07) ≡ false
        → (r == 0x12) ≡ false
        → (r == 0x04) ≡ false
        → (r == 0x10) ≡ false
        → pins_set f r ≡ f r
    pins_set-apart r f h5 h9 hb h7 h12 h4 h10 =
        ending r _ h10 h4
        ∙ selected-apart (is_autonomous d.mode) _ r _ h12
        ∙ put-apart 0x07 _ r _ h7
        ∙ valued-apart setup.digital_output_values r _ hb
        ∙ driven-apart setup.digital_output_modes r _ h9
        ∙ put-apart 0x05 _ r _ h5

    pin_cfg :
        (f : Registers)
        → outputs_set f 0x05 ≡ mask_of d.digital_outputs (mask_of d.digital_inputs 0)
    unfolding stored
    pin_cfg f =
        valued-apart setup.digital_output_values 0x05 _ refl
        ∙ driven-apart setup.digital_output_modes 0x05 _ refl

    pub pins_set-pin_cfg :
        (f : Registers) → pins_set f 0x05 ≡ mask_of d.digital_outputs (mask_of d.digital_inputs 0)
    pins_set-pin_cfg f =
        ending 0x05 _ refl refl
        ∙ selected-apart (is_autonomous d.mode) _ 0x05 _ refl
        ∙ put-apart 0x07 _ 0x05 _ refl
        ∙ pin_cfg f

    pub pins_set-gpio_cfg : (f : Registers) → pins_set f 0x07 ≡ mask_of d.digital_outputs 0
    unfolding stored
    pins_set-gpio_cfg f =
        ending 0x07 _ refl refl ∙ selected-apart (is_autonomous d.mode) _ 0x07 _ refl

    pub pins_set-auto_seq :
        (f : Registers) → is_autonomous d.mode ≡ true → pins_set f 0x12 ≡ mask_of d.analog_inputs 0
    pins_set-auto_seq f h = ending 0x12 _ refl refl ∙ selected-here (is_autonomous d.mode) _ _ h

    pub pins_set-auto_seq_kept :
        (f : Registers) → is_autonomous d.mode ≡ false → pins_set f 0x12 ≡ f 0x12
    pins_set-auto_seq_kept f h =
        ending 0x12 _ refl refl
        ∙ selected-not (is_autonomous d.mode) _ _ h
        ∙ put-apart 0x07 _ 0x12 _ refl
        ∙ valued-apart setup.digital_output_values 0x12 _ refl
        ∙ driven-apart setup.digital_output_modes 0x12 _ refl
        ∙ put-apart 0x05 _ 0x12 _ refl

    -- On a device whose write commands do what they say, and with output modes and values for
    -- channels that are digital outputs only, the set-up of the pins succeeds. PIN_CFG then holds
    -- what `mask_of` collects from the digital inputs and outputs, and GPIO_CFG what it collects from
    -- the outputs; in autonomous mode, AUTO_SEQ_CH_SEL holds what it collects from the analog inputs.
    pub set_pins-Configures :
        (bus : S)
        → (bus' : S) × (set_pins config d setup bus ≡ (clear, bus'))
          × (registers bus' 0x05 ≡ mask_of d.digital_outputs (mask_of d.digital_inputs 0))
          × (registers bus' 0x07 ≡ mask_of d.digital_outputs 0)
          × (is_autonomous d.mode ≡ true → registers bus' 0x12 ≡ mask_of d.analog_inputs 0)
    unfolding Works
    set_pins-Configures bus =
        let (bus', r, s) = set_pins-Works bus in
        (
          bus',
          r,
          ap (λ f. f 0x05) s ∙ pins_set-pin_cfg (registers bus),
          ap (λ f. f 0x07) s ∙ pins_set-gpio_cfg (registers bus),
          λ h. ap (λ f. f 0x12) s ∙ pins_set-auto_seq (registers bus) h,
        )
