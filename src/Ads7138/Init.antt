-- ===== src/Ads7138/Init.antt =====
-- What init leaves in the registers: components/ads7138/include/ads7138.hpp.
use espp.Prelude.{
  ◌&&◌, ◌≡◌, refl, ap, ◌∙◌, Bool, true, false, ◌||◌, List, All, if◌then◌else◌, bit_and, bit_or, ◌-◌,
}
use espp.Peripheral.{Config}
use espp.Peripheral.RegisterFile.{stored}
use espp.Peripheral.Effects.{Registers, put}
use espp.Ads7138.{Channel, append_channel_id, clear, Driver, switch, is_autonomous}
use espp.Ads7138.Commands.{
  is_digital_input, is_digital_output, is_analog_input, unless_failed, clear_bits,
}
use espp.Ads7138.Setup.{
  Setup, is_averaged, appends, set_append, formatted, with_driver, set_data_format,
  set_oversampling_ratio, set_statistics_enabled, init,
}
use espp.Ads7138.OpcodeFile.{
  IsOpcodeFile, Works, switched, unless_failed-Works, write_one-Works, switch-Works,
}
use espp.Ads7138.Masks.{is_set, mask-is_set, masks-is_set}
use espp.Ads7138.PinEffects.{switched-apart, put-apart}
use espp.Ads7138.Pins.{
  pins_set, pins_set-pin_cfg, pins_set-gpio_cfg, pins_set-auto_seq, pins_set-apart, set_pins-Works,
  pins_set-auto_seq_kept,
}

-- The driver after init.
unfoldable pub ready : Setup → Driver → Driver
ready setup d = record d {
  num_data_bytes = if is_averaged d.data_format && appends append_channel_id then 3 else 2;
  statistics_enabled = setup.statistics_on;
}

ready-allowed :
    {A : Type 0} (setup : Setup) (d : Driver) (outputs : List (Channel × A))
    → All (λ p. is_digital_output d (p.0) ≡ true) outputs
    → All (λ p. is_digital_output (ready setup d) (p.0) ≡ true) outputs
unfolding is_digital_output ready
ready-allowed setup d outputs h = h

-- The registers before the pins are set up.
abbrev prepared : Setup → Registers → Registers
prepared setup f =
    switched setup.statistics_on 0x01 0x20
      (put 0x03 setup.oversampling_ratio (switched true 0x02 0x10 (switched false 0x02 0x30 f)))

prepared-osr : (setup : Setup) (f : Registers) → prepared setup f 0x03 ≡ setup.oversampling_ratio
unfolding stored
prepared-osr setup f = switched-apart setup.statistics_on 0x01 0x20 0x03 _ refl

prepared-data :
    (setup : Setup) (f : Registers)
    → prepared setup f 0x02 ≡ bit_or (bit_and (f 0x02) (255 - 0x30)) 0x10
unfolding stored switched
prepared-data setup f =
    let appended = switched true 0x02 0x10 (switched false 0x02 0x30 f) in
    let sampled = put 0x03 setup.oversampling_ratio appended in
    switched-apart setup.statistics_on 0x01 0x20 0x02 sampled refl
    ∙ put-apart 0x03 setup.oversampling_ratio 0x02 appended refl

prepared-seq : (setup : Setup) (f : Registers) → prepared setup f 0x12 ≡ f 0x12
unfolding stored switched
prepared-seq setup f =
    let appended = switched true 0x02 0x10 (switched false 0x02 0x30 f) in
    let sampled = put 0x03 setup.oversampling_ratio appended in
    switched-apart setup.statistics_on 0x01 0x20 0x12 sampled refl
    ∙ put-apart 0x03 setup.oversampling_ratio 0x12 appended refl

module _ {S : Type 0} (config : Config S) (registers : S → Registers)
    (file : IsOpcodeFile config registers) where
  append-Works :
      Works registers
        (λ s. unless_failed (clear_bits config 0x02 0x30 s) (set_append config append_channel_id))
        (λ f. switched true 0x02 0x10 (switched false 0x02 0x30 f))
  unfolding set_append switch
  append-Works =
      unless_failed-Works registers _ _ _ _ (switch-Works config registers file false 0x02 0x30)
        (switch-Works config registers file true 0x02 0x10)

  module _ (d : Driver) (setup : Setup)
      (modes_allowed : All (λ p. is_digital_output d (p.0) ≡ true) setup.digital_output_modes)
      (values_allowed : All
        (λ p. is_digital_output d (p.0) ≡ true)
        setup.digital_output_values) where
    abbrev modes :
        All (λ p. is_digital_output (ready setup d) (p.0) ≡ true) setup.digital_output_modes
    modes = ready-allowed setup d setup.digital_output_modes modes_allowed

    abbrev values :
        All (λ p. is_digital_output (ready setup d) (p.0) ≡ true) setup.digital_output_values
    values = ready-allowed setup d setup.digital_output_values values_allowed

    abbrev outcome : Registers → Registers
    outcome f = pins_set config registers file (ready setup d) setup modes values (prepared setup f)

    init-result :
        (bus : S)
        → (bus' : S) × (init config setup (d, bus) ≡ (clear, (ready setup d, bus')))
          × (registers bus' ≡ outcome (registers bus))
    unfolding init ready set_data_format set_oversampling_ratio set_statistics_enabled Works
        with_driver formatted appends is_digital_output unless_failed
    init-result bus =
        let pins = pins_set config registers file (ready setup d) setup modes values in
        let (s1, r1, e1) = append-Works bus in
        let (s2, r2, e2) = write_one-Works config registers file 0x03 setup.oversampling_ratio s1 in
        let (s3, r3, e3) = switch-Works config registers file setup.statistics_on 0x01 0x20 s2 in
        let (s4, r4, e4) =
          set_pins-Works config registers file (ready setup d) setup modes values s3 in
        (
          s4,
          rw (r1) (rw (r2) (rw (r3) (rw r4 refl))),
          e4
              ∙ ap pins (
                  e3
                  ∙ ap (switched setup.statistics_on 0x01 0x20)
                      (e2 ∙ ap (put 0x03 setup.oversampling_ratio) e1)),
        )

    sequence-is_set :
        (f : Registers) (c : Channel) (b : Bool)
        → is_autonomous d.mode ≡ b
        → is_set c (outcome f 0x12) ≡ (if b then is_analog_input d c else is_set c (f 0x12))
    unfolding ready is_analog_input
    sequence-is_set f c true h =
        ap (is_set c) (
          pins_set-auto_seq config registers file (ready setup d) setup modes values
            (prepared setup f) h)
        ∙ mask-is_set c d.analog_inputs
    sequence-is_set f c false h = ap (is_set c) (
        pins_set-auto_seq_kept config registers file (ready setup d) setup modes values
          (prepared setup f) h
        ∙ prepared-seq setup f)

    -- On a device whose write commands do what they say, and with output modes and values for
    -- channels that are digital outputs only, init succeeds. PIN_CFG then has a bit for exactly
    -- the digital inputs and outputs, and GPIO_CFG for exactly the outputs; AUTO_SEQ_CH_SEL has one
    -- for exactly the analog inputs in autonomous mode, and what it had before in the other modes.
    -- OSR_CFG holds the oversampling ratio, DATA_CFG appends the channel, and the driver keeps the
    -- number of data bytes and whether there are statistics.
    pub init-Configures :
        (bus : S)
        → (bus' : S) × (init config setup (d, bus) ≡ (clear, (ready setup d, bus')))
          × ((c : Channel)
              → is_set c (registers bus' 0x05) ≡ is_digital_input d c || is_digital_output d c)
          × ((c : Channel) → is_set c (registers bus' 0x07) ≡ is_digital_output d c)
          × ((c : Channel)
              → is_set c (registers bus' 0x12) ≡ (
                  if is_autonomous d.mode
                  then is_analog_input d c
                  else is_set c (registers bus 0x12)))
          × (registers bus' 0x03 ≡ setup.oversampling_ratio)
          × (registers bus' 0x02 ≡ bit_or (bit_and (registers bus 0x02) (255 - 0x30)) 0x10)
    unfolding ready is_digital_input is_digital_output is_analog_input is_set
    init-Configures bus =
        let f = prepared setup (registers bus) in
        let (bus', r, s) = init-result bus in
        (
          bus',
          r,
          λ c.
              ap (λ g. is_set c (g 0x05)) s
              ∙ ap (is_set c)
                  (pins_set-pin_cfg config registers file (ready setup d) setup modes values f)
              ∙ masks-is_set c d.digital_inputs d.digital_outputs,
          λ c.
              ap (λ g. is_set c (g 0x07)) s
              ∙ ap (is_set c)
                  (pins_set-gpio_cfg config registers file (ready setup d) setup modes values f)
              ∙ mask-is_set c d.digital_outputs,
          λ c.
              ap (λ g. is_set c (g 0x12)) s
              ∙ sequence-is_set (registers bus) c (is_autonomous d.mode) refl,
          ap (λ g. g 0x03) s
              ∙ pins_set-apart config registers file (ready setup d) setup modes values 0x03 f refl
                  refl refl refl refl refl refl
              ∙ prepared-osr setup (registers bus),
          ap (λ g. g 0x02) s
              ∙ pins_set-apart config registers file (ready setup d) setup modes values 0x02 f refl
                  refl refl refl refl refl refl
              ∙ prepared-data setup (registers bus),
        )
