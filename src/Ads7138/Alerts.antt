-- ===== src/Ads7138/Alerts.antt =====
-- What set_analog_alert leaves in the registers: components/ads7138/include/ads7138.hpp.
use espp.Prelude.{
  ℕ, ◌+◌, ◌*◌, ◌^◌, ◌%◌, ◌/◌, ◌≡◌, ◌≤◌, refl, ap, ◌∙◌, sym, Bool, true, false, not, if◌then◌else◌,
  ltb, pos, arith,
}
use mathlib.Core.Bool.{false≢true}
use espp.Peripheral.{Config}
use espp.Peripheral.RegisterFile.{stored}
use espp.Peripheral.Effects.{Registers}
use espp.Ads7138.{
  Channel, AnalogEvent, inside, outside, Error, clear, Driver, switch, bit_of, analog_region,
  event_bytes, set_event_region, write_event, configure_event, set_analog_alert,
  enable_threshold_comparison, OutputMode, AlertLogic, configure_alert, logic_bits, is_open_drain,
}
use espp.Ads7138.Commands.{
  ch0, ch1, ch2, ch3, ch4, ch5, ch6, ch7, number, is_analog_input, set_bits,
}
use espp.Ads7138.OpcodeFile.{
  IsOpcodeFile, Works, switched, unless_failed-Works, write_block-Works, switch-Works,
}

unfoldable pub is_inside : AnalogEvent → Bool
is_inside inside = true
is_inside outside = false

number_small : (c : Channel) → 0x20 + number c * 4 + 4 ≤ 256
unfolding number
number_small ch0 = omega arith
number_small ch1 = omega arith
number_small ch2 = omega arith
number_small ch3 = omega arith
number_small ch4 = omega arith
number_small ch5 = omega arith
number_small ch6 = omega arith
number_small ch7 = omega arith

-- The registers after an alert is set up with the thresholds `low` and `high`.
unfoldable pub alerted : Channel → ℕ → ℕ → AnalogEvent → ℕ → Registers → Registers
alerted c low high event n f = switched true 0x01 0x10 (
    stored (0x20 + number c * 4) (event_bytes low high n)
      (switched (is_inside event) 0x1E (bit_of c) (switched true 0x14 (bit_of c) f)))

alerted-low :
    (c : Channel) (low high : ℕ) (event : AnalogEvent) (n : ℕ) (f : Registers)
    → alerted c low high event n f (0x23 + number c * 4) ≡ low / 2 ^ 4 % 2 ^ 8
unfolding alerted number event_bytes switched is_inside stored bit_of
alerted-low ch0 low high inside n f = refl
alerted-low ch0 low high outside n f = refl
alerted-low ch1 low high inside n f = refl
alerted-low ch1 low high outside n f = refl
alerted-low ch2 low high inside n f = refl
alerted-low ch2 low high outside n f = refl
alerted-low ch3 low high inside n f = refl
alerted-low ch3 low high outside n f = refl
alerted-low ch4 low high inside n f = refl
alerted-low ch4 low high outside n f = refl
alerted-low ch5 low high inside n f = refl
alerted-low ch5 low high outside n f = refl
alerted-low ch6 low high inside n f = refl
alerted-low ch6 low high outside n f = refl
alerted-low ch7 low high inside n f = refl
alerted-low ch7 low high outside n f = refl

alerted-high :
    (c : Channel) (low high : ℕ) (event : AnalogEvent) (n : ℕ) (f : Registers)
    → alerted c low high event n f (0x21 + number c * 4) ≡ high / 2 ^ 4 % 2 ^ 8
unfolding alerted number event_bytes switched is_inside stored bit_of
alerted-high ch0 low high inside n f = refl
alerted-high ch0 low high outside n f = refl
alerted-high ch1 low high inside n f = refl
alerted-high ch1 low high outside n f = refl
alerted-high ch2 low high inside n f = refl
alerted-high ch2 low high outside n f = refl
alerted-high ch3 low high inside n f = refl
alerted-high ch3 low high outside n f = refl
alerted-high ch4 low high inside n f = refl
alerted-high ch4 low high outside n f = refl
alerted-high ch5 low high inside n f = refl
alerted-high ch5 low high outside n f = refl
alerted-high ch6 low high inside n f = refl
alerted-high ch6 low high outside n f = refl
alerted-high ch7 low high inside n f = refl
alerted-high ch7 low high outside n f = refl

module _ {S : Type 0} (config : Config S) (registers : S → Registers)
    (file : IsOpcodeFile config registers) where
  region-Works :
      (c : Channel) (event : AnalogEvent)
      → Works registers
          (set_event_region config c (analog_region event))
          (switched (is_inside event) 0x1E (bit_of c))
  unfolding set_event_region analog_region is_inside switch
  region-Works c inside = switch-Works config registers file true 0x1E (bit_of c)
  region-Works c outside = switch-Works config registers file false 0x1E (bit_of c)

  -- What is asked of a channel that may be asked it.
  allowed-Works :
      (b : Bool) (x op : S → Error × S) (effect : Registers → Registers)
      → b ≡ true
      → Works registers op effect
      → Works registers (λ s. if not b then x s else op s) effect
  allowed-Works true x op effect e h = h
  allowed-Works false x op effect e h = absurd (false≢true e)

  within-Works :
      (b : Bool) (x op : S → Error × S) (effect : Registers → Registers)
      → b ≡ false
      → Works registers op effect
      → Works registers (λ s. if b then x s else op s) effect
  within-Works true x op effect e h = absurd (false≢true (sym e))
  within-Works false x op effect e h = h

  write_event-Works :
      (c : Channel) (low high n : ℕ)
      → n ≤ 15
      → Works registers
          (write_event config c low high (pos n))
          (stored (0x20 + number c * 4) (event_bytes low high n))
  unfolding write_event event_bytes
  write_event-Works c low high n h = within-Works (ltb 15 n) _ _ _ (ground (arith, h)) (
      write_block-Works config registers file (0x20 + number c * 4) (event_bytes low high n)
        (number_small c))

  module _ {V : Type 0} (mv_to_raw : V → ℕ) (d : Driver) (c : Channel)
      (analog : is_analog_input d c ≡ true) where
    configure_event-Works :
        (low high : V) (n : ℕ)
        → n ≤ 15
        → Works registers
            (configure_event config mv_to_raw d c low high (pos n))
            (stored (0x20 + number c * 4) (event_bytes (mv_to_raw low) (mv_to_raw high) n))
    unfolding configure_event
    configure_event-Works low high n h =
        allowed-Works (is_analog_input d c) _ _ _ analog
          (write_event-Works c (mv_to_raw low) (mv_to_raw high) n h)

    pub set_analog_alert-Works :
        (high_threshold_mv low_threshold_mv : V) (event : AnalogEvent) (n : ℕ)
        → n ≤ 15
        → Works registers
            (set_analog_alert config mv_to_raw d c high_threshold_mv low_threshold_mv event (pos n))
            (alerted c (mv_to_raw high_threshold_mv) (mv_to_raw low_threshold_mv) event n)
    unfolding set_analog_alert alerted enable_threshold_comparison set_bits switch
    set_analog_alert-Works high low event n h = allowed-Works (is_analog_input d c) _ _ _ analog (
        unless_failed-Works registers _ _ _ _
          (switch-Works config registers file true 0x14 (bit_of c))
          (unless_failed-Works registers _ _ _ _ (region-Works c event) (
            unless_failed-Works registers _ _ _ _ (configure_event-Works high low n h)
              (switch-Works config registers file true 0x01 0x10))))

    -- On a device whose write commands do what they say, an alert with a count from 0 to 15 on a
    -- channel that is an analog input succeeds, with the thresholds swapped: the register of the low
    -- threshold holds a byte of the raw value of the high one, bits 4 to 11, and the register of the
    -- high threshold that byte of the raw value of the low one.
    pub set_analog_alert-swapped :
        (high_threshold_mv low_threshold_mv : V) (event : AnalogEvent) (n : ℕ) (bus : S)
        → n ≤ 15
        → (bus' : S) × (set_analog_alert config mv_to_raw d c high_threshold_mv low_threshold_mv
              event
              (pos n)
              bus
            ≡ (clear, bus'))
          × (registers bus' (0x23 + number c * 4) ≡ mv_to_raw high_threshold_mv / 2 ^ 4 % 2 ^ 8)
          × (registers bus' (0x21 + number c * 4) ≡ mv_to_raw low_threshold_mv / 2 ^ 4 % 2 ^ 8)
    unfolding Works
    set_analog_alert-swapped high low event n bus h =
        let (bus', r, s) = set_analog_alert-Works high low event n h bus in
        (
          bus',
          r,
          ap (λ f. f (0x23 + number c * 4)) s
              ∙ alerted-low c (mv_to_raw high) (mv_to_raw low) event n (registers bus),
          ap (λ f. f (0x21 + number c * 4)) s
              ∙ alerted-high c (mv_to_raw high) (mv_to_raw low) event n (registers bus),
        )

  -- On such a device, setting up the ALERT pin succeeds. The bit of the drive is set for open drain
  -- and cleared for push-pull, the two bits of the logic are replaced by those that are asked for,
  -- and the window comparator is on; no other register changes.
  pub configure_alert-Works :
      (output_mode : OutputMode) (alert_logic : AlertLogic)
      → Works registers (configure_alert config output_mode alert_logic) (λ f.
        switched true 0x01 0x10 (
          switched true 0x17
            (logic_bits alert_logic)
            (switched false 0x17 0x03 (switched (is_open_drain output_mode) 0x17 0x04 f))))
  unfolding configure_alert enable_threshold_comparison switch
  configure_alert-Works output_mode alert_logic =
      unless_failed-Works registers _ _ _ _
        (switch-Works config registers file (is_open_drain output_mode) 0x17 0x04)
        (unless_failed-Works registers _ _ _ _ (switch-Works config registers file false 0x17 0x03)
          (unless_failed-Works registers _ _ _ _
            (switch-Works config registers file true 0x17 (logic_bits alert_logic))
            (switch-Works config registers file true 0x01 0x10)))
