-- ===== src/Kts1622/Operations.antt =====
-- The writing operations of the GPIO expander as data, and the registers that each should leave.
use espp.Prelude.{ℕ, ◌/◌, ◌%◌, ◌^◌}
use espp.Peripheral.{Config, ErrorCode}
use espp.Kts1622.{
  set_mask, clear_mask, output, output_ports, output_word, clear_pins, clear_pins_ports,
  clear_pins_word, set_pins, set_pins_ports, set_pins_word, set_port_output_drive_mode,
  enable_interrupt, enable_interrupt_ports, enable_interrupt_word, clear_interrupt,
  clear_interrupt_ports, clear_interrupt_word, clear_interrupts, set_direction, set_direction_ports,
  set_direction_word, set_polarity_inversion, set_polarity_inversion_ports,
  set_polarity_inversion_word, set_input_latch, set_input_latch_ports, set_input_latch_word,
  set_pull_resistor_for_pin, init, Masks, Port, port0, port1, OutputDriveMode, push_pull,
  open_drain, PullResistor, no_pull, pull_up, pull_down, outport, polarity, configuration,
  input_latch, pull_enable, pull_select, int_mask, out_cfg, int_clear, drive_mask,
}
use espp.Peripheral.Effects.{Registers, put, alter}

-- The operations that write, with the part of the pins they are for: a port or both.
pub data Operation : Type 0 where
  output_of set_pins_of clear_pins_of : Port → ℕ → Operation
  output_both set_pins_both clear_pins_both : ℕ → ℕ → Operation
  output_all set_pins_all clear_pins_all : ℕ → Operation
  drive_mode_of : Port → OutputDriveMode → Operation
  interrupts_of cleared_of directions_of polarity_of latch_of : Port → ℕ → Operation
  interrupts_both cleared_both directions_both polarity_both latch_both : ℕ → ℕ → Operation
  interrupts_all cleared_all directions_all polarity_all latch_all : ℕ → Operation
  all_cleared : Operation
  pull_of : Port → ℕ → PullResistor → Operation
  initialized : Masks → Operation

unfoldable pub perform : {S : Type 0} → Config S → Operation → S → ErrorCode × S
perform c (output_of p v) = output c p v
perform c (set_pins_of p v) = set_pins c p v
perform c (clear_pins_of p v) = clear_pins c p v
perform c (output_both a b) = output_ports c a b
perform c (set_pins_both a b) = set_pins_ports c a b
perform c (clear_pins_both a b) = clear_pins_ports c a b
perform c (output_all v) = output_word c v
perform c (set_pins_all v) = set_pins_word c v
perform c (clear_pins_all v) = clear_pins_word c v
perform c (drive_mode_of p m) = set_port_output_drive_mode c p m
perform c (interrupts_of p v) = enable_interrupt c p v
perform c (cleared_of p v) = clear_interrupt c p v
perform c (directions_of p v) = set_direction c p v
perform c (polarity_of p v) = set_polarity_inversion c p v
perform c (latch_of p v) = set_input_latch c p v
perform c (interrupts_both a b) = enable_interrupt_ports c a b
perform c (cleared_both a b) = clear_interrupt_ports c a b
perform c (directions_both a b) = set_direction_ports c a b
perform c (polarity_both a b) = set_polarity_inversion_ports c a b
perform c (latch_both a b) = set_input_latch_ports c a b
perform c (interrupts_all v) = enable_interrupt_word c v
perform c (cleared_all v) = clear_interrupt_word c v
perform c (directions_all v) = set_direction_word c v
perform c (polarity_all v) = set_polarity_inversion_word c v
perform c (latch_all v) = set_input_latch_word c v
perform c all_cleared = clear_interrupts c
perform c (pull_of p v m) = set_pull_resistor_for_pin c p v m
perform c (initialized m) = init c m

-- Both registers of a kind, and both halves of a word in them.
unfoldable pub put_both : (Port → ℕ) → ℕ → ℕ → Registers → Registers
put_both reg b0 b1 f = put (reg port1) b1 (put (reg port0) b0 f)

unfoldable pub put_word : (Port → ℕ) → ℕ → Registers → Registers
put_word reg v = put_both reg (v % 2 ^ 8) (v / 2 ^ 8)

-- A change of each of the two registers.
unfoldable pub alter_both : (Port → ℕ) → (ℕ → ℕ) → (ℕ → ℕ) → Registers → Registers
alter_both reg c0 c1 f = alter (reg port1) c1 (alter (reg port0) c0 f)

unfoldable pub pulled : Port → ℕ → PullResistor → Registers → Registers
pulled p v no_pull f = alter (pull_enable p) (clear_mask v) f
pulled p v pull_up f = alter (pull_select p) (set_mask v) (alter (pull_enable p) (set_mask v) f)
pulled p v pull_down f = alter (pull_select p) (clear_mask v) (alter (pull_enable p) (set_mask v) f)

unfoldable pub driven : Port → OutputDriveMode → ℕ → ℕ
driven p push_pull b = clear_mask (drive_mask p) b
driven p open_drain b = set_mask (drive_mask p) b

unfoldable pub result : Operation → Registers → Registers
result (output_of p v) = put (outport p) v
result (set_pins_of p v) = alter (outport p) (set_mask v)
result (clear_pins_of p v) = alter (outport p) (clear_mask v)
result (output_both a b) = put_both outport a b
result (set_pins_both a b) = alter_both outport (set_mask a) (set_mask b)
result (clear_pins_both a b) = alter_both outport (clear_mask a) (clear_mask b)
result (output_all v) = put_word outport v
result (set_pins_all v) = alter_both outport (set_mask (v % 2 ^ 8)) (set_mask (v / 2 ^ 8))
result (clear_pins_all v) = alter_both outport (clear_mask (v % 2 ^ 8)) (clear_mask (v / 2 ^ 8))
result (drive_mode_of p m) = alter out_cfg (driven p m)
result (interrupts_of p v) = put (int_mask p) v
result (cleared_of p v) = put (int_clear p) v
result (directions_of p v) = put (configuration p) v
result (polarity_of p v) = put (polarity p) v
result (latch_of p v) = put (input_latch p) v
result (interrupts_both a b) = put_both int_mask a b
result (cleared_both a b) = put_both int_clear a b
result (directions_both a b) = put_both configuration a b
result (polarity_both a b) = put_both polarity a b
result (latch_both a b) = put_both input_latch a b
result (interrupts_all v) = put_word int_mask v
result (cleared_all v) = put_word int_clear v
result (directions_all v) = put_word configuration v
result (polarity_all v) = put_word polarity v
result (latch_all v) = put_word input_latch v
result all_cleared = put_both int_clear 255 255
result (pull_of p v m) = pulled p v m
result (initialized m) = λ f.
    put_both int_mask m.port_0_interrupt_mask m.port_1_interrupt_mask
      (put_both configuration m.port_0_direction_mask m.port_1_direction_mask f)
