-- ===== src/Kts1622.antt =====
-- The GPIO expander of components/kts1622/include/kts1622.hpp, over the register access of its base
-- class. Overloads on one port, two bytes or a word have names of their own; `ec` is clear before.
mod Registers
mod Operations
mod Refinement
mod Interrupts
mod Words
mod Tests
use espp.Prelude.{
  ℕ, zero, suc, ◌+◌, ◌-◌, ◌*◌, ◌/◌, ◌%◌, ◌^◌, ◌==◌, Bool, true, false, List, [], ◌∷◌, bit_and,
  bit_or, if◌then◌else◌,
}
use espp.Peripheral.Sequences.{unless_error, with_high, modify}
use espp.Peripheral.{
  Config, ErrorCode, no_error, io_error, operation_not_supported, write_u8_to_register,
  write_u16_to_register, write_many_to_register, read_u8_from_register, read_many_from_register,
  write_back, Reading,
}
pub use Registers.{
  Port, port0, port1, InterruptType, level, rising, falling, change, OutputDriveMode, push_pull,
  open_drain, PullResistor, no_pull, pull_up, pull_down,
}
unfoldable pub use Registers.{
  inport, outport, polarity, configuration, input_latch, pull_enable, pull_select, int_mask,
  out_cfg, int_edge, int_clear, type_bits, drive_mask, expand,
}

pub record Masks : Type 0 where
  pub port_0_direction_mask : ℕ
  pub port_0_interrupt_mask : ℕ
  pub port_1_direction_mask : ℕ
  pub port_1_interrupt_mask : ℕ

abbrev pub set_mask : ℕ → ℕ → ℕ
set_mask mask data' = bit_or data' mask

abbrev pub clear_mask : ℕ → ℕ → ℕ
clear_mask mask data' = bit_and data' (255 - mask)

-- The two bytes of a read, with the bits of the mask set or cleared.
unfoldable pub directed : ℕ → Bool → List ℕ → List ℕ
directed mask direction [] = []
directed mask direction (d0 ∷ []) = d0 ∷ []
directed mask true (d0 ∷ (d1 ∷ rest)) =
    bit_or d0 (mask % 2 ^ 8) ∷ (bit_or d1 ((mask / 2 ^ 8) % 2 ^ 8) ∷ rest)
directed mask false (d0 ∷ (d1 ∷ rest)) =
    bit_and d0 (255 - mask % 2 ^ 8) ∷ (bit_and d1 (255 - (mask / 2 ^ 8) % 2 ^ 8) ∷ rest)

module _ {S : Type 0} (config : Config S) where
  unfoldable pub get_pins : Port → S → ErrorCode × ℕ × S
  get_pins port bus = read_u8_from_register config (inport port) bus

  unfoldable pub get_pins_word : S → ErrorCode × ℕ × S
  get_pins_word bus =
      with_high (read_u8_from_register config (inport port1))
        (read_u8_from_register config (inport port0) bus)

  unfoldable pub output : Port → ℕ → S → ErrorCode × S
  output port value bus = write_u8_to_register config (outport port) value bus

  unfoldable pub output_ports : ℕ → ℕ → S → ErrorCode × S
  output_ports p0 p1 bus = unless_error (output port0 p0 bus) (output port1 p1)

  unfoldable pub output_word : ℕ → S → ErrorCode × S
  output_word value bus =
      unless_error (output port0 (bit_and value 0xFF) bus) (output port1 (value / 2 ^ 8))

  unfoldable pub clear_pins : Port → ℕ → S → ErrorCode × S
  clear_pins port mask bus = modify config (outport port) (clear_mask mask) bus

  unfoldable pub clear_pins_ports : ℕ → ℕ → S → ErrorCode × S
  clear_pins_ports p0 p1 bus = unless_error (clear_pins port0 p0 bus) (clear_pins port1 p1)

  unfoldable pub clear_pins_word : ℕ → S → ErrorCode × S
  clear_pins_word mask bus =
      unless_error (clear_pins port0 (bit_and mask 0xFF) bus) (clear_pins port1 (mask / 2 ^ 8))

  unfoldable pub set_pins : Port → ℕ → S → ErrorCode × S
  set_pins port mask bus = modify config (outport port) (set_mask mask) bus

  unfoldable pub set_pins_ports : ℕ → ℕ → S → ErrorCode × S
  set_pins_ports p0 p1 bus = unless_error (set_pins port0 p0 bus) (set_pins port1 p1)

  unfoldable pub set_pins_word : ℕ → S → ErrorCode × S
  set_pins_word mask bus =
      unless_error (set_pins port0 (bit_and mask 0xFF) bus) (set_pins port1 (mask / 2 ^ 8))

  unfoldable pub get_output : Port → S → ErrorCode × ℕ × S
  get_output port bus = read_u8_from_register config (outport port) bus

  unfoldable pub get_output_word : S → ErrorCode × ℕ × S
  get_output_word bus =
      with_high (read_u8_from_register config (outport port1))
        (read_u8_from_register config (outport port0) bus)

  unfoldable pub set_port_output_drive_mode : Port → OutputDriveMode → S → ErrorCode × S
  set_port_output_drive_mode port open_drain bus =
      modify config out_cfg (set_mask (drive_mask port)) bus
  set_port_output_drive_mode port push_pull bus =
      modify config out_cfg (clear_mask (drive_mask port)) bus

  unfoldable pub enable_interrupt : Port → ℕ → S → ErrorCode × S
  enable_interrupt port mask bus = write_u8_to_register config (int_mask port) mask bus

  unfoldable pub enable_interrupt_ports : ℕ → ℕ → S → ErrorCode × S
  enable_interrupt_ports p0 p1 bus =
      write_many_to_register config (int_mask port0) (p0 ∷ p1 ∷ []) bus

  unfoldable pub enable_interrupt_word : ℕ → S → ErrorCode × S
  enable_interrupt_word mask bus = enable_interrupt_ports (bit_and mask 0xFF) (mask / 2 ^ 8) bus

  unfoldable pub configure_interrupt : Port → ℕ → InterruptType → S → ErrorCode × S
  configure_interrupt port mask type bus =
      write_u16_to_register config (int_edge port) (expand 8 mask (type_bits type)) bus

  unfoldable pub configure_interrupt_ports : ℕ → ℕ → InterruptType → S → ErrorCode × S
  configure_interrupt_ports p0 p1 type bus =
      unless_error (configure_interrupt port0 p0 type bus) (configure_interrupt port1 p1 type)

  unfoldable pub clear_interrupt : Port → ℕ → S → ErrorCode × S
  clear_interrupt port mask bus = write_u8_to_register config (int_clear port) mask bus

  unfoldable pub clear_interrupt_ports : ℕ → ℕ → S → ErrorCode × S
  clear_interrupt_ports p0 p1 bus =
      write_many_to_register config (int_clear port0) (p0 ∷ p1 ∷ []) bus

  unfoldable pub clear_interrupt_word : ℕ → S → ErrorCode × S
  clear_interrupt_word mask bus = clear_interrupt_ports (bit_and mask 0xFF) (mask / 2 ^ 8) bus

  unfoldable pub clear_interrupts : S → ErrorCode × S
  clear_interrupts bus =
      unless_error (write_u8_to_register config (int_clear port0) 0xFF bus)
        (write_u8_to_register config (int_clear port1) 0xFF)

  unfoldable pub set_direction : Port → ℕ → S → ErrorCode × S
  set_direction port mask bus = write_u8_to_register config (configuration port) mask bus

  unfoldable pub set_direction_ports : ℕ → ℕ → S → ErrorCode × S
  set_direction_ports p0 p1 bus =
      write_many_to_register config (configuration port0) (p0 ∷ p1 ∷ []) bus

  unfoldable pub set_direction_word : ℕ → S → ErrorCode × S
  set_direction_word mask bus = set_direction_ports (bit_and mask 0xFF) (mask / 2 ^ 8) bus

  unfoldable pub write_directed : ℕ → Bool → Reading S → ErrorCode × S
  write_directed mask direction (no_error, data', bus) =
      write_many_to_register config (configuration port0) (directed mask direction data') bus
  write_directed mask direction (io_error, data', bus) = (io_error, bus)
  write_directed mask direction (operation_not_supported, data', bus) =
      (operation_not_supported, bus)

  unfoldable pub set_direction_pins : ℕ → Bool → S → ErrorCode × S
  set_direction_pins mask direction bus =
      write_directed mask direction
        (read_many_from_register config (configuration port0) (0 ∷ 0 ∷ []) bus)

  unfoldable pub set_polarity_inversion : Port → ℕ → S → ErrorCode × S
  set_polarity_inversion port mask bus = write_u8_to_register config (polarity port) mask bus

  unfoldable pub set_polarity_inversion_ports : ℕ → ℕ → S → ErrorCode × S
  set_polarity_inversion_ports p0 p1 bus =
      write_many_to_register config (polarity port0) (p0 ∷ p1 ∷ []) bus

  unfoldable pub set_polarity_inversion_word : ℕ → S → ErrorCode × S
  set_polarity_inversion_word mask bus =
      set_polarity_inversion_ports (bit_and mask 0xFF) (mask / 2 ^ 8) bus

  unfoldable pub set_input_latch : Port → ℕ → S → ErrorCode × S
  set_input_latch port latch bus = write_u8_to_register config (input_latch port) latch bus

  unfoldable pub set_input_latch_ports : ℕ → ℕ → S → ErrorCode × S
  set_input_latch_ports p0 p1 bus =
      write_many_to_register config (input_latch port0) (p0 ∷ p1 ∷ []) bus

  unfoldable pub set_input_latch_word : ℕ → S → ErrorCode × S
  set_input_latch_word mask bus = set_input_latch_ports (bit_and mask 0xFF) (mask / 2 ^ 8) bus

  unfoldable pub set_pull_resistor_for_pin : Port → ℕ → PullResistor → S → ErrorCode × S
  set_pull_resistor_for_pin port pin_mask no_pull bus =
      modify config (pull_enable port) (clear_mask pin_mask) bus
  set_pull_resistor_for_pin port pin_mask pull_up bus =
      unless_error (modify config (pull_enable port) (set_mask pin_mask) bus)
        (modify config (pull_select port) (set_mask pin_mask))
  set_pull_resistor_for_pin port pin_mask pull_down bus =
      unless_error (modify config (pull_enable port) (set_mask pin_mask) bus)
        (modify config (pull_select port) (clear_mask pin_mask))

  unfoldable pub init : Masks → S → ErrorCode × S
  init masks bus = unless_error (set_direction port0 masks.port_0_direction_mask bus) (λ bus1.
      unless_error (set_direction port1 masks.port_1_direction_mask bus1) (λ bus2.
        unless_error (enable_interrupt port0 masks.port_0_interrupt_mask bus2)
          (enable_interrupt port1 masks.port_1_interrupt_mask)))
