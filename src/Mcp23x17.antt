-- ===== src/Mcp23x17.antt =====
-- The GPIO expander of components/mcp23x17/include/mcp23x17.hpp, over the register access of its
-- base class. `ec` is clear before an operation.
mod Registers
mod Effects
mod Tests
use espp.Prelude.{ℕ, ◌*◌, ◌^◌, Bool, true, false, bit_and, bit_or}
use Prim.Native.Nat.{bit_xor}
use espp.Peripheral.Sequences.{unless_error, with_high, modify}
use espp.Peripheral.{
  Config, ErrorCode, no_error, io_error, operation_not_supported, write_u8_to_register,
  read_u8_from_register,
}
pub use Registers.{Side, side_a, side_b}
unfoldable pub use Registers.{
  iodir, iopol, gpinten, defval, intcon, iocon, gppu, intcap, gpio, mirror_bit, intpol_bit,
}

pub record SideMasks : Type 0 where
  pub port_0_direction_mask : ℕ
  pub port_0_interrupt_mask : ℕ
  pub port_1_direction_mask : ℕ
  pub port_1_interrupt_mask : ℕ

module _ {S : Type 0} where
  -- A byte that was read, 0 after an error.
  unfoldable pub byte_or_zero : ErrorCode × ℕ × S → ErrorCode × ℕ × S
  byte_or_zero (no_error, val, bus) = (no_error, val, bus)
  byte_or_zero (io_error, val, bus) = (io_error, 0, bus)
  byte_or_zero (operation_not_supported, val, bus) = (operation_not_supported, 0, bus)

module _ {S : Type 0} (config : Config S) where
  unfoldable pub get_pins : Side → S → ErrorCode × ℕ × S
  get_pins port bus = byte_or_zero (read_u8_from_register config (gpio port) bus)

  unfoldable pub get_all_pins : S → ErrorCode × ℕ × S
  get_all_pins bus =
      with_high (read_u8_from_register config (gpio side_b))
        (read_u8_from_register config (gpio side_a) bus)

  unfoldable pub set_pins : Side → ℕ → S → ErrorCode × S
  set_pins port output bus = write_u8_to_register config (gpio port) output bus

  unfoldable pub get_interrupt_capture : Side → S → ErrorCode × ℕ × S
  get_interrupt_capture port bus = byte_or_zero (read_u8_from_register config (intcap port) bus)

  unfoldable pub set_interrupt_on_change : Side → ℕ → S → ErrorCode × S
  set_interrupt_on_change port mask bus = write_u8_to_register config (gpinten port) mask bus

  unfoldable pub set_interrupt_on_value : Side → ℕ → ℕ → S → ErrorCode × S
  set_interrupt_on_value port pin_mask val_mask bus =
      unless_error (write_u8_to_register config (gpinten port) pin_mask bus) (λ bus1.
        unless_error (write_u8_to_register config (intcon port) pin_mask bus1)
          (write_u8_to_register config (defval port) val_mask))

  unfoldable pub set_direction : Side → ℕ → S → ErrorCode × S
  set_direction port mask bus = write_u8_to_register config (iodir port) mask bus

  unfoldable pub set_input_polarity : Side → ℕ → S → ErrorCode × S
  set_input_polarity port mask bus = write_u8_to_register config (iopol port) mask bus

  unfoldable pub set_pull_up : Side → ℕ → S → ErrorCode × S
  set_pull_up port mask bus = write_u8_to_register config (gppu port) mask bus

  unfoldable pub set_interrupt_mirror : Bool → S → ErrorCode × S
  set_interrupt_mirror true bus = modify config iocon (λ c. bit_and c (2 ^ mirror_bit)) bus
  set_interrupt_mirror false bus = modify config iocon (λ c. bit_xor c (2 ^ mirror_bit)) bus

  unfoldable pub set_interrupt_polarity : Bool → S → ErrorCode × S
  set_interrupt_polarity true bus = modify config iocon (λ c. bit_and c (2 ^ intpol_bit)) bus
  set_interrupt_polarity false bus = modify config iocon (λ c. bit_xor c (2 ^ intpol_bit)) bus

  unfoldable pub init : SideMasks → S → ErrorCode × S
  init masks bus = unless_error (set_direction side_a masks.port_0_direction_mask bus) (λ bus1.
      unless_error (set_direction side_b masks.port_1_direction_mask bus1) (λ bus2.
        unless_error (set_interrupt_on_change side_a masks.port_0_interrupt_mask bus2)
          (set_interrupt_on_change side_b masks.port_1_interrupt_mask)))
