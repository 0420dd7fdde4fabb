-- ===== src/Peripheral.antt =====
-- The register access that every peripheral driver stands on: BasePeripheral
-- (components/base_peripheral/include/base_peripheral.hpp). The callbacks of its configuration are
-- the driver's user's: functions on the state `S` of the bus. The recursive mutex and the delay
-- between a write and a read are not modelled.
pub mod RegisterFile
pub mod Access
pub mod Sequences
pub mod Effects
mod Direct
pub mod Memory
mod Tests
use espp.Prelude.{
  ℕ, zero, suc, ◌+◌, ◌-◌, ◌*◌, ◌/◌, ◌%◌, ◌^◌, Bool, true, false, Option, none, some, List, [], ◌∷◌,
  ◌++◌, get_or, bit_and, bit_or,
}

-- What a `std::error_code` holds after an operation.
pub data ErrorCode : Type 0 where
  no_error : ErrorCode
  io_error : ErrorCode
  operation_not_supported : ErrorCode

-- A callback that reads is given the buffer as it is and returns it as it leaves it.
pub record Config (S : Type 0) : Type 0 where
  -- `none` where `UseAddress` is false
  pub address : Option ℕ
  -- the size of `RegisterAddressType`
  pub reg_addr_size : ℕ
  pub write : Option (Option ℕ → List ℕ → S → Bool × S)
  pub read : Option (Option ℕ → List ℕ → S → Bool × List ℕ × S)
  pub read_register : Option (Option ℕ → ℕ → List ℕ → S → Bool × List ℕ × S)
  pub write_then_read : Option (Option ℕ → List ℕ → List ℕ → S → Bool × List ℕ × S)

-- The error code after a callback.
abbrev pub code : Bool → ErrorCode
code true = no_error
code false = io_error

-- The bytes that stand in a buffer of a caller, and what the operation left on the bus.
abbrev pub Reading : Type 0 → Type 0
Reading S = ErrorCode × List ℕ × S

-- The bytes of a register's address, the most significant one first.
unfoldable pub register_bytes : ℕ → ℕ → List ℕ
register_bytes zero reg = []
register_bytes (suc n) reg = (reg / 2 ^ (8 * n)) % 2 ^ 8 ∷ register_bytes n reg

module _ {S : Type 0} where
  unfoldable pub write : Config S → List ℕ → S → ErrorCode × S
  write config bytes bus = elim config.write [
    | none ↦ (operation_not_supported, bus)
    | some f ↦ let (ok, bus') = f config.address bytes bus in (code ok, bus')
  ]

  unfoldable pub read : Config S → List ℕ → S → Reading S
  read config buffer bus = elim config.read [
    | none ↦ (operation_not_supported, buffer, bus)
    | some f ↦ let (ok, buffer', bus') = f config.address buffer bus in (code ok, buffer', bus')
  ]

  unfoldable pub read_register : Config S → ℕ → List ℕ → S → Reading S
  read_register config reg buffer bus = elim config.read_register [
    | none ↦ (operation_not_supported, buffer, bus)
    | some f ↦ let (ok, buffer', bus') = f config.address reg buffer bus in (code ok, buffer', bus')
  ]

  -- The second half of a write that is followed by a read.
  unfoldable pub read_after : Config S → List ℕ → ErrorCode × S → Reading S
  unfolding read
  read_after config buffer (no_error, bus) = read config buffer bus
  read_after config buffer (io_error, bus) = (io_error, buffer, bus)
  read_after config buffer (operation_not_supported, bus) = (operation_not_supported, buffer, bus)

  -- Without `write_then_read`, a write and a read of their own, if there are both callbacks.
  unfoldable pub write_and_read : Config S → List ℕ → List ℕ → S → Reading S
  unfolding write read_after
  write_and_read config bytes buffer bus = elim config.write [
    | none ↦ (operation_not_supported, buffer, bus)
    | some w ↦ elim config.read [
      | none ↦ (operation_not_supported, buffer, bus)
      | some r ↦ read_after config buffer (write config bytes bus)
    ]
  ]

  unfoldable pub write_then_read : Config S → List ℕ → List ℕ → S → Reading S
  unfolding write_and_read
  write_then_read config bytes buffer bus = elim config.write_then_read [
    | none ↦ write_and_read config bytes buffer bus
    | some f ↦
        let (ok, buffer', bus') = f config.address bytes buffer bus in (code ok, buffer', bus')
  ]

  unfoldable pub write_many_to_register : Config S → ℕ → List ℕ → S → ErrorCode × S
  unfolding write
  write_many_to_register config reg bytes bus =
      write config (register_bytes config.reg_addr_size reg ++ bytes) bus

  unfoldable pub write_u8_to_register : Config S → ℕ → ℕ → S → ErrorCode × S
  unfolding write
  write_u8_to_register config reg byte bus =
      write config (register_bytes config.reg_addr_size reg ++ (byte ∷ [])) bus

  unfoldable pub write_u16_to_register : Config S → ℕ → ℕ → S → ErrorCode × S
  unfolding write
  write_u16_to_register config reg word bus =
      write config
        (register_bytes config.reg_addr_size reg ++ ((word / 2 ^ 8) % 2 ^ 8 ∷ (word % 2 ^ 8) ∷ []))
        bus

  unfoldable pub read_many_from_register : Config S → ℕ → List ℕ → S → Reading S
  unfolding read_register write_then_read
  read_many_from_register config reg buffer bus = elim config.read_register [
    | none ↦ write_then_read config (register_bytes config.reg_addr_size reg) buffer bus
    | some f ↦ read_register config reg buffer bus
  ]

  -- Both ways of reading: only the one over `write_then_read` looks at the error.
  first_byte : Bool → Reading S → ErrorCode × ℕ × S
  first_byte checked (no_error, buffer, bus) = (no_error, get_or buffer 0 0, bus)
  first_byte true (io_error, buffer, bus) = (io_error, 0, bus)
  first_byte false (io_error, buffer, bus) = (io_error, get_or buffer 0 0, bus)
  first_byte true (operation_not_supported, buffer, bus) = (operation_not_supported, 0, bus)
  first_byte false (operation_not_supported, buffer, bus) =
      (operation_not_supported, get_or buffer 0 0, bus)

  unfoldable pub read_u8_from_register : Config S → ℕ → S → ErrorCode × ℕ × S
  unfolding read_register write_then_read first_byte
  read_u8_from_register config reg bus = elim config.read_register [
    | none ↦
        first_byte true
          (write_then_read config (register_bytes config.reg_addr_size reg) (0 ∷ []) bus)
    | some f ↦ first_byte false (read_register config reg (0 ∷ []) bus)
  ]

  first_word : Bool → Reading S → ErrorCode × ℕ × S
  first_word checked (no_error, buffer, bus) =
      (no_error, bit_or (get_or buffer 0 0 * 2 ^ 8) (get_or buffer 1 0), bus)
  first_word true (io_error, buffer, bus) = (io_error, 0, bus)
  first_word false (io_error, buffer, bus) =
      (io_error, bit_or (get_or buffer 0 0 * 2 ^ 8) (get_or buffer 1 0), bus)
  first_word true (operation_not_supported, buffer, bus) = (operation_not_supported, 0, bus)
  first_word false (operation_not_supported, buffer, bus) =
      (operation_not_supported, bit_or (get_or buffer 0 0 * 2 ^ 8) (get_or buffer 1 0), bus)

  -- The two bytes of the buffer are not initialised: `a` and `b` are what they happen to hold.
  unfoldable pub read_u16_from_register : (a b : ℕ) → Config S → ℕ → S → ErrorCode × ℕ × S
  unfolding read_register write_then_read first_word
  read_u16_from_register a b config reg bus = elim config.read_register [
    | none ↦
        first_word true
          (write_then_read config (register_bytes config.reg_addr_size reg) (a ∷ b ∷ []) bus)
    | some f ↦ first_word false (read_register config reg (a ∷ b ∷ []) bus)
  ]

  -- What a read-modify-write writes back, if the read succeeded.
  unfoldable pub write_back : (ℕ → ℕ) → Config S → ℕ → ErrorCode × ℕ × S → ErrorCode × S
  unfolding write_u8_to_register
  write_back change config reg (no_error, byte, bus) =
      write_u8_to_register config reg (change byte) bus
  write_back change config reg (io_error, byte, bus) = (io_error, bus)
  write_back change config reg (operation_not_supported, byte, bus) = (operation_not_supported, bus)

  unfoldable pub set_bits_in_register : Config S → ℕ → ℕ → S → ErrorCode × S
  unfolding read_u8_from_register write_back
  set_bits_in_register config reg mask bus =
      write_back (λ byte. bit_or byte mask) config reg (read_u8_from_register config reg bus)

  -- `~mask` of a byte, cut to a byte again.
  unfoldable pub clear_bits_in_register : Config S → ℕ → ℕ → S → ErrorCode × S
  unfolding read_u8_from_register write_back
  clear_bits_in_register config reg mask bus =
      write_back (λ byte. bit_and byte (255 - mask)) config reg
        (read_u8_from_register config reg bus)
