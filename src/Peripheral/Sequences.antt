-- ===== src/Peripheral/Sequences.antt =====
-- How drivers chain register accesses: `if (ec) return;`, two bytes read as a word, and a register
-- that is read, changed and written back. As in the pin functions of
-- components/kts1622/include/kts1622.hpp.
use espp.Prelude.{ℕ, ◌*◌, ◌^◌, bit_or}
use espp.Peripheral.{
  Config, ErrorCode, no_error, io_error, operation_not_supported, read_u8_from_register, write_back,
}

module _ {S : Type 0} where
  -- What follows `if (ec) return;`.
  unfoldable pub unless_error : ErrorCode × S → (S → ErrorCode × S) → ErrorCode × S
  unless_error (no_error, bus) next = next bus
  unless_error (io_error, bus) next = (io_error, bus)
  unless_error (operation_not_supported, bus) next = (operation_not_supported, bus)

  -- The second half of a read of both ports, with the first byte.
  unfoldable pub with_high : (S → ErrorCode × ℕ × S) → ErrorCode × ℕ × S → ErrorCode × ℕ × S
  with_high next (io_error, p0, bus) = (io_error, 0, bus)
  with_high next (operation_not_supported, p0, bus) = (operation_not_supported, 0, bus)
  with_high next (no_error, p0, bus) = both p0 (next bus)
    where
      both : ℕ → ErrorCode × ℕ × S → ErrorCode × ℕ × S
      both p0 (no_error, p1, bus) = (no_error, bit_or (p1 * 2 ^ 8) p0, bus)
      both p0 (io_error, p1, bus) = (io_error, 0, bus)
      both p0 (operation_not_supported, p1, bus) = (operation_not_supported, 0, bus)

module _ {S : Type 0} (config : Config S) where
  -- A register is read, changed and written back.
  unfoldable pub modify : ℕ → (ℕ → ℕ) → S → ErrorCode × S
  modify reg f bus = write_back f config reg (read_u8_from_register config reg bus)
