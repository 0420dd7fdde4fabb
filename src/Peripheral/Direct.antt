-- ===== src/Peripheral/Direct.antt =====
-- What a peripheral offers beside its registers: components/base_peripheral/include/
-- base_peripheral.hpp. The callback that probes is kept beside the configuration.
use espp.Prelude.{
  ℕ, ◌*◌, ◌/◌, ◌%◌, ◌^◌, Bool, false, Option, none, some, List, [], ◌∷◌, get_or, bit_or,
}
use espp.Peripheral.{Config, ErrorCode, no_error, operation_not_supported, Reading, write, read}

module _ {S : Type 0} where
  -- Without the callback, the peripheral is not found.
  unfoldable pub probe :
      Option (Option ℕ → S → Bool × S) → Config S → ErrorCode × S → ErrorCode × Bool × S
  probe none config (e, bus) = (operation_not_supported, false, bus)
  probe (some f) config (e, bus) = let (found, bus') = f config.address bus in (e, found, bus')

  abbrev pub set_address : ℕ → Config S → Config S
  set_address address config = record config { address = some address }

  abbrev pub set_write : Option (Option ℕ → List ℕ → S → Bool × S) → Config S → Config S
  set_write f config = record config { write = f }

  abbrev pub set_read : Option (Option ℕ → List ℕ → S → Bool × List ℕ × S) → Config S → Config S
  set_read f config = record config { read = f }

  abbrev pub set_read_register :
      Option (Option ℕ → ℕ → List ℕ → S → Bool × List ℕ × S) → Config S → Config S
  set_read_register f config = record config { read_register = f }

  abbrev pub set_write_then_read :
      Option (Option ℕ → List ℕ → List ℕ → S → Bool × List ℕ × S) → Config S → Config S
  set_write_then_read f config = record config { write_then_read = f }

  unfoldable pub write_many : Config S → List ℕ → S → ErrorCode × S
  write_many config bytes bus = write config bytes bus

  unfoldable pub write_u8 : Config S → ℕ → S → ErrorCode × S
  write_u8 config byte bus = write config (byte ∷ []) bus

  unfoldable pub write_u16 : Config S → ℕ → S → ErrorCode × S
  write_u16 config word bus = write config ((word / 2 ^ 8) % 2 ^ 8 ∷ (word % 2 ^ 8) ∷ []) bus

  unfoldable pub read_many : Config S → List ℕ → S → Reading S
  read_many config buffer bus = read config buffer bus

  unfoldable pub byte_of : Reading S → ErrorCode × ℕ × S
  byte_of (no_error, buffer, bus) = (no_error, get_or buffer 0 0, bus)
  byte_of (e, buffer, bus) = (e, 0, bus)

  unfoldable pub read_u8 : Config S → S → ErrorCode × ℕ × S
  read_u8 config bus = byte_of (read config (0 ∷ []) bus)

  unfoldable pub word_of : Reading S → ErrorCode × ℕ × S
  word_of (no_error, buffer, bus) =
      (no_error, bit_or (get_or buffer 0 0 * 2 ^ 8) (get_or buffer 1 0), bus)
  word_of (e, buffer, bus) = (e, 0, bus)

  -- The two bytes of the buffer are not initialised: `a` and `b` are what they happen to hold.
  unfoldable pub read_u16 : (a b : ℕ) → Config S → S → ErrorCode × ℕ × S
  read_u16 a b config bus = word_of (read config (a ∷ b ∷ []) bus)
