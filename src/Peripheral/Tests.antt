-- ===== src/Peripheral/Tests.antt =====
-- Register access on a device that gives back what it was given.
use espp.Prelude.{ℕ, refl, Bool, true, Option, some, none, List, ◌∷◌, [], ◌≡◌}
use espp.Peripheral.{Config, read, no_error}
use espp.Peripheral.Direct.{read_u16, word_of}

-- A device that gives back the bytes that it was given.
abbrev echo_write : Option ℕ → List ℕ → List ℕ → Bool × List ℕ
echo_write address bytes bus = (true, bytes)

abbrev echo_read : Option ℕ → List ℕ → List ℕ → Bool × List ℕ × List ℕ
echo_read address buffer bus = (true, bus, bus)

abbrev echo : Config (List ℕ)
echo = record {
  address = some 8;
  reg_addr_size = 1;
  write = some echo_write;
  read = some echo_read;
  read_register = none;
  write_then_read = none;
}

echo_u16 : read_u16 7 7 echo (0x12 ∷ 0x34 ∷ []) ≡ (no_error, 0x1234, 0x12 ∷ 0x34 ∷ [])
unfolding read_u16 word_of read
echo_u16 = refl
