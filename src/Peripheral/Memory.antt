-- ===== src/Peripheral/Memory.antt =====
-- A register file: 256 registers in memory, behind `write` and `write_then_read`.
use espp.Prelude.{
  ℕ, suc, ◌+◌, ◌*◌, ◌/◌, ◌%◌, ◌^◌, ◌≤◌, ◌≡◌, refl, inr, Bool, true, false, Option, none, some, List,
  [], ◌∷◌, ◌++◌, length, arith,
}
use espp.Peripheral.{Config, register_bytes}
use espp.Peripheral.RegisterFile.{IsRegisterFile, stored, span}

unfoldable pub memory_write : Option ℕ → List ℕ → (ℕ → ℕ) → Bool × (ℕ → ℕ)
memory_write address [] bus = (false, bus)
memory_write address (reg ∷ bytes) bus = (true, stored reg bytes bus)

unfoldable pub memory_read : Option ℕ → List ℕ → List ℕ → (ℕ → ℕ) → Bool × List ℕ × (ℕ → ℕ)
memory_read address [] buffer bus = (false, buffer, bus)
memory_read address (reg ∷ bytes) buffer bus = (true, span bus reg (length buffer), bus)

abbrev pub memory : Config (ℕ → ℕ)
memory = record {
  address = some 81;
  reg_addr_size = 1;
  write = some memory_write;
  read = none;
  read_register = none;
  write_then_read = some memory_read;
}

one_byte : (reg n : ℕ) → reg + suc n ≤ 2 ^ (8 * 1) → (reg / 2 ^ (8 * 0)) % 2 ^ 8 ≡ reg
one_byte reg n h = omega arith

memory_written :
    (reg : ℕ) (bytes : List ℕ) (bus : ℕ → ℕ)
    → reg + length bytes ≤ 2 ^ (8 * 1)
    → memory_write (some 81) (register_bytes 1 reg ++ bytes) bus ≡ (true, stored reg bytes bus)
unfolding memory_write register_bytes stored
memory_written reg [] bus h = refl
memory_written reg (b ∷ bytes) bus h = rw (one_byte reg (length bytes) h) refl

memory_shown :
    (reg : ℕ) (buffer : List ℕ) (bus : ℕ → ℕ)
    → reg + length buffer ≤ 2 ^ (8 * 1)
    → memory_read (some 81) (register_bytes 1 reg) buffer bus
      ≡ (true, span bus reg (length buffer), bus)
unfolding memory_read register_bytes span
memory_shown reg [] bus h = refl
memory_shown reg (b ∷ buffer) bus h = rw (one_byte reg (length buffer) h) refl

pub memory-IsRegisterFile : IsRegisterFile memory (λ bus. bus)
memory-IsRegisterFile = record {
  writer = memory_write;
  writes = refl;
  written = λ bus reg bytes. stored reg bytes bus;
  write_law = memory_written;
  write_stores = λ reg bytes bus r h. refl;
  after_read = λ bus reg n. bus;
  read_law = inr (refl, (memory_read, refl, memory_shown));
  read_keeps = λ reg n bus r. refl;
}
