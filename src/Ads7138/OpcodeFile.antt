-- ===== src/Ads7138/OpcodeFile.antt =====
-- The device that the driver expects on the bus: byte registers behind the commands of the ADS7138.
use espp.Prelude.{
  ℕ, ◌+◌, ◌-◌, ◌≡◌, ◌≤◌, refl, ap, ◌∙◌, Bool, true, false, List, [], ◌∷◌, length, bit_and, bit_or,
  if◌then◌else◌,
}
use espp.Peripheral.{Config, write}
use espp.Peripheral.RegisterFile.{stored}
use espp.Peripheral.Effects.{Registers, put, alter, Does}
use espp.Ads7138.{Error, clear, switch}
use espp.Ads7138.Commands.{
  error_of, unless_failed, command, set_bits, clear_bits, write_one, write_block,
}

-- Each command that writes succeeds: it stores a byte or a block, or sets or clears bits.
pub record IsOpcodeFile {S : Type 0} (config : Config S) (registers : S → Registers) : Type 0 where
  pub write_law :
      (reg value : ℕ) → Does registers (write config (0x08 ∷ (reg ∷ (value ∷ [])))) (put reg value)
  pub set_law :
      (reg bits : ℕ)
      → Does registers
          (write config (0x18 ∷ (reg ∷ (bits ∷ []))))
          (alter reg (λ byte. bit_or byte bits))
  pub clear_law :
      (reg bits : ℕ)
      → Does registers
          (write config (0x20 ∷ (reg ∷ (bits ∷ []))))
          (alter reg (λ byte. bit_and byte (255 - bits)))
  pub block_law :
      (reg : ℕ) (bytes : List ℕ)
      → reg + length bytes ≤ 256
      → Does registers (write config (0x28 ∷ (reg ∷ bytes))) (stored reg bytes)

-- An operation of the driver succeeds and changes the registers by `effect`.
unfoldable pub Works :
    {S : Type 0} → (S → Registers) → (S → Error × S) → (Registers → Registers) → Type 0
Works {S} registers operation effect =
    (bus : S)
    → (bus' : S) × (operation bus ≡ (clear, bus')) × (registers bus' ≡ effect (registers bus))

-- Bits of a register that are set, or cleared.
unfoldable pub switched : Bool → ℕ → ℕ → Registers → Registers
switched on reg bits f =
    if on
    then alter reg (λ byte. bit_or byte bits) f
    else alter reg (λ byte. bit_and byte (255 - bits)) f

module _ {S : Type 0} (registers : S → Registers) where
  pub unless_failed-Works :
      (op1 op2 : S → Error × S) (e1 e2 : Registers → Registers)
      → Works registers op1 e1
      → Works registers op2 e2
      → Works registers (λ bus. unless_failed (op1 bus) op2) (λ f. e2 (e1 f))
  unfolding Works unless_failed
  unless_failed-Works op1 op2 e1 e2 d1 d2 bus =
      let (bus1, r1, s1) = d1 bus in let (bus2, r2, s2) = d2 bus1 in (bus2, rw r1 r2, s2 ∙ ap e2 s1)

  pub clear-Works : Works registers (λ bus. (clear, bus)) (λ f. f)
  unfolding Works
  clear-Works bus = (bus, refl, refl)

module _ {S : Type 0} (config : Config S) (registers : S → Registers)
    (file : IsOpcodeFile config registers) where
  command-Works :
      (bytes : List ℕ) (effect : Registers → Registers)
      → Does registers (write config bytes) effect
      → Works registers (command config bytes) effect
  unfolding Works Does command error_of
  command-Works bytes effect d bus =
      let (bus', r, s) = d bus in (bus', ap (λ r. (error_of (r.0), r.1)) r, s)

  pub write_one-Works :
      (reg value : ℕ) → Works registers (write_one config reg value) (put reg value)
  unfolding write_one
  write_one-Works reg value = command-Works _ _ (file.write_law reg value)

  pub write_block-Works :
      (reg : ℕ) (bytes : List ℕ)
      → reg + length bytes ≤ 256
      → Works registers (write_block config reg bytes) (stored reg bytes)
  unfolding write_block
  write_block-Works reg bytes h = command-Works _ _ (file.block_law reg bytes h)

  pub switch-Works :
      (on : Bool) (reg bits : ℕ)
      → Works registers (switch config on reg bits) (switched on reg bits)
  unfolding switch set_bits clear_bits switched
  switch-Works true reg bits = command-Works _ _ (file.set_law reg bits)
  switch-Works false reg bits = command-Works _ _ (file.clear_law reg bits)
