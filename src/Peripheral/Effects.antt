-- ===== src/Peripheral/Effects.antt =====
-- Register accesses as changes of a file of registers, and their sequences.
use espp.Prelude.{ℕ, ◌+◌, ◌*◌, ◌/◌, ◌%◌, ◌^◌, ◌≡◌, ◌≤◌, ap, ◌∙◌, List, [], ◌∷◌, length}
use mathlib.Core.Path.{fun_ext}
use espp.Peripheral.Sequences.{unless_error, modify}
use espp.Peripheral.{
  Config, ErrorCode, no_error, write_u8_to_register, write_u16_to_register, write_many_to_register,
  write_back,
}
use espp.Peripheral.RegisterFile.{IsRegisterFile, stored}
use espp.Peripheral.Access.{write_many-result, read_u8-result}

abbrev pub Registers : Type 0
Registers = ℕ → ℕ

abbrev pub put : ℕ → ℕ → Registers → Registers
put reg byte f = stored reg (byte ∷ []) f

abbrev pub alter : ℕ → (ℕ → ℕ) → Registers → Registers
alter reg change f = put reg (change (f reg)) f

-- An operation succeeds and changes the registers by `effect`.
unfoldable pub Does :
    {S : Type 0} → (S → Registers) → (S → ErrorCode × S) → (Registers → Registers) → Type 0
Does {S} registers operation effect =
    (bus : S)
    → (bus' : S) × (operation bus ≡ (no_error, bus')) × (registers bus' ≡ effect (registers bus))

module _ {S : Type 0} (config : Config S) (registers : S → Registers)
    (file : IsRegisterFile config registers) (narrow : config.reg_addr_size ≡ 1) where
  pub Does-same :
      (op : S → ErrorCode × S) (e1 e2 : Registers → Registers)
      → ((f : Registers) → e1 f ≡ e2 f)
      → Does registers op e1
      → Does registers op e2
  unfolding Does
  Does-same op e1 e2 h d bus = let (bus', r, s) = d bus in (bus', r, s ∙ h (registers bus))

  pub in_file : (reg n : ℕ) → reg + n ≤ 256 → reg + n ≤ 2 ^ (8 * config.reg_addr_size)
  in_file reg n h = rw narrow h

  pub unless_error-Does :
      (op1 op2 : S → ErrorCode × S) (e1 e2 : Registers → Registers)
      → Does registers op1 e1
      → Does registers op2 e2
      → Does registers (λ bus. unless_error (op1 bus) op2) (λ f. e2 (e1 f))
  unfolding Does unless_error
  unless_error-Does op1 op2 e1 e2 d1 d2 bus =
      let (bus1, r1, s1) = d1 bus in let (bus2, r2, s2) = d2 bus1 in (bus2, rw r1 r2, s2 ∙ ap e2 s1)

  pub write_many-Does :
      (reg : ℕ) (bytes : List ℕ)
      → reg + length bytes ≤ 256
      → Does registers (write_many_to_register config reg bytes) (stored reg bytes)
  unfolding Does
  write_many-Does reg bytes h bus = (
    file.written bus reg bytes,
    write_many-result config registers file reg bytes bus (in_file reg (length bytes) h),
    fun_ext (λ r. file.write_stores reg bytes bus r (in_file reg (length bytes) h)),
  )

  pub write_u8-Does :
      (reg byte : ℕ)
      → reg + 1 ≤ 256
      → Does registers (write_u8_to_register config reg byte) (put reg byte)
  unfolding write_u8_to_register write_many_to_register
  write_u8-Does reg byte h = write_many-Does reg (byte ∷ []) h

  pub write_u16-Does :
      (reg word : ℕ)
      → reg + 2 ≤ 256
      → Does registers
          (write_u16_to_register config reg word)
          (stored reg ((word / 2 ^ 8) % 2 ^ 8 ∷ ((word % 2 ^ 8) ∷ [])))
  unfolding write_u16_to_register write_many_to_register
  write_u16-Does reg word h = write_many-Does reg ((word / 2 ^ 8) % 2 ^ 8 ∷ ((word % 2 ^ 8) ∷ [])) h

  pub modify-Does :
      (reg : ℕ) (change : ℕ → ℕ)
      → reg + 1 ≤ 256
      → Does registers (modify config reg change) (alter reg change)
  unfolding Does modify write_back
  modify-Does reg change h bus =
      let start = file.after_read bus reg 1 in
      let kept : registers start ≡ registers bus = fun_ext (λ r. file.read_keeps reg 1 bus r) in
      let (bus', w, s) = write_u8-Does reg (change (registers bus reg)) h start in
      (
        bus',
        rw (read_u8-result config registers file reg bus (in_file reg 1 h)) w,
        s ∙ ap (put reg (change (registers bus reg))) kept,
      )
