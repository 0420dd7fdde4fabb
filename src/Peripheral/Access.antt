-- ===== src/Peripheral/Access.antt =====
-- Register access on a register file.
use espp.Prelude.{
  ℕ, suc, ◌+◌, ◌-◌, ◌*◌, ◌/◌, ◌%◌, ◌^◌, ◌≤◌, ◌<◌, ◌≡◌, ◌≢◌, refl, ap, ◌∙◌, inl, inr, List, [], ◌∷◌,
  length, bit_and, bit_or, arith,
}
use espp.Prelude.Bits.{or_disjoint}
use espp.Peripheral.{
  Config, ErrorCode, no_error, write, read_register, write_then_read, write_many_to_register,
  write_u8_to_register, write_u16_to_register, read_many_from_register, read_u8_from_register,
  read_u16_from_register, set_bits_in_register, clear_bits_in_register,
}
use espp.Peripheral.RegisterFile.{IsRegisterFile, stored, span}

module _ {S : Type 0} (config : Config S) (registers : S → ℕ → ℕ)
    (file : IsRegisterFile config registers) where
  pub write_many-result :
      (reg : ℕ) (bytes : List ℕ) (bus : S)
      → reg + length bytes ≤ 2 ^ (8 * config.reg_addr_size)
      → write_many_to_register config reg bytes bus ≡ (no_error, file.written bus reg bytes)
  unfolding write_many_to_register write
  write_many-result reg bytes bus h = rw (file.writes, file.write_law reg bytes bus h) refl

  pub read_many-result :
      (reg : ℕ) (buffer : List ℕ) (bus : S)
      → reg + length buffer ≤ 2 ^ (8 * config.reg_addr_size)
      → read_many_from_register config reg buffer bus ≡ (
        no_error,
        span (registers bus) reg (length buffer),
        file.after_read bus reg (length buffer),
      )
  unfolding read_many_from_register read_register write_then_read
  read_many-result reg buffer bus h = elim file.read_law [
    | inl (f, e, law) ↦ rw (e, law reg buffer bus h) refl
    | inr (e, (f, e', law)) ↦ rw (e, e', law reg buffer bus h) refl
  ]

  pub read_u8-result :
      (reg : ℕ) (bus : S)
      → reg + 1 ≤ 2 ^ (8 * config.reg_addr_size)
      → read_u8_from_register config reg bus
        ≡ (no_error, registers bus reg, file.after_read bus reg 1)
  unfolding read_u8_from_register read_register write_then_read span
  read_u8-result reg bus h = elim file.read_law [
    | inl (f, e, law) ↦ rw (e, law reg (0 ∷ []) bus h) refl
    | inr (e, (f, e', law)) ↦ rw (e, e', law reg (0 ∷ []) bus h) refl
  ]

  read_u16-result :
      (a b reg : ℕ) (bus : S)
      → reg + 2 ≤ 2 ^ (8 * config.reg_addr_size)
      → read_u16_from_register a b config reg bus ≡ (
        no_error,
        bit_or (registers bus reg * 2 ^ 8) (registers bus (suc reg)),
        file.after_read bus reg 2,
      )
  unfolding read_u16_from_register read_register write_then_read span
  read_u16-result a b reg bus h = elim file.read_law [
    | inl (f, e, law) ↦ rw (e, law reg (a ∷ b ∷ []) bus h) refl
    | inr (e, (f, e', law)) ↦ rw (e, e', law reg (a ∷ b ∷ []) bus h) refl
  ]

  -- A word of 16 bits that `write_u16_to_register` writes to a register file within its addresses
  -- is what `read_u16_from_register` then reads, both without an error, whatever its local buffer
  -- held before.
  pub read_u16-write_u16 :
      (a b reg word : ℕ) (bus : S)
      → reg + 2 ≤ 2 ^ (8 * config.reg_addr_size)
      → word < 2 ^ 16
      → (bus' : S) × (write_u16_to_register config reg word bus ≡ (no_error, bus'))
        × (bus'' : S) × (read_u16_from_register a b config reg bus' ≡ (no_error, word, bus''))
  unfolding write_u16_to_register write stored
  read_u16-write_u16 a b reg word bus h small =
      let bytes : List ℕ = (word / 2 ^ 8) % 2 ^ 8 ∷ (word % 2 ^ 8) ∷ [] in
      let bus' = file.written bus reg bytes in
      let high : registers bus' reg ≡ word / 2 ^ 8 =
        file.write_stores reg bytes bus reg h ∙ ground arith in
      let whole : word / 2 ^ 8 * 2 ^ 8 + word % 2 ^ 8 ≡ word = omega arith in
      let low : registers bus' (suc reg) ≡ word % 2 ^ 8 =
        file.write_stores reg bytes bus (suc reg) h ∙ ground arith in
      (
        bus',
        rw (file.writes, file.write_law reg bytes bus h) refl,
        file.after_read bus' reg 2,
        read_u16-result a b reg bus' h
            ∙ rw (high, low)
                (rw
                  (or_disjoint 8 (word / 2 ^ 8 * 2 ^ 8) (word % 2 ^ 8) (omega arith) (omega arith))
                  (ap (λ w. (no_error, w, file.after_read bus' reg 2)) whole)),
      )

  write_u8-result :
      (reg byte : ℕ) (bus : S)
      → reg + 1 ≤ 2 ^ (8 * config.reg_addr_size)
      → write_u8_to_register config reg byte bus ≡ (no_error, file.written bus reg (byte ∷ []))
  unfolding write_u8_to_register write
  write_u8-result reg byte bus h = rw (file.writes, file.write_law reg (byte ∷ []) bus h) refl

  -- What a read-modify-write of a register leaves: the register changed, no other one.
  pub Changed : ℕ → (ℕ → ℕ) → S → ErrorCode × S → Type 0
  Changed reg change bus (error, bus') =
      (error ≡ no_error)
      × (registers bus' reg ≡ change (registers bus reg))
      × ((r : ℕ) → r ≢ reg → registers bus' r ≡ registers bus r)

  changed :
      (reg : ℕ) (change : ℕ → ℕ) (bus : S)
      → reg + 1 ≤ 2 ^ (8 * config.reg_addr_size)
      → Changed reg change bus
          (no_error, file.written (file.after_read bus reg 1) reg (change (registers bus reg) ∷ []))
  unfolding Changed stored
  changed reg change bus h =
      let byte = change (registers bus reg) in
      let kept = file.write_stores reg (byte ∷ []) (file.after_read bus reg 1) in
      (
        refl,
        kept reg h ∙ ground arith,
        λ r apart. kept r h ∙ ground arith ∙ file.read_keeps reg 1 bus r,
      )

  -- On a register file, `set_bits_in_register` and `clear_bits_in_register` succeed for a register
  -- within its addresses, set and clear the bits of the mask in that register and change no other.
  pub set_bits-Changed :
      (reg mask : ℕ) (bus : S)
      → reg + 1 ≤ 2 ^ (8 * config.reg_addr_size)
      → Changed reg (λ byte. bit_or byte mask) bus (set_bits_in_register config reg mask bus)
        × Changed reg
            (λ byte. bit_and byte (255 - mask))
            bus
            (clear_bits_in_register config reg mask bus)
  unfolding set_bits_in_register clear_bits_in_register
  set_bits-Changed reg mask bus h =
      let start = file.after_read bus reg 1 in
      let held = registers bus reg in
      (
        rw (read_u8-result reg bus h, write_u8-result reg (bit_or held mask) start h)
            (changed reg (λ byte. bit_or byte mask) bus h),
        rw (read_u8-result reg bus h, write_u8-result reg (bit_and held (255 - mask)) start h)
            (changed reg (λ byte. bit_and byte (255 - mask)) bus h),
      )
