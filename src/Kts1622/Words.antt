-- ===== src/Kts1622/Words.antt =====
-- Words of both ports: the outputs read back, and the direction of single pins.
use espp.Prelude.{
  ℕ, ◌+◌, ◌*◌, ◌/◌, ◌%◌, ◌^◌, ◌≡◌, ◌≤◌, ◌<◌, refl, ap, ◌∙◌, Bool, true, false, [], length, ◌∷◌,
  bit_or, arith,
}
use espp.Prelude.Bits.{or_disjoint}
use mathlib.Core.Path.{fun_ext}
use espp.Peripheral.Sequences.{with_high}
use espp.Peripheral.{Config, no_error}
use espp.Peripheral.RegisterFile.{IsRegisterFile, stored, span}
use espp.Peripheral.Access.{read_u8-result, read_many-result}
use espp.Kts1622.{
  output_word, get_output_word, outport, configuration, set_direction_pins, write_directed,
  directed, set_mask, clear_mask,
}
use espp.Peripheral.Effects.{Registers, Does, in_file, write_many-Does}
use espp.Kts1622.Operations.{output_all, perform, result, put_word, put_both, alter_both}
use espp.Kts1622.Refinement.{perform-Does}

word_parts : (value : ℕ) → value < 2 ^ 16 → bit_or (value / 2 ^ 8 * 2 ^ 8) (value % 2 ^ 8) ≡ value
word_parts value h =
    or_disjoint 8 (value / 2 ^ 8 * 2 ^ 8) (value % 2 ^ 8) (omega arith) (omega arith) ∙ omega arith

low_put : (v : ℕ) (f : Registers) → put_word outport v f 2 ≡ v % 2 ^ 8
unfolding put_word put_both outport stored
low_put v f = refl

high_put : (v : ℕ) (f : Registers) → put_word outport v f 3 ≡ v / 2 ^ 8
unfolding put_word put_both outport stored
high_put v f = refl

-- The direction of the pins of a mask.
unfoldable pub directions : ℕ → Bool → Registers → Registers
directions mask true f =
    alter_both configuration (set_mask (mask % 2 ^ 8)) (set_mask (mask / 2 ^ 8 % 2 ^ 8)) f
directions mask false f =
    alter_both configuration (clear_mask (mask % 2 ^ 8)) (clear_mask (mask / 2 ^ 8 % 2 ^ 8)) f

directed-directions :
    (mask : ℕ) (direction : Bool) (f : Registers)
    → stored 6 (directed mask direction (span f 6 2)) f ≡ directions mask direction f
unfolding directed directions alter_both configuration stored span
directed-directions mask true f = fun_ext (λ r. ground arith)
directed-directions mask false f = fun_ext (λ r. ground arith)

directed-fits :
    (mask : ℕ) (direction : Bool) (f : Registers)
    → 6 + length (directed mask direction (span f 6 2)) ≤ 256
unfolding directed span
directed-fits mask true f = omega arith
directed-fits mask false f = omega arith

module _ {S : Type 0} (config : Config S) (registers : S → Registers)
    (file : IsRegisterFile config registers) (narrow : config.reg_addr_size ≡ 1) where
  read_word-result :
      (bus : S)
      → (bus' : S) × (get_output_word config bus
          ≡ (no_error, bit_or (registers bus 3 * 2 ^ 8) (registers bus 2), bus'))
  unfolding get_output_word with_high outport
  read_word-result bus =
      let bus1 = file.after_read bus 2 1 in
      (
        file.after_read bus1 3 1,
        rw
            (
              read_u8-result config registers file 2 bus
                  (in_file config registers file narrow 2 1 (omega arith)),
              read_u8-result config registers file 3 bus1
                  (in_file config registers file narrow 3 1 (omega arith)),
              file.read_keeps 2 1 bus 3,
            )
            refl,
      )

  -- A word of 16 bits that `output` sets on both ports of a file of registers with addresses of one
  -- byte is the word that `get_output` then reads, both without an error.
  pub get_output_word-output_word :
      (value : ℕ) (bus : S)
      → value < 2 ^ 16
      → (bus1 : S) × (output_word config value bus ≡ (no_error, bus1))
        × (bus2 : S) × (get_output_word config bus1 ≡ (no_error, value, bus2))
  unfolding Does perform result
  get_output_word-output_word value bus h =
      let (bus1, r, s) = perform-Does config registers file narrow (output_all value) bus in
      let (bus2, q) = read_word-result bus1 in
      let low : registers bus1 2 ≡ value % 2 ^ 8 =
        ap (λ f. f 2) s ∙ low_put value (registers bus) in
      let high : registers bus1 3 ≡ value / 2 ^ 8 =
        ap (λ f. f 3) s ∙ high_put value (registers bus) in
      let whole : bit_or (registers bus1 3 * 2 ^ 8) (registers bus1 2) ≡ value =
        rw (high, low) (word_parts value h) in
      (bus1, r, bus2, q ∙ ap (λ w. (no_error, w, bus2)) whole)

  -- On a file of registers with addresses of one byte, the `set_direction` with a mask and a direction
  -- succeeds, and sets the bits of the mask in the two configuration registers for inputs and clears
  -- them for outputs, with the other bits and the other registers as they were.
  pub set_direction_pins-Does :
      (mask : ℕ) (direction : Bool)
      → Does registers (set_direction_pins config mask direction) (directions mask direction)
  unfolding Does set_direction_pins write_directed configuration
  set_direction_pins-Does mask direction bus =
      let start = file.after_read bus 6 2 in
      let kept : registers start ≡ registers bus = fun_ext (λ r. file.read_keeps 6 2 bus r) in
      let bytes = directed mask direction (span (registers bus) 6 2) in
      let (bus', w, s) =
        write_many-Does config registers file narrow 6 bytes
          (directed-fits mask direction (registers bus)) start in
      (
        bus',
        rw
            (read_many-result config registers file 6 (0 ∷ 0 ∷ []) bus
              (in_file config registers file narrow 6 2 (omega arith)))
            w,
        s ∙ ap (stored 6 bytes) kept ∙ directed-directions mask direction (registers bus),
      )
