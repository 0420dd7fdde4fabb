-- ===== src/Kts1622/Interrupts.antt =====
-- The interrupt types of the pins, the direction of single pins and the words that are read.
use espp.Prelude.{
  ℕ, suc, ◌+◌, ◌*◌, ◌/◌, ◌%◌, ◌^◌, ◌≡◌, ◌≤◌, ◌<◌, ◌==◌, ==_iff, refl, ap, ◌∙◌, Bool, true, false,
  ◌&&◌, arith,
}
use espp.Prelude.Bits.{every_below, every_below_sound}
use espp.Peripheral.{Config, write_u16_to_register}
use espp.Peripheral.RegisterFile.{IsRegisterFile}
use espp.Kts1622.{
  Port, port0, port1, InterruptType, level, rising, falling, change, configure_interrupt, expand,
  type_bits, int_edge,
}
use espp.Peripheral.Effects.{Registers, put, Does, Does-same, write_u16-Does}
use espp.Kts1622.Refinement.{pair-put}

-- The two bits of pin `i`, in the field `at` of a byte.
unfoldable pub pin_field : ℕ → ℕ → ℕ → ℕ → ℕ
pin_field mask type i at = (mask / 2 ^ i % 2) * type * 2 ^ (2 * at)

-- The fields of the four pins from `i` on, the first one lowest.
unfoldable pub four_pins : ℕ → ℕ → ℕ → ℕ
unfolding pin_field
four_pins mask type i =
    pin_field mask type i 0
    + pin_field mask type (i + 1) 1
    + pin_field mask type (i + 2) 2
    + pin_field mask type (i + 3) 3

abbrev expands : ℕ → ℕ → Bool
expands type mask =
    (expand 8 mask type / 2 ^ 8 % 2 ^ 8 == four_pins mask type 4)
    && (expand 8 mask type % 2 ^ 8 == four_pins mask type 0)

expands-all : (type : InterruptType) → every_below 256 (expands (type_bits type)) ≡ true
unfolding every_below expand four_pins pin_field type_bits
expands-all level = refl
expands-all rising = refl
expands-all falling = refl
expands-all change = refl

and-parts : (a b : Bool) → (a && b) ≡ true → (a ≡ true) × (b ≡ true)
and-parts true b h = (refl, h)
and-parts false b h = absurd (ground (arith, h))

expand-four_pins :
    (mask : ℕ) (type : InterruptType)
    → mask < 256
    → (expand 8 mask (type_bits type) / 2 ^ 8 % 2 ^ 8 ≡ four_pins mask (type_bits type) 4)
      × (expand 8 mask (type_bits type) % 2 ^ 8 ≡ four_pins mask (type_bits type) 0)
expand-four_pins mask type h =
    let (p, q) =
      and-parts _ _ (every_below_sound 256 (expands (type_bits type)) mask (expands-all type) h) in
    ((==_iff _ _).0 p, (==_iff _ _).0 q)

module _ {S : Type 0} (config : Config S) (registers : S → Registers)
    (file : IsRegisterFile config registers) (narrow : config.reg_addr_size ≡ 1) where
  edge-small : (p : Port) → int_edge p + 2 ≤ 256
  unfolding int_edge
  edge-small port0 = omega arith
  edge-small port1 = omega arith

  -- On a file of registers with addresses of one byte, `configure_interrupt` with a mask of 8 bits
  -- succeeds and leaves the two bits of the type for each pin of the mask, and zeros for the others:
  -- pins 4 to 7 in the first interrupt edge register of the port and pins 0 to 3 in the second, with
  -- no other register touched.
  pub configure_interrupt-Does :
      (port : Port) (mask : ℕ) (type : InterruptType)
      → mask < 256
      → Does registers (configure_interrupt config port mask type) (λ f.
        put
          (suc (int_edge port))
          (four_pins mask (type_bits type) 0)
          (put (int_edge port) (four_pins mask (type_bits type) 4) f))
  unfolding configure_interrupt
  configure_interrupt-Does port mask type h =
      let (hi, lo) = expand-four_pins mask type h in
      Does-same config registers file narrow
        (write_u16_to_register config (int_edge port) (expand 8 mask (type_bits type))) _ _
        (λ f.
          pair-put (int_edge port) _ _ f
          ∙ ap
              (λ b.
                put (suc (int_edge port)) (expand 8 mask (type_bits type) % 2 ^ 8)
                  (put (int_edge port) b f))
              hi
          ∙ ap
              (λ b.
                put (suc (int_edge port)) b
                  (put (int_edge port) (four_pins mask (type_bits type) 4) f))
              lo)
        (write_u16-Does config registers file narrow (int_edge port)
          (expand 8 mask (type_bits type)) (edge-small port))
