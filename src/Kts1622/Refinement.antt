-- ===== src/Kts1622/Refinement.antt =====
-- Every writing operation of the GPIO expander leaves the registers that it should.
use espp.Prelude.{
  ℕ, suc, ◌+◌, ◌/◌, ◌%◌, ◌^◌, ◌≡◌, ◌≤◌, ◌<◌, refl, sym, ap, ◌∙◌, [], ◌∷◌, bit_and, arith,
}
use mathlib.Core.Path.{fun_ext, subst}
use espp.Prelude.Bits.{and_mask}
use espp.Peripheral.Sequences.{unless_error, modify}
use espp.Peripheral.{Config, ErrorCode, write_many_to_register, write_u8_to_register}
use espp.Peripheral.RegisterFile.{IsRegisterFile, stored}
use espp.Kts1622.{
  set_mask, clear_mask, output, output_ports, output_word, clear_pins, clear_pins_ports,
  clear_pins_word, set_pins, set_pins_ports, set_pins_word, set_port_output_drive_mode,
  enable_interrupt, enable_interrupt_ports, enable_interrupt_word, clear_interrupt,
  clear_interrupt_ports, clear_interrupt_word, clear_interrupts, set_direction, set_direction_ports,
  set_direction_word, set_polarity_inversion, set_polarity_inversion_ports,
  set_polarity_inversion_word, set_input_latch, set_input_latch_ports, set_input_latch_word,
  set_pull_resistor_for_pin, init, Masks, Port, port0, port1, push_pull, open_drain, PullResistor,
  no_pull, pull_up, pull_down, outport, polarity, configuration, input_latch, pull_enable,
  pull_select, int_mask, out_cfg, int_clear, drive_mask,
}
use espp.Peripheral.Effects.{
  Registers, put, alter, Does, Does-same, unless_error-Does, write_many-Does, write_u8-Does,
  modify-Does,
}
use espp.Kts1622.Operations.{
  Operation, perform, put_both, put_word, alter_both, pulled, driven, result, output_of,
  set_pins_of, clear_pins_of, output_both, set_pins_both, clear_pins_both, output_all, set_pins_all,
  clear_pins_all, drive_mode_of, interrupts_of, cleared_of, directions_of, polarity_of, latch_of,
  interrupts_both, cleared_both, directions_both, polarity_both, latch_both, interrupts_all,
  cleared_all, directions_all, polarity_all, latch_all, all_cleared, pull_of, initialized,
}

small : (reg : Port → ℕ) → (reg port0 < 255) → (reg port1 < 255) → (p : Port) → reg p + 1 ≤ 256
small reg h k port0 = omega (arith, h)
small reg h k port1 = omega (arith, k)

pub pair-put :
    (reg a b : ℕ) (f : Registers) → stored reg (a ∷ (b ∷ [])) f ≡ put (suc reg) b (put reg a f)
unfolding stored
pair-put reg a b f = fun_ext (λ r. ground arith)

low_byte : (v : ℕ) → bit_and v 0xFF ≡ v % 2 ^ 8
low_byte v = and_mask 8 v

module _ {S : Type 0} (config : Config S) (registers : S → Registers)
    (file : IsRegisterFile config registers) (narrow : config.reg_addr_size ≡ 1) where
  abbrev Meets : (S → ErrorCode × S) → (Registers → Registers) → Type 0
  Meets = Does registers

  -- Both bytes in one transfer.
  many-Meets :
      (reg : Port → ℕ) (a b : ℕ)
      → reg port1 ≡ suc (reg port0)
      → reg port0 + 2 ≤ 256
      → Meets (write_many_to_register config (reg port0) (a ∷ (b ∷ []))) (put_both reg a b)
  unfolding put_both
  many-Meets reg a b e h =
      Does-same config registers file narrow
        (write_many_to_register config (reg port0) (a ∷ (b ∷ [])))
        (stored (reg port0) (a ∷ (b ∷ []))) (put_both reg a b)
        (λ f. pair-put (reg port0) a b f ∙ ap (λ q. put q b (put (reg port0) a f)) (sym e))
        (write_many-Does config registers file narrow (reg port0) (a ∷ (b ∷ [])) h)

  then-Meets :
      (op1 op2 : S → ErrorCode × S) (e1 e2 : Registers → Registers)
      → Meets op1 e1
      → Meets op2 e2
      → Meets (λ bus. unless_error (op1 bus) op2) (λ f. e2 (e1 f))
  then-Meets = unless_error-Does config registers file narrow

  write-Meets :
      (reg : Port → ℕ) (p : Port) (v : ℕ)
      → (reg port0 < 255) × (reg port1 < 255)
      → Meets (write_u8_to_register config (reg p) v) (put (reg p) v)
  write-Meets reg p v h =
      write_u8-Does config registers file narrow (reg p) v (small reg (h.0) (h.1) p)

  alter-Meets :
      (reg : Port → ℕ) (p : Port) (change : ℕ → ℕ)
      → (reg port0 < 255) × (reg port1 < 255)
      → Meets (modify config (reg p) change) (alter (reg p) change)
  alter-Meets reg p change h =
      modify-Does config registers file narrow (reg p) change (small reg (h.0) (h.1) p)

  alter_both-Meets :
      (reg : Port → ℕ) (c0 c1 : ℕ → ℕ)
      → (reg port0 < 255) × (reg port1 < 255)
      → Meets
          (λ bus. unless_error (modify config (reg port0) c0 bus) (modify config (reg port1) c1))
          (alter_both reg c0 c1)
  unfolding alter_both
  alter_both-Meets reg c0 c1 h =
      then-Meets (modify config (reg port0) c0) (modify config (reg port1) c1)
        (alter (reg port0) c0) (alter (reg port1) c1) (alter-Meets reg port0 c0 h)
        (alter-Meets reg port1 c1 h)

  put_both-Meets :
      (reg : Port → ℕ) (a b : ℕ)
      → (reg port0 < 255) × (reg port1 < 255)
      → Meets
          (λ bus.
            unless_error
              (write_u8_to_register config (reg port0) a bus)
              (write_u8_to_register config (reg port1) b))
          (put_both reg a b)
  unfolding put_both
  put_both-Meets reg a b h =
      then-Meets (write_u8_to_register config (reg port0) a)
        (write_u8_to_register config (reg port1) b) (put (reg port0) a) (put (reg port1) b)
        (write-Meets reg port0 a h) (write-Meets reg port1 b h)

  pull-Meets :
      (p : Port) (v : ℕ) (m : PullResistor)
      → Meets (set_pull_resistor_for_pin config p v m) (pulled p v m)
  unfolding set_pull_resistor_for_pin pulled pull_enable pull_select
  pull-Meets p v no_pull = alter-Meets pull_enable p (clear_mask v) (omega arith)
  pull-Meets p v pull_up =
      then-Meets (modify config (pull_enable p) (set_mask v))
        (modify config (pull_select p) (set_mask v)) (alter (pull_enable p) (set_mask v))
        (alter (pull_select p) (set_mask v)) (alter-Meets pull_enable p (set_mask v) (omega arith))
        (alter-Meets pull_select p (set_mask v) (omega arith))
  pull-Meets p v pull_down =
      then-Meets (modify config (pull_enable p) (set_mask v))
        (modify config (pull_select p) (clear_mask v)) (alter (pull_enable p) (set_mask v))
        (alter (pull_select p) (clear_mask v))
        (alter-Meets pull_enable p (set_mask v) (omega arith))
        (alter-Meets pull_select p (clear_mask v) (omega arith))

  -- The halves of a word.
  halves-Meets :
      (op : ℕ → ℕ → S → ErrorCode × S) (e : ℕ → ℕ → Registers → Registers)
      → ((a b : ℕ) → Meets (op a b) (e a b))
      → (v : ℕ) → Meets (op (bit_and v 0xFF) (v / 2 ^ 8)) (e (v % 2 ^ 8) (v / 2 ^ 8))
  halves-Meets op e h v =
      subst (λ a. Meets (op (bit_and v 0xFF) (v / 2 ^ 8)) (e a (v / 2 ^ 8))) (low_byte v)
        (h (bit_and v 0xFF) (v / 2 ^ 8))

  many_word-Meets :
      (reg : Port → ℕ) (v : ℕ)
      → reg port1 ≡ suc (reg port0)
      → reg port0 + 2 ≤ 256
      → Meets
          (write_many_to_register config (reg port0) (bit_and v 0xFF ∷ (v / 2 ^ 8 ∷ [])))
          (put_word reg v)
  unfolding put_word
  many_word-Meets reg v e h =
      halves-Meets (λ a b. write_many_to_register config (reg port0) (a ∷ (b ∷ []))) (put_both reg)
        (λ a b. many-Meets reg a b e h) v

  init-Meets : (m : Masks) → Meets (init config m) (result (initialized m))
  unfolding init result put_both set_direction enable_interrupt configuration int_mask
  init-Meets m =
      then-Meets (write_u8_to_register config (configuration port0) m.port_0_direction_mask) _
        (put (configuration port0) m.port_0_direction_mask) _
        (write-Meets configuration port0 m.port_0_direction_mask (omega arith))
        (then-Meets (write_u8_to_register config (configuration port1) m.port_1_direction_mask) _
          (put (configuration port1) m.port_1_direction_mask) _
          (write-Meets configuration port1 m.port_1_direction_mask (omega arith))
          (put_both-Meets int_mask m.port_0_interrupt_mask m.port_1_interrupt_mask (omega arith)))

  -- On a file of registers with addresses of one byte, every operation that writes, on one port, on
  -- both or by a word, succeeds and leaves in the registers what its abstract effect says: the
  -- registers of its ports put or changed, the low byte of a word in that of port 0, and no other
  -- register touched.
  pub perform-Does : (op : Operation) → Meets (perform config op) (result op)
  unfolding perform result output set_pins clear_pins output_ports set_pins_ports clear_pins_ports
      output_word set_pins_word clear_pins_word set_port_output_drive_mode enable_interrupt
      clear_interrupt set_direction set_polarity_inversion set_input_latch enable_interrupt_ports
      clear_interrupt_ports set_direction_ports set_polarity_inversion_ports set_input_latch_ports
      enable_interrupt_word clear_interrupt_word set_direction_word set_polarity_inversion_word
      set_input_latch_word clear_interrupts outport polarity configuration input_latch int_mask
      int_clear out_cfg driven put_word
  perform-Does (output_of p v) = write-Meets outport p v (omega arith)
  perform-Does (set_pins_of p v) = alter-Meets outport p (set_mask v) (omega arith)
  perform-Does (clear_pins_of p v) = alter-Meets outport p (clear_mask v) (omega arith)
  perform-Does (output_both a b) = put_both-Meets outport a b (omega arith)
  perform-Does (set_pins_both a b) =
      alter_both-Meets outport (set_mask a) (set_mask b) (omega arith)
  perform-Does (clear_pins_both a b) =
      alter_both-Meets outport (clear_mask a) (clear_mask b) (omega arith)
  perform-Does (output_all v) =
      halves-Meets (output_ports config) (put_both outport)
        (λ a b. put_both-Meets outport a b (omega arith)) v
  perform-Does (set_pins_all v) =
      halves-Meets (set_pins_ports config) (λ a b. alter_both outport (set_mask a) (set_mask b))
        (λ a b. alter_both-Meets outport (set_mask a) (set_mask b) (omega arith)) v
  perform-Does (clear_pins_all v) =
      halves-Meets (clear_pins_ports config)
        (λ a b. alter_both outport (clear_mask a) (clear_mask b))
        (λ a b. alter_both-Meets outport (clear_mask a) (clear_mask b) (omega arith)) v
  perform-Does (drive_mode_of p push_pull) =
      modify-Does config registers file narrow out_cfg (clear_mask (drive_mask p)) (omega arith)
  perform-Does (drive_mode_of p open_drain) =
      modify-Does config registers file narrow out_cfg (set_mask (drive_mask p)) (omega arith)
  perform-Does (interrupts_of p v) = write-Meets int_mask p v (omega arith)
  perform-Does (cleared_of p v) = write-Meets int_clear p v (omega arith)
  perform-Does (directions_of p v) = write-Meets configuration p v (omega arith)
  perform-Does (polarity_of p v) = write-Meets polarity p v (omega arith)
  perform-Does (latch_of p v) = write-Meets input_latch p v (omega arith)
  perform-Does (interrupts_both a b) = many-Meets int_mask a b refl (omega arith)
  perform-Does (cleared_both a b) = many-Meets int_clear a b refl (omega arith)
  perform-Does (directions_both a b) = many-Meets configuration a b refl (omega arith)
  perform-Does (polarity_both a b) = many-Meets polarity a b refl (omega arith)
  perform-Does (latch_both a b) = many-Meets input_latch a b refl (omega arith)
  perform-Does (interrupts_all v) = many_word-Meets int_mask v refl (omega arith)
  perform-Does (cleared_all v) = many_word-Meets int_clear v refl (omega arith)
  perform-Does (directions_all v) = many_word-Meets configuration v refl (omega arith)
  perform-Does (polarity_all v) = many_word-Meets polarity v refl (omega arith)
  perform-Does (latch_all v) = many_word-Meets input_latch v refl (omega arith)
  perform-Does all_cleared = put_both-Meets int_clear 255 255 (omega arith)
  perform-Does (pull_of p v m) = pull-Meets p v m
  perform-Does (initialized m) = init-Meets m
