-- ===== src/Mcp23x17/Effects.antt =====
-- What the operations of the MCP23x17 leave in its registers.
use espp.Prelude.{ℕ, ◌≡◌, ◌<◌, arith}
use espp.Peripheral.Sequences.{unless_error}
use espp.Peripheral.{Config, ErrorCode, write_u8_to_register}
use espp.Peripheral.RegisterFile.{IsRegisterFile}
use espp.Peripheral.Effects.{Registers, put, Does, unless_error-Does, write_u8-Does}
use espp.Mcp23x17.{
  side_a, side_b, SideMasks, set_direction, set_interrupt_on_change, init, iodir, gpinten,
}

module _ {S : Type 0} (config : Config S) (registers : S → Registers)
    (file : IsRegisterFile config registers) (narrow : config.reg_addr_size ≡ 1) where
  written :
      (reg byte : ℕ)
      → reg < 255
      → Does registers (write_u8_to_register config reg byte) (put reg byte)
  written reg byte h = write_u8-Does config registers file narrow reg byte (omega (arith, h))

  then-Does :
      (op1 op2 : S → ErrorCode × S) (e1 e2 : Registers → Registers)
      → Does registers op1 e1
      → Does registers op2 e2
      → Does registers (λ bus. unless_error (op1 bus) op2) (λ f. e2 (e1 f))
  then-Does = unless_error-Does config registers file narrow

  -- On a file of registers with addresses of one byte, `init` succeeds and leaves the four masks of
  -- the configuration in the direction and interrupt registers of both ports, with no other register
  -- touched.
  pub init-Does :
      (masks : SideMasks)
      → Does registers (init config masks) (λ f. put (gpinten side_b) masks.port_1_interrupt_mask (
          put (gpinten side_a) masks.port_0_interrupt_mask (
            put
              (iodir side_b)
              masks.port_1_direction_mask
              (put (iodir side_a) masks.port_0_direction_mask f))))
  unfolding init set_direction set_interrupt_on_change iodir gpinten
  init-Does m = then-Does _ _ _ _ (written 0 m.port_0_direction_mask (omega arith)) (
      then-Does _ _ _ _ (written 1 m.port_1_direction_mask (omega arith)) (
        then-Does _ _ _ _ (written 4 m.port_0_interrupt_mask (omega arith))
          (written 5 m.port_1_interrupt_mask (omega arith))))
