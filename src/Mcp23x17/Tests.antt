-- ===== src/Mcp23x17/Tests.antt =====
-- The MCP23x17 on registers in memory.
use espp.Prelude.{refl}
use espp.Peripheral.Memory.{memory, memory-IsRegisterFile}
use espp.Peripheral.Effects.{Registers, put, Does}
use espp.Mcp23x17.{SideMasks, init, iodir, gpinten}
use espp.Mcp23x17.Effects.{init-Does}

abbrev masks : SideMasks
masks = record {
  port_0_direction_mask = 1;
  port_0_interrupt_mask = 2;
  port_1_direction_mask = 3;
  port_1_interrupt_mask = 4;
}

masks_set :
    Does
      (λ (bus : Registers). bus)
      (init memory masks)
      (λ f. put 5 4 (put 4 2 (put 1 3 (put 0 1 f))))
unfolding iodir gpinten
masks_set = init-Does memory (λ bus. bus) memory-IsRegisterFile refl masks
