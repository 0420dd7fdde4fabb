-- ===== src/Kts1622/Tests.antt =====
-- The GPIO expander on registers in memory.
use espp.Prelude.{◌≡◌, refl}
use espp.Kts1622.Interrupts.{four_pins}

-- Pin 0 is in the second register.
pin_0 : four_pins 1 1 0 ≡ 1
unfolding four_pins
pin_0 = refl
