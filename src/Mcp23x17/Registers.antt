-- ===== src/Mcp23x17/Registers.antt =====
-- The register map of components/mcp23x17/include/mcp23x17.hpp.
use espp.Prelude.{ℕ}

pub data Side : Type 0 where
  side_a side_b : Side

unfoldable pub iodir : Side → ℕ
iodir side_a = 0x00
iodir side_b = 0x01

unfoldable pub iopol : Side → ℕ
iopol side_a = 0x02
iopol side_b = 0x03

unfoldable pub gpinten : Side → ℕ
gpinten side_a = 0x04
gpinten side_b = 0x05

unfoldable pub defval : Side → ℕ
defval side_a = 0x06
defval side_b = 0x07

unfoldable pub intcon : Side → ℕ
intcon side_a = 0x08
intcon side_b = 0x09

unfoldable pub iocon : ℕ
iocon = 0x0A

unfoldable pub gppu : Side → ℕ
gppu side_a = 0x0C
gppu side_b = 0x0D

unfoldable pub intcap : Side → ℕ
intcap side_a = 0x10
intcap side_b = 0x11

unfoldable pub gpio : Side → ℕ
gpio side_a = 0x12
gpio side_b = 0x13

unfoldable pub intpol_bit : ℕ
intpol_bit = 1

unfoldable pub mirror_bit : ℕ
mirror_bit = 6
