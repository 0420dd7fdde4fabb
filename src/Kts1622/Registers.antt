-- ===== src/Kts1622/Registers.antt =====
-- The enumerations and the register map of components/kts1622/include/kts1622.hpp.
use espp.Prelude.{ℕ, zero, suc, ◌*◌, ◌/◌, ◌%◌, ◌^◌, ◌==◌, bit_or, if◌then◌else◌}

pub data Port : Type 0 where
  port0 port1 : Port

pub data InterruptType : Type 0 where
  level rising falling change : InterruptType

pub data OutputDriveMode : Type 0 where
  push_pull open_drain : OutputDriveMode

pub data PullResistor : Type 0 where
  no_pull pull_up pull_down : PullResistor

unfoldable pub inport : Port → ℕ
inport port0 = 0x00
inport port1 = 0x01

unfoldable pub outport : Port → ℕ
outport port0 = 0x02
outport port1 = 0x03

unfoldable pub polarity : Port → ℕ
polarity port0 = 0x04
polarity port1 = 0x05

unfoldable pub configuration : Port → ℕ
configuration port0 = 0x06
configuration port1 = 0x07

unfoldable pub input_latch : Port → ℕ
input_latch port0 = 0x44
input_latch port1 = 0x45

unfoldable pub pull_enable : Port → ℕ
pull_enable port0 = 0x46
pull_enable port1 = 0x47

unfoldable pub pull_select : Port → ℕ
pull_select port0 = 0x48
pull_select port1 = 0x49

unfoldable pub int_mask : Port → ℕ
int_mask port0 = 0x4A
int_mask port1 = 0x4B

unfoldable pub out_cfg : ℕ
out_cfg = 0x4F

-- The first of the two registers of a port.
unfoldable pub int_edge : Port → ℕ
int_edge port0 = 0x50
int_edge port1 = 0x52

unfoldable pub int_clear : Port → ℕ
int_clear port0 = 0x54
int_clear port1 = 0x55

unfoldable pub type_bits : InterruptType → ℕ
type_bits level = 0
type_bits rising = 1
type_bits falling = 2
type_bits change = 3

unfoldable pub drive_mask : Port → ℕ
drive_mask port0 = 0x01
drive_mask port1 = 0x02

-- The loop over the first `n` bits of a mask: each set bit becomes the two bits of `type`.
unfoldable pub expand : ℕ → ℕ → ℕ → ℕ
expand zero mask type = 0
expand (suc i) mask type =
    let data' = expand i mask type in
    if mask / 2 ^ i % 2 == 1 then bit_or data' (type * 2 ^ (i * 2)) else data'
