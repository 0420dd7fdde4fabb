-- ===== src/Ads7138/Tests.antt =====
-- Runs of the operations on registers in memory.
use espp.Prelude.{
  get_or, if◌then◌else◌, ◌==◌, ℕ, ◌-◌, ◌*◌, ◌/◌, ◌%◌, ◌^◌, ◌≡◌, ◌≢◌, refl, ◌||◌, Bool, true, false,
  Option, none, some, List, [], ◌∷◌, bit_and, bit_or, pos, arith,
}
use espp.Peripheral.{Config, write}
use espp.Peripheral.RegisterFile.{stored}
use espp.Peripheral.Effects.{Registers, put, alter, Does}
use espp.Ads7138.{
  Channel, autonomous, push_pull, is_autonomous, manual, raw, inside, Error, clear, Driver,
  set_analog_alert,
}
use espp.Ads7138.Commands.{
  is_digital_input, ch0, ch1, ch2, ch5, is_digital_output, ch3, number, has, is_analog_input,
}
use espp.Ads7138.Setup.{Setup, init, new_driver}
use espp.Ads7138.Masks.{is_set}
use espp.Ads7138.Voltages.{get_mv}
use espp.Ads7138.Conversions.{get_mv-raw}
use espp.Ads7138.Init.{ready, init-Configures}
use espp.Ads7138.OpcodeFile.{IsOpcodeFile}
use espp.Ads7138.Alerts.{set_analog_alert-swapped}

-- The device: an opcode, a register and bytes.
unfoldable device_write : Option ℕ → List ℕ → Registers → Bool × Registers
device_write address (opcode ∷ (reg ∷ bytes)) f = (
  true,
  if opcode == 0x18
      then alter reg (λ byte. bit_or byte (get_or bytes 0 0)) f
      else if opcode == 0x20
      then alter reg (λ byte. bit_and byte (255 - get_or bytes 0 0)) f
      else stored reg bytes f,
)
device_write address (opcode ∷ []) f = (false, f)
device_write address [] f = (false, f)

abbrev device : Config Registers
device = record {
  address = some 0x10;
  reg_addr_size = 1;
  write = some device_write;
  read = none;
  read_register = none;
  write_then_read = none;
}

device-IsOpcodeFile : IsOpcodeFile device (λ bus. bus)
unfolding Does device_write write
device-IsOpcodeFile = record {
  write_law = λ reg value bus. (put reg value bus, refl, refl);
  set_law = λ reg bits bus. (alter reg (λ byte. bit_or byte bits) bus, refl, refl);
  clear_law = λ reg bits bus. (alter reg (λ byte. bit_and byte (255 - bits)) bus, refl, refl);
  block_law = λ reg bytes h bus. (stored reg bytes bus, refl, refl);
}

abbrev driver : Driver
driver = record {
  mode = manual;
  data_format = raw;
  statistics_enabled = true;
  num_data_bytes = 2;
  analog_inputs = ch3 ∷ [];
  digital_inputs = [];
  digital_outputs = [];
}

abbrev empty : Registers
empty r = 0

set_analog_alert-swapped_example :
    (bus' : Registers) × (set_analog_alert device
        (λ mv. mv * 20)
        driver
        ch3
        3000
        100
        inside
        (pos 2)
        empty
      ≡ (clear, bus'))
    × (bus' 0x2F ≡ 60000 / 2 ^ 4 % 2 ^ 8)
    × (bus' 0x2D ≡ 2000 / 2 ^ 4 % 2 ^ 8)
unfolding number is_analog_input has
set_analog_alert-swapped_example =
    set_analog_alert-swapped device (λ bus. bus) device-IsOpcodeFile (λ mv. mv * 20) driver ch3 refl
      3000 100 inside 2 empty (omega arith)

abbrev board : Driver
board = record {
  mode = autonomous;
  data_format = raw;
  statistics_enabled = true;
  num_data_bytes = 2;
  analog_inputs = ch3 ∷ (ch0 ∷ []);
  digital_inputs = ch5 ∷ [];
  digital_outputs = ch1 ∷ (ch2 ∷ []);
}

abbrev setup : Setup
setup = record {
  oversampling_ratio = 0;
  statistics_on = true;
  digital_output_modes = (ch1, push_pull) ∷ [];
  digital_output_values = (ch1, true) ∷ ((ch2, false) ∷ []);
}

init-Configures_example :
    (bus' : Registers) × (init device setup (board, empty) ≡ (clear, (ready setup board, bus')))
    × ((c : Channel) → is_set c (bus' 0x05) ≡ is_digital_input board c || is_digital_output board c)
    × ((c : Channel) → is_set c (bus' 0x07) ≡ is_digital_output board c)
    × ((c : Channel) → is_set c (bus' 0x12) ≡ is_analog_input board c)
    × (bus' 0x03 ≡ 0)
    × (bus' 0x02 ≡ 0x10)
unfolding number has is_digital_output is_autonomous
init-Configures_example =
    init-Configures device (λ bus. bus) device-IsOpcodeFile board setup (refl, tt)
      (refl, (refl, tt)) empty

get_mv-raw_example :
    (e : Error) × (s' : Registers) × (get_mv device driver
        (λ value. value * 3300 / 2 ^ 16)
        0
        1
        ch3
        (0 ∷ (0 ∷ []))
        empty
      ≡ some (e, 0, s'))
    × (e ≢ clear)
unfolding is_autonomous
get_mv-raw_example =
    get_mv-raw device driver refl (λ value. value * 3300 / 2 ^ 16) 0 refl 0 ch3 (0 ∷ (0 ∷ [])) empty

-- `driver` is what the constructor makes of a configuration without oversampling.
driver-new : new_driver manual (record setup { oversampling_ratio = 0 }) (ch3 ∷ []) [] [] ≡ driver
unfolding new_driver
driver-new = refl
