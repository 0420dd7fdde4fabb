-- ===== src/Ads7138/PinEffects.antt =====
-- The effects of the set-up of the pins on the registers: components/ads7138/include/ads7138.hpp.
use espp.Prelude.{
  ℕ, ◌≡◌, ◌==◌, refl, sym, ◌∙◌, Bool, true, false, not, List, [], ◌∷◌, if◌then◌else◌,
}
use mathlib.Core.Bool.{false≢true}
use espp.Peripheral.RegisterFile.{stored}
use espp.Peripheral.Effects.{Registers, put}
use espp.Ads7138.{Channel, OutputMode, bit_of, is_open_drain}
use espp.Ads7138.OpcodeFile.{switched}

-- The registers after the output modes, and after the output values.
unfoldable pub driven : List (Channel × OutputMode) → Registers → Registers
driven [] f = f
driven ((c, m) ∷ modes) f = driven modes (switched (not (is_open_drain m)) 0x09 (bit_of c) f)

unfoldable pub valued : List (Channel × Bool) → Registers → Registers
valued [] f = f
valued ((c, v) ∷ values) f = valued values (switched v 0x0B (bit_of c) f)

unfoldable pub sequenced : Bool → Registers → Registers
sequenced manually f =
    if manually
    then switched false 0x10 0x01 f
    else switched true 0x10 0x10 (switched true 0x10 0x01 f)

-- The analog inputs of the sequence.
unfoldable pub selected : Bool → ℕ → Registers → Registers
selected automatic inputs f = if automatic then put 0x12 inputs f else f

pub selected-apart :
    (b : Bool) (inputs r : ℕ) (f : Registers) → (r == 0x12) ≡ false → selected b inputs f r ≡ f r
unfolding selected stored
selected-apart true inputs r f h = rw (h) refl
selected-apart false inputs r f h = refl

pub selected-here :
    (b : Bool) (inputs : ℕ) (f : Registers) → b ≡ true → selected b inputs f 0x12 ≡ inputs
unfolding selected stored
selected-here true inputs f h = refl
selected-here false inputs f h = absurd (false≢true h)

pub selected-not :
    (b : Bool) (inputs : ℕ) (f : Registers) → b ≡ false → selected b inputs f 0x12 ≡ f 0x12
unfolding selected
selected-not true inputs f h = absurd (false≢true (sym h))
selected-not false inputs f h = refl

pub put-apart : (reg value r : ℕ) (f : Registers) → (r == reg) ≡ false → put reg value f r ≡ f r
unfolding stored
put-apart reg value r f h = rw (h) refl

pub switched-apart :
    (on : Bool) (reg bits r : ℕ) (f : Registers)
    → (r == reg) ≡ false
    → switched on reg bits f r ≡ f r
unfolding switched stored
switched-apart true reg bits r f h = rw (h) refl
switched-apart false reg bits r f h = rw (h) refl

pub driven-apart :
    (modes : List (Channel × OutputMode)) (r : ℕ) (f : Registers)
    → (r == 0x09) ≡ false
    → driven modes f r ≡ f r
unfolding driven
driven-apart [] r f h = refl
driven-apart ((c, m) ∷ modes) r f h = driven-apart modes r _ h ∙ switched-apart _ 0x09 _ r f h

pub valued-apart :
    (values : List (Channel × Bool)) (r : ℕ) (f : Registers)
    → (r == 0x0B) ≡ false
    → valued values f r ≡ f r
unfolding valued
valued-apart [] r f h = refl
valued-apart ((c, v) ∷ values) r f h = valued-apart values r _ h ∙ switched-apart _ 0x0B _ r f h

pub sequenced-apart :
    (b : Bool) (r : ℕ) (f : Registers) → (r == 0x10) ≡ false → sequenced b f r ≡ f r
unfolding sequenced
sequenced-apart true r f h = switched-apart false 0x10 0x01 r f h
sequenced-apart false r f h =
    switched-apart true 0x10 0x10 r _ h ∙ switched-apart true 0x10 0x01 r f h
