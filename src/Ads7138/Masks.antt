-- ===== src/Ads7138/Masks.antt =====
-- The masks of channels: components/ads7138/include/ads7138.hpp.
use espp.Prelude.{
  ℕ, ◌/◌, ◌%◌, ◌^◌, ◌≡◌, ◌==◌, refl, ◌∙◌, ap, Bool, true, false, ◌||◌, List, [], ◌∷◌, bit_or, arith,
}
use Prim.Native.Nat.{max}
use espp.Prelude.Bits.{or_bit}
use espp.Ads7138.{Channel, bit_of, mask_of}
use espp.Ads7138.Commands.{number, has, ch0, ch1, ch2, ch3, ch4, ch5, ch6, ch7}

-- The channel's bit of a register.
unfoldable pub is_set : Channel → ℕ → Bool
is_set c m = m / 2 ^ number c % 2 == 1

max-one : (a b : ℕ) → (max (a % 2) (b % 2) == 1) ≡ (a % 2 == 1) || (b % 2 == 1)
max-one a b = ground arith

every :
    (P : Channel → Type 0)
    → P ch0
    → P ch1
    → P ch2
    → P ch3
    → P ch4
    → P ch5
    → P ch6
    → P ch7
    → (d : Channel) → P d
every P p0 p1 p2 p3 p4 p5 p6 p7 ch0 = p0
every P p0 p1 p2 p3 p4 p5 p6 p7 ch1 = p1
every P p0 p1 p2 p3 p4 p5 p6 p7 ch2 = p2
every P p0 p1 p2 p3 p4 p5 p6 p7 ch3 = p3
every P p0 p1 p2 p3 p4 p5 p6 p7 ch4 = p4
every P p0 p1 p2 p3 p4 p5 p6 p7 ch5 = p5
every P p0 p1 p2 p3 p4 p5 p6 p7 ch6 = p6
every P p0 p1 p2 p3 p4 p5 p6 p7 ch7 = p7

abbrev Agrees : Channel → Channel → Type 0
Agrees c d = is_set c (bit_of d) ≡ (number d == number c)

bit_of-is_set : (c d : Channel) → Agrees c d
unfolding is_set bit_of number
bit_of-is_set ch0 = every (Agrees ch0) refl refl refl refl refl refl refl refl
bit_of-is_set ch1 = every (Agrees ch1) refl refl refl refl refl refl refl refl
bit_of-is_set ch2 = every (Agrees ch2) refl refl refl refl refl refl refl refl
bit_of-is_set ch3 = every (Agrees ch3) refl refl refl refl refl refl refl refl
bit_of-is_set ch4 = every (Agrees ch4) refl refl refl refl refl refl refl refl
bit_of-is_set ch5 = every (Agrees ch5) refl refl refl refl refl refl refl refl
bit_of-is_set ch6 = every (Agrees ch6) refl refl refl refl refl refl refl refl
bit_of-is_set ch7 = every (Agrees ch7) refl refl refl refl refl refl refl refl

or-is_set : (c : Channel) (a b : ℕ) → is_set c (bit_or a b) ≡ is_set c a || is_set c b
unfolding is_set
or-is_set c a b =
    ap (λ n. n == 1) (or_bit (number c) a b) ∙ max-one (a / 2 ^ number c) (b / 2 ^ number c)

join : (x y z : Bool) → x || (y || z) ≡ (z || x) || y
join true true true = refl
join true true false = refl
join true false true = refl
join true false false = refl
join false true true = refl
join false true false = refl
join false false true = refl
join false false false = refl

-- A channel's bit is set in a mask if it was, or if the channel is in the list.
mask_of-is_set :
    (c : Channel) (channels : List Channel) (m : ℕ)
    → is_set c (mask_of channels m) ≡ has channels c || is_set c m
unfolding mask_of has
mask_of-is_set c [] m = refl
mask_of-is_set c (d ∷ channels) m =
    mask_of-is_set c channels (bit_or m (bit_of d))
    ∙ ap (λ b. has channels c || b)
        (or-is_set c m (bit_of d) ∙ ap (λ b. is_set c m || b) (bit_of-is_set c d))
    ∙ join (has channels c) (is_set c m) (number d == number c)

none-set : (x : Bool) → x || false ≡ x
none-set true = refl
none-set false = refl

zero-is_set : (c : Channel) → is_set c 0 ≡ false
unfolding is_set number
zero-is_set = every (λ c. is_set c 0 ≡ false) refl refl refl refl refl refl refl refl

-- The mask of a list has a bit for exactly the channels of the list.
pub mask-is_set :
    (c : Channel) (channels : List Channel) → is_set c (mask_of channels 0) ≡ has channels c
mask-is_set c channels =
    mask_of-is_set c channels 0
    ∙ ap (λ b. has channels c || b) (zero-is_set c)
    ∙ none-set (has channels c)

turn : (x y : Bool) → x || y ≡ y || x
turn true true = refl
turn true false = refl
turn false true = refl
turn false false = refl

-- The same for two lists, the second one's mask on top of the first one's.
pub masks-is_set :
    (c : Channel) (first second : List Channel)
    → is_set c (mask_of second (mask_of first 0)) ≡ has first c || has second c
masks-is_set c first second =
    mask_of-is_set c second (mask_of first 0)
    ∙ ap (λ b. has second c || b) (mask-is_set c first)
    ∙ turn (has second c) (has first c)
