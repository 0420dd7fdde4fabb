-- ===== src/Prelude/Decimal.antt =====
-- Integers as `std::to_string` writes and `std::stoi` reads them.
use Prim.Native.Nat.{ℕ, zero, suc, ◌+◌, ◌-◌, ◌*◌, ◌/◌, ◌%◌, ◌^◌, ◌≤◌, ◌<◌}
use mathlib.Core.Path.{◌≡◌, refl, sym, ap, subst, ◌∙◌}
use mathlib.Core.Logic.{inl, inr}
use mathlib.Core.Bool.{Bool, ◌&&◌, ◌||◌}
use mathlib.Core.Option.{Option, none, some}
use mathlib.Core.List.{List, [], ◌∷◌, ◌++◌}
use native.Mathlib.Omega.{arith}
use espp.Prelude.Tests.{leb, ltb, ◌==◌, if◌then◌else◌, Bool-cases, ltb→lt}
use espp.Prelude.Lists.{All}

-- `negsuc n` is -(n + 1).
pub data ℤ : Type 0 where
  pos : ℕ → ℤ
  negsuc : ℕ → ℤ

-- The decimal digits of a number below 10 ^ fuel, as ASCII, in front of others.
unfoldable pub digits : ℕ → ℕ → List ℕ → List ℕ
digits zero n rest = rest
digits (suc fuel) n rest =
    let more = digits fuel (n / 10) ((48 + n % 10) ∷ rest) in
    if ltb n 10 then (48 + n) ∷ rest else more

unfoldable pub decimal : ℕ → List ℕ
decimal n = digits (suc n) n []

unfoldable pub to_string : ℤ → List ℕ
to_string (pos n) = decimal n
to_string (negsuc n) = 45 ∷ decimal (n + 1)

abbrev pub is_space : ℕ → Bool
is_space c = (c == 32) || (leb 9 c && leb c 13)

abbrev pub is_digit : ℕ → Bool
is_digit c = leb 48 c && leb c 57

unfoldable pub skip_spaces : List ℕ → List ℕ
skip_spaces [] = []
skip_spaces (c ∷ s) = let rest = skip_spaces s in if is_space c then rest else c ∷ s

unfoldable pub leading_digits : List ℕ → List ℕ
leading_digits [] = []
leading_digits (c ∷ s) = let rest = leading_digits s in if is_digit c then c ∷ rest else []

unfoldable pub value : ℕ → List ℕ → ℕ
value acc [] = acc
value acc (c ∷ s) = value (acc * 10 + (c - 48)) s

-- `none` is std::invalid_argument or std::out_of_range.
unfoldable pub positive : List ℕ → Option ℤ
positive [] = none
positive (c ∷ s) = if ltb (value 0 (c ∷ s)) (2 ^ 31) then some (pos (value 0 (c ∷ s))) else none

unfoldable pub negative : List ℕ → Option ℤ
negative [] = none
negative (c ∷ s) =
    let n = value 0 (c ∷ s) in
    if leb n (2 ^ 31) then some (if n == 0 then pos 0 else negsuc (n - 1)) else none

unfoldable pub signed : List ℕ → Option ℤ
signed [] = none
signed (c ∷ s) =
    if c == 45
    then negative (leading_digits s)
    else positive (leading_digits (if c == 43 then s else c ∷ s))

unfoldable pub stoi : List ℕ → Option ℤ
stoi s = signed (skip_spaces s)

abbrev pub IsDigit : ℕ → Type 0
IsDigit c = (48 ≤ c) × (c ≤ 57)

digits-IsDigit : (fuel n : ℕ) (rest : List ℕ) → All IsDigit rest → All IsDigit (digits fuel n rest)
unfolding digits
digits-IsDigit zero n rest h = h
digits-IsDigit (suc fuel) n rest h = elim (Bool-cases (ltb n 10)) [
  | inl at ↦ rw at (omega (arith, ltb→lt n 10 at), h)
  | inr at ↦ rw at (digits-IsDigit fuel (n / 10) ((48 + n % 10) ∷ rest) (omega arith, h))
]

pub decimal-IsDigit : (n : ℕ) → All IsDigit (decimal n)
unfolding decimal
decimal-IsDigit n = digits-IsDigit (suc n) n [] tt

-- The digits read on from 0 are the number, read on from there.
value-digits : (fuel n : ℕ) (rest : List ℕ) → n < fuel → value 0 (digits fuel n rest) ≡ value n rest
unfolding value digits
value-digits zero n rest h = absurd (omega arith)
value-digits (suc fuel) n rest h = elim (Bool-cases (ltb n 10)) [
  | inl at ↦ rw at (ap (λ m. value m rest) (omega arith))
  | inr at ↦ rw at (
      value-digits fuel (n / 10) ((48 + n % 10) ∷ rest) (ground (arith, at))
      ∙ ap (λ m. value m rest) (omega arith))
]

pub value-decimal : (n : ℕ) → value 0 (decimal n) ≡ n
unfolding decimal value
value-decimal n = value-digits (suc n) n [] (omega arith)

leading_digits-All : (s : List ℕ) → All IsDigit s → leading_digits s ≡ s
unfolding leading_digits
leading_digits-All [] h = refl
leading_digits-All (c ∷ s) h = ground (arith, h.0, leading_digits-All s h.1)

-- A number's digits are not empty, and the first of them is a digit.
digits_cons :
    (fuel n : ℕ) (rest : List ℕ)
    → All IsDigit rest
    → (c : ℕ) × (s : List ℕ) × (digits (suc fuel) n rest ≡ c ∷ s) × IsDigit c
unfolding digits
digits_cons zero n rest h = elim (Bool-cases (ltb n 10)) [
  | inl at ↦ (48 + n, rest, rw at refl, omega (arith, ltb→lt n 10 at))
  | inr at ↦ (48 + n % 10, rest, rw at refl, omega arith)
]
digits_cons (suc fuel) n rest h = elim (Bool-cases (ltb n 10)) [
  | inl at ↦ (48 + n, rest, rw at refl, omega (arith, ltb→lt n 10 at))
  | inr at ↦ rw at (digits_cons fuel (n / 10) ((48 + n % 10) ∷ rest) (omega arith, h))
]

skip_spaces-digit : (c : ℕ) (s : List ℕ) → IsDigit c → skip_spaces (c ∷ s) ≡ c ∷ s
unfolding skip_spaces
skip_spaces-digit c s d = ground arith

signed-digits :
    (c : ℕ) (s : List ℕ)
    → All IsDigit (c ∷ s)
    → value 0 (c ∷ s) < 2 ^ 31
    → signed (c ∷ s) ≡ some (pos (value 0 (c ∷ s)))
unfolding signed positive
signed-digits c s d h = ground (arith, d.0, h, leading_digits-All (c ∷ s) d)

pub decimal_cons : (n : ℕ) → (c : ℕ) × (s : List ℕ) × (decimal n ≡ c ∷ s) × IsDigit c
unfolding decimal
decimal_cons n = digits_cons n n [] tt

stoi-cons :
    (n c : ℕ) (s : List ℕ)
    → decimal n ≡ c ∷ s
    → IsDigit c
    → n < 2 ^ 31
    → stoi (decimal n) ≡ some (pos n)
unfolding stoi
stoi-cons n c s e d h =
    let all : All IsDigit (c ∷ s) = subst (All IsDigit) e (decimal-IsDigit n) in
    let v : value 0 (c ∷ s) ≡ n = ap (value 0) (sym e) ∙ value-decimal n in
    rw (e, skip_spaces-digit c s d, signed-digits c s all (omega (arith, v, h)), v)

pub stoi-decimal : (n : ℕ) → n < 2 ^ 31 → stoi (decimal n) ≡ some (pos n)
stoi-decimal n h = let r = decimal_cons n in stoi-cons n (r.0) (r.1) (r.2) (r.3) h

leading_digits-then : (s rest : List ℕ) → All IsDigit s → leading_digits (s ++ (13 ∷ rest)) ≡ s
unfolding leading_digits
leading_digits-then [] rest h = refl
leading_digits-then (c ∷ s) rest h = ground (arith, h.0, leading_digits-then s rest (h.1))

signed-then :
    (c : ℕ) (s rest : List ℕ)
    → All IsDigit (c ∷ s)
    → value 0 (c ∷ s) < 2 ^ 31
    → signed (c ∷ (s ++ (13 ∷ rest))) ≡ some (pos (value 0 (c ∷ s)))
unfolding signed positive
signed-then c s rest d h = ground (arith, d.0, h, leading_digits-then (c ∷ s) rest d)

stoi-cons-then :
    (n c : ℕ) (s rest : List ℕ)
    → decimal n ≡ c ∷ s
    → IsDigit c
    → n < 2 ^ 31
    → stoi (decimal n ++ (13 ∷ rest)) ≡ some (pos n)
unfolding stoi
stoi-cons-then n c s rest e d h =
    let all : All IsDigit (c ∷ s) = subst (All IsDigit) e (decimal-IsDigit n) in
    let v : value 0 (c ∷ s) ≡ n = ap (value 0) (sym e) ∙ value-decimal n in
    rw (
      e,
      skip_spaces-digit c (s ++ (13 ∷ rest)) d,
      signed-then c s rest all (omega (arith, v, h)),
      v,
    )

-- A number up to the end of a line.
pub stoi-decimal-then :
    (n : ℕ) (rest : List ℕ) → n < 2 ^ 31 → stoi (decimal n ++ (13 ∷ rest)) ≡ some (pos n)
stoi-decimal-then n rest h =
    let r = decimal_cons n in stoi-cons-then n (r.0) (r.1) rest (r.2) (r.3) h
