-- ===== src/Prelude/Search.antt =====
-- `find` and `substr` of std::string_view, over lists of bytes. Positions are `size_t`, 64 bits wide.
use Prim.Native.Nat.{ℕ, suc, ◌+◌, ◌-◌, ◌%◌, ◌^◌, ◌<◌}
use mathlib.Core.Path.{◌≡◌, refl, ap, ◌∙◌}
use mathlib.Core.Logic.{◌≢◌}
use mathlib.Core.Bool.{Bool, true, false, ◌&&◌}
use mathlib.Core.Option.{Option, none, some}
use mathlib.Core.List.{List, [], ◌∷◌, ◌++◌}
use native.Mathlib.Omega.{arith}
use espp.Prelude.Tests.{leb, ltb, ◌==◌, if◌then◌else◌}
use espp.Prelude.Lists.{length, take, drop, All, length-append, take-append, drop-append, take-all}

abbrev pub npos : ℕ
npos = 2 ^ 64 - 1

unfoldable pub add64 : ℕ → ℕ → ℕ
add64 a b = (a + b) % 2 ^ 64

unfoldable pub sub64 : ℕ → ℕ → ℕ
sub64 a b = (a + 2 ^ 64 - b) % 2 ^ 64

-- The number of elements before the first `c`.
abbrev pub find_char : ℕ → List ℕ → Option ℕ
find_char c [] = none
find_char c (x ∷ xs) =
    let rest : Option ℕ = elim (find_char c xs) [ none ↦ none | some n ↦ some (suc n) ] in
    if x == c then some 0 else rest

abbrev pub starts_with : List ℕ → List ℕ → Bool
starts_with [] s = true
starts_with (c ∷ cs) [] = false
starts_with (c ∷ cs) (x ∷ xs) = (x == c) && starts_with cs xs

abbrev pub find_text : List ℕ → List ℕ → Option ℕ
find_text text [] = if starts_with text [] then some 0 else none
find_text text (x ∷ xs) =
    let rest : Option ℕ = elim (find_text text xs) [ none ↦ none | some n ↦ some (suc n) ] in
    if starts_with text (x ∷ xs) then some 0 else rest

-- Whether two texts are equal.
unfoldable pub same_text : List ℕ → List ℕ → Bool
same_text [] [] = true
same_text [] (d ∷ ds) = false
same_text (c ∷ cs) [] = false
same_text (c ∷ cs) (d ∷ ds) = (c == d) && same_text cs ds

unfoldable pub position : ℕ → Option ℕ → ℕ
position from none = npos
position from (some n) = from + n

-- `s.find(c, from)`: past the end, nothing is found.
unfoldable pub find_from : ℕ → List ℕ → ℕ → ℕ
unfolding position
find_from c s from = if leb from (length s) then position from (find_char c (drop from s)) else npos

-- `s.substr(from, count)`: the count is cut to what is left; `none` is std::out_of_range.
unfoldable pub sub_string : ℕ → ℕ → List ℕ → Option (List ℕ)
sub_string from count s =
    if leb from (length s)
    then some (take (if ltb (length s - from) count then length s - from else count) (drop from s))
    else none

-- The first `c` stands behind a part without it.
pub find_char-append :
    (c : ℕ) (xs ys : List ℕ) → All (λ x. x ≢ c) xs → find_char c (xs ++ (c ∷ ys)) ≡ some (length xs)
find_char-append c [] ys h = ground arith
find_char-append c (x ∷ xs) ys h = ground (arith, h.0, find_char-append c xs ys h.1)

-- A part that does not hold the text's first byte is passed over.
pub find_text-skip :
    (c : ℕ) (cs xs ys : List ℕ) (n : ℕ)
    → All (λ x. x ≢ c) xs
    → find_text (c ∷ cs) ys ≡ some n
    → find_text (c ∷ cs) (xs ++ ys) ≡ some (length xs + n)
find_text-skip c cs [] ys n h e = e ∙ ap some (omega arith)
find_text-skip c cs (x ∷ xs) ys n h e = ground (arith, h.0, find_text-skip c cs xs ys n h.1 e)

pub find_text-none : (c : ℕ) (cs xs : List ℕ) → All (λ x. x ≢ c) xs → find_text (c ∷ cs) xs ≡ none
find_text-none c cs [] h = refl
find_text-none c cs (x ∷ xs) h = ground (arith, h.0, find_text-none c cs xs h.1)

pub find_from-append :
    (c i : ℕ) (pre xs ys : List ℕ)
    → length pre ≡ i
    → All (λ x. x ≢ c) xs
    → find_from c (pre ++ (xs ++ (c ∷ ys))) i ≡ i + length xs
unfolding find_from position
find_from-append c i pre xs ys e h = rw (← e) (
    ground (
      arith,
      length-append pre (xs ++ (c ∷ ys)),
      drop-append pre (xs ++ (c ∷ ys)),
      find_char-append c xs ys h,
    ))

-- The middle of three parts.
pub sub_string-append :
    (i n : ℕ) (pre xs ys : List ℕ)
    → length pre ≡ i
    → length xs ≡ n
    → sub_string i n (pre ++ (xs ++ ys)) ≡ some xs
unfolding sub_string
sub_string-append i n pre xs ys ei en =
    rw (← ei, ← en)
      (ground (
        arith,
        length-append pre (xs ++ ys),
        length-append xs ys,
        drop-append pre (xs ++ ys),
        take-append xs ys,
      ))

-- All that stands behind a part.
pub sub_string-rest :
    (i : ℕ) (pre xs : List ℕ)
    → length pre ≡ i
    → length xs < npos
    → sub_string i npos (pre ++ xs) ≡ some xs
unfolding sub_string
sub_string-rest i pre xs ei h = rw (← ei) (
    ground (
      arith,
      length-append pre xs,
      drop-append pre xs,
      take-all (length pre + length xs - length pre) xs (omega arith),
    ))
