-- ===== src/Ftp/Paths.antt =====
-- Paths stay absolute: the path operations that components/ftp/include/ftp_client_session.hpp uses.
use espp.Prelude.{
  ℕ, arith, ◌≡◌, ◌≢◌, ◌==◌, ◌&&◌, refl, sym, ap, ◌∙◌, Bool, true, false, Option, none, some, List,
  [], ◌∷◌, ◌++◌, arith, if◌then◌else◌,
}
use mathlib.Core.Bool.{false≢true}
use espp.Ftp.FilePath.{
  is_absolute, lacks_filename, join, all_separators, before_last, trim_end, directory, parent_path,
}

if-absolute :
    (b : Bool) (p q : List ℕ)
    → (b ≡ true → is_absolute p ≡ true)
    → (b ≡ false → is_absolute q ≡ true)
    → is_absolute (if b then p else q) ≡ true
if-absolute true p q hp hq = hp refl
if-absolute false p q hp hq = hq refl

append-absolute : (p q : List ℕ) → is_absolute p ≡ true → is_absolute (p ++ q) ≡ true
unfolding is_absolute
append-absolute [] q h = absurd (false≢true h)
append-absolute (c ∷ p) q h = h

pub join-absolute : (p q : List ℕ) → is_absolute p ≡ true → is_absolute (join p q) ≡ true
unfolding join
join-absolute p q h =
    if-absolute (is_absolute q) q _ (λ e. e)
      (λ e.
        if-absolute (lacks_filename p) (p ++ q) (p ++ (47 ∷ q)) (λ f. append-absolute p q h)
          (λ f. append-absolute p (47 ∷ q) h))

-- One byte in front of a path that is cut at its end.
trim_one : ℕ → List ℕ → List ℕ
trim_one c [] = if c == 47 then [] else c ∷ []
trim_one c (d ∷ q) = c ∷ (d ∷ q)

trim_end-cons : (c : ℕ) (p : List ℕ) → trim_end (c ∷ p) ≡ trim_one c (trim_end p)
unfolding trim_end trim_one
trim_end-cons c p = elim (trim_end p) [ [] ↦ refl | d ∷ q ↦ refl ]

test_nil : (b : Bool) (c : ℕ) → (if b then [] else c ∷ []) ≡ [] → b ≡ true
test_nil true c h = refl
test_nil false c h = absurd (ground (arith, h))

trim_one_nil : (c : ℕ) (q : List ℕ) → trim_one c q ≡ [] → (q ≡ []) × ((c == 47) ≡ true)
unfolding trim_one
trim_one_nil c [] h = (refl, test_nil (c == 47) c h)
trim_one_nil c (d ∷ q) h = absurd (ground (arith, h))

trim_end-nil : (p : List ℕ) → trim_end p ≡ [] → all_separators p ≡ true
unfolding all_separators
trim_end-nil [] h = refl
trim_end-nil (c ∷ p) h =
    let r = trim_one_nil c (trim_end p) (sym (trim_end-cons c p) ∙ h) in
    rw (r.1, trim_end-nil p (r.0)) refl

trim_one-absolute :
    (c : ℕ) (p q : List ℕ)
    → (c == 47) ≡ true
    → all_separators (c ∷ p) ≡ false
    → trim_end p ≡ q
    → is_absolute (trim_one c q) ≡ true
unfolding all_separators trim_one is_absolute
trim_one-absolute c p [] hc h e =
    absurd (false≢true (sym h ∙ ap (λ b. b && all_separators p) hc ∙ trim_end-nil p e))
trim_one-absolute c p (d ∷ q) hc h e = hc

trim_end-absolute :
    (c : ℕ) (p : List ℕ)
    → (c == 47) ≡ true
    → all_separators (c ∷ p) ≡ false
    → is_absolute (trim_end (c ∷ p)) ≡ true
trim_end-absolute c p hc h =
    ap is_absolute (trim_end-cons c p) ∙ trim_one-absolute c p (trim_end p) hc h refl

directory-absolute :
    (c : ℕ) (p : List ℕ) → (c == 47) ≡ true → is_absolute (directory (some (c ∷ p))) ≡ true
unfolding directory is_absolute
directory-absolute c p hc =
    if-absolute (all_separators (c ∷ p)) (47 ∷ []) (trim_end (c ∷ p)) (λ e. refl)
      (λ e. trim_end-absolute c p hc e)

-- The directory of what stands before the last separator, with one byte more in front.
before_one : ℕ → Option (List ℕ) → Option (List ℕ)
before_one c none = if c == 47 then some [] else none
before_one c (some q) = some (c ∷ q)

before_last-cons : (c : ℕ) (p : List ℕ) → before_last (c ∷ p) ≡ before_one c (before_last p)
unfolding before_last before_one
before_last-cons c p = elim (before_last p) [ none ↦ refl | some q ↦ refl ]

root : is_absolute (directory (some [])) ≡ true
unfolding directory all_separators is_absolute
root = refl

nothing : is_absolute [] ≢ true
unfolding is_absolute
nothing h = false≢true h

first : (c : ℕ) (p : List ℕ) → is_absolute (c ∷ p) ≡ true → (c == 47) ≡ true
unfolding is_absolute
first c p h = h

before_one-absolute :
    (c : ℕ) (o : Option (List ℕ))
    → (c == 47) ≡ true
    → is_absolute (directory (before_one c o)) ≡ true
unfolding before_one
before_one-absolute c none hc = rw (hc) root
before_one-absolute c (some q) hc = directory-absolute c q hc

pub parent_path-absolute : (p : List ℕ) → is_absolute p ≡ true → is_absolute (parent_path p) ≡ true
unfolding parent_path
parent_path-absolute [] h = absurd (nothing h)
parent_path-absolute (c ∷ p) h =
    if-absolute (all_separators (c ∷ p)) (c ∷ p) _ (λ e. h)
      (λ e.
        ap (λ o. is_absolute (directory o)) (before_last-cons c p)
        ∙ before_one-absolute c (before_last p) (first c p h))
