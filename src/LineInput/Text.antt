-- ===== src/LineInput/Text.antt =====
-- An editor of two lists, and how the operations on strings act at its cursor.
use espp.Prelude.{
  ℕ, suc, ◌+◌, ◌≤◌, ◌<◌, ◌≡◌, ◌≢◌, refl, true, some, List, [], ◌∷◌, ◌++◌, length, resize, arith,
}
use native.Mathlib.Nat.{zero-add}
use espp.LineInput.{Session, insert_at, erase_at, insert_character, key}

pub data Key : Type 0 where
  character : ℕ → Key
  rub_out : Key
  left : Key
  right : Key
  home : Key
  to_end : Key
  kill_line : Key

-- The bytes of a key: the first one and the others.
abbrev pub first : Key → ℕ
first (character c) = c
first rub_out = 127
first left = 27
first right = 27
first home = 1
first to_end = 5
first kill_line = 11

abbrev pub others : Key → List ℕ
others (character c) = []
others rub_out = []
others left = 91 ∷ 68 ∷ []
others right = 91 ∷ 67 ∷ []
others home = []
others to_end = []
others kill_line = []

abbrev pub typed : List Key → List ℕ → List ℕ
typed [] is = is
typed (k ∷ ks) is = first k ∷ (others k ++ typed ks is)

-- A character of one byte that is no control character.
abbrev pub IsTyped : Key → Type 0
IsTyped (character c) = (32 ≤ c) × (c < 256) × (c ≢ 127)
IsTyped rub_out = Unit {0}
IsTyped left = Unit {0}
IsTyped right = Unit {0}
IsTyped home = Unit {0}
IsTyped to_end = Unit {0}
IsTyped kill_line = Unit {0}

abbrev pub AllTyped : List Key → Type 0
AllTyped [] = Unit {0}
AllTyped (k ∷ ks) = IsTyped k × AllTyped ks

abbrev pub rev_onto : List ℕ → List ℕ → List ℕ
rev_onto [] a = a
rev_onto (x ∷ b) a = rev_onto b (x ∷ a)

pub record Text : Type 0 where
  pub before : List ℕ
  pub after : List ℕ

abbrev pub line : Text → List ℕ
line t = rev_onto t.before t.after

abbrev pub text : List ℕ → List ℕ → Text
text b a = record { before = b; after = a }

unfoldable pub edit : Key → Text → Text
edit (character c) t = text (c ∷ t.before) t.after
edit rub_out t = elim t.before [ [] ↦ t | x ∷ b ↦ text b t.after ]
edit left t = elim t.before [ [] ↦ t | x ∷ b ↦ text b (x ∷ t.after) ]
edit right t = elim t.after [ [] ↦ t | x ∷ a ↦ text (x ∷ t.before) a ]
edit home t = text [] (line t)
edit to_end t = text (rev_onto t.after t.before) []
edit kill_line t = text t.before []

abbrev pub edits : List Key → Text → Text
edits [] t = t
edits (k ∷ ks) t = edits ks (edit k t)

-- The session holds the text: the line is the front of the history, before the lines `old`.
pub record Shows (old : List (List ℕ)) (t : Text) (s : Session) : Type 0 where
  pub history : s.editor.input_history ≡ line t ∷ old
  pub cursor : s.pos_x ≡ s.start_pos_x + length t.before
  pub controlled : s.editor.handle_control_commands ≡ true

pub length-rev_onto : (b a : List ℕ) → length (rev_onto b a) ≡ length b + length a
length-rev_onto [] a = omega arith
length-rev_onto (x ∷ b) a = omega (arith, length-rev_onto b (x ∷ a))

add_shift : (n k : ℕ) → suc n + k ≡ n + suc k
add_shift n k = omega arith

pub insert_at-rev_onto :
    (b a a' : List ℕ) (k c : ℕ)
    → insert_at k c a ≡ some a'
    → insert_at (length b + k) c (rev_onto b a) ≡ some (rev_onto b a')
unfolding insert_at
insert_at-rev_onto [] a a' k c h = rw (zero-add k) h
insert_at-rev_onto (x ∷ b) a a' k c h =
    rw (add_shift (length b) k) (insert_at-rev_onto b (x ∷ a) (x ∷ a') (suc k) c (rw h refl))

pub erase_at-rev_onto :
    (b a a' : List ℕ) (k : ℕ)
    → erase_at k a ≡ some a'
    → erase_at (length b + k) (rev_onto b a) ≡ some (rev_onto b a')
unfolding erase_at
erase_at-rev_onto [] a a' k h = rw (zero-add k) h
erase_at-rev_onto (x ∷ b) a a' k h =
    rw (add_shift (length b) k) (erase_at-rev_onto b (x ∷ a) (x ∷ a') (suc k) (rw h refl))

pub resize-rev_onto :
    (b a : List ℕ) (k : ℕ) → resize (length b + k) 0 (rev_onto b a) ≡ rev_onto b (resize k 0 a)
resize-rev_onto [] a k = rw (zero-add k) refl
resize-rev_onto (x ∷ b) a k = rw (add_shift (length b) k) (resize-rev_onto b (x ∷ a) (suc k))

pub key-character :
    (g : List ℕ → List (List ℕ)) (s : Session) (c : ℕ) (is : List ℕ)
    → IsTyped (character c)
    → key g s c is ≡ insert_character c s is
unfolding key
key-character g s c is h = ground arith

pub rev_onto_twice : (b a : List ℕ) → rev_onto (rev_onto b a) [] ≡ rev_onto a b
rev_onto_twice [] a = refl
rev_onto_twice (x ∷ b) a = rev_onto_twice b (x ∷ a)
