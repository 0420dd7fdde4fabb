-- ===== src/LineInput/History.antt =====
-- The history: its bound, and the keys that show older lines.
use espp.Prelude.{
  ℕ, zero, suc, ◌+◌, ◌-◌, ◌≤◌, ◌<◌, ◌%◌, ◌^◌, ◌∙◌, ◌≡◌, ap, ◌⊎◌, inl, inr, refl, false, ◌&&◌, List,
  [], ◌∷◌, ltb, length, get_elem?, length-resize, length-take, Bool-cases, none, some, arith,
}
use espp.LineInput.{
  LineInput, Session, fault, more, bounded, set_history_size, set_history, begin, insert_at,
  insert_character, key, older, recall, lesser, set_input, with_line,
}
use espp.LineInput.Edits.{kept_lines, begin-history}
use espp.LineInput.Text.{character, IsTyped, key-character}

-- A size of 0 is no bound.
abbrev pub IsBounded : LineInput → Type 0
IsBounded e = (e.history_size ≡ 0) ⊎ (length e.input_history ≤ e.history_size)

begin_size :
    (cursor size : ℕ × ℕ) (e : LineInput)
    → (begin cursor size e).editor.history_size ≡ e.history_size
unfolding begin
begin_size cursor size e = refl

bounded-IsBounded : (e : LineInput) → IsBounded (bounded e)
unfolding bounded
bounded-IsBounded e =
    let full = ltb 0 e.history_size && ltb e.history_size (length e.input_history) in
    elim (Bool-cases full) [
      | inl at ↦ rw at (inr (omega (arith, length-resize e.history_size [] e.input_history)))
      | inr at ↦ rw at (ground (arith, at))
    ]

kept-IsBounded :
    (e : LineInput)
    → IsBounded e
    → (e.history_size ≡ 0) ⊎ (suc (length (kept_lines e)) ≤ e.history_size)
kept-IsBounded e b =
    let full = ltb 0 e.history_size && ltb e.history_size (suc (length e.input_history)) in
    elim (Bool-cases full) [
      | inl at ↦
          rw at (ground (arith, b, at, length-take (length e.input_history - 1) e.input_history))
      | inr at ↦ rw at (ground (arith, b, at))
    ]

-- Where the history is within its bound, `set_history_size` and `set_history` leave it within the
-- bound, whatever the new bound or history is, and the start of `get_user_input` keeps it within
-- the bound and never empty. A size of 0 is no bound.
pub history-IsBounded :
    (e : LineInput) (new_size : ℕ) (history : List (List ℕ)) (cursor size : ℕ × ℕ)
    → IsBounded e
    → IsBounded (set_history_size new_size e)
      × IsBounded (set_history history e)
      × IsBounded (begin cursor size e).editor
      × (1 ≤ length (begin cursor size e).editor.input_history)
unfolding set_history_size set_history
history-IsBounded e new_size history cursor size b = (
  bounded-IsBounded (record e { history_size = new_size }),
  bounded-IsBounded (record e { input_history = history }),
  rw (begin-history cursor size e, begin_size cursor size e) (kept-IsBounded e b),
  rw (begin-history cursor size e) (omega arith),
)

insert_at-beyond : (n c : ℕ) (xs : List ℕ) → length xs < n → insert_at n c xs ≡ none
unfolding insert_at
insert_at-beyond zero c xs h = absurd (omega arith)
insert_at-beyond (suc n) c [] h = refl
insert_at-beyond (suc n) c (x ∷ xs) h = rw (insert_at-beyond n c xs (omega arith)) refl

key-older : (g : List ℕ → List (List ℕ)) (s : Session) (is : List ℕ) → key g s 16 is ≡ older s is
unfolding key
key-older g s is = refl

recalled :
    (s : Session) (older_line : List ℕ) (index : ℕ) (is : List ℕ)
    → get_elem? s.editor.input_history index ≡ some older_line
    → recall index s is ≡ more (set_input (record s { input_index = index }) older_line) is
unfolding recall
recalled s older_line index is shown =
    ap
      (λ found. elim found [
        | none ↦ fault
        | some line ↦ more (set_input (record s { input_index = index }) line) is
      ])
      shown

older-recalled :
    (s : Session) (front older_line : List ℕ) (old : List (List ℕ)) (is : List ℕ)
    → s.editor.input_history ≡ front ∷ old
    → get_elem? (front ∷ old) (lesser (s.input_index + 1) (length old)) ≡ some older_line
    → older s is
      ≡ more
          (set_input
            (record s { input_index = lesser (s.input_index + 1) (length old) })
            older_line)
          is
unfolding older
older-recalled s front older_line old is h shown =
    let size : length s.editor.input_history - 1 ≡ length old = rw h (omega arith) in
    ap (λ n. recall (lesser (s.input_index + 1) n) s is) size
    ∙ recalled s older_line (lesser (s.input_index + 1) (length old)) is (rw h shown)

character-beyond :
    (s : Session) (front : List ℕ) (old : List (List ℕ)) (c : ℕ) (is : List ℕ)
    → s.editor.input_history ≡ front ∷ old
    → s.start_pos_x + length front < s.pos_x
    → insert_character c s is ≡ fault
unfolding insert_character with_line
character-beyond s front old c is h short =
    let low : ltb s.pos_x s.start_pos_x ≡ false = ground arith in
    rw (low, h, insert_at-beyond (s.pos_x - s.start_pos_x) (c % 2 ^ 8) front (omega arith)) refl

-- Ctrl+P, and then a character, where the older line that is shown is shorter than the cursor's
-- place: the line is shown, the cursor stays where it was, and the character is inserted past the end of the string.
pub older-fault :
    (g : List ℕ → List (List ℕ)) (s : Session) (front older_line : List ℕ) (old : List (List ℕ))
    (c : ℕ) (is is' : List ℕ)
    → s.editor.input_history ≡ front ∷ old
    → get_elem? (front ∷ old) (lesser (s.input_index + 1) (length old)) ≡ some older_line
    → s.start_pos_x + length older_line < s.pos_x
    → IsTyped (character c)
    → (s' : Session) × (key g s 16 is ≡ more s' is)
      × (get_elem? s'.editor.input_history 0 ≡ some older_line)
      × (s'.pos_x ≡ s.pos_x)
      × (key g s' c is' ≡ fault)
older-fault g s front older_line old c is is' h shown short typed =
    let index = lesser (s.input_index + 1) (length old) in
    let s' : Session = set_input (record s { input_index = index }) older_line in
    let shown_again : older s is ≡ more s' is = older-recalled s front older_line old is h shown in
    (
      s',
      key-older g s is ∙ shown_again,
      rw h refl,
      refl,
      key-character g s' c is' typed ∙ character-beyond s' older_line old c is' (rw h refl) short,
    )
