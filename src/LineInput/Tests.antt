-- ===== src/LineInput/Tests.antt =====
-- The line editor on concrete keys.
use espp.Prelude.{some, get_elem?, ℕ, ◌≡◌, ◌≤◌, ◌<◌, refl, List, [], ◌∷◌, true, inr, length, arith}
use espp.LineInput.{
  LineInput, Session, more, entered, fault, get_user_input, set_history_size, set_history, begin,
  key,
}
use espp.LineInput.Edits.{get_user_input-edits}
use espp.LineInput.Text.{
  Key, character, rub_out, left, home, to_end, typed, edit, AllTyped, IsTyped,
}
use espp.LineInput.History.{IsBounded, history-IsBounded, older-fault}

-- One line of history, `ls`, and room for two.
abbrev editor : LineInput
editor = record {
  terminal_width = 80;
  terminal_height = 24;
  history_size = 2;
  input_history = (108 ∷ 115 ∷ []) ∷ (112 ∷ []) ∷ [];
  should_handle_resize = true;
  send_escape_sequences = true;
  handle_control_commands = true;
}

-- `a`, `b`, left, `c`, Ctrl+E, `d`, backspace, Ctrl+A, `e`: the line `eacb`.
abbrev keys : List Key
keys =
    character 97
    ∷ character 98
    ∷ left
    ∷ character 99
    ∷ to_end
    ∷ character 100
    ∷ rub_out
    ∷ home
    ∷ character 101
    ∷ []

letter : (c : ℕ) → 32 ≤ c → c < 127 → IsTyped (character c)
letter c low high = (low, omega arith, λ e. absurd (omega arith))

keys-AllTyped : AllTyped keys
keys-AllTyped = (
  letter 97 (omega arith) (omega arith),
  (
    letter 98 (omega arith) (omega arith),
    (
      tt,
      (
        letter 99 (omega arith) (omega arith),
        (
          tt,
          (
            letter 100 (omega arith) (omega arith),
            (tt, (tt, (letter 101 (omega arith) (omega arith), tt))),
          ),
        ),
      ),
    ),
  ),
)

get_user_input-edits_example :
    (s : Session) × (get_user_input
        (λ l. [])
        (λ n. (80, 24))
        (3, 1)
        (80, 24)
        editor
        (typed keys (10 ∷ []))
      ≡ entered (101 ∷ 97 ∷ 99 ∷ 98 ∷ []) s)
    × (s.editor.input_history ≡ (101 ∷ 97 ∷ 99 ∷ 98 ∷ []) ∷ (108 ∷ 115 ∷ []) ∷ [])
unfolding edit
get_user_input-edits_example =
    get_user_input-edits (λ l. []) (λ n. (80, 24)) (3, 1) (80, 24) editor keys [] refl keys-AllTyped

history-IsBounded_example :
    IsBounded (set_history_size 1 editor)
    × IsBounded (set_history ([] ∷ [] ∷ [] ∷ []) editor)
    × IsBounded (begin (3, 1) (80, 24) editor).editor
    × (1 ≤ length (begin (3, 1) (80, 24) editor).editor.input_history)
history-IsBounded_example =
    history-IsBounded editor 1 ([] ∷ [] ∷ [] ∷ []) (3, 1) (80, 24) (inr (omega arith))

-- Three characters typed, over the line `ls`.
abbrev typing : Session
typing = record {
  editor = record editor { input_history = (97 ∷ 98 ∷ 99 ∷ []) ∷ (108 ∷ 115 ∷ []) ∷ [] };
  start_pos_x = 3;
  start_pos_y = 1;
  pos_x = 6;
  pos_y = 1;
  input_index = 0;
}

older-fault_example :
    (s' : Session) × (key (λ l. []) typing 16 (100 ∷ []) ≡ more s' (100 ∷ []))
    × (get_elem? s'.editor.input_history 0 ≡ some (108 ∷ 115 ∷ []))
    × (s'.pos_x ≡ typing.pos_x)
    × (key (λ l. []) s' 100 [] ≡ fault)
older-fault_example =
    older-fault (λ l. []) typing (97 ∷ 98 ∷ 99 ∷ []) (108 ∷ 115 ∷ []) ((108 ∷ 115 ∷ []) ∷ []) 100
      (100 ∷ []) [] refl refl (omega arith) (letter 100 (omega arith) (omega arith))
