-- ===== src/LineInput.antt =====
-- The line editor of the command line: LineInput (components/cli/include/line_input.hpp). What is
-- printed is not modelled. The answers of the terminal to the requests for its size, the bytes of
-- the input stream and the completions are arguments.
pub mod Text
pub mod Keys
pub mod Edits
mod History
mod Tests
use espp.Prelude.{
  ℕ, zero, suc, ◌+◌, ◌-◌, ◌%◌, ◌^◌, Bool, true, false, not, ◌&&◌, ◌||◌, Option, none, some, List,
  [], ◌∷◌, ltb, ◌==◌, if◌then◌else◌, length, get_or, get_elem?, set, resize, take,
}

pub record LineInput : Type 0 where
  pub terminal_width : ℕ
  pub terminal_height : ℕ
  pub history_size : ℕ
  pub input_history : List (List ℕ)
  pub should_handle_resize : Bool
  pub send_escape_sequences : Bool
  pub handle_control_commands : Bool

-- The object and the local variables of `get_user_input`. The variable `input` is a reference to
-- the front of the history, so that an assignment to it is one to the history.
pub record Session : Type 0 where
  pub editor : LineInput
  pub start_pos_x : ℕ
  pub start_pos_y : ℕ
  pub pos_x : ℕ
  pub pos_y : ℕ
  pub input_index : ℕ

-- After an iteration of the loop: on with the rest of the stream; the loop left with the line; the
-- stream used up, where `get` waits; an access outside a string or the history.
pub data Progress : Type 0 where
  more : Session → List ℕ → Progress
  entered : List ℕ → Session → Progress
  waiting : Session → Progress
  fault : Progress

unfoldable pub bounded : LineInput → LineInput
bounded e =
    if ltb 0 e.history_size && ltb e.history_size (length e.input_history)
    then record e { input_history = resize e.history_size [] e.input_history }
    else e

unfoldable pub set_history_size : ℕ → LineInput → LineInput
unfolding bounded
set_history_size new_size e = bounded (record e { history_size = new_size })

unfoldable pub set_history : List (List ℕ) → LineInput → LineInput
unfolding bounded
set_history history e = bounded (record e { input_history = history })

abbrev pub input : Session → List ℕ
input s = get_or s.editor.input_history 0 []

abbrev pub set_input : Session → List ℕ → Session
set_input s line = record s {
  editor = record s.editor { input_history = set s.editor.input_history 0 line };
}

abbrev pub lesser : ℕ → ℕ → ℕ
lesser a b = if ltb b a then b else a

abbrev pub greater : ℕ → ℕ → ℕ
greater a b = if ltb a b then b else a

-- `std::string::insert` and `erase` at an iterator; `none` outside the string.
unfoldable pub insert_at : ℕ → ℕ → List ℕ → Option (List ℕ)
insert_at zero c xs = some (c ∷ xs)
insert_at (suc n) c [] = none
insert_at (suc n) c (x ∷ xs) = elim (insert_at n c xs) [ none ↦ none | some ys ↦ some (x ∷ ys) ]

unfoldable pub erase_at : ℕ → List ℕ → Option (List ℕ)
erase_at n [] = none
erase_at zero (x ∷ xs) = some xs
erase_at (suc n) (x ∷ xs) = elim (erase_at n xs) [ none ↦ none | some ys ↦ some (x ∷ ys) ]

-- A line that an operation on the string gives, and the step it makes of the cursor.
unfoldable pub with_line : Option (List ℕ) → ℕ → Session → List ℕ → Progress
with_line none pos_x s is = fault
with_line (some line) pos_x s is = more (set_input (record s { pos_x = pos_x }) line) is

-- A character is stored as one byte.
unfoldable pub insert_character : ℕ → Session → List ℕ → Progress
unfolding with_line
insert_character ch s is =
    if ltb s.pos_x s.start_pos_x
    then fault
    else with_line (insert_at (s.pos_x - s.start_pos_x) (ch % 2 ^ 8) (input s)) (s.pos_x + 1) s is

unfoldable pub move_left : Session → Session
move_left s = record s { pos_x = greater s.start_pos_x (s.pos_x - 1) }

unfoldable pub move_right : Session → Session
move_right s = record s { pos_x = lesser (length (input s) + s.start_pos_x) (s.pos_x + 1) }

unfoldable pub move_to_start : Session → Session
move_to_start s = record s { pos_x = s.start_pos_x }

unfoldable pub move_to_end : Session → Session
move_to_end s = record s { pos_x = length (input s) + s.start_pos_x }

-- A new size below 0 is no size of a string.
unfoldable pub kill : Session → List ℕ → Progress
kill s is =
    if ltb s.pos_x s.start_pos_x
    then fault
    else more (set_input s (resize (s.pos_x - s.start_pos_x) 0 (input s))) is

unfoldable pub backspace : Session → List ℕ → Progress
unfolding with_line
backspace s is =
    if ltb 0 (length (input s)) && ltb s.start_pos_x s.pos_x
    then with_line (erase_at (s.pos_x - s.start_pos_x - 1) (input s)) (s.pos_x - 1) s is
    else more s is

-- `input = input_history_[input_index]`.
unfoldable pub recall : ℕ → Session → List ℕ → Progress
recall index s is = elim (get_elem? s.editor.input_history index) [
  | none ↦ fault
  | some line ↦ more (set_input (record s { input_index = index }) line) is
]

unfoldable pub older : Session → List ℕ → Progress
unfolding recall
older s is = recall (lesser (s.input_index + 1) (length s.editor.input_history - 1)) s is

unfoldable pub newer : Session → List ℕ → Progress
unfolding recall
newer s is = recall (s.input_index - 1) s is

-- `is.ignore` up to and with the byte `c`.
pub skip_past : ℕ → List ℕ → List ℕ
skip_past c [] = []
skip_past c (x ∷ xs) = let rest = skip_past c xs in if x == c then xs else rest

-- After the escape character: one byte is skipped, the next one decides.
unfoldable pub escape : Session → List ℕ → Progress
unfolding older newer move_left move_right skip_past
escape s [] = waiting s
escape s (bracket ∷ []) = waiting s
escape s (bracket ∷ ch ∷ is) =
    if ch == 65
    then older (record s { pos_y = greater s.start_pos_y (s.pos_y - 1) }) is
    else (if ch == 66
        then newer (record s { pos_y = s.pos_y + 1 }) is
        else (if ch == 67
            then more (move_right s) is
            else (if ch == 68
                then more (move_left s) is
                else more s (skip_past 82 (skip_past 59 is)))))

-- The tab key, with the completions of the line.
unfoldable pub complete : List (List ℕ) → Session → List ℕ → Progress
complete [] s is = more s is
complete (line ∷ []) s is =
    more (set_input (record s { pos_x = s.start_pos_x + length line }) line) is
complete (line ∷ line' ∷ lines) s is =
    more (if s.pos_y == s.editor.terminal_height then record s { pos_y = s.pos_y - 1 } else s) is

-- One key, `get_completions` empty where there is no such function.
unfoldable pub key : (List ℕ → List (List ℕ)) → Session → ℕ → List ℕ → Progress
unfolding escape move_to_start move_to_end move_left move_right kill newer older backspace complete
    insert_character
key get_completions s ch is =
    if ch == 27
    then escape s is
    else (if ch == 1
        then more (move_to_start s) is
        else (if ch == 5
            then more (move_to_end s) is
            else (if ch == 2
                then more (move_left s) is
                else (if ch == 6
                    then more (move_right s) is
                    else (if ch == 11
                        then kill s is
                        else (if ch == 12
                            then more (record s { pos_y = 1 }) is
                            else (if ch == 14
                                then newer s is
                                else (if ch == 16
                                    then older s is
                                    else (if (ch == 127) || (ch == 8)
                                        then backspace s is
                                        else (if ch == 9
                                            then complete (get_completions (input s)) s is
                                            else (if ch == 10
                                                then entered (input s) s
                                                else insert_character ch s is)))))))))))

-- The key without control commands.
unfoldable pub plain_key : Session → ℕ → List ℕ → Progress
unfolding insert_character
plain_key s ch is = if ch == 10 then entered (input s) s else insert_character ch s is

-- The terminal's size at the start of an iteration: after a change the screen is drawn anew.
unfoldable pub handle_resize : ℕ × ℕ → Session → Session
handle_resize (width, height) s =
    let e = s.editor in
    if e.send_escape_sequences
      && e.should_handle_resize
      && not ((width == e.terminal_width) && (height == e.terminal_height))
    then record s {
      editor = record e { terminal_width = width; terminal_height = height };
      pos_y = 1;
    }
    else s

unfoldable pub iteration : (List ℕ → List (List ℕ)) → Session → ℕ → List ℕ → Progress
unfolding key plain_key
iteration get_completions s ch is =
    if s.editor.handle_control_commands then key get_completions s ch is else plain_key s ch is

-- The loop, with fuel: the length of the stream is enough, since an iteration takes a byte or more.
-- `sizes` are the terminal's answers.
pub run : (List ℕ → List (List ℕ)) → (ℕ → ℕ × ℕ) → (fuel : ℕ) → Session → List ℕ → Progress
run get_completions sizes fuel s [] = waiting s
run get_completions sizes zero s (ch ∷ is) = waiting s
run get_completions sizes (suc fuel) s (ch ∷ is) =
    elim (iteration get_completions (handle_resize (sizes fuel) s) ch is) [
      | more s' is' ↦ run get_completions sizes fuel s' is'
      | entered line s' ↦ entered line s'
      | waiting s' ↦ waiting s'
      | fault ↦ fault
    ]

-- Everything before the loop, with the answers for the cursor's position and the terminal's size.
unfoldable pub begin : ℕ × ℕ → ℕ × ℕ → LineInput → Session
begin (start_pos_x, start_pos_y) (width, height) e =
    let x = if e.send_escape_sequences then start_pos_x else 0 in
    let y = if e.send_escape_sequences then start_pos_y else 0 in
    let asked = e.should_handle_resize && e.send_escape_sequences in
    let history : List (List ℕ) = [] ∷ e.input_history in
    let kept =
      if ltb 0 e.history_size && ltb e.history_size (length history)
      then take (length history - 1) history
      else history in
    record {
      editor = record e {
        terminal_width = if asked then width else e.terminal_width;
        terminal_height = if asked then height else e.terminal_height;
        input_history = kept;
      };
      start_pos_x = x;
      start_pos_y = y;
      pos_x = x;
      pos_y = y;
      input_index = 0;
    }

pub get_user_input :
    (List ℕ → List (List ℕ)) → (ℕ → ℕ × ℕ) → ℕ × ℕ → ℕ × ℕ → LineInput → List ℕ → Progress
get_user_input get_completions sizes cursor size e is =
    run get_completions sizes (length is) (begin cursor size e) is
