-- ===== src/LineInput/Keys.antt =====
-- One key of the line editor against the editor of two lists.
use espp.Prelude.{
  ℕ, ◌+◌, ◌-◌, ◌%◌, ◌^◌, ◌<◌, ◌≡◌, refl, sym, ap, ◌∙◌, Bool, true, false, List, [], ◌∷◌, ◌++◌, ltb,
  ◌==◌, ◌&&◌, not, if◌then◌else◌, length, arith,
}
use espp.LineInput.{
  Session, Progress, more, set_input, insert_at, erase_at, with_line, insert_character, move_left,
  move_right, move_to_start, move_to_end, kill, backspace, escape, key, handle_resize,
}
use espp.LineInput.Text.{
  Key, character, rub_out, left, right, home, to_end, kill_line, first, others, IsTyped, rev_onto,
  Text, line, text, edit, Shows, length-rev_onto, insert_at-rev_onto, erase_at-rev_onto,
  resize-rev_onto, key-character, rev_onto_twice,
}

-- What one key does to a session that shows a text.
abbrev pub Edited : List (List ℕ) → Key → Text → Session → List ℕ → Progress → Type 0
Edited old k t s is p = (s' : Session) × (p ≡ more s' is) × Shows old (edit k t) s'

module _ (old : List (List ℕ)) where
  -- An operation that gives the line of the new text, with the cursor moved there.
  shown_line :
      (t : Text) (s : Session) (x : ℕ) (front : List ℕ)
      → s.editor.input_history ≡ front ∷ old
      → s.editor.handle_control_commands ≡ true
      → x ≡ s.start_pos_x + length t.before
      → Shows old t (set_input (record s { pos_x = x }) (line t))
  shown_line t s x front h c e = record { history = rw h refl; cursor = e; controlled = c }

  character-Edited :
      (c : ℕ) (t : Text) (s : Session) (is : List ℕ)
      → c < 256
      → Shows old t s
      → Edited old (character c) t s is (insert_character c s is)
  unfolding edit insert_character with_line insert_at
  character-Edited c t s is h v =
      let at : s.pos_x - s.start_pos_x ≡ length t.before + 0 = omega (arith, v.cursor) in
      let low : ltb s.pos_x s.start_pos_x ≡ false = ground (arith, v.cursor) in
      let byte : c % 2 ^ 8 ≡ c = omega arith in
      (
        set_input (record s { pos_x = s.pos_x + 1 }) (rev_onto t.before (c ∷ t.after)),
        rw (low, at, byte, v.history, insert_at-rev_onto t.before t.after (c ∷ t.after) 0 c refl)
            refl,
        shown_line (edit (character c) t) s (s.pos_x + 1) (line t) v.history v.controlled
            (omega (arith, v.cursor)),
      )

  rub_out-Edited :
      (b a : List ℕ) (s : Session) (is : List ℕ)
      → Shows old (text b a) s
      → Edited old rub_out (text b a) s is (backspace s is)
  unfolding edit backspace with_line erase_at
  rub_out-Edited [] a s is v =
      let low : ltb s.start_pos_x s.pos_x ≡ false = ground (arith, v.cursor) in
      (s, rw (low, v.history) (ground arith), v)
  rub_out-Edited (x ∷ b) a s is v =
      let at : s.pos_x - s.start_pos_x - 1 ≡ length b + 0 = omega (arith, v.cursor) in
      let some_before : ltb s.start_pos_x s.pos_x ≡ true = ground (arith, v.cursor) in
      let size : ltb 0 (length (rev_onto b (x ∷ a))) ≡ true =
        ground (arith, length-rev_onto b (x ∷ a)) in
      (
        set_input (record s { pos_x = s.pos_x - 1 }) (rev_onto b a),
        rw (some_before, v.history) (rw (size, at, erase_at-rev_onto b (x ∷ a) a 0 refl) refl),
        shown_line (text b a) s (s.pos_x - 1) (rev_onto b (x ∷ a)) v.history v.controlled
            (omega (arith, v.cursor)),
      )

  left-edited :
      (b a : List ℕ) (s : Session)
      → Shows old (text b a) s
      → Shows old (edit left (text b a)) (move_left s)
  unfolding edit move_left
  left-edited [] a s v = record {
    history = v.history;
    cursor = ground (arith, v.cursor);
    controlled = v.controlled;
  }
  left-edited (x ∷ b) a s v = record {
    history = v.history;
    cursor = ground (arith, v.cursor);
    controlled = v.controlled;
  }

  right-edited :
      (b a : List ℕ) (s : Session)
      → Shows old (text b a) s
      → Shows old (edit right (text b a)) (move_right s)
  unfolding edit move_right
  right-edited b [] s v = record {
    history = v.history;
    cursor = rw v.history (ground (arith, v.cursor, length-rev_onto b []));
    controlled = v.controlled;
  }
  right-edited b (x ∷ a) s v = record {
    history = v.history;
    cursor = rw v.history (ground (arith, v.cursor, length-rev_onto b (x ∷ a)));
    controlled = v.controlled;
  }

  home-edited : (t : Text) (s : Session) → Shows old t s → Shows old (edit home t) (move_to_start s)
  unfolding edit move_to_start
  home-edited t s v = record {
    history = v.history;
    cursor = omega arith;
    controlled = v.controlled;
  }

  to_end-edited :
      (t : Text) (s : Session) → Shows old t s → Shows old (edit to_end t) (move_to_end s)
  unfolding edit move_to_end
  to_end-edited t s v = record {
    history = v.history ∙ ap (λ l. l ∷ old) (sym (rev_onto_twice t.after t.before));
    cursor =
        rw v.history
          (omega (arith, length-rev_onto t.before t.after, length-rev_onto t.after t.before));
    controlled = v.controlled;
  }

  kill_line-Edited :
      (t : Text) (s : Session) (is : List ℕ)
      → Shows old t s
      → Edited old kill_line t s is (kill s is)
  unfolding edit kill
  kill_line-Edited t s is v =
      let at : s.pos_x - s.start_pos_x ≡ length t.before + 0 = omega (arith, v.cursor) in
      let low : ltb s.pos_x s.start_pos_x ≡ false = ground (arith, v.cursor) in
      (
        set_input s (rev_onto t.before []),
        rw (low, at, v.history, resize-rev_onto t.before t.after 0) refl,
        shown_line (text t.before []) s s.pos_x (line t) v.history v.controlled v.cursor,
      )

  pub handle_resize-shown :
      (t : Text) (s : Session) (size : ℕ × ℕ) → Shows old t s → Shows old t (handle_resize size s)
  unfolding handle_resize
  handle_resize-shown t s (width, height) v =
      let e = s.editor in
      let drawn : Session = record s {
        editor = record e { terminal_width = width; terminal_height = height };
        pos_y = 1;
      } in
      either
        (e.send_escape_sequences
          && e.should_handle_resize
          && not ((width == e.terminal_width) && (height == e.terminal_height)))
        drawn s record { history = v.history; cursor = v.cursor; controlled = v.controlled } v
    where
      either :
          (c : Bool) (s1 s2 : Session)
          → Shows old t s1
          → Shows old t s2
          → Shows old t (if c then s1 else s2)
      either true s1 s2 x y = x
      either false s1 s2 x y = y

  pub key-Edited :
      (g : List ℕ → List (List ℕ)) (k : Key) (t : Text) (s : Session) (is : List ℕ)
      → IsTyped k
      → Shows old t s
      → Edited old k t s is (key g s (first k) (others k ++ is))
  unfolding key escape
  key-Edited g (character c) t s is h v =
      let (s', e, v') = character-Edited c t s is h.1 v in (s', key-character g s c is h ∙ e, v')
  key-Edited g rub_out t s is h v = rub_out-Edited t.before t.after s is v
  key-Edited g left t s is h v = (move_left s, refl, left-edited t.before t.after s v)
  key-Edited g right t s is h v = (move_right s, refl, right-edited t.before t.after s v)
  key-Edited g home t s is h v = (move_to_start s, refl, home-edited t s v)
  key-Edited g to_end t s is h v = (move_to_end s, refl, to_end-edited t s v)
  key-Edited g kill_line t s is h v = kill_line-Edited t s is v
