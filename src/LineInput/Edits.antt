-- ===== src/LineInput/Edits.antt =====
-- The whole of `get_user_input` against an editor of two lists: the characters before the cursor, the
-- nearest one first, and the ones after it.
use espp.Prelude.{
  ℕ, zero, suc, ◌-◌, ◌≤◌, ◌≡◌, refl, ap, ◌∙◌, Bool, true, false, List, [], ◌∷◌, ◌++◌, ltb, ◌&&◌,
  if◌then◌else◌, length, take, arith, length-append,
}
use espp.LineInput.{
  LineInput, Session, Progress, more, entered, waiting, fault, input, key, handle_resize, iteration,
  plain_key, run, begin, get_user_input,
}
use espp.LineInput.Text.{Key, first, others, typed, AllTyped, Text, line, text, edit, edits, Shows}
use espp.LineInput.Keys.{handle_resize-shown, key-Edited}

key-enter :
    (g : List ℕ → List (List ℕ)) (s : Session) (is : List ℕ) → key g s 10 is ≡ entered (input s) s
unfolding key
key-enter g s is = refl

iteration-key :
    (g : List ℕ → List (List ℕ)) (s : Session) (ch : ℕ) (is : List ℕ)
    → s.editor.handle_control_commands ≡ true
    → iteration g s ch is ≡ key g s ch is
unfolding iteration
iteration-key g s ch is e = ap (λ c. if c then key g s ch is else plain_key s ch is) e

length-typed : (ks : List Key) (is : List ℕ) → length is ≤ length (typed ks is)
length-typed [] is = omega arith
length-typed (k ∷ ks) is = omega (arith, length-append (others k) (typed ks is), length-typed ks is)

run-step :
    (g : List ℕ → List (List ℕ)) (sizes : ℕ → ℕ × ℕ) (fuel : ℕ) (s : Session) (ch : ℕ) (is : List ℕ)
    (p : Progress)
    → iteration g (handle_resize (sizes fuel) s) ch is ≡ p
    → run g sizes (suc fuel) s (ch ∷ is) ≡ elim p [
      | more s' is' ↦ run g sizes fuel s' is'
      | entered line s' ↦ entered line s'
      | waiting s' ↦ waiting s'
      | fault ↦ fault
    ]
unfolding run
run-step g sizes fuel s ch is p e =
    ap
      (λ p. elim p [
        | more s' is' ↦ run g sizes fuel s' is'
        | entered line s' ↦ entered line s'
        | waiting s' ↦ waiting s'
        | fault ↦ fault
      ])
      e

-- The loop on typed keys and the line's end, with enough fuel.
run-edits :
    (g : List ℕ → List (List ℕ)) (sizes : ℕ → ℕ × ℕ) (old : List (List ℕ)) (ks : List Key)
    (t : Text) (s : Session) (is : List ℕ) (fuel : ℕ)
    → AllTyped ks
    → Shows old t s
    → length (typed ks (10 ∷ is)) ≤ fuel
    → (s' : Session) × (run g sizes fuel s (typed ks (10 ∷ is)) ≡ entered (line (edits ks t)) s')
      × Shows old (edits ks t) s'
unfolding run
run-edits g sizes old ks t s is zero h v enough = absurd (omega (arith, length-typed ks (10 ∷ is)))
run-edits g sizes old [] t s is (suc fuel) h v enough =
    let v' = handle_resize-shown old t s (sizes fuel) v in
    let s' = handle_resize (sizes fuel) s in
    let result : key g s' 10 is ≡ entered (line t) s' = key-enter g s' is ∙ rw v'.history refl in
    (
      s',
      run-step g sizes fuel s 10 is (entered (line t) s')
          (iteration-key g s' 10 is v'.controlled ∙ result),
      v',
    )
run-edits g sizes old (k ∷ ks) t s is (suc fuel) h v enough =
    let v1 = handle_resize-shown old t s (sizes fuel) v in
    let s1 = handle_resize (sizes fuel) s in
    let (s2, e, v2) = key-Edited old g k t s1 (typed ks (10 ∷ is)) h.0 v1 in
    let (s3, e', v3) =
      run-edits g sizes old ks (edit k t) s2 is fuel h.1 v2
        (omega (arith, length-append (others k) (typed ks (10 ∷ is)))) in
    (
      s3,
      run-step g sizes fuel s (first k) (others k ++ typed ks (10 ∷ is))
            (more s2 (typed ks (10 ∷ is)))
            (iteration-key g s1 (first k) (others k ++ typed ks (10 ∷ is)) v1.controlled ∙ e)
          ∙ e',
      v3,
    )

-- The lines that stay when a new one is begun: the oldest one goes where the history was full.
abbrev pub kept_lines : LineInput → List (List ℕ)
kept_lines e =
    if ltb 0 e.history_size && ltb e.history_size (suc (length e.input_history))
    then take (length e.input_history - 1) e.input_history
    else e.input_history

kept_under :
    (full : Bool) (h : List (List ℕ))
    → (full ≡ true → 1 ≤ length h)
    → (if full then take (suc (length h) - 1) ([] ∷ h) else ([] ∷ h))
      ≡ [] ∷ (if full then take (length h - 1) h else h)
kept_under false h some_line = refl
kept_under true [] some_line = absurd (omega (arith, some_line refl))
kept_under true (x ∷ h) some_line = rw (suc_less (suc (length h)), suc_less (length h)) refl
  where
    suc_less : (n : ℕ) → suc n - 1 ≡ n
    suc_less n = omega arith

pub begin-history :
    (cursor size : ℕ × ℕ) (e : LineInput)
    → (begin cursor size e).editor.input_history ≡ [] ∷ kept_lines e
unfolding begin
begin-history cursor size e =
    kept_under (ltb 0 e.history_size && ltb e.history_size (suc (length e.input_history)))
      e.input_history (λ full. ground arith)

begin-Shows :
    (cursor size : ℕ × ℕ) (e : LineInput)
    → e.handle_control_commands ≡ true
    → Shows (kept_lines e) (text [] []) (begin cursor size e)
unfolding begin
begin-Shows cursor size e c = record {
  history = begin-history cursor size e;
  cursor = omega arith;
  controlled = c;
}

-- Where control commands are handled, `get_user_input` on the bytes of any sequence of typed
-- characters of one byte that are no control characters, and of the keys backspace, left, right,
-- Ctrl+A, Ctrl+E and Ctrl+K, followed by Enter, ends without an access out of range and returns the
-- line that an editor of two lists makes of these keys. That line is then the newest of the
-- history, before the lines it held, without the oldest one where it was full. The terminal's
-- answers, the completions and what follows in the stream have no influence.
pub get_user_input-edits :
    (g : List ℕ → List (List ℕ)) (sizes : ℕ → ℕ × ℕ) (cursor size : ℕ × ℕ) (e : LineInput)
    (ks : List Key) (is : List ℕ)
    → e.handle_control_commands ≡ true
    → AllTyped ks
    → (s : Session) × (get_user_input g sizes cursor size e (typed ks (10 ∷ is))
        ≡ entered (line (edits ks (text [] []))) s)
      × (s.editor.input_history ≡ line (edits ks (text [] [])) ∷ kept_lines e)
unfolding get_user_input
get_user_input-edits g sizes cursor size e ks is c h =
    let (s, result, v) =
      run-edits g sizes (kept_lines e) ks (text [] []) (begin cursor size e) is
        (length (typed ks (10 ∷ is))) h (begin-Shows cursor size e c) (omega arith) in
    (s, result, v.history)
