-- ===== src/RtspSession/Rounds.antt =====
-- Any sequence of rounds of the control task of an RtspSession.
use espp.Prelude.{
  ℕ, suc, ◌+◌, ◌^◌, ◌<◌, ◌≤◌, ◌≡◌, inl, inr, refl, sym, ap, ◌∙◌, Bool, true, false, Option, none,
  some, List, [], ◌∷◌, length, arith, codes, pos, ◌>>=◌, if◌then◌else◌, not,
}
use mathlib.Core.Bool.{false≢true}
use espp.RtspSession.{
  Session, Poll, control_task_fn, receive_request, teardown, transmitted, response, session_header,
  send_response, handle_rtsp_request,
}
use espp.RtspSession.Parse.{Free, cseq_request}
use espp.RtspSession.Dispatch.{line_request}
use espp.RtspSession.Verbs.{
  word, verb_teardown, handle_rtsp_request-sent, headers_of, content_of, effect,
}
use espp.RtspSession.Lifetime.{
  IsSettled, Answers, IsStep, Returns, Returns-then, Returns-if, Returns-test, Returns-weaken,
  request-Good, Good, open-IsSettled,
}

-- After `n` rounds.
unfoldable pub Bounded : ℕ → Session → Session → Type 0
Bounded n s s1 =
    IsSettled s1 × (s1.session_id ≡ s.session_id) × (length s1.sent ≤ length s.sent + n)

if-true {ℓ} : {A : Type ℓ} (b : Bool) (x y : A) → b ≡ true → (if b then x else y) ≡ x
if-true true x y h = refl
if-true false x y h = absurd (false≢true h)

if-false {ℓ} : {A : Type ℓ} (b : Bool) (x y : A) → b ≡ false → (if b then x else y) ≡ y
if-false true x y h = absurd (false≢true (sym h))
if-false false x y h = refl

module _ (transmit : List ℕ → Bool) where
  -- The task runs until a round answers `true`.
  unfoldable pub rounds : List Poll → Session → Option Session
  rounds [] s = some s
  rounds (p ∷ polls) s = do
    (stop, s1) ← control_task_fn transmit p s
    let rest = rounds polls s1
    if stop then some s1 else rest

  teardown-Bounded : (s : Session) → Bounded 1 s (teardown s)
  unfolding Bounded IsSettled
  teardown-Bounded s = ((λ h. refl), refl, omega arith)

  one_more : (s s1 : Session) → Answers s s1 → length s1.sent ≤ length s.sent + 1
  unfolding Answers
  one_more s s1 (inl e) = omega (arith, ap length e)
  one_more s s1 (inr (text, e)) = omega (arith, ap length e)

  Bounded-IsSettled : (n : ℕ) (s s1 : Session) → Bounded n s s1 → IsSettled s1
  unfolding Bounded
  Bounded-IsSettled n s s1 h = h.0

  step-Bounded : (s s1 : Session) → IsStep s s1 → Bounded 1 s s1
  unfolding Bounded Answers
  step-Bounded s s1 h = (h.settled, h.same_id, one_more s s1 h.answers)

  same-Bounded : (n : ℕ) (s : Session) → IsSettled s → Bounded n s s
  unfolding Bounded
  same-Bounded n s h = (h, refl, omega arith)

  received-Bounded :
      (r : Option (List ℕ)) (s : Session)
      → s.closed ≡ false
      → Returns (λ a. Bounded 1 s (a.1)) (receive_request transmit r s)
  unfolding receive_request Returns
  received-Bounded none s e = same-Bounded 1 s (open-IsSettled transmit s e s e)
  received-Bounded (some request) s e =
      Returns-then (Good transmit s e) (λ a. Bounded 1 s (a.1))
        (handle_rtsp_request transmit request s) (λ a. some (false, a.1))
        (request-Good transmit s e request) (λ a h. step-Bounded s (a.1) h)

  round-Bounded :
      (p : Poll) (s : Session)
      → IsSettled s
      → Returns (λ a. Bounded 1 s (a.1)) (control_task_fn transmit p s)
  unfolding control_task_fn Returns
  round-Bounded p s h =
      Returns-test (λ a. Bounded 1 s (a.1)) s.closed _ _ (λ e. same-Bounded 1 s h)
        (λ e.
          Returns-if (λ a. Bounded 1 s (a.1)) (not p.valid) _ _ (teardown-Bounded s)
            (Returns-if (λ a. Bounded 1 s (a.1)) (not p.connected) _ _ (teardown-Bounded s)
              (received-Bounded p.received s e)))

  Bounded-trans :
      (n : ℕ) (s s1 s2 : Session) → Bounded 1 s s1 → Bounded n s1 s2 → Bounded (suc n) s s2
  unfolding Bounded
  Bounded-trans n s s1 s2 h k = (k.0, k.1 ∙ h.1, omega (arith, h.2, k.2))

  Bounded-more : (n : ℕ) (s s1 : Session) → Bounded 1 s s1 → Bounded (suc n) s s1
  unfolding Bounded
  Bounded-more n s s1 h = (h.0, h.1, omega (arith, h.2))

  -- Over any sequence of rounds, from a session that does not send frames if it is closed: unless an
  -- exception ends the task, the session still does not send frames if it is closed, its identifier
  -- is the same, and it sent at most one answer per round.
  pub rounds-Bounded :
      (polls : List Poll) (s : Session)
      → IsSettled s
      → Returns (Bounded (length polls) s) (rounds polls s)
  unfolding rounds Returns
  rounds-Bounded [] s h = same-Bounded 0 s h
  rounds-Bounded (p ∷ polls) s h =
      Returns-then (λ a. Bounded 1 s (a.1)) (Bounded (suc (length polls)) s)
        (control_task_fn transmit p s)
        (λ a. let rest = rounds polls (a.1) in if a.0 then some (a.1) else rest)
        (round-Bounded p s h)
        (λ a k.
          Returns-if (Bounded (suc (length polls)) s) (a.0) (some (a.1)) (rounds polls (a.1))
            (Bounded-more (length polls) s (a.1) k)
            (Returns-weaken (Bounded (length polls) (a.1)) (Bounded (suc (length polls)) s)
              (rounds polls (a.1)) (λ b q. Bounded-trans (length polls) s (a.1) b k q)
              (rounds-Bounded polls (a.1) (Bounded-IsSettled 1 s (a.1) k))))

  control-closed :
      (p : Poll) (s : Session) → s.closed ≡ true → control_task_fn transmit p s ≡ some (true, s)
  unfolding control_task_fn
  control-closed p s h = if-true s.closed _ _ h

  abbrev heard : List ℕ → Poll
  heard request = record { valid = true; connected = true; received = some request }

  control-heard :
      (request : List ℕ) (s : Session)
      → s.closed ≡ false
      → control_task_fn transmit (heard request) s ≡ receive_request transmit (some request) s
  unfolding control_task_fn
  control-heard request s h = if-false s.closed _ _ h

  heard-answered :
      (request : List ℕ) (s : Session) (r : Bool × Session)
      → handle_rtsp_request transmit request s ≡ some r
      → receive_request transmit (some request) s ≡ some (false, r.1)
  unfolding receive_request
  heard-answered request s r e = rw e refl

  rounds-closed : (polls : List Poll) (s : Session) → s.closed ≡ true → rounds polls s ≡ some s
  unfolding rounds
  rounds-closed [] s h = refl
  rounds-closed (p ∷ polls) s h = rw (control-closed p s h) refl

  teardown-answered :
      (path version lead rest : List ℕ) (n : ℕ) (s : Session)
      → Free 32 path
      → Free 13 path
      → Free 13 version
      → Free 67 lead
      → n < 2 ^ 31
      → length (line_request (codes "TEARDOWN") path version (cseq_request lead n rest)) ≤ 1024
      → handle_rtsp_request transmit
          (line_request (codes "TEARDOWN") path version (cseq_request lead n rest))
          s
        ≡ some (send_response transmit 200 (codes "OK") (pos n) (session_header s) [] (teardown s))
  unfolding word headers_of content_of effect
  teardown-answered path version lead rest n s ps pr vr f hn hl =
      handle_rtsp_request-sent transmit verb_teardown path version lead rest n s ps pr vr f hn hl

  -- A TEARDOWN request of at most 1024 bytes that an open and connected session receives, with a path
  -- that has no space and no carriage return, a version without a carriage return, and `CSeq: n` with
  -- n below 2^31 behind header lines without the letter C, ends the task whatever comes after it:
  -- the session stays closed and inactive, and the answer to the request is the last one.
  pub rounds-teardown :
      (path version lead rest : List ℕ) (n : ℕ) (polls : List Poll) (s : Session)
      → s.closed ≡ false
      → Free 32 path
      → Free 13 path
      → Free 13 version
      → Free 67 lead
      → n < 2 ^ 31
      → length (line_request (codes "TEARDOWN") path version (cseq_request lead n rest)) ≤ 1024
      → rounds
          (heard (line_request (codes "TEARDOWN") path version (cseq_request lead n rest)) ∷ polls)
          s
        ≡ some (transmitted (response 200 (codes "OK") (pos n) (session_header s) []) (teardown s))
  unfolding rounds send_response
  rounds-teardown path version lead rest n polls s o ps pr vr f hn hl =
      rw
        (
          control-heard (line_request (codes "TEARDOWN") path version (cseq_request lead n rest)) s
              o,
          heard-answered (line_request (codes "TEARDOWN") path version (cseq_request lead n rest)) s
              _ (teardown-answered path version lead rest n s ps pr vr f hn hl),
        )
        (rounds-closed polls
          (transmitted (response 200 (codes "OK") (pos n) (session_header s) []) (teardown s)) refl)
