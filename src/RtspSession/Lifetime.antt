-- ===== src/RtspSession/Lifetime.antt =====
-- What holds of a session over any sequence of rounds of its control task.
use espp.Prelude.{
  same_text, position, find_from, sub_string, add64, sub64, npos, ◌==◌, ℕ, ◌≡◌, ◌⊎◌, inl, inr, refl,
  sym, ap, ◌∙◌, Bool, true, false, ◌||◌, Option, none, some, List, [], ◌∷◌, ◌++◌, arith, codes, ℤ,
  negsuc, ◌>>=◌, if◌then◌else◌, find_text,
}
use mathlib.Core.Bool.{false≢true}
use mathlib.Core.Path.{subst}
use espp.RtspSession.{
  Session, handle_rtsp_request, handle_method, send_response, play, pause, teardown, save_ports,
  handle_rtsp_options, handle_rtsp_describe, handle_rtsp_play, handle_rtsp_pause,
  handle_rtsp_teardown, handle_rtsp_setup, handle_rtsp_invalid_request, with_sequence, ok,
  answer_setup, parse_rtsp_setup_request, parse_transport, parse_unless_tcp, parse_ports, refuse,
  with_parsed, is_empty, parse_rtsp_path, parse_rtsp_command_sequence, response, session_header,
  transport_header,
}

-- A session that is closed does not send frames.
unfoldable pub IsSettled : Session → Type 0
IsSettled s = s.closed ≡ true → s.session_active ≡ false

unfoldable pub Answers : Session → Session → Type 0
Answers s s1 = (s1.sent ≡ s.sent) ⊎ ((text : List ℕ) × (s1.sent ≡ text ∷ s.sent))

-- What handling one request may do to a session.
pub record IsStep (s s1 : Session) : Type 0 where
  pub same_id : s1.session_id ≡ s.session_id
  pub answers : Answers s s1
  pub settled : IsSettled s1

-- `none`, an exception, satisfies it.
unfoldable pub Returns {ℓ κ} : {A : Type ℓ} → (A → Type κ) → Option A → Type κ
Returns P none = Unit
Returns P (some a) = P a

module _ {ℓ κ μ} {A : Type ℓ} {B : Type κ} (P : B → Type μ) where
  pub Returns-bind :
      (o : Option A) (f : A → Option B) → ((a : A) → Returns P (f a)) → Returns P (o >>= f)
  unfolding Returns
  Returns-bind none f h = tt
  Returns-bind (some a) f h = h a

pub Returns-then {ℓ κ μ ν} :
    {A : Type ℓ} {B : Type κ} (Q : A → Type ν) (P : B → Type μ) (o : Option A) (f : A → Option B)
    → Returns Q o
    → ((a : A) → Q a → Returns P (f a))
    → Returns P (o >>= f)
unfolding Returns
Returns-then Q P none f q h = tt
Returns-then Q P (some a) f q h = h a q

pub Returns-weaken {κ μ ν} :
    {B : Type κ} (Q : B → Type ν) (P : B → Type μ) (o : Option B)
    → ((b : B) → Q b → P b)
    → Returns Q o
    → Returns P o
unfolding Returns
Returns-weaken Q P none h q = tt
Returns-weaken Q P (some b) h q = h b q

pub Returns-if {κ μ} :
    {B : Type κ} (P : B → Type μ) (b : Bool) (x y : Option B)
    → Returns P x
    → Returns P y
    → Returns P (if b then x else y)
Returns-if P true x y hx hy = hx
Returns-if P false x y hx hy = hy

pub Returns-test {κ μ} :
    {B : Type κ} (P : B → Type μ) (b : Bool) (x y : Option B)
    → (b ≡ true → Returns P x)
    → (b ≡ false → Returns P y)
    → Returns P (if b then x else y)
Returns-test P true x y hx hy = hx refl
Returns-test P false x y hx hy = hy refl

module _ (transmit : List ℕ → Bool) (s : Session) (still_open : s.closed ≡ false) where
  abbrev pub Good : Bool × Session → Type 0
  Good r = IsStep s (r.1)

  pub open-IsSettled : (s1 : Session) → s1.closed ≡ false → IsSettled s1
  unfolding IsSettled
  open-IsSettled s1 e h = absurd (false≢true (sym e ∙ h))

  replied :
      (code : ℕ) (message : List ℕ) (n : ℤ) (headers body : List ℕ) (s1 : Session)
      → s1.session_id ≡ s.session_id
      → s1.sent ≡ s.sent
      → IsSettled s1
      → Good (send_response transmit code message n headers body s1)
  unfolding send_response Answers IsSettled
  replied code message n headers body s1 ei es h =
      let text = response code message n headers body in
      record { same_id = ei; answers = inr (text, ap (◌∷◌ text) es); settled = h }

  kept_open :
      (s1 : Session)
      → s1.session_id ≡ s.session_id
      → s1.sent ≡ s.sent
      → s1.closed ≡ false
      → (code : ℕ) (message : List ℕ) (n : ℤ) (headers body : List ℕ)
      → Good (send_response transmit code message n headers body s1)
  kept_open s1 ei es ec code message n headers body =
      replied code message n headers body s1 ei es (open-IsSettled s1 ec)

  answered :
      (code : ℕ) (message : List ℕ) (n : ℤ) (headers body : List ℕ)
      → Good (send_response transmit code message n headers body s)
  answered code message n headers body =
      replied code message n headers body s refl refl (open-IsSettled s still_open)

  unchanged : Good (false, s)
  unfolding Answers
  unchanged = record { same_id = refl; answers = inl refl; settled = open-IsSettled s still_open }

  refused : (parsed : Option ℤ) → Good (refuse transmit parsed s)
  unfolding refuse
  refused none = answered 400 (codes "Bad Request") (negsuc 0) [] []
  refused (some n) = answered 400 (codes "Bad Request") n [] []

  invalid-Good : (request : List ℕ) → Returns Good (handle_rtsp_invalid_request transmit request s)
  unfolding handle_rtsp_invalid_request Returns
  invalid-Good request =
      Returns-bind Good (parse_rtsp_command_sequence request)
        (λ parsed. some (refuse transmit parsed s)) refused

  parsed-Good :
      (parsed : Option ℤ) (request : List ℕ) (answer : ℤ → Bool × Session)
      → ((n : ℤ) → Good (answer n))
      → Returns Good (with_parsed transmit parsed request answer s)
  unfolding with_parsed Returns
  parsed-Good none request answer h = invalid-Good request
  parsed-Good (some n) request answer h = h n

  sequence-Good :
      (request : List ℕ) (answer : ℤ → Bool × Session)
      → ((n : ℤ) → Good (answer n))
      → Returns Good (with_sequence transmit request answer s)
  unfolding with_sequence
  sequence-Good request answer h =
      Returns-bind Good (parse_rtsp_command_sequence request)
        (λ parsed. with_parsed transmit parsed request answer s)
        (λ parsed. parsed-Good parsed request answer h)

  -- What the parser of a SETUP request may leave: a failure, or the session as it was.
  abbrev Parsed : Option (ℤ × ℤ) × Session → Type 0
  Parsed r = ((r.0 ≡ none) × Good (false, r.1)) ⊎ (r.1 ≡ s)

  abbrev failed : (s1 : Session) → Good (false, s1) → Returns Parsed (some (none, s1))
  unfolding Returns
  failed s1 h = inl (refl, h)

  tcp-Parsed :
      (found : Option ℕ) (request : List ℕ)
      → Returns Parsed (parse_unless_tcp transmit found request s)
  unfolding parse_unless_tcp Returns
  tcp-Parsed none request =
      Returns-bind Parsed (parse_ports request) (λ ports. some (ports, s)) (λ ports. inr refl)
  tcp-Parsed (some n) request =
      inl (refl, answered 461 (codes "Unsupported Transport") (negsuc 0) [] [])

  transport-Parsed : (request : List ℕ) → Returns Parsed (parse_transport transmit request s)
  unfolding parse_transport
  transport-Parsed request =
      let i = position 0 (find_text (codes "Transport: ") request) in
      let e = find_from 13 request i in
      Returns-if Parsed (i == npos) _ _ (failed s unchanged) (
        Returns-if Parsed (e == npos) _ _ (failed s unchanged) (
          Returns-bind Parsed (sub_string (add64 i 11) (sub64 (sub64 e i) 11) request) _
            (λ transport.
              Returns-if Parsed (is_empty transport) _ _ (failed s unchanged)
                (tcp-Parsed (find_text (codes "RTP/AVP/TCP") transport) request))))

  setup_request-Parsed :
      (request : List ℕ) → Returns Parsed (parse_rtsp_setup_request transmit request s)
  unfolding parse_rtsp_setup_request
  setup_request-Parsed request = Returns-bind Parsed (parse_rtsp_path request) _ (λ path.
      Returns-if Parsed (is_empty path) _ _ (failed s unchanged) (transport-Parsed request))

  answer_setup-Good :
      (request : List ℕ) (ports : Option (ℤ × ℤ)) (s1 : Session)
      → Parsed (ports, s1)
      → Returns Good (answer_setup transmit request ports s1)
  unfolding answer_setup ok Returns
  answer_setup-Good request none s1 (inl h) = h.1
  answer_setup-Good request none s1 (inr e) = subst (λ t. Good (false, t)) (sym e) unchanged
  answer_setup-Good request (some (rtp, rtcp)) s1 (inl h) = absurd (ground (arith, h.0))
  answer_setup-Good request (some (rtp, rtcp)) s1 (inr e) = rw e (
      sequence-Good request
        (λ n.
          ok transmit n (session_header s ++ transport_header rtp rtcp) [] (save_ports rtp rtcp s))
        (λ n. kept_open (save_ports rtp rtcp s) refl refl still_open 200 (codes "OK") n _ _))

  setup-Good : (request : List ℕ) → Returns Good (handle_rtsp_setup transmit request s)
  unfolding handle_rtsp_setup
  setup-Good request =
      Returns-then Parsed Good (parse_rtsp_setup_request transmit request s)
        (λ r. answer_setup transmit request (r.0) (r.1)) (setup_request-Parsed request)
        (λ r h. answer_setup-Good request (r.0) (r.1) h)

  teardown-IsSettled : IsSettled (teardown s)
  unfolding IsSettled
  teardown-IsSettled h = refl

  method-Good : (method request : List ℕ) → Returns Good (handle_method transmit method request s)
  unfolding handle_method handle_rtsp_options handle_rtsp_describe handle_rtsp_play
      handle_rtsp_pause handle_rtsp_teardown ok
  method-Good method request =
      Returns-if Good (same_text method (codes "OPTIONS")) _ _
        (sequence-Good request _ (λ n. kept_open s refl refl still_open 200 (codes "OK") n _ _))
        (Returns-if Good (same_text method (codes "DESCRIBE")) _ _
          (sequence-Good request _ (λ n. kept_open s refl refl still_open 200 (codes "OK") n _ _))
          (Returns-if Good (same_text method (codes "SETUP")) _ _ (setup-Good request) (
            Returns-if Good (same_text method (codes "PLAY")) _ _
              (sequence-Good request _
                (λ n. kept_open (play s) refl refl still_open 200 (codes "OK") n _ _))
              (Returns-if Good (same_text method (codes "PAUSE")) _ _
                (sequence-Good request _
                  (λ n. kept_open (pause s) refl refl still_open 200 (codes "OK") n _ _))
                (Returns-if Good (same_text method (codes "TEARDOWN")) _ _
                  (sequence-Good request _
                    (λ n. replied 200 (codes "OK") n _ _ (teardown s) refl refl teardown-IsSettled))
                  (invalid-Good request))))))

  pub request-Good : (request : List ℕ) → Returns Good (handle_rtsp_request transmit request s)
  unfolding handle_rtsp_request
  request-Good request =
      Returns-if Good
        ((find_from 32 request 0 == npos)
          || (find_from 32 request (add64 (find_from 32 request 0) 1) == npos)
          || (find_from 13 request 0 == npos))
        _ _ (invalid-Good request)
        (Returns-bind Good (sub_string 0 _ request) _ (λ method.
          Returns-bind Good (sub_string _ _ request) _ (λ path.
            Returns-bind Good (sub_string _ _ request) _ (λ version.
              Returns-bind Good (sub_string _ npos request) _ (λ body. method-Good method body)))))
