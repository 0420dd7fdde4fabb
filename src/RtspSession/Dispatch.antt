-- ===== src/RtspSession/Dispatch.antt =====
-- From a request line to the handler of its method.
use espp.Prelude.{
  ℕ, ◌+◌, ◌≤◌, ◌==◌, ◌≡◌, ◌≢◌, refl, sym, ◌∙◌, Bool, false, some, List, [], ◌∷◌, ◌++◌, length, All,
  All-append, arith, find_from-append, sub_string-append, sub_string-rest, length-append, add64,
  sub64, find_from, sub_string, npos,
}
use mathlib.Core.List.{append_assoc}
use espp.RtspSession.{Session, handle_rtsp_request, handle_method}
use espp.RtspSession.Parse.{Free}

-- A request line of a method, a path and a version, and what follows it.
unfoldable pub line_request : List ℕ → List ℕ → List ℕ → List ℕ → List ℕ
line_request method path version body =
    method ++ (32 ∷ (path ++ (32 ∷ (version ++ (13 ∷ (10 ∷ body))))))

small_sum : (a b : ℕ) → a + b ≤ 4096 → add64 a b ≡ a + b
unfolding add64
small_sum a b h = omega arith

small_rest : (a b : ℕ) → a + 1 + b ≤ 4096 → sub64 (sub64 (a + 1 + b) a) 1 ≡ b
unfolding sub64
small_rest a b h = omega arith

small_npos : (a : ℕ) → a ≤ 4096 → (a == npos) ≡ false
small_npos a h = ground arith

module _ (m p v b : List ℕ) (mf : Free 32 m) (pf : Free 32 p) (mr : Free 13 m) (pr : Free 13 p)
    (vr : Free 13 v) (hl : length (line_request m p v b) ≤ 1024) where
  split_path : line_request m p v b ≡ (m ++ (32 ∷ [])) ++ (p ++ (32 ∷ (v ++ (13 ∷ (10 ∷ b)))))
  unfolding line_request
  split_path = sym (append_assoc m (32 ∷ []) (p ++ (32 ∷ (v ++ (13 ∷ (10 ∷ b))))))

  split_version : line_request m p v b ≡ (m ++ (32 ∷ (p ++ (32 ∷ [])))) ++ (v ++ (13 ∷ (10 ∷ b)))
  unfolding line_request
  split_version = rw (append_assoc) (rw (append_assoc) refl)

  split_line : line_request m p v b ≡ (m ++ (32 ∷ (p ++ (32 ∷ v)))) ++ (13 ∷ (10 ∷ b))
  unfolding line_request
  split_line = rw (append_assoc) (rw (append_assoc) refl)

  split_body : line_request m p v b ≡ (m ++ (32 ∷ (p ++ (32 ∷ (v ++ (13 ∷ (10 ∷ []))))))) ++ b
  unfolding line_request
  split_body = rw (append_assoc) (rw (append_assoc) (rw (append_assoc) refl))

  line-sizes :
      length (line_request m p v b)
      ≡ length m + (1 + (length p + (1 + (length v + (2 + length b)))))
  unfolding line_request
  line-sizes =
      rw
        (
          length-append m (32 ∷ (p ++ (32 ∷ (v ++ (13 ∷ (10 ∷ b)))))),
          length-append p (32 ∷ (v ++ (13 ∷ (10 ∷ b)))),
          length-append v (13 ∷ (10 ∷ b)),
        )
        (omega arith)

  pub body-fits : length b ≤ 1024
  body-fits = omega (arith, line-sizes, hl)

  first_space : find_from 32 (line_request m p v b) 0 ≡ length m
  unfolding line_request
  first_space =
      find_from-append 32 0 [] m (p ++ (32 ∷ (v ++ (13 ∷ (10 ∷ b))))) refl mf ∙ omega arith

  second_space : find_from 32 (line_request m p v b) (length m + 1) ≡ length m + 1 + length p
  second_space = rw split_path (
      find_from-append 32 (length m + 1) (m ++ (32 ∷ [])) p (v ++ (13 ∷ (10 ∷ b)))
        (length-append m (32 ∷ [])) pf)

  line-Free : All (λ x. x ≢ 13) (m ++ (32 ∷ (p ++ (32 ∷ v))))
  line-Free =
      All-append (λ x. x ≢ 13) m (32 ∷ (p ++ (32 ∷ v))) mr
        (omega arith, All-append (λ x. x ≢ 13) p (32 ∷ v) pr (omega arith, vr))

  line-length : length (m ++ (32 ∷ (p ++ (32 ∷ v)))) ≡ length m + 1 + length p + 1 + length v
  line-length = rw (length-append m (32 ∷ (p ++ (32 ∷ v))), length-append p (32 ∷ v)) (omega arith)

  end_of_line : find_from 13 (line_request m p v b) 0 ≡ length m + 1 + length p + 1 + length v
  end_of_line = rw split_line (
      find_from-append 13 0 [] (m ++ (32 ∷ (p ++ (32 ∷ v)))) (10 ∷ b) refl line-Free
      ∙ omega (arith, line-length))

  method_text : sub_string 0 (length m) (line_request m p v b) ≡ some m
  unfolding line_request
  method_text =
      sub_string-append 0 (length m) [] m (32 ∷ (p ++ (32 ∷ (v ++ (13 ∷ (10 ∷ b)))))) refl refl

  path_text : sub_string (length m + 1) (length p) (line_request m p v b) ≡ some p
  path_text = rw split_path (
      sub_string-append (length m + 1) (length p) (m ++ (32 ∷ [])) p (32 ∷ (v ++ (13 ∷ (10 ∷ b))))
        (length-append m (32 ∷ [])) refl)

  version_text : sub_string (length m + 1 + length p + 1) (length v) (line_request m p v b) ≡ some v
  version_text = rw split_version (
      sub_string-append (length m + 1 + length p + 1) (length v) (m ++ (32 ∷ (p ++ (32 ∷ [])))) v
        (13 ∷ (10 ∷ b))
        (rw (length-append m (32 ∷ (p ++ (32 ∷ []))), length-append p (32 ∷ [])) (omega arith))
        refl)

  body_text :
      sub_string (length m + 1 + length p + 1 + length v + 2) npos (line_request m p v b) ≡ some b
  body_text = rw split_body (
      sub_string-rest (length m + 1 + length p + 1 + length v + 2)
        (m ++ (32 ∷ (p ++ (32 ∷ (v ++ (13 ∷ (10 ∷ []))))))) b
        (rw
          (
            length-append m (32 ∷ (p ++ (32 ∷ (v ++ (13 ∷ (10 ∷ [])))))),
            length-append p (32 ∷ (v ++ (13 ∷ (10 ∷ [])))),
            length-append v (13 ∷ (10 ∷ [])),
          )
          (omega arith))
        (omega (arith, line-sizes, hl)))

  pub handle_rtsp_request-line :
      (transmit : List ℕ → Bool) (s : Session)
      → handle_rtsp_request transmit (line_request m p v b) s ≡ handle_method transmit m b s
  unfolding handle_rtsp_request
  handle_rtsp_request-line transmit s =
      let h : length m + 1 + length p + 1 + length v + 2 ≤ 1024 = omega (arith, line-sizes, hl) in
      rw
        (
          first_space,
          small_sum (length m) 1 (omega (arith, h)),
          second_space,
          end_of_line,
          small_npos (length m) (omega (arith, h)),
          small_npos (length m + 1 + length p) (omega (arith, h)),
          small_npos (length m + 1 + length p + 1 + length v) (omega (arith, h)),
          method_text,
          small_rest (length m) (length p) (omega (arith, h)),
          path_text,
          small_sum (length m + 1 + length p) 1 (omega (arith, h)),
          small_rest (length m + 1 + length p) (length v) (omega (arith, h)),
          version_text,
          small_sum (length m + 1 + length p + 1 + length v) 2 (omega (arith, h)),
          body_text,
        )
        refl
