-- ===== src/RtspSession/Parse.antt =====
-- What the parsers of RtspSession read of requests that are formed as RTSP says.
use espp.Prelude.{
  ℕ, ◌+◌, ◌^◌, ◌<◌, ◌≤◌, ◌≡◌, ◌⊎◌, inl, ◌≢◌, refl, ap, ◌∙◌, false, some, List, [], ◌∷◌, ◌++◌,
  length, codes, All, pos, decimal, arith, IsDigit, decimal-IsDigit, stoi-decimal, decimal_cons,
  find_text-skip, find_from-append, sub_string-append, length-append, All-append, add64, sub64,
  find_text, find_from, position, sub_string,
}
use mathlib.Core.List.{append_assoc}
use espp.RtspSession.{parse_rtsp_command_sequence, is_empty}

abbrev pub Free : ℕ → List ℕ → Type 0
Free c xs = All (λ x. x ≢ c) xs

pub digits-Free : (c : ℕ) (xs : List ℕ) → (c < 48) ⊎ (57 < c) → All IsDigit xs → Free c xs
digits-Free c [] h d = tt
digits-Free c (x ∷ xs) h d = (omega (arith, h, d.0), digits-Free c xs h (d.1))

pub decimal-Free : (c n : ℕ) → c < 48 → Free c (decimal n)
decimal-Free c n h = digits-Free c (decimal n) (inl h) (decimal-IsDigit n)

pub decimal-filled : (n : ℕ) → is_empty (decimal n) ≡ false
unfolding is_empty
decimal-filled n = let r = decimal_cons n in rw r.2 refl

-- A request whose header holds `CSeq: n`, behind lines without the letter C.
unfoldable pub cseq_request : List ℕ → ℕ → List ℕ → List ℕ
cseq_request lead n rest = lead ++ (codes "CSeq: " ++ (decimal n ++ (13 ∷ rest)))

module _ (lead : List ℕ) (n : ℕ) (rest : List ℕ) (free : Free 67 lead) where
  cseq-found : find_text (codes "CSeq: ") (cseq_request lead n rest) ≡ some (length lead)
  unfolding cseq_request
  cseq-found =
      find_text-skip 67 (codes "Seq: ") lead (codes "CSeq: " ++ (decimal n ++ (13 ∷ rest))) 0 free
        refl
      ∙ ap some (omega arith)

  cseq_end-found :
      find_from 13 (cseq_request lead n rest) (length lead) ≡ length lead + (6 + length (decimal n))
  unfolding cseq_request
  cseq_end-found =
      find_from-append 13 (length lead) lead (codes "CSeq: " ++ decimal n) rest refl (
        All-append (λ x. x ≢ 13) (codes "CSeq: ") (decimal n) (omega arith)
          (decimal-Free 13 n (omega arith)))
      ∙ ap (λ m. length lead + m) (length-append (codes "CSeq: ") (decimal n))

  cseq-read :
      sub_string (length lead + 6) (length (decimal n)) (cseq_request lead n rest)
      ≡ some (decimal n)
  unfolding cseq_request
  cseq-read = rw (← append_assoc lead (codes "CSeq: ") (decimal n ++ (13 ∷ rest))) (
      sub_string-append (length lead + 6) (length (decimal n)) (lead ++ codes "CSeq: ") (decimal n)
        (13 ∷ rest) (length-append lead (codes "CSeq: ")) refl)

  length-cseq_request :
      length (cseq_request lead n rest)
      ≡ length lead + (6 + (length (decimal n) + (1 + length rest)))
  unfolding cseq_request
  length-cseq_request =
      rw
        (
          length-append lead (codes "CSeq: " ++ (decimal n ++ (13 ∷ rest))),
          length-append (decimal n) (13 ∷ rest),
        )
        (omega arith)

  cseq_index-position : position 0 (some (length lead)) ≡ length lead
  unfolding position
  cseq_index-position = omega arith

  cseq_from : length lead ≤ 1024 → add64 (length lead) 6 ≡ length lead + 6
  unfolding add64
  cseq_from h = omega arith

  cseq_count :
      length lead ≤ 1024
      → length (decimal n) ≤ 1024
      → sub64 (sub64 (length lead + (6 + length (decimal n))) (length lead)) 6 ≡ length (decimal n)
  unfolding sub64
  cseq_count h k = omega arith

  pub parse-cseq_request :
      n < 2 ^ 31
      → length (cseq_request lead n rest) ≤ 1024
      → parse_rtsp_command_sequence (cseq_request lead n rest) ≡ some (some (pos n))
  unfolding parse_rtsp_command_sequence
  parse-cseq_request hn hl =
      let h : length lead ≤ 1024 = omega (arith, length-cseq_request, hl) in
      let k : length (decimal n) ≤ 1024 = omega (arith, length-cseq_request, hl) in
      rw
        (
          cseq-found,
          cseq_index-position,
          cseq_end-found,
          cseq_from h,
          cseq_count h k,
          cseq-read,
          decimal-filled n,
          stoi-decimal n hn,
        )
        (ground (arith, h, k))
