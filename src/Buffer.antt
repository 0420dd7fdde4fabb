-- ===== src/Buffer.antt =====
-- The way in which the serialisers of rtsp and ndef fill a vector of a size that they computed
-- first: `data[offset++] = b` and `memcpy(data + offset, ..); offset += ..`, one after another.
use espp.Prelude.{
  ℕ, zero, suc, ◌+◌, ◌≡◌, refl, sym, ap, ◌∙◌, List, [], ◌∷◌, ◌++◌, arith, length, write_at,
  length-append,
}
use mathlib.Core.List.{append_assoc}

-- The writes from an offset on, in order: each chunk goes behind the one before.
unfoldable pub puts : ℕ → List (List ℕ) → List ℕ → List ℕ
puts offset [] bytes = bytes
puts offset (chunk ∷ chunks) bytes =
    puts (offset + length chunk) chunks (write_at offset chunk bytes)

abbrev pub concat : List (List ℕ) → List ℕ
concat [] = []
concat (chunk ∷ chunks) = chunk ++ concat chunks

write_at-append :
    (pre vs xs : List ℕ) → write_at (length pre) vs (pre ++ xs) ≡ pre ++ write_at zero vs xs
write_at-append [] vs xs = refl
write_at-append (p ∷ pre) vs xs = ap (◌∷◌ p) (write_at-append pre vs xs)

write_at-front :
    (vs xs rest : List ℕ) → length xs ≡ length vs → write_at zero vs (xs ++ rest) ≡ vs ++ rest
write_at-front [] [] rest h = refl
write_at-front [] (x ∷ xs) rest h = absurd (omega arith)
write_at-front (v ∷ vs) [] rest h = absurd (omega arith)
write_at-front (v ∷ vs) (x ∷ xs) rest h = ap (◌∷◌ v) (write_at-front vs xs rest (omega arith))

-- A vector cut in front of which `n` elements stand.
record Cut (n : ℕ) (xs : List ℕ) : Type 0 where
  front : List ℕ
  back : List ℕ
  whole : xs ≡ front ++ back
  sized : length front ≡ n

cut : (n m : ℕ) (xs : List ℕ) → length xs ≡ n + m → Cut n xs
cut zero m xs h = record { front = []; back = xs; whole = refl; sized = refl }
cut (suc n) m [] h = absurd (omega arith)
cut (suc n) m (x ∷ xs) h =
    let c = cut n m xs (omega arith) in
    record {
      front = x ∷ c.front;
      back = c.back;
      whole = ap (◌∷◌ x) c.whole;
      sized = ap suc c.sized;
    }

-- Chunks that together have the size of what is left of the vector replace it.
pub puts-fill :
    (chunks : List (List ℕ)) (pre xs : List ℕ)
    → length xs ≡ length (concat chunks)
    → puts (length pre) chunks (pre ++ xs) ≡ pre ++ concat chunks
unfolding puts
puts-fill [] pre [] h = refl
puts-fill [] pre (x ∷ xs) h = absurd (omega arith)
puts-fill (chunk ∷ chunks) pre xs h =
    let c =
      cut (length chunk) (length (concat chunks)) xs
        (omega (arith, length-append chunk (concat chunks))) in
    let left : length c.back ≡ length (concat chunks) = omega (
      arith,
      ap length c.whole,
      c.sized,
      length-append c.front c.back,
      length-append chunk (concat chunks),
    ) in
    rw (c.whole, write_at-append pre chunk (c.front ++ c.back))
      (rw
        (
          write_at-front chunk c.front c.back c.sized,
          ← append_assoc pre chunk c.back,
          ← length-append pre chunk,
        )
        (puts-fill chunks (pre ++ chunk) c.back left ∙ append_assoc pre chunk (concat chunks)))

-- Two groups of writes, the second from where the first ends.
pub puts-append :
    (offset : ℕ) (chunks more : List (List ℕ)) (bytes : List ℕ)
    → puts offset (chunks ++ more) bytes
      ≡ puts (offset + length (concat chunks)) more (puts offset chunks bytes)
unfolding puts
puts-append offset [] more bytes = ap (λ n. puts n more bytes) (omega arith)
puts-append offset (chunk ∷ chunks) more bytes =
    puts-append (offset + length chunk) chunks more (write_at offset chunk bytes)
    ∙ ap (λ n. puts n more (puts (offset + length chunk) chunks (write_at offset chunk bytes)))
        (omega (arith, length-append chunk (concat chunks)))

pub concat-append :
    (chunks more : List (List ℕ)) → concat (chunks ++ more) ≡ concat chunks ++ concat more
concat-append [] more = refl
concat-append (chunk ∷ chunks) more =
    ap (◌++◌ chunk) (concat-append chunks more)
    ∙ sym (append_assoc chunk (concat chunks) (concat more))
