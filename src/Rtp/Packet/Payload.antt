-- ===== src/Rtp/Packet/Payload.antt =====
-- The payload beside the header.
use espp.Prelude.{
  ℕ, zero, suc, ◌+◌, ◌^◌, ◌<◌, ◌≡◌, refl, ap, ◌∙◌, List, [], ◌∷◌, some, arith, length, take, drop,
  resize, write_at, length-resize, length-write_at, take-all, write_at-all,
}
use native.Mathlib.Nat.{suc-add}
use espp.Rtp.Packet.{RtpPacket, rtp_header_size, get_payload, set_payload, u32}

module _ {ℓ} {A : Type ℓ} where
  take-write_at : (n : ℕ) (vs xs : List A) → take n (write_at n vs xs) ≡ take n xs
  take-write_at zero vs xs = refl
  take-write_at (suc n) vs [] = refl
  take-write_at (suc n) vs (x ∷ xs) = ap (◌∷◌ x) (take-write_at n vs xs)

  drop-write_at :
      (n : ℕ) (vs xs : List A) → length xs ≡ n + length vs → drop n (write_at n vs xs) ≡ vs
  drop-write_at zero vs xs h = write_at-all vs xs (omega arith)
  drop-write_at (suc n) vs [] h = absurd (omega arith)
  drop-write_at (suc n) vs (x ∷ xs) h = drop-write_at n vs xs (omega arith)

  take-resize : (n m : ℕ) (d : A) (xs : List A) → take n (resize (n + m) d xs) ≡ resize n d xs
  take-resize zero m d xs = refl
  take-resize (suc n) m d [] = rw (suc-add n m) (ap (◌∷◌ d) (take-resize n m d []))
  take-resize (suc n) m d (x ∷ xs) = rw (suc-add n m) (ap (◌∷◌ x) (take-resize n m d xs))

-- A payload of fewer than 2 ^ 32 bytes that `set_payload` stores is what `get_payload` shows,
-- whatever the packet held; the packet is then a header and the payload; and its header bytes are
-- the first twelve it had, filled up with 0 where it was shorter.
pub get_payload-set_payload :
    (p : RtpPacket) (payload : List ℕ)
    → length payload < 2 ^ 32
    → (get_payload (set_payload p payload) ≡ some payload)
      × (length (set_payload p payload).packet ≡ rtp_header_size + length payload)
      × (take rtp_header_size (set_payload p payload).packet ≡ resize rtp_header_size 0 p.packet)
unfolding get_payload set_payload
get_payload-set_payload p payload small =
    let n = length payload in
    let sized : List ℕ = resize (rtp_header_size + n) 0 p.packet in
    let whole : length (write_at rtp_header_size payload sized) ≡ rtp_header_size + n =
      length-write_at rtp_header_size payload sized
      ∙ length-resize (rtp_header_size + n) 0 p.packet in
    let stored : drop rtp_header_size (write_at rtp_header_size payload sized) ≡ payload =
      drop-write_at rtp_header_size payload sized
        (length-resize (rtp_header_size + n) 0 p.packet) in
    let fits : u32 n ≡ n = omega arith in
    (
      rw (whole, fits) (ground (arith, stored, take-all n payload refl)),
      whole,
      take-write_at rtp_header_size payload sized ∙ take-resize rtp_header_size n 0 p.packet,
    )
