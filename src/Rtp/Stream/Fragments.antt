-- ===== src/Rtp/Stream/Fragments.antt =====
-- How the server cuts a frame, and what each tagged packet carries.

use espp.Prelude.{
  ℕ, zero, suc, ◌+◌, ◌-◌, ◌*◌, ◌^◌, ◌≤◌, ◌<◌, ◌≡◌, refl, ap, ◌∙◌, List, [], ◌∷◌, ◌++◌, some, Bool,
  true, arith, length, take, drop, if◌then◌else◌, take-all, length-drop,
}
use espp.Rtp.Packet.{RtpPacket, u32}
use native.Mathlib.Nat.{zero-add, suc-add}
use espp.Rtp.Packet.RoundTrip.{marker-serialize}
use espp.Rtp.JpegPacket.{unsigned_char, RtpJpegPacket, from_packet, get_jpeg_data}
use espp.Rtp.JpegPacket.RoundTrip.{Tags}
use espp.Rtp.JpegPacket.Readable.{IsReadable}
use espp.Rtp.Stream.{Server, substr, lesser, tag}

pub take-long : (n : ℕ) (xs : List ℕ) → length xs ≤ n → take n xs ≡ xs
take-long zero [] h = refl
take-long zero (x ∷ xs) h = absurd (omega arith)
take-long (suc n) [] h = refl
take-long (suc n) (x ∷ xs) h = ap (◌∷◌ x) (take-long n xs (omega arith))

pub length-take-le : (n : ℕ) (xs : List ℕ) → length (take n xs) ≤ n
length-take-le zero xs = omega arith
length-take-le (suc n) [] = omega arith
length-take-le (suc n) (x ∷ xs) = omega (arith, length-take-le n xs)

pub substr-take :
    (start m : ℕ) (xs : List ℕ)
    → substr start (lesser (start + m) (length xs) - start) xs ≡ take m (drop start xs)
unfolding substr lesser
substr-take start m xs = ground (
  arith,
  length-drop start xs,
  take-long m (drop start xs),
  take-all (length xs - start) (drop start xs),
)

take-nil : (b : ℕ) → [] ≡ take {A = ℕ} b []
take-nil zero = refl
take-nil (suc b) = refl

pub take-add : (a b : ℕ) (xs : List ℕ) → take (a + b) xs ≡ take a xs ++ take b (drop a xs)
take-add zero b xs = rw zero-add
take-add (suc a) b [] = rw suc-add (take-nil b)
take-add (suc a) b (x ∷ xs) = rw suc-add (ap (◌∷◌ x) (take-add a b xs))

-- What a tagged packet carries to the reader.
pub tag-read :
    (server : Server) (sequence_number timestamp : ℕ) (last : Bool) (p : RtpJpegPacket)
    (offset width height : ℕ) (tables : List (List ℕ)) (scan : List ℕ) (before : RtpPacket)
    → server.ssrc < 2 ^ 32
    → sequence_number < 2 ^ 16
    → IsReadable p offset width height tables scan
    → let t = tag server sequence_number timestamp last p in
      (from_packet unsigned_char before t.rtp.packet ≡ some t)
      × (get_jpeg_data t ≡ some scan)
      × (t.rtp.marker ≡ last)
      × (t.offset ≡ offset)
      × (t.width ≡ width)
      × (t.height ≡ height)
      × (t.q_tables ≡ tables)
unfolding tag
tag-read server sequence_number timestamp last p offset width height tables scan before hs hn
      readable =
    let t = tag server sequence_number timestamp last p in
    let v = readable.valid in
    let rtp = p.rtp in
    let r : RtpPacket = record rtp {
      payload_type = 26;
      sequence_number = sequence_number;
      timestamp = u32 (timestamp * 90);
      ssrc = server.ssrc;
      marker = if last then true else rtp.marker;
    } in
    let tags : Tags p r = record {
      same_packet = refl;
      same_size = refl;
      valid = omega (arith, v);
    } in
    let (read, shown) = readable.reads before r tags in
    let marked : (if last then true else rtp.marker) ≡ last = ground (arith, readable.unmarked) in
    (
      read,
      shown,
      marker-serialize r ∙ marked,
      readable.same_offset,
      readable.same_width,
      readable.same_height,
      readable.same_tables,
    )
