-- ===== src/Rtp/JpegHeader/RoundTrip.antt =====
-- A header that was written reads back as itself, also in front of scan data.
use mathlib.Core.List.{append_assoc}
use espp.Prelude.{
  ℕ, ◌+◌, ◌^◌, ◌<◌, ◌≡◌, refl, ap, ◌∙◌, List, [], ◌∷◌, ◌++◌, some, arith, length, resize,
  length-append, length-resize,
}
use espp.Buffer.{puts-fill}
use espp.Rtp.JpegHeader.Tables.{huffman_tables, sos}
use espp.Rtp.JpegHeader.{JpegHeader, next, serialize, from_fields, from_bytes, sof0, parse, ◌>>=◌}
use espp.Rtp.JpegHeader.Steps.{header_bytes, tables-next, frame-next, scan-next}

resize-prefix : (xs ys : List ℕ) → resize (length xs) 0 (xs ++ ys) ≡ xs
resize-prefix [] ys = refl
resize-prefix (x ∷ xs) ys = ap (◌∷◌ x) (resize-prefix xs ys)

after_tables : ℕ → ℕ → List ℕ → List ℕ
after_tables width height rest = huffman_tables ++ (sof0 width height ++ (sos ++ rest))

length-after_tables :
    (width height : ℕ) (rest : List ℕ) → length (after_tables width height rest) ≡ 465 + length rest
unfolding after_tables sof0
length-after_tables width height rest =
    length-append huffman_tables (sof0 width height ++ (sos ++ rest)) ∙ omega arith

length-header_bytes :
    (width height : ℕ) (q0 q1 rest : List ℕ)
    → length (header_bytes width height q0 q1 rest) ≡ 495 + length q0 + length q1 + length rest
unfolding header_bytes after_tables
length-header_bytes width height q0 q1 rest =
    let tail = after_tables width height rest in
    omega (
      arith,
      length-append q0 (0xFF ∷ 0xDB ∷ 0x00 ∷ 0x43 ∷ 0x01 ∷ (q1 ++ tail)),
      length-append q1 tail,
      length-after_tables width height rest,
    )

from_fields-bytes :
    (width height : ℕ) (q0 q1 : List ℕ)
    → from_fields width height q0 q1 ≡ record {
      width = width;
      height = height;
      q0_table = q0;
      q1_table = q1;
      bytes = header_bytes width height q0 q1 [];
    }
unfolding from_fields serialize header_bytes
from_fields-bytes width height q0 q1 =
    ap (λ b. record { width = width; height = height; q0_table = q0; q1_table = q1; bytes = b })
      (puts-fill _ [] _
        (length-resize _ 0 [] ∙ omega (arith, length-header_bytes width height q0 q1 [])))

header_bytes-append :
    (width height : ℕ) (q0 q1 rest : List ℕ)
    → header_bytes width height q0 q1 [] ++ rest ≡ header_bytes width height q0 q1 rest
unfolding header_bytes
header_bytes-append width height q0 q1 rest = simp append_assoc

trimmed :
    (width height : ℕ) (q0 q1 scan_data : List ℕ)
    → length q0 ≡ 64
    → length q1 ≡ 64
    → resize 623 0 (header_bytes width height q0 q1 scan_data) ≡ header_bytes width height q0 q1 []
trimmed width height q0 q1 scan_data h0 h1 =
    let front = header_bytes width height q0 q1 [] in
    let sized : length front ≡ 623 = omega (arith, length-header_bytes width height q0 q1 []) in
    rw (← sized, ← header_bytes-append width height q0 q1 scan_data) (resize-prefix front scan_data)

parse-next :
    (width height : ℕ) (q0 q1 scan_data : List ℕ) (h : JpegHeader)
    → width < 2 ^ 16
    → height < 2 ^ 16
    → length q0 ≡ 64
    → length q1 ≡ 64
    → h.bytes ≡ header_bytes width height q0 q1 scan_data
    → parse h 0
      ≡ next tt
          (record {
            width = width;
            height = height;
            q0_table = q0;
            q1_table = q1;
            bytes = header_bytes width height q0 q1 [];
          })
          623
unfolding parse header_bytes
parse-next width height q0 q1 scan_data h hw hh h0 h1 e =
    let (first, f) = tables-next q0 q1 _ h h0 h1 e in
    let h' : JpegHeader = record h { q0_table = q0; q1_table = q1 } in
    let (second, g) = frame-next width height (sos ++ scan_data) h' hw hh f in
    let h'' : JpegHeader = record h' { width = width; height = height } in
    rw (
      first,
      ◌>>=◌,
      second,
      scan-next scan_data h'' g,
      e,
      trimmed width height q0 q1 scan_data h0 h1,
    )

-- A header written for sizes below 2 ^ 16 and tables of 64 bytes, followed by any scan data, reads
-- back as the same sizes, tables and header bytes: the scan data is cut off, nothing else.
pub from_bytes-from_fields :
    (before : JpegHeader) (width height : ℕ) (q0 q1 scan_data : List ℕ)
    → width < 2 ^ 16
    → height < 2 ^ 16
    → length q0 ≡ 64
    → length q1 ≡ 64
    → from_bytes before ((from_fields width height q0 q1).bytes ++ scan_data)
      ≡ some (from_fields width height q0 q1)
unfolding from_bytes
from_bytes-from_fields before width height q0 q1 scan_data hw hh h0 h1 = rw (
  from_fields-bytes width height q0 q1,
  header_bytes-append width height q0 q1 scan_data,
  parse-next width height q0 q1 scan_data
      (record before {
        q0_table = [];
        q1_table = [];
        bytes = header_bytes width height q0 q1 scan_data;
      })
      hw hh h0 h1 refl,
  from_bytes,
)

-- The members of a header that was written are the ones that were given.
pub from_fields-fields :
    (width height : ℕ) (q0 q1 : List ℕ)
    → let h = from_fields width height q0 q1 in
      (h.width ≡ width) × (h.height ≡ height) × (h.q0_table ≡ q0) × (h.q1_table ≡ q1)
unfolding from_fields serialize
from_fields-fields width height q0 q1 = (refl, refl, refl, refl)
