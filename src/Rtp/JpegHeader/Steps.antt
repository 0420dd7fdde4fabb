-- ===== src/Rtp/JpegHeader/Steps.antt =====
-- The parser, statement by statement, on a written header.
use mathlib.Core.List.{append_assoc}
use espp.Prelude.{
  ℕ, ◌+◌, ◌*◌, ◌/◌, ◌%◌, ◌^◌, ◌<◌, bit_and, bit_or, ◌≡◌, refl, sym, ap, ◌∙◌, List, [], ◌∷◌, ◌++◌,
  some, arith, length, resize, slice, slice-append, length-append, get_elem?, ==_iff, true, ◌==◌,
}
use espp.Prelude.Bits.{and_mask, or_disjoint}
use espp.Rtp.JpegHeader.Tables.{jfif_app0_data, huffman_tables, sos}
use espp.Rtp.JpegHeader.{
  JpegHeader, next, sof0, parse_tables, parse_frame, parse_scan, expect, compare_with, list_eq,
  table, byte, skip, set_q0, set_q1, set_height, set_width, trim, ◌>>=◌,
}

-- `xs` goes on with `rest` from `offset` on.
pub record From (xs : List ℕ) (offset : ℕ) (rest : List ℕ) : Type 0 where
  pub before : List ℕ
  pub whole : xs ≡ before ++ rest
  pub sized : length before ≡ offset

advance :
    {xs : List ℕ} {offset : ℕ} (a rest : List ℕ) (n : ℕ)
    → length a ≡ n
    → From xs offset (a ++ rest)
    → From xs (offset + n) rest
advance a rest n h f = record {
  before = f.before ++ a;
  whole = f.whole ∙ sym (append_assoc f.before a rest);
  sized = omega (arith, length-append f.before a, f.sized);
}

get-From :
    (pre : List ℕ) (b : ℕ) (rest : List ℕ) → get_elem? (pre ++ (b ∷ rest)) (length pre) ≡ some b
get-From [] b rest = refl
get-From (x ∷ pre) b rest = get-From pre b rest

get-next :
    {xs : List ℕ} {offset : ℕ} (b : ℕ) (rest : List ℕ)
    → From xs offset (b ∷ rest)
    → get_elem? xs offset ≡ some b
get-next b rest f = rw (f.whole, ← f.sized) (get-From f.before b rest)

byte-next :
    (h : JpegHeader) {offset : ℕ} (b : ℕ) (rest : List ℕ)
    → From h.bytes offset (b ∷ rest)
    → byte h offset ≡ next b h (offset + 1)
unfolding byte
byte-next h b rest f = rw (get-next b rest f, byte)

expect-next :
    (bs rest : List ℕ) (h : JpegHeader) (offset : ℕ)
    → From h.bytes offset (bs ++ rest)
    → expect bs h offset ≡ next tt h (offset + length bs)
unfolding expect
expect-next [] rest h offset f = ap (next tt h) (omega arith)
expect-next (b ∷ bs) rest h offset f =
    let here : get_elem? h.bytes offset ≡ some b = get-next b (bs ++ rest) f in
    let same : (b == b) ≡ true = (==_iff b b).1 refl in
    rw (here, expect, same)
      (expect-next bs rest h (offset + 1) (advance (b ∷ []) (bs ++ rest) 1 refl f)
        ∙ ap (next tt h) (omega arith))

list_eq_refl : (xs : List ℕ) → list_eq xs xs ≡ true
unfolding list_eq
list_eq_refl [] = refl
list_eq_refl (x ∷ xs) = ground (arith, list_eq_refl xs)

slice-From :
    {xs : List ℕ} {offset : ℕ} (a rest : List ℕ)
    → From xs offset (a ++ rest)
    → slice offset (length a) xs ≡ some a
slice-From a rest f = rw f.whole (slice-append f.before a rest _ _ f.sized refl)

compare-next :
    (a rest : List ℕ) (h : JpegHeader) (offset : ℕ)
    → From h.bytes offset (a ++ rest)
    → compare_with a h offset ≡ next tt h (offset + length a)
unfolding compare_with
compare-next a rest h offset f = rw (slice-From a rest f, compare_with, list_eq_refl a)

table-next :
    (t rest : List ℕ) (h : JpegHeader) (offset : ℕ)
    → length t ≡ 64
    → From h.bytes offset (t ++ rest)
    → table h offset ≡ next t h (offset + 64)
unfolding table
table-next t rest h offset sized f =
    let here : slice offset 64 h.bytes ≡ some t = rw sized at (slice-From t rest f) in
    rw (here, table)

-- The bytes of a header, in the order of ITU T.81 annex B.
unfoldable pub header_bytes : ℕ → ℕ → List ℕ → List ℕ → List ℕ → List ℕ
header_bytes width height q0 q1 rest =
    (0xFF ∷ 0xD8 ∷ [])
    ++ (jfif_app0_data
        ++ ((0xFF ∷ 0xDB ∷ 0x00 ∷ 0x43 ∷ 0x00 ∷ [])
            ++ (q0
                ++ ((0xFF ∷ 0xDB ∷ 0x00 ∷ 0x43 ∷ 0x01 ∷ [])
                    ++ (q1 ++ (huffman_tables ++ (sof0 width height ++ (sos ++ rest))))))))

pub tables-next :
    (q0 q1 rest : List ℕ) (h : JpegHeader)
    → length q0 ≡ 64
    → length q1 ≡ 64
    → h.bytes
      ≡ (0xFF ∷ 0xD8 ∷ [])
        ++ (jfif_app0_data
            ++ ((0xFF ∷ 0xDB ∷ 0x00 ∷ 0x43 ∷ 0x00 ∷ [])
                ++ (q0 ++ ((0xFF ∷ 0xDB ∷ 0x00 ∷ 0x43 ∷ 0x01 ∷ []) ++ (q1 ++ rest)))))
    → (parse_tables h 0 ≡ next tt (record h { q0_table = q0; q1_table = q1 }) 158)
      × From h.bytes 158 rest
unfolding parse_tables set_q0 set_q1
tables-next q0 q1 rest h h0 h1 e =
    let soi = 0xFF ∷ 0xD8 ∷ [] in
    let dqt0 = 0xFF ∷ 0xDB ∷ 0x00 ∷ 0x43 ∷ 0x00 ∷ [] in
    let dqt1 = 0xFF ∷ 0xDB ∷ 0x00 ∷ 0x43 ∷ 0x01 ∷ [] in
    let f0 : From h.bytes 0 (soi ++ _) = record { before = []; whole = e; sized = refl } in
    let f1 = advance soi _ 2 refl f0 in
    let f2 = advance jfif_app0_data _ 18 refl f1 in
    let f3 = advance dqt0 _ 5 refl f2 in
    let f4 = advance q0 _ 64 h0 f3 in
    let f5 = advance dqt1 _ 5 refl f4 in
    let f6 = advance q1 rest 64 h1 f5 in
    let h' : JpegHeader = record h { q0_table = q0 } in
    (
      rw (
        expect-next soi _ h 0 f0,
        ◌>>=◌,
        compare-next jfif_app0_data _ h 2 f1,
        expect-next dqt0 _ h 20 f2,
        table-next q0 _ h 25 h0 f3,
        expect-next dqt1 _ h' 89 f4,
        table-next q1 rest h' 94 h1 f5,
      ),
      f6,
    )

-- Two bytes of a size, as `add_sof0` writes and `parse` joins them.
size_bytes : (n : ℕ) → n < 2 ^ 16 → bit_or (bit_and (n / 2 ^ 8) 0xFF * 2 ^ 8) (bit_and n 0xFF) ≡ n
size_bytes n h =
    rw (and_mask 8 (n / 2 ^ 8), and_mask 8 n)
      (or_disjoint 8 (n / 2 ^ 8 % 2 ^ 8 * 2 ^ 8) (n % 2 ^ 8) (omega arith) (omega arith)
        ∙ omega arith)

pub frame-next :
    (width height : ℕ) (rest : List ℕ) (h : JpegHeader)
    → width < 2 ^ 16
    → height < 2 ^ 16
    → From h.bytes 158 (huffman_tables ++ (sof0 width height ++ rest))
    → (parse_frame h 158 ≡ next tt (record h { width = width; height = height }) 609)
      × From h.bytes 609 rest
unfolding parse_frame sof0 skip set_height set_width
frame-next width height rest h hw hh f =
    let dht : List ℕ = 0xFF ∷ 0xC4 ∷ 0x00 ∷ 0x1f ∷ 0x00 ∷ [] in
    let marker : List ℕ = 0xFF ∷ 0xC0 ∷ 0x00 ∷ 0x11 ∷ [] in
    let parts : List ℕ = 0x03 ∷ 0x01 ∷ 0x21 ∷ 0x00 ∷ 0x02 ∷ 0x11 ∷ 0x01 ∷ 0x03 ∷ 0x11 ∷ 0x01 ∷ [] in
    let f1 = advance huffman_tables _ 432 refl f in
    let f2 = advance marker _ 4 refl f1 in
    let f3 = advance (0x08 ∷ []) _ 1 refl f2 in
    let f4 = advance (_ ∷ []) _ 1 refl f3 in
    let f5 = advance (_ ∷ []) _ 1 refl f4 in
    let f6 = advance (_ ∷ []) _ 1 refl f5 in
    let f7 = advance (_ ∷ []) (parts ++ rest) 1 refl f6 in
    let h1 : JpegHeader = record h { height = height } in
    let h2 : JpegHeader = record h { width = width; height = height } in
    (
      rw (
        expect-next dht _ h 158 f,
        ◌>>=◌,
        expect-next marker _ h 590 f1,
        byte-next h _ _ f3,
        byte-next h _ _ f4,
        size_bytes height hh,
        byte-next h1 _ _ f5,
        byte-next h1 _ _ f6,
        size_bytes width hw,
        expect-next parts rest h2 599 f7,
      ),
      advance parts rest 10 refl f7,
    )

pub scan-next :
    (rest : List ℕ) (h : JpegHeader)
    → From h.bytes 609 (sos ++ rest)
    → parse_scan h 609 ≡ next tt (record h { bytes = resize 623 0 h.bytes }) 623
unfolding parse_scan trim
scan-next rest h f =
    let marker : List ℕ = 0xFF ∷ 0xDA ∷ 0x00 ∷ 0x0C ∷ [] in
    let parts : List ℕ = 0x03 ∷ 0x01 ∷ 0x00 ∷ 0x02 ∷ 0x11 ∷ 0x03 ∷ 0x11 ∷ 0x00 ∷ 0x3F ∷ 0x00 ∷ [] in
    rw (
      expect-next marker _ h 609 f,
      ◌>>=◌,
      expect-next parts rest h 613 (advance marker _ 4 refl f),
    )
