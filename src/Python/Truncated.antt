-- ===== src/Python/Truncated.antt =====
-- readCoverageDatum of src/engines/python-engine.cc on a report that is cut off.
use kcov.Prelude.{
  ℕ, ◌+◌, ◌-◌, ◌^◌, ◌≤◌, ◌<◌, ◌≡◌, refl, ◌∙◌, sym, ap, Bool, true, false, none, List, [], ◌∷◌, ◌++◌,
  Bytes, arith, ltb, length, take, take-append, length-take_le, length-take_le_length, if_both,
  Bool-cases, inl, inr, append-nil,
}
use kcov.Endian.{Host}
use kcov.Python.Datum.{
  sizeof_header, Pipe, fread, Reading, remainder_of, is_too_little, read_name, read_header,
  read_datum, pack_string, report_trace,
}
use kcov.Python.Reading.{remainder_of_lem}
use kcov.Python.Report.{
  packed, length-pack_string, report_trace-packed, size, header, length-header, reported, holding,
  read_header_front,
}

abbrev NoDatum : Pipe × Reading → Type 0
NoDatum x = x.1.datum ≡ none

-- Fewer bytes than the header's size asks for.
read_name_short :
    (stale : Bytes) (size line : ℕ) (p : Pipe)
    → length p.bytes < remainder_of size
    → remainder_of size < 2 ^ 63
    → NoDatum (read_name stale size line p)
unfolding read_name fread is_too_little
read_name_short stale size line p short narrow =
    let got = length-take_le_length (remainder_of size) p.bytes in
    if_both (λ (r : Reading). r.datum ≡ none)
      (is_too_little (length (take (remainder_of size) p.bytes)) (remainder_of size)) _ _
      (λ little. refl) (λ enough. absurd (ground (arith, got)))

-- Fewer bytes than a header.
read_header_short :
    (host : Host) (stale : Bytes) (total_size : ℕ) (p : Pipe)
    → length p.bytes < sizeof_header
    → NoDatum (read_header host stale total_size p)
unfolding read_header fread
read_header_short host stale total_size p short =
    let got = length-take_le_length sizeof_header p.bytes in
    if_both NoDatum (ltb (length (take sizeof_header p.bytes)) sizeof_header) _ _ (λ little. refl)
      (λ whole. absurd (ground (arith, got)))

-- A whole header, and not all of the name.
read_header_cut :
    (reader : Host) (stale file : Bytes) (line total_size : ℕ) (answers : List Bool) (xs : Bytes)
    → length file + 17 < total_size
    → total_size ≤ 2 ^ 32
    → line < 2 ^ 32
    → length xs ≤ length file
    → NoDatum (
        read_header reader stale total_size
          (holding reader stale file line [] answers (header reader stale file line [] ++ xs)))
read_header_cut reader stale file line total_size answers xs fits narrow small cut =
    let remainder = remainder_of_lem (length file + 1 + 8 + 4 + 4) (omega arith) (omega arith) in
    ap (λ (x : Pipe × Reading). x.1.datum)
      (read_header_front reader stale file line [] answers total_size xs fits narrow small)
    ∙ read_name_short stale _ line _ (omega (arith, remainder)) (omega (arith, remainder))

packed_cut :
    (reader : Host) (stale file : Bytes) (line total_size k : ℕ) (answers : List Bool)
    → length file + 17 < total_size
    → total_size ≤ 2 ^ 32
    → line < 2 ^ 32
    → k < length file + 17
    → (read_datum reader stale total_size (record {
      bytes = take k (packed file line);
      at_eof = false;
      readable = true ∷ answers;
    })).1.datum
      ≡ none
unfolding read_datum
packed_cut reader stale file line total_size k answers fits narrow small cut =
    let whole = header reader stale file line [] in
    let whole_length = length-header reader stale file line [] in
    let all_ : packed file line ≡ whole ++ (file ++ 0 ∷ []) =
      sym (append-nil (packed file line))
      ∙ reported reader stale file line []
      ∙ ap (λ xs. whole ++ xs) (append-nil (file ++ 0 ∷ [])) in
    elim (Bool-cases (ltb k sizeof_header)) [
      | inl early ↦
          let got = length-take_le k (packed file line) in
          read_header_short reader stale total_size _ (ground (arith, got))
      | inr late ↦
          let rest = take (k - length whole) (file ++ 0 ∷ []) in
          let left : length rest ≤ length file =
            omega (arith, length-take_le (k - length whole) (file ++ 0 ∷ []), whole_length) in
          let behind : length whole ≤ k = ground (arith, whole_length) in
          ap
            (λ xs.
              (read_header reader stale total_size
                (holding reader stale file line [] answers xs)).1.datum)
            (ap (take k) all_ ∙ take-append k whole (file ++ 0 ∷ []) behind)
          ∙ read_header_cut reader stale file line total_size answers rest fits narrow small left
    ]

-- A report that is cut off at any place, before its last byte, is no datum, whatever the encoding
-- of its name: for a report that is shorter than the buffer, a buffer of at most 2^32 bytes and a
-- line of 32 bits, where the pipe is readable.
pub read_datum-cut :
    (reader : Host) (stale : Bytes) (encode : List ℕ → Bytes) (file : List ℕ)
    (line total_size k : ℕ) (answers : List Bool)
    → length file + 17 < total_size
    → total_size ≤ 2 ^ 32
    → line < 2 ^ 32
    → k < length file + 17
    → (read_datum reader stale total_size (record {
      bytes = take k (report_trace encode file line);
      at_eof = false;
      readable = true ∷ answers;
    })).1.datum
      ≡ none
read_datum-cut reader stale encode file line total_size k answers fits narrow small cut =
    let n = length-pack_string (length file) (encode file) in
    ap
      (λ xs.
        (read_datum reader stale total_size
          (record { bytes = take k xs; at_eof = false; readable = true ∷ answers })).1.datum)
      (report_trace-packed encode file line)
    ∙ packed_cut reader stale (pack_string (length file) (encode file)) line total_size k answers
        (omega (arith, n)) narrow small (omega (arith, n))
