-- ===== src/Python/Report.antt =====
-- readCoverageDatum of src/engines/python-engine.cc on what report_trace_real of
-- src/engines/python-helper.py has written.
use kcov.Prelude.{
  ℕ, zero, suc, ◌+◌, ◌^◌, ◌≤◌, ◌<◌, ◌≡◌, refl, ◌∙◌, sym, ap, Bool, true, false, ◌&&◌, some, List,
  [], ◌∷◌, ◌++◌, Bytes, arith, eqb, ltb, length, length-append, take, drop, drop_add,
  take-length-append, drop-length-append, All, append_assoc,
}
use kcov.Strings.Escape.{c_string}
use kcov.Strings.CString.{NonZero, c_string-end}
use kcov.Endian.{Host, little_endian, be_bytes, get_be}
use kcov.Endian.RoundTrip.{put_be-be_bytes, length-put_be}
use kcov.Endian.Fields.{drop_field, read_field}
use kcov.Python.Datum.{
  coverage_magic, sizeof_header, Pipe, fread, magic_of, size_of, line_of, remainder_of,
  is_too_little, take_name, take_header, read_name, read_header, read_datum, pack_string,
  report_trace,
}
use kcov.Python.Reading.{remainder_of_lem}

module _ (reader : Host) (w a : ℕ) (rest : Bytes) where
  read_be : a < 256 ^ w → get_be reader w (take w (be_bytes w a ++ rest)) ≡ a
  read_be h = rw (put_be-be_bytes little_endian w a) at (read_field little_endian w a rest reader h)

  drop_be : drop w (be_bytes w a ++ rest) ≡ rest
  drop_be = rw (put_be-be_bytes little_endian w a) at (drop_field little_endian w a rest)

length-be_bytes : (w a : ℕ) → length (be_bytes w a) ≡ w
length-be_bytes w a = rw (put_be-be_bytes little_endian w a) at (length-put_be little_endian w a)

take_name_enough :
    (stale : Bytes) (remainder line : ℕ) (p : Pipe) (name : Bytes)
    → is_too_little (length name) remainder ≡ false
    → take_name stale remainder line (p, name) ≡ (
      p,
      record {
        datum = some (line, c_string (name ++ stale));
        stored = sizeof_header + length name;
      },
    )
take_name_enough stale remainder line p name enough = rw enough refl

take_header_valid :
    (host : Host) (stale : Bytes) (total_size size line : ℕ) (p : Pipe) (buf : Bytes)
    → length buf ≡ sizeof_header
    → magic_of host buf ≡ coverage_magic
    → size_of host buf ≡ size
    → line_of host buf ≡ line
    → size < total_size
    → take_header host stale total_size (p, buf) ≡ read_name stale size line p
take_header_valid host stale total_size size line p buf whole magic size_is line_is fits =
    let long : ltb (length buf) sizeof_header ≡ false = ground arith in
    let valid : eqb (magic_of host buf) coverage_magic && ltb (size_of host buf) total_size ≡ true =
      ground arith in
    rw (long, valid)
      (ap (λ n. read_name stale n (line_of host buf) p) size_is
        ∙ ap (λ n. read_name stale size n p) line_is)

is_too_little_whole : (n remainder : ℕ) → remainder ≡ n → is_too_little n remainder ≡ false
unfolding is_too_little
is_too_little_whole n remainder is = ground arith

-- A record with a name of bytes.
abbrev pub packed : Bytes → ℕ → Bytes
packed name line =
    be_bytes 8 coverage_magic
    ++ (be_bytes 4 (length name + 1 + 8 + 4 + 4) ++ (be_bytes 4 line ++ (name ++ 0 ∷ [])))

pub length-pack_string : (n : ℕ) (xs : Bytes) → length (pack_string n xs) ≡ n
unfolding pack_string
length-pack_string zero xs = refl
length-pack_string (suc n) [] = omega (arith, length-pack_string n [])
length-pack_string (suc n) (x ∷ xs) = omega (arith, length-pack_string n xs)

pack_string-take : (n : ℕ) (xs : Bytes) → n ≤ length xs → pack_string n xs ≡ take n xs
unfolding pack_string
pack_string-take zero xs enough = refl
pack_string-take (suc n) [] enough = absurd (omega (arith, enough))
pack_string-take (suc n) (x ∷ xs) enough =
    ap (◌∷◌ x) (pack_string-take n xs (omega (arith, enough)))

All-take : (P : ℕ → Type 0) (n : ℕ) (xs : Bytes) → All P xs → All P (take n xs)
All-take P zero xs all_ = tt
All-take P (suc n) [] all_ = tt
All-take P (suc n) (x ∷ xs) (first, all_) = (first, All-take P n xs all_)

-- The record of the helper has the packed name's length as its size.
pub report_trace-packed :
    (encode : List ℕ → Bytes) (file : List ℕ) (line : ℕ)
    → report_trace encode file line ≡ packed (pack_string (length file) (encode file)) line
unfolding report_trace
report_trace-packed encode file line =
    let name = pack_string (length file) (encode file) in
    ap
      (λ n.
        be_bytes 8 coverage_magic
        ++ (be_bytes 4 (n + 1 + 8 + 4 + 4) ++ (be_bytes 4 line ++ (name ++ 0 ∷ []))))
      (sym (length-pack_string (length file) (encode file)))

-- What such a record is read back as.
module _ (reader : Host) (stale : Bytes) (file : Bytes) (line : ℕ) (rest : Bytes) where
  abbrev pub size : ℕ
  size = length file + 1 + 8 + 4 + 4

  abbrev pub name : Bytes
  name = file ++ 0 ∷ []

  pub header : Bytes
  header = be_bytes 8 coverage_magic ++ (be_bytes 4 size ++ (be_bytes 4 line ++ []))

  pub length-header : length header ≡ sizeof_header
  unfolding header
  length-header = omega (
    arith,
    length-append (be_bytes 8 coverage_magic) (be_bytes 4 size ++ (be_bytes 4 line ++ [])),
    length-append (be_bytes 4 size) (be_bytes 4 line ++ []),
    length-append (be_bytes 4 line) [],
    length-be_bytes 8 coverage_magic,
    length-be_bytes 4 size,
    length-be_bytes 4 line,
  )

  pub reported : packed file line ++ rest ≡ header ++ (name ++ rest)
  unfolding header
  reported = simp append_assoc

  pub magic_back : magic_of reader header ≡ coverage_magic
  unfolding header
  magic_back = read_be reader 8 coverage_magic _ (omega arith)

  pub size_back : size < 2 ^ 32 → size_of reader header ≡ size
  unfolding header
  size_back small =
      ap (λ xs. get_be reader 4 (take 4 xs)) (drop_be reader 8 coverage_magic _)
      ∙ read_be reader 4 size _ small

  pub line_back : line < 2 ^ 32 → line_of reader header ≡ line
  unfolding header
  line_back small =
      ap (λ xs. get_be reader 4 (take 4 xs))
        (drop_add 8 4 header
          ∙ ap (drop 4) (drop_be reader 8 coverage_magic _)
          ∙ drop_be reader 4 size _)
      ∙ read_be reader 4 line _ small

  module _ (answers : List Bool) where
    -- The pipe with some bytes left.
    abbrev pub holding : Bytes → Pipe
    holding xs = record { bytes = xs; at_eof = false; readable = answers }

    fread_front :
        (n : ℕ) (xs ys : Bytes) → length xs ≡ n → fread n (holding (xs ++ ys)) ≡ (holding ys, xs)
    unfolding fread
    fread_front n xs ys is =
        let long : n ≤ length (xs ++ ys) = omega (arith, length-append xs ys, is) in
        let left : drop n (xs ++ ys) ≡ ys = rw is at (drop-length-append xs ys) in
        let got : take n (xs ++ ys) ≡ xs = rw is at (take-length-append xs ys) in
        let not_short : ltb (length (xs ++ ys)) n ≡ false = ground arith in
        rw (left, got, not_short) refl

    read_name_back :
        All NonZero file
        → size < 2 ^ 32
        → read_name stale size line (holding (name ++ rest))
          ≡ (holding rest, record { datum = some (line, file); stored = size })
    unfolding read_name
    read_name_back text small =
        let remainder : remainder_of size ≡ length name =
          remainder_of_lem size (omega arith) small ∙ omega (arith, length-append file (0 ∷ [])) in
        let whole = is_too_little_whole (length name) (remainder_of size) remainder in
        let text_is : c_string (name ++ stale) ≡ file =
          ap c_string (append_assoc file (0 ∷ []) stale) ∙ c_string-end file stale text in
        let stored : sizeof_header + length name ≡ size =
          omega (arith, length-append file (0 ∷ [])) in
        ap (take_name stale (remainder_of size) line)
          (fread_front (remainder_of size) name rest (sym remainder))
        ∙ take_name_enough stale (remainder_of size) line (holding rest) name whole
        ∙ ap
            (λ s. (
              holding rest,
              record { datum = some (line, s); stored = sizeof_header + length name },
            ))
            text_is
        ∙ ap (λ n. (holding rest, record { datum = some (line, file); stored = n })) stored

    -- A whole header, with anything behind it.
    pub read_header_front :
        (total_size : ℕ) (xs : Bytes)
        → length file + 17 < total_size
        → total_size ≤ 2 ^ 32
        → line < 2 ^ 32
        → read_header reader stale total_size (holding (header ++ xs))
          ≡ read_name stale size line (holding xs)
    unfolding read_header
    read_header_front total_size xs fits narrow small =
        ap (take_header reader stale total_size) (fread_front sizeof_header header xs length-header)
        ∙ take_header_valid reader stale total_size size line (holding xs) header length-header
            magic_back (size_back (omega arith)) (line_back small) (omega arith)

    read_datum-packed :
        (total_size : ℕ)
        → All NonZero file
        → length file + 17 < total_size
        → total_size ≤ 2 ^ 32
        → line < 2 ^ 32
        → read_datum reader stale total_size
            (record { bytes = packed file line ++ rest; at_eof = false; readable = true ∷ answers })
          ≡ (
            record { bytes = rest; at_eof = false; readable = answers },
            record { datum = some (line, file); stored = length file + 17 },
          )
    unfolding read_datum
    read_datum-packed total_size text fits narrow small =
        ap (λ xs. read_header reader stale total_size (holding xs)) reported
        ∙ read_header_front total_size (name ++ rest) fits narrow small
        ∙ read_name_back text (omega arith)
        ∙ ap (λ n. (holding rest, record { datum = some (line, file); stored = n })) (omega arith)

-- Reading what the helper wrote gives its line and, of the name's encoding, as many bytes as the
-- name has characters, so all of it where each character is one byte. The pipe is left at what
-- stands behind the report. This is for an encoding without NUL that has a byte for every character
-- at least, a report that is shorter than the buffer, and a line of 32 bits, where the pipe is
-- readable.
pub read_datum-report_trace :
    (reader : Host) (stale : Bytes) (encode : List ℕ → Bytes) (file : List ℕ) (line : ℕ)
    (rest : Bytes) (answers : List Bool) (total_size : ℕ)
    → All NonZero (encode file)
    → length file ≤ length (encode file)
    → length file + 17 < total_size
    → total_size ≤ 2 ^ 32
    → line < 2 ^ 32
    → read_datum reader stale total_size (record {
      bytes = report_trace encode file line ++ rest;
      at_eof = false;
      readable = true ∷ answers;
    })
      ≡ (
        record { bytes = rest; at_eof = false; readable = answers },
        record { datum = some (line, take (length file) (encode file)); stored = length file + 17 },
      )
read_datum-report_trace reader stale encode file line rest answers total_size text whole fits narrow
      small =
    let n = length-pack_string (length file) (encode file) in
    let name_is = pack_string-take (length file) (encode file) whole in
    let text_kept : All NonZero (pack_string (length file) (encode file)) =
      rw name_is (All-take NonZero (length file) (encode file) text) in
    let back =
      read_datum-packed reader stale (pack_string (length file) (encode file)) line rest answers
        total_size text_kept (omega (arith, n)) narrow small in
    ap
      (λ xs.
        read_datum reader stale total_size
          (record { bytes = xs ++ rest; at_eof = false; readable = true ∷ answers }))
      (report_trace-packed encode file line)
    ∙ back
    ∙ ap
        (λ k. (
          record { bytes = rest; at_eof = false; readable = answers },
          record { datum = some (line, pack_string (length file) (encode file)); stored = k + 17 },
        ))
        n
    ∙ ap
        (λ name. (
          record { bytes = rest; at_eof = false; readable = answers },
          record { datum = some (line, name); stored = length file + 17 },
        ))
        name_is
