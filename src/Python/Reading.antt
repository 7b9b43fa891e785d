-- ===== src/Python/Reading.antt =====
-- What readCoverageDatum of src/engines/python-engine.cc makes of its pipe.
use kcov.Prelude.{
  ℕ, ◌+◌, ◌-◌, ◌^◌, ◌≤◌, ◌<◌, ◌≡◌, ◌&&◌, Bytes, arith, eqb, ltb, length, take, length-take_le,
  if_both,
}
use kcov.Endian.{Host}
use kcov.Python.Datum.{
  coverage_magic, sizeof_header, Pipe, fread, file_readable, Reading, magic_of, size_of, line_of,
  remainder_of, is_too_little, read_name, read_header, read_datum,
}

pub remainder_of_lem :
    (size : ℕ) → sizeof_header ≤ size → size < 2 ^ 32 → remainder_of size ≡ size - sizeof_header
unfolding remainder_of
remainder_of_lem size at_least fits = omega arith

read_name_stored :
    (stale : Bytes) (size line : ℕ) (p : Pipe)
    → (read_name stale size line p).1.stored ≤ sizeof_header + remainder_of size
unfolding read_name fread
read_name_stored stale size line p =
    let short = length-take_le (remainder_of size) p.bytes in
    if_both (λ (r : Reading). r.stored ≤ sizeof_header + remainder_of size)
      (is_too_little (length (take (remainder_of size) p.bytes)) (remainder_of size)) _ _
      (λ little. omega (arith, short)) (λ enough. omega (arith, short))

read_header_stored :
    (host : Host) (stale : Bytes) (total_size : ℕ) (p : Pipe)
    → sizeof_header < total_size
    → total_size ≤ 2 ^ 32
    → sizeof_header ≤ size_of host (take sizeof_header p.bytes)
    → (read_header host stale total_size p).1.stored < total_size
unfolding read_header fread
read_header_stored host stale total_size p room narrow at_least =
    let buf = take sizeof_header p.bytes in
    let (p', got) = fread sizeof_header p in
    let size = size_of host buf in
    let short : length buf < total_size = omega (arith, length-take_le sizeof_header p.bytes) in
    let Stored = λ (x : Pipe × Reading). x.1.stored < total_size in
    if_both Stored (ltb (length buf) sizeof_header) _ _ (λ little. short)
      (λ whole.
        if_both Stored (eqb (magic_of host buf) coverage_magic && ltb size total_size) _ _
          (λ valid.
            let fits : size < total_size = ground arith in
            let remainder = remainder_of_lem size at_least (omega arith) in
            omega (arith, read_name_stored stale size (line_of host buf) p', remainder))
          (λ invalid. short))

-- readCoverageDatum stores less than the buffer's size, whatever the pipe holds, if the size in
-- the header that it reads is at least the header's own.
pub read_datum-stored :
    (host : Host) (stale : Bytes) (total_size : ℕ) (p : Pipe)
    → sizeof_header < total_size
    → total_size ≤ 2 ^ 32
    → sizeof_header ≤ size_of host (take sizeof_header p.bytes)
    → (read_datum host stale total_size p).1.stored < total_size
unfolding read_datum
read_datum-stored host stale total_size p room narrow at_least =
    let (answers, answer) = file_readable p.readable in
    let Stored = λ (x : Pipe × Reading). x.1.stored < total_size in
    if_both Stored p.at_eof _ _ (λ at_end. omega arith)
      (λ open_.
        if_both Stored answer _ _
          (λ ready.
            read_header_stored host stale total_size (record p { readable = answers }) room narrow
              at_least)
          (λ silent. omega arith))
