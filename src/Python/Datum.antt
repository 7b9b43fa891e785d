-- ===== src/Python/Datum.antt =====
-- readCoverageDatum of src/engines/python-engine.cc, and report_trace_real of
-- src/engines/python-helper.py, which writes what it reads.
-- The pipe is what the helper writes until it ends; a read of it gets what is asked for, or all
-- that is left.
use kcov.Prelude.{
  ℕ, zero, suc, ◌+◌, ◌-◌, ◌%◌, ◌^◌, Bool, false, ◌&&◌, ◌||◌, Option, none, some, List, [], ◌∷◌,
  ◌++◌, Bytes, eqb, ltb, if◌then◌else◌, length, take, drop,
}
use kcov.Strings.Escape.{c_string}
use kcov.Endian.{Host, be_bytes, get_be}

-- "metallgut"
abbrev pub coverage_magic : ℕ
coverage_magic = 0x6d6574616c6c6775

-- sizeof(struct coverage_data)
abbrev pub sizeof_header : ℕ
sizeof_header = 16

-- m_pipe, with what file_readable will answer.
pub record Pipe : Type 0 where
  pub bytes : Bytes
  pub at_eof : Bool
  pub readable : List Bool

unfoldable pub fread : ℕ → Pipe → Pipe × Bytes
fread n p = (
  record p { bytes = drop n p.bytes; at_eof = p.at_eof || ltb (length p.bytes) n },
  take n p.bytes,
)

abbrev pub file_readable : List Bool → List Bool × Bool
file_readable [] = ([], false)
file_readable (answer ∷ answers) = (answers, answer)

-- What is read: nothing, or a line and a file's name. `stored` is how far the buffer is written.
pub record Reading : Type 0 where
  pub datum : Option (ℕ × Bytes)
  pub stored : ℕ

abbrev pub no_datum : ℕ → Reading
no_datum stored = record { datum = none; stored = stored }

-- The three integers of a header, as unmarshalCoverageData leaves them.
abbrev pub magic_of : Host → Bytes → ℕ
magic_of host buf = get_be host 8 (take 8 buf)

abbrev pub size_of : Host → Bytes → ℕ
size_of host buf = get_be host 4 (take 4 (drop 8 buf))

abbrev pub line_of : Host → Bytes → ℕ
line_of host buf = get_be host 4 (take 4 (drop 12 buf))

-- p->size - sizeof(struct coverage_data), of type size_t
unfoldable pub remainder_of : ℕ → ℕ
remainder_of size = (size + (2 ^ 64 - sizeof_header)) % 2 ^ 64

-- rv < (ssize_t)remainder
unfoldable pub is_too_little : ℕ → ℕ → Bool
is_too_little rv remainder = ltb remainder (2 ^ 63) && ltb rv remainder

-- Behind a valid header; `stale` is what the buffer held behind the bytes that are stored.
abbrev pub take_name : Bytes → ℕ → ℕ → Pipe × Bytes → Pipe × Reading
take_name stale remainder line (p, name) =
    let stored = sizeof_header + length name in
    (
      p,
      if is_too_little (length name) remainder
          then no_datum stored
          else record { datum = some (line, c_string (name ++ stale)); stored = stored },
    )

unfoldable pub read_name : Bytes → ℕ → ℕ → Pipe → Pipe × Reading
read_name stale size line p = take_name stale (remainder_of size) line (fread (remainder_of size) p)

abbrev pub take_header : Host → Bytes → ℕ → Pipe × Bytes → Pipe × Reading
take_header host stale total_size (p, buf) =
    if ltb (length buf) sizeof_header
    then (p, no_datum (length buf))
    else if eqb (magic_of host buf) coverage_magic && ltb (size_of host buf) total_size
    then read_name stale (size_of host buf) (line_of host buf) p
    else (p, no_datum (length buf))

unfoldable pub read_header : Host → Bytes → ℕ → Pipe → Pipe × Reading
read_header host stale total_size p = take_header host stale total_size (fread sizeof_header p)

unfoldable pub read_datum : Host → Bytes → ℕ → Pipe → Pipe × Reading
read_datum host stale total_size p =
    if p.at_eof
    then (p, no_datum 0)
    else (let (answers, answer) = file_readable p.readable in
        let p' = record p { readable = answers } in
        if answer then read_header host stale total_size p' else (p', no_datum 0))

-- struct.pack("%ds" % n, xs): cut at n bytes, or filled with NUL up to them.
unfoldable pub pack_string : ℕ → Bytes → Bytes
pack_string zero xs = []
pack_string (suc n) [] = 0 ∷ pack_string n []
pack_string (suc n) (x ∷ xs) = x ∷ pack_string n xs

-- report_trace_real: `size` and the "%ds" take len(file), which counts characters, and what is
-- packed is `encode file`, bytes(file, "utf-8") in Python 3 and file itself in Python 2.
unfoldable pub report_trace : (List ℕ → Bytes) → List ℕ → ℕ → Bytes
report_trace encode file line =
    be_bytes 8 coverage_magic
    ++ (be_bytes 4 (length file + 1 + 8 + 4 + 4)
        ++ (be_bytes 4 line ++ (pack_string (length file) (encode file) ++ 0 ∷ [])))
