-- ===== src/Tests/Programs.antt =====
-- The Python engine on concrete programs and pipes.
use kcov.Prelude.{
  ℕ, ◌+◌, ◌%◌, ◌/◌, ◌<◌, ◌≡◌, refl, true, false, none, some, List, [], ◌∷◌, ◌++◌, Bytes, ascii,
  arith, bytes_eq, replicate, take, All, inr, ltb, if◌then◌else◌,
}
use kcov.Strings.Find.{contains, starts_with}
use kcov.Strings.Search.{position, trim_string, cut_start, cut_end, last_is}
use kcov.Endian.{
  little_endian, be_bytes, get_be, be_to_host, load, store, swap_endian, swap_bytes, byte_at,
  le_bytes, from_le, cpu_is_little_endian,
}
use kcov.Script.{sweep}
use kcov.Python.Lines.{new_parser, parse_step, multiline_idx, is_python_string, is_skipped}
use kcov.Python.Strings.{sweep-multiline, InString, Quotes, Opens}
use kcov.Python.Datum.{
  Pipe, read_datum, read_header, read_name, fread, remainder_of, is_too_little, report_trace,
  size_of,
}
use kcov.Python.Reading.{read_datum-stored}
use kcov.Python.Report.{read_datum-report_trace}
use kcov.Strings.CString.{NonZero}
use kcov.Python.Truncated.{read_datum-cut}

-- a = '''x
abbrev opening : Bytes
opening = ascii "a = " ++ (39 ∷ 39 ∷ 39 ∷ ascii "x")

abbrev closing : Bytes
closing = ascii "  " ++ (39 ∷ 39 ∷ 39 ∷ [])

opening-Opens : Opens opening 4
unfolding is_skipped multiline_idx is_python_string position trim_string cut_start cut_end bytes_eq
    contains starts_with last_is
opening-Opens = record { quotes = record { looked_at = refl; at = refl }; not_closed = refl }

closing-Quotes : Quotes closing 0
unfolding is_skipped multiline_idx is_python_string position trim_string cut_start cut_end bytes_eq
    contains starts_with last_is
closing-Quotes = record { looked_at = refl; at = refl }

text-InString : InString (ascii "text")
unfolding is_skipped multiline_idx is_python_string position trim_string cut_start cut_end bytes_eq
    contains starts_with last_is
text-InString = inr refl

sweep-multiline_example :
    sweep parse_step new_parser 0 (opening ∷ ((ascii "text" ∷ []) ++ closing ∷ ascii "b = 1" ∷ []))
    ≡ 3 ∷ sweep parse_step new_parser 3 (ascii "b = 1" ∷ [])
sweep-multiline_example =
    sweep-multiline 0 opening (ascii "text" ∷ []) closing (ascii "b = 1" ∷ []) 4 0 opening-Opens
      (text-InString, tt) closing-Quotes

abbrev file : Bytes
file = ascii "a.py"

-- Characters up to U+07FF in UTF-8.
abbrev utf8 : List ℕ → Bytes
utf8 [] = []
utf8 (c ∷ cs) =
    let rest = utf8 cs in if ltb c 128 then c ∷ rest else (192 + c / 64) ∷ (128 + c % 64) ∷ rest

-- "é.py"
abbrev accented : List ℕ
accented = 0xe9 ∷ ascii ".py"

accented_text : All NonZero (utf8 accented)
accented_text = (ground arith, (ground arith, (ground arith, (ground arith, (ground arith, tt)))))

-- The last byte of the encoded name is lost.
read_datum-report_trace_example :
    read_datum little_endian [] 8192 (record {
      bytes = report_trace utf8 accented 3 ++ (1 ∷ []);
      at_eof = false;
      readable = true ∷ false ∷ [];
    })
    ≡ (
      record { bytes = 1 ∷ []; at_eof = false; readable = false ∷ [] },
      record { datum = some (3, 0xc3 ∷ 0xa9 ∷ ascii ".p"); stored = 21 },
    )
read_datum-report_trace_example =
    read_datum-report_trace little_endian [] utf8 accented 3 (1 ∷ []) (false ∷ []) 8192
      accented_text (omega arith) (omega arith) (omega arith) (omega arith)

read_datum-cut_example :
    (read_datum little_endian [] 8192 (record {
      bytes = take 18 (report_trace utf8 file 3);
      at_eof = false;
      readable = true ∷ [];
    })).1.datum
    ≡ none
read_datum-cut_example =
    read_datum-cut little_endian [] utf8 file 3 8192 18 [] (omega arith) (omega arith) (omega arith)
      (omega arith)

abbrev pipe : Pipe
pipe = record { bytes = report_trace utf8 file 3; at_eof = false; readable = true ∷ [] }

size_is : size_of little_endian (take 16 (report_trace utf8 file 3)) ≡ 21
unfolding report_trace get_be be_to_host load store be_bytes swap_endian swap_bytes byte_at le_bytes
    from_le cpu_is_little_endian
size_is = refl

read_datum-stored_example : (read_datum little_endian [] 8192 pipe).1.stored < 8192
read_datum-stored_example =
    read_datum-stored little_endian [] 8192 pipe (omega arith) (omega arith)
      (omega (arith, size_is))

-- A header with size 0, and 100 bytes behind it, in a buffer of 32 bytes: all of them are stored.
abbrev wrong_size : Pipe
wrong_size = record {
  bytes = be_bytes 8 0x6d6574616c6c6775 ++ (be_bytes 4 0 ++ (be_bytes 4 1 ++ replicate 100 65));
  at_eof = false;
  readable = true ∷ [];
}

overflow : (read_datum little_endian [] 32 wrong_size).1.stored ≡ 116
unfolding read_datum read_header read_name fread remainder_of get_be be_to_host load store be_bytes
    swap_endian swap_bytes byte_at le_bytes from_le cpu_is_little_endian is_too_little
overflow = refl

-- A doc string's first line that begins and ends with a quote is taken for a string of one line:
-- the text behind it is then code.
doc_string :
    sweep parse_step new_parser 0
      ((ascii "\"\"\"Say \"hi\"") ∷ ascii "to all." ∷ ascii "\"\"\"" ∷ ascii "a = 1" ∷ [])
    ≡ 2 ∷ []
unfolding sweep parse_step is_skipped multiline_idx is_python_string position trim_string cut_start
    cut_end bytes_eq contains starts_with last_is
doc_string = refl
