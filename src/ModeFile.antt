-- ===== src/ModeFile.antt =====
-- src/system-mode/file-data.cc: a binary of a whole system, with the entries of its coverage, its
-- name and kcov's options in a trailer behind its own bytes.
-- The sizes of the parts are taken to stay below 2 ^ 32. A block begins at a multiple of 8, and
-- xmalloc clears it.
pub mod Layout
pub mod Trailers
pub mod Parts
pub mod RoundTrip
use kcov.Prelude.{
  ℕ, zero, suc, ◌+◌, ◌-◌, ◌*◌, ◌%◌, ◌^◌, Bool, true, false, not, ◌&&◌, ◌||◌, Option, none, some,
  List, [], ◌∷◌, ◌++◌, Bytes, eqb, ltb, leb, if◌then◌else◌, length, get_elem?, set, take, drop,
  replicate, ◌>>=◌,
}
use kcov.Strings.Escape.{c_string}
use kcov.Strings.Search.{is_char}
use kcov.Endian.{Host, store, load}
use kcov.ModeFile.Layout.{
  Trailer, trailer_magic, trailer_version, sizeof_trailer, trailer_bytes, trailer_of,
  un_marshal_trailer, pad_to_8,
}

pub record SystemModeFile : Type 0 where
  pub filename : Bytes
  pub options : Bytes
  pub id : ℕ
  pub data_ : Bytes
  pub entries : List ℕ

abbrev pub new_file : Bytes → SystemModeFile
new_file data_ = record { filename = []; options = []; id = 0; data_ = data_; entries = [] }

-- m_entries.resize(n), to a larger size.
abbrev pub resize : ℕ → List ℕ → List ℕ
resize n xs = xs ++ replicate (n - length xs) 0

unfoldable pub add_entry : SystemModeFile → ℕ → ℕ → SystemModeFile
add_entry f index value = record f {
  entries =
      set (if leb (length f.entries) index then resize (index + 1) f.entries else f.entries) index
        value;
}

unfoldable pub add_entries : SystemModeFile → ℕ → List ℕ → SystemModeFile
add_entries f i [] = f
add_entries f i (value ∷ values) = add_entries (add_entry f i value) (i + 1) values

-- A block's part with a string and its NUL, cleared behind it.
unfoldable pub string_part : Bytes → Bytes
string_part s = c_string s ++ 0 ∷ replicate (pad_to_8 (length s + 1) - (length (c_string s) + 1)) 0

unfoldable pub entries_bytes : Host → List ℕ → Bytes
entries_bytes host [] = []
entries_bytes host (e ∷ es) = store host 8 e ++ entries_bytes host es

unfoldable pub trailer_for : SystemModeFile → Trailer
trailer_for f = record {
  magic = trailer_magic;
  version = trailer_version;
  compressed_size = pad_to_8 (8 * length f.entries);
  uncompressed_size = 8 * length f.entries;
  id = f.id;
  filename_size = pad_to_8 (length f.filename + 1);
  options_size = pad_to_8 (length f.options + 1);
  n_entries = length f.entries % 2 ^ 16;
}

abbrev pub padding : ℕ → Bytes
padding n = replicate (pad_to_8 n - n) 0

-- The parts of the block before its trailer.
unfoldable pub body_bytes : Host → SystemModeFile → Bytes
body_bytes host f =
    (f.data_ ++ padding (length f.data_))
    ++ (string_part f.filename ++ (string_part f.options ++ entries_bytes host f.entries))

-- options[filenameSize - 1] = '\0' is within the block.
abbrev pub clears_inside : SystemModeFile → Bool
clears_inside f =
    ltb (pad_to_8 (length f.filename + 1) - 1)
      (pad_to_8 (length f.options + 1) + pad_to_8 (8 * length f.entries) + sizeof_trailer)

-- getProcessedData; `none` is a write behind the block.
unfoldable pub get_processed_data : Host → SystemModeFile → Option Bytes
get_processed_data host f =
    if eqb (length f.entries) 0
    then some f.data_
    else if clears_inside f
    then some (body_bytes host f ++ trailer_bytes host (trailer_for f))
    else none

-- uncompressEntries; `none` is a write behind its block.
unfoldable pub uncompress_entries : Bytes → ℕ → ℕ → Option Bytes
uncompress_entries data_ compressed_size uncompressed_size =
    if leb compressed_size uncompressed_size
    then some (take compressed_size data_ ++ replicate (uncompressed_size - compressed_size) 0)
    else none

-- The first n integers of a block; `none` is a read behind it.
unfoldable pub read_entries : Host → ℕ → Bytes → Option (List ℕ)
read_entries host zero p = some []
read_entries host (suc n) p =
    let rest = read_entries host n (drop 8 p) in
    if ltb (length p) 8 then none else rest >>= λ es. some (load host (take 8 p) ∷ es)

-- The last character of a string of some size that ends at a place of the data; `none` is a read
-- outside of the data.
abbrev pub char_before : Bytes → ℕ → Option ℕ
char_before file_data zero = none
char_before file_data (suc k) = get_elem? file_data k

abbrev pub last_char : Bytes → ℕ → ℕ → Option ℕ
last_char file_data size end_ = if eqb size 0 then none else char_before file_data end_

-- Where the parts before the trailer begin.
abbrev pub entries_start : ℕ → Trailer → ℕ
entries_start trailer_start t = trailer_start - t.compressed_size

abbrev pub options_start : ℕ → Trailer → ℕ
options_start trailer_start t = trailer_start - t.compressed_size - t.options_size

abbrev pub filename_start : ℕ → Trailer → Option ℕ
filename_start trailer_start t =
    if leb (t.compressed_size + t.options_size + t.filename_size) trailer_start
    then some (trailer_start - t.compressed_size - t.options_size - t.filename_size)
    else none

-- The end of parse. A result `some none` is a file that is refused.
unfoldable pub parse_entries : Host → Bytes → ℕ → Trailer → Option (Option SystemModeFile)
parse_entries host file_data trailer_start t = do
  start ← filename_start trailer_start t
  block ←
      uncompress_entries (drop (entries_start trailer_start t) file_data) t.compressed_size
        t.uncompressed_size
  entries ← read_entries host t.n_entries block
  some (
      some (
        add_entries
          (record {
            filename = c_string (drop start file_data);
            options = c_string (drop (options_start trailer_start t) file_data);
            id = t.id;
            data_ = file_data;
            entries = [];
          })
          0 entries))

abbrev pub parse_options : Host → Bytes → ℕ → Trailer → ℕ → Option (Option SystemModeFile)
parse_options host file_data trailer_start t last =
    if eqb last 0 then parse_entries host file_data trailer_start t else some none

abbrev pub parse_filename : Host → Bytes → ℕ → Trailer → ℕ → Option (Option SystemModeFile)
parse_filename host file_data trailer_start t last =
    if eqb last 0
    then last_char file_data t.options_size (entries_start trailer_start t)
      >>= parse_options host file_data trailer_start t
    else some none

-- From the tests of the trailer's sizes on.
unfoldable pub parse_strings : Host → Bytes → ℕ → Trailer → Option (Option SystemModeFile)
parse_strings host file_data trailer_start t =
    if ltb (length file_data + sizeof_trailer)
      ((t.filename_size + t.options_size + t.compressed_size) % 2 ^ 32)
    then some none
    else last_char file_data t.filename_size (options_start trailer_start t)
      >>= parse_filename host file_data trailer_start t

abbrev pub parse_trailer : Host → Bytes → ℕ → Trailer → Option (Option SystemModeFile)
parse_trailer host file_data trailer_start t =
    if un_marshal_trailer t then parse_strings host file_data trailer_start t else some none

-- fromProcessedFile: parse with isRaw unset. `none` is an access outside of a block.
unfoldable pub from_processed_file : Host → Bytes → Option (Option SystemModeFile)
from_processed_file host file_data =
    if eqb (length file_data) 0 || not (eqb (length file_data % 8) 0)
    then some none
    else if ltb (length file_data) sizeof_trailer
    then none
    else (let trailer_start = length file_data - sizeof_trailer in
        parse_trailer host file_data trailer_start (trailer_of host (drop trailer_start file_data)))

-- fromRawFile: `none` is a file that is refused.
unfoldable pub from_raw_file : ℕ → Bytes → Bytes → Bytes → Option SystemModeFile
from_raw_file id filename options file_data =
    if eqb (length file_data) 0
    then none
    else some (record (new_file file_data) { filename = filename; options = options; id = id })
