-- ===== src/Tests/Binaries.antt =====
-- A file of src/system-mode/file-data.cc with two entries.
use kcov.Prelude.{◌^◌, ◌≡◌, refl, none, some, [], ◌∷◌, Bytes, ascii, arith, replicate}
use kcov.Endian.{little_endian}
use kcov.ModeFile.Layout.{pad_to_8}
use kcov.ModeFile.{SystemModeFile, get_processed_data, from_processed_file}
use kcov.ModeFile.RoundTrip.{Storable, from_processed_file-get_processed_data}

abbrev file : SystemModeFile
file = record {
  filename = ascii "/bin/a";
  options = ascii "--x";
  id = 5;
  data_ = 1 ∷ 2 ∷ 3 ∷ [];
  entries = 1 ∷ 2 ^ 40 ∷ [];
}

file-Storable : Storable file
unfolding pad_to_8
file-Storable = record {
  filename = (
    ground arith,
    (ground arith, (ground arith, (ground arith, (ground arith, (ground arith, tt))))),
  );
  options = (ground arith, (ground arith, (ground arith, tt)));
  id = omega arith;
  values = (omega arith, (omega arith, tt));
  some_entries = omega arith;
  few_entries = omega arith;
  short_filename = omega arith;
  short_options = omega arith;
  inside = refl;
}

from_processed_file-get_processed_data_example :
    (out : Bytes) × (get_processed_data little_endian file ≡ some out)
    × (from_processed_file little_endian out ≡ some (some (record file { data_ = out })))
from_processed_file-get_processed_data_example =
    from_processed_file-get_processed_data little_endian file file-Storable

-- A name of 80 characters, an empty option string and one entry: the stray write is behind the
-- block.
abbrev long_name : SystemModeFile
long_name = record file { filename = replicate 80 97; options = []; entries = 1 ∷ [] }

stray_write : get_processed_data little_endian long_name ≡ none
unfolding get_processed_data pad_to_8
stray_write = refl

-- A file of 8 bytes is too small for a trailer, and is read in front of its first byte.
too_small : from_processed_file little_endian (replicate 8 0) ≡ none
unfolding from_processed_file
too_small = refl
