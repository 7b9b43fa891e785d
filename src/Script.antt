-- ===== src/Script.antt =====
-- ScriptEngineBase of src/engines/script-engine-base.hh, with getLineId of src/include/lineid.hh:
-- the lines that a script engine has found, each with its address.
pub mod Addresses
pub mod Sweeps
use kcov.Prelude.{
  ℕ, ◌+◌, ◌*◌, ◌%◌, ◌^◌, Bool, true, false, Option, none, some, List, [], ◌∷◌, ◌++◌, Bytes,
  if◌then◌else◌, number_key, name_key,
}
use kcov.Prelude.Table.{Table, find, insert, find_or}
use kcov.Collector.{EventType, Event}

-- std::hash of a string, the cached real path, the source file cache's lines and checksum, and the
-- number that std::stoull reads where it reads the whole of a string.
pub record Env : Type 0 where
  pub string_hash : Bytes → ℕ
  pub get_real_path : Bytes → Bytes
  pub get_lines : Bytes → List Bytes
  pub get_crc : Bytes → ℕ
  pub whole_integer : Bytes → Option ℕ
  pub use_basic_parser : Bool

-- A call, made on every listener of its kind.
pub data Call : Type 0 where
  on_line : Bytes → ℕ → ℕ → Call
  on_file : Bytes → Call

pub record Script : Type 0 where
  pub reported_files : Table Bytes Bool
  pub line_id_to_address : Table ℕ ℕ
  pub has_listener : Bool
  pub calls : List Call

abbrev pub new_script : Script
new_script = record {
  reported_files = [];
  line_id_to_address = [];
  has_listener = false;
  calls = [];
}

unfoldable pub get_line_id : Env → Bytes → ℕ → ℕ
get_line_id env file_name nr = env.string_hash file_name % 2 ^ 32 + nr % 2 ^ 32 * 2 ^ 32

unfoldable pub line_address : ℕ → ℕ → ℕ
line_address crc line_no = crc % 2 ^ 32 + line_no % 2 ^ 32 * 2 ^ 32

-- The events that m_listener gets.
unfoldable pub report_event : Script → EventType → ℕ → ℕ → List Event
report_event s type_ data_ address =
    if s.has_listener then (record { type_ = type_; data_ = data_; addr = address }) ∷ [] else []

abbrev pub add_found : Env → ℕ → Bytes → ℕ → Script → Option ℕ → Script
add_found env crc filename line_no s (some known) = s
add_found env crc filename line_no s none =
    let address = line_address crc line_no in
    record s {
      line_id_to_address = insert (get_line_id env filename line_no) address s.line_id_to_address;
      calls = s.calls ++ on_line (env.get_real_path filename) line_no address ∷ [];
    }

unfoldable pub file_line_found : Env → ℕ → Bytes → Script → ℕ → Script
file_line_found env crc filename s line_no =
    add_found env crc filename line_no s
      (find (get_line_id env filename line_no) s.line_id_to_address)

unfoldable pub lines_found : Env → ℕ → Bytes → Script → List ℕ → Script
lines_found env crc filename s [] = s
lines_found env crc filename s (n ∷ ns) =
    lines_found env crc filename (file_line_found env crc filename s n) ns

-- A loop over the lines of a file, from number `line_no` + 1 on: the numbers of those that a
-- parser takes for code.
unfoldable pub sweep : {S : Type 0} → (S → Bytes → S × Bool) → S → ℕ → List Bytes → List ℕ
sweep step st line_no [] = []
sweep step st line_no (line ∷ lines) =
    let (st', is_code) = step st line in
    let rest = sweep step st' (line_no + 1) lines in if is_code then (line_no + 1) ∷ rest else rest

-- The first event for a file reports it, and its lines.
abbrev pub mark_reported : Bytes → Script → Script
mark_reported filename s = record s {
  reported_files = insert filename true s.reported_files;
  calls = s.calls ++ on_file filename ∷ [];
}

unfoldable pub report_file : (Bytes → Script → Script) → Bytes → Script → Script
report_file parse_file filename s =
    if find_or false filename s.reported_files
    then s
    else parse_file filename (mark_reported filename s)

-- The breakpoint event of a line: address 0 if the line is not known.
unfoldable pub line_event : Env → Script → Bytes → ℕ → List Event
line_event env s filename line_no =
    report_event s kcov.Collector.ev_breakpoint 1
      (find_or 0 (get_line_id env filename line_no) s.line_id_to_address)
