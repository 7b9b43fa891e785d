-- ===== src/Merge.antt =====
-- MergeParser of src/merge-file-parser.cc: it collects lines and hits from the reporter of one
-- run, and adds those that earlier runs have stored.
pub mod Format
pub mod Plain
pub mod RoundTrip
pub mod Replay
pub mod Order
pub mod Safe
pub mod Events
use kcov.Prelude.{
  ℕ, ◌+◌, ◌*◌, ◌%◌, ◌^◌, Bool, true, false, Option, none, some, List, [], ◌∷◌, ◌++◌, map, Bytes,
  if◌then◌else◌, number_key, name_key, ◌>>=◌,
}
use kcov.Prelude.Table.{Table, find, insert, remove, find_or}
use kcov.Endian.{Host}

-- The filter, the file system and the hash (zlib's crc32 behind hash_block).
pub record Env : Type 0 where
  pub host : Host
  pub run_filters : Bytes → Bool
  pub mangle_source_path : Bytes → Bytes
  pub file_exists : Bytes → Bool
  pub read_file : Bytes → Option Bytes
  pub get_file_timestamp : Bytes → ℕ
  pub hash_block : Bytes → ℕ

abbrev pub AddrMap : Type 0
AddrMap = Table ℕ ℕ

pub record File : Type 0 where
  pub filename : Bytes
  pub file_timestamp : ℕ
  pub lines : Table ℕ AddrMap
  pub addr_hits : AddrMap
  pub checksum : ℕ
  pub local_ : Bool

-- The constructor of File; it panics (`none`) if the file cannot be read.
unfoldable pub new_file : Env → Bytes → Option File
new_file env filename = do
  content ← env.read_file filename
  some (record {
    filename = filename;
    file_timestamp = env.get_file_timestamp filename;
    lines = [];
    addr_hits = [];
    checksum = env.hash_block content;
    local_ = false;
  })

abbrev pub set_local : File → File
set_local f = record f { local_ = true }

-- m_lines[lineNr][addr]++
unfoldable pub add_line : File → ℕ → ℕ → File
add_line f line_nr addr =
    let addrs = find_or [] line_nr f.lines in
    record f {
      lines = insert line_nr (insert addr ((find_or 0 addr addrs + 1) % 2 ^ 32) addrs) f.lines;
    }

-- m_addrHits[addr] += hits
unfoldable pub register_hits : File → ℕ → ℕ → File
register_hits f addr hits = record f {
  addr_hits = insert addr ((find_or 0 addr f.addr_hits + hits) % 2 ^ 32) f.addr_hits;
}

-- A call of a listener: ILineListener::onLine or ICollector::IListener::onAddressHit.
pub data Call : Type 0 where
  on_line : ℕ → Bytes → ℕ → ℕ → Call
  on_address_hit : ℕ → ℕ → ℕ → Call

-- A File is reached by its name, as no File of m_files is ever replaced: a File * is a name.
-- The null entries that `[]` makes for missing keys are left out: they read as missing ones.
pub record MergeParser : Type 0 where
  pub files : Table Bytes File
  pub files_by_address : Table ℕ Bytes
  pub file_line_by_address : Table ℕ ℕ
  pub pending_hits : Table ℕ ℕ
  pub line_listeners : List ℕ
  pub collector_listeners : List ℕ
  pub calls : List Call

abbrev pub new_merge_parser : MergeParser
new_merge_parser = record {
  files = [];
  files_by_address = [];
  file_line_by_address = [];
  pending_hits = [];
  line_listeners = [];
  collector_listeners = [];
  calls = [];
}

abbrev pub register_line_listener : MergeParser → ℕ → MergeParser
register_line_listener m k = record m { line_listeners = m.line_listeners ++ k ∷ [] }

abbrev pub register_listener : MergeParser → ℕ → MergeParser
register_listener m k = record m { collector_listeners = m.collector_listeners ++ k ∷ [] }

abbrev pub tell_line : MergeParser → Bytes → ℕ → ℕ → MergeParser
tell_line m filename line_nr addr = record m {
  calls = m.calls ++ map (λ k. on_line k filename line_nr addr) m.line_listeners;
}

abbrev pub tell_hit : MergeParser → ℕ → ℕ → MergeParser
tell_hit m addr hits = record m {
  calls = m.calls ++ map (λ k. on_address_hit k addr hits) m.collector_listeners;
}

-- The hash of a line, 32 bits of the file name's and 32 of the line, less the top bit.
unfoldable pub hash_address : Env → Bytes → ℕ → ℕ
hash_address env filename line_nr = (env.hash_block filename + line_nr * 2 ^ 32) % 2 ^ 63

-- onAddress at a line's hash and at a file. A file that is gone is a fault (`none`).
abbrev pub hit_file : MergeParser → ℕ → ℕ → Option Bytes → Option MergeParser
hit_file m addr hits none = some m
hit_file m addr hits (some name) = do
  f ← find name m.files
  some (tell_hit (record m { files = insert name (register_hits f addr hits) m.files }) addr hits)

abbrev pub hit_hash : MergeParser → ℕ → ℕ → Option ℕ → Option MergeParser
hit_hash m addr hits none = some (record m { pending_hits = insert addr hits m.pending_hits })
hit_hash m addr hits (some h) = hit_file m h hits (find h m.files_by_address)

unfoldable pub on_address : MergeParser → ℕ → ℕ → Option MergeParser
on_address m addr hits = hit_hash m addr hits (find addr m.file_line_by_address)

-- The file of a name, a new one where there is none.
abbrev pub file_at : Env → Bytes → Option File → Option File
file_at env filename none = new_file env filename
file_at env filename (some f) = some f

abbrev pub flush_pending : MergeParser → ℕ → Option ℕ → Option MergeParser
flush_pending m addr none = some m
flush_pending m addr (some hits) = do
  m' ← on_address m addr hits
  some (record m' { pending_hits = remove addr m'.pending_hits })

-- onLineReporter behind its two guards: the line is kept, and the listeners are told.
unfoldable pub enter_line : MergeParser → File → Bytes → ℕ → ℕ → ℕ → MergeParser
enter_line m f filename line_nr addr h =
    tell_line
      (record m {
        files = insert filename (add_line (set_local f) line_nr h) m.files;
        files_by_address = insert h filename m.files_by_address;
        file_line_by_address = insert addr h m.file_line_by_address;
      })
      filename line_nr h

unfoldable pub report_line : Env → MergeParser → Bytes → ℕ → ℕ → Option MergeParser
report_line env m filename line_nr addr = do
  f ← file_at env filename (find filename m.files)
  let m' = enter_line m f filename line_nr addr (hash_address env filename line_nr)
  flush_pending m' addr (find addr m'.pending_hits)

unfoldable pub on_line_reporter : Env → MergeParser → Bytes → ℕ → ℕ → Option MergeParser
on_line_reporter env m filename line_nr addr =
    if env.run_filters filename
    then (if env.file_exists filename then report_line env m filename line_nr addr else some m)
    else some m
