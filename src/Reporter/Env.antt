-- ===== src/Reporter/Env.antt =====
-- What the Reporter of src/reporter.cc is given: the file parser's answers, the filter, the
-- configuration, the source file cache, and hashes of libraries (zlib's crc32 behind hash_block,
-- std::hash of a string).
use kcov.Prelude.{ℕ, Bool, true, false, not, Option, List, Bytes}
use kcov.Endian.{Host}

-- IFileParser::PossibleHits
pub data PossibleHits : Type 0 where
  hits_single hits_limited hits_unlimited : PossibleHits

pub record Env : Type 0 where
  pub host : Host
  pub run_filters : Bytes → Bool
  pub get_lines : Bytes → List Bytes
  pub read_file : Bytes → Option Bytes
  pub file_exists : Bytes → Bool
  pub hash_block : Bytes → ℕ
  pub string_hash : Bytes → ℕ
  pub hash_filename : Bool
  pub checksum : ℕ
  pub max_possible_hits : PossibleHits
  pub clean_output : Bool
  pub db_file_name : Bytes

abbrev is_unlimited : PossibleHits → Bool
is_unlimited hits_unlimited = true
is_unlimited _ = false

-- m_maxPossibleHits != IFileParser::HITS_UNLIMITED
abbrev pub single_shot : Env → Bool
single_shot env = not (is_unlimited env.max_possible_hits)
