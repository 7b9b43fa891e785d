-- ===== src/Merge/Format.antt =====
-- The stored form of a file in src/merge-file-parser.cc: struct file_data, marshalFile,
-- unMarshalFile and parseFileData. A block is taken by its fields, as the host's integers hold
-- them, with the parts that its two offsets lead to: the address table and the name.
use kcov.Prelude.{
  ℕ, zero, suc, ◌+◌, ◌-◌, ◌*◌, ◌/◌, ◌%◌, ◌^◌, Bool, true, false, not, ◌||◌, Option, none, some,
  List, [], ◌∷◌, ◌++◌, Bytes, eqb, leb, if◌then◌else◌, length, get_elem?, number_key, name_key,
  ◌>>=◌,
}
use kcov.Prelude.Table.{Table, find, insert, find_or}
use kcov.Endian.{Host, to_be, be_to_host}
use kcov.Merge.{
  Env, AddrMap, File, MergeParser, new_file, add_line, register_hits, tell_line, tell_hit,
}

pub record LineEntry : Type 0 where
  pub line : ℕ
  pub address_start : ℕ
  pub n_addresses : ℕ

pub record FileData : Type 0 where
  pub magic : ℕ
  pub version : ℕ
  pub size : ℕ
  pub checksum : ℕ
  pub timestamp : ℕ
  pub n_entries : ℕ
  pub address_table_offset : ℕ
  pub file_name_offset : ℕ
  pub entries : List LineEntry
  pub address_table : List ℕ
  pub name : Bytes

abbrev pub merge_magic : ℕ
merge_magic = 0x4d6f6172

abbrev pub merge_version : ℕ
merge_version = 4

-- n_addrs, the number of addresses in 32 bits.
unfoldable pub n_addrs : ℕ → Table ℕ AddrMap → ℕ
n_addrs n [] = n
n_addrs n ((line, addrs) ∷ lines) = n_addrs ((n + length addrs) % 2 ^ 32) lines

-- sizeof(struct file_data) is 40, sizeof(struct line_entry) 12.
unfoldable pub marshal_size : File → ℕ
marshal_size f = 40 + length f.lines * 12 + n_addrs 0 f.lines * 8 + length f.filename + 1 + 8

-- An address with the hit bit, bit 63, if it has hits.
abbrev pub marshal_address : AddrMap → ℕ → ℕ
marshal_address hits addr = if eqb (find_or 0 addr hits) 0 then addr else addr % 2 ^ 63 + 2 ^ 63

abbrev pub marshal_addresses : Host → AddrMap → AddrMap → List ℕ
marshal_addresses host hits [] = []
marshal_addresses host hits ((addr, n) ∷ addrs) =
    to_be host 8 (marshal_address hits addr) ∷ marshal_addresses host hits addrs

-- The loop over the lines: the entries and the address table.
unfoldable pub marshal_lines : Host → AddrMap → ℕ → Table ℕ AddrMap → List LineEntry × List ℕ
marshal_lines host hits table_offset [] = ([], [])
marshal_lines host hits table_offset ((line, addrs) ∷ lines) =
    let (entries, table) = marshal_lines host hits ((table_offset + length addrs) % 2 ^ 32) lines in
    (
      (record {
        line = to_be host 4 line;
        address_start = to_be host 4 table_offset;
        n_addresses = to_be host 4 (length addrs % 2 ^ 32);
      })
          ∷ entries,
      marshal_addresses host hits addrs ++ table,
    )

-- The entries are at offset 36, and the block is aligned: where the table begins.
unfoldable pub table_start : File → ℕ
table_start f =
    let at = 36 + length f.lines * 12 in
    let over = at % 8 in if eqb over 0 then at else at + (8 - over)

unfoldable pub name_start : File → ℕ
name_start f = table_start f + n_addrs 0 f.lines * 8

unfoldable pub marshal_file : Host → File → FileData
marshal_file host f =
    let (entries, table) = marshal_lines host f.addr_hits 0 f.lines in
    record {
      magic = to_be host 4 merge_magic;
      version = to_be host 4 merge_version;
      size = to_be host 4 (marshal_size f % 2 ^ 32);
      checksum = to_be host 4 f.checksum;
      timestamp = to_be host 8 f.file_timestamp;
      n_entries = to_be host 4 (length f.lines % 2 ^ 32);
      address_table_offset = to_be host 4 (table_start f % 2 ^ 32);
      file_name_offset = to_be host 4 (name_start f % 2 ^ 32);
      entries = entries;
      address_table = table;
      name = f.filename;
    }

-- A loop that changes the first `n` elements in place.
abbrev pub map_first : {A : Type 0} → (A → A) → ℕ → List A → List A
map_first g zero xs = xs
map_first g (suc n) [] = []
map_first g (suc n) (x ∷ xs) = g x ∷ map_first g n xs

abbrev pub un_marshal_entry : Host → LineEntry → LineEntry
un_marshal_entry host p = record {
  line = be_to_host host 4 p.line;
  address_start = be_to_host host 4 p.address_start;
  n_addresses = be_to_host host 4 p.n_addresses;
}

-- The header is converted first, and then decides. `none` is the result false.
unfoldable pub un_marshal_header : Host → FileData → FileData
un_marshal_header host fd = record fd {
  magic = be_to_host host 4 fd.magic;
  version = be_to_host host 4 fd.version;
  checksum = be_to_host host 4 fd.checksum;
  timestamp = be_to_host host 8 fd.timestamp;
  size = be_to_host host 4 fd.size;
  n_entries = be_to_host host 4 fd.n_entries;
  file_name_offset = be_to_host host 4 fd.file_name_offset;
  address_table_offset = be_to_host host 4 fd.address_table_offset;
}

-- The number of addresses: a difference in 32 bits, by the size of one.
abbrev pub table_length : FileData → ℕ
table_length fd = (fd.file_name_offset + 2 ^ 32 - fd.address_table_offset) % 2 ^ 32 / 8

unfoldable pub un_marshal_file : Host → FileData → Option FileData
un_marshal_file host stored =
    let fd = un_marshal_header host stored in
    if not (eqb fd.magic merge_magic) || not (eqb fd.version merge_version)
    then none
    else some (record fd {
      entries = map_first (un_marshal_entry host) fd.n_entries fd.entries;
      address_table = map_first (be_to_host host 8) (table_length fd) fd.address_table;
    })

-- One address of a line: bit 63 tells of a hit. A missing file is a fault (`none`).
abbrev pub parse_hit : MergeParser → File → Bytes → ℕ → Bool → MergeParser
parse_hit m f filename addr false = m
parse_hit m f filename addr true =
    tell_hit (record m { files = insert filename (register_hits f addr 1) m.files }) addr 1

unfoldable pub parse_address : MergeParser → Bytes → ℕ → ℕ → Option MergeParser
parse_address m filename line_nr stored = do
  f ← find filename m.files
  let addr = stored % 2 ^ 63
  let f' = add_line f line_nr addr
  let m' = tell_line (record m { files = insert filename f' m.files }) filename line_nr addr
  some (parse_hit m' f' filename addr (leb (2 ^ 63) stored))

-- The loop over the addresses of an entry, `n` of them from the index `at` on; an index behind the
-- table is a fault.
unfoldable pub parse_addresses : List ℕ → Bytes → ℕ → ℕ → ℕ → MergeParser → Option MergeParser
parse_addresses table filename line_nr zero at m = some m
parse_addresses table filename line_nr (suc n) at m = do
  stored ← get_elem? table at
  m' ← parse_address m filename line_nr stored
  parse_addresses table filename line_nr n ((at + 1) % 2 ^ 32) m'

unfoldable pub parse_entries :
    FileData → Bytes → ℕ → List LineEntry → MergeParser → Option MergeParser
parse_entries fd filename zero entries m = some m
parse_entries fd filename (suc n) [] m = none
parse_entries fd filename (suc n) (p ∷ ps) m = do
  m' ← parse_addresses fd.address_table filename p.line p.n_addresses p.address_start m
  parse_entries fd filename n ps m'

abbrev pub parse_into : Env → MergeParser → FileData → Bytes → Option File → Option MergeParser
parse_into env m fd filename none = do
  f ← new_file env filename
  parse_entries fd filename fd.n_entries fd.entries (record m { files = insert filename f m.files })
parse_into env m fd filename (some f) =
    if eqb f.checksum fd.checksum
    then parse_entries fd filename fd.n_entries fd.entries m
    else some m

unfoldable pub parse_file_data : Env → MergeParser → FileData → Option MergeParser
parse_file_data env m fd =
    let filename = env.mangle_source_path fd.name in
    if env.file_exists filename
    then parse_into env m fd filename (find filename m.files)
    else some m
