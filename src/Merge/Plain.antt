-- ===== src/Merge/Plain.antt =====
-- The numbers that a block of src/merge-file-parser.cc holds, and how they reach another host.
use kcov.Prelude.{
  ℕ, suc, ◌+◌, ◌*◌, ◌%◌, ◌^◌, ◌<◌, ◌≡◌, refl, ap, List, [], ◌∷◌, ◌++◌, map, arith, length, All,
  length-append, number_key, All-append,
}
use kcov.Prelude.Table.{Table}
use kcov.Endian.{Host, store, load, to_be, be_to_host, put_be, get_be}
use kcov.Endian.RoundTrip.{get_be-put_be}
use kcov.Merge.{AddrMap, File}
use kcov.Merge.Format.{
  LineEntry, FileData, merge_magic, merge_version, n_addrs, marshal_size, marshal_address,
  marshal_addresses, marshal_lines, table_start, name_start, map_first, un_marshal_entry,
}

-- An integer as another host finds it in the file.
abbrev pub move : Host → Host → ℕ → ℕ → ℕ
move host host' w u = load host' (store host w u)

abbrev pub move_entry : Host → Host → LineEntry → LineEntry
move_entry host host' p = record {
  line = move host host' 4 p.line;
  address_start = move host host' 4 p.address_start;
  n_addresses = move host host' 4 p.n_addresses;
}

-- A block that `host` has written to a file, as `host'` reads it.
abbrev pub transfer : Host → Host → FileData → FileData
transfer host host' fd = record {
  magic = move host host' 4 fd.magic;
  version = move host host' 4 fd.version;
  size = move host host' 4 fd.size;
  checksum = move host host' 4 fd.checksum;
  timestamp = move host host' 8 fd.timestamp;
  n_entries = move host host' 4 fd.n_entries;
  address_table_offset = move host host' 4 fd.address_table_offset;
  file_name_offset = move host host' 4 fd.file_name_offset;
  entries = map (move_entry host host') fd.entries;
  address_table = map (move host host' 8) fd.address_table;
  name = fd.name;
}

-- The numbers that a file's block holds, with no word about bytes.
abbrev pub plain_addresses : AddrMap → AddrMap → List ℕ
plain_addresses hits [] = []
plain_addresses hits ((addr, n) ∷ addrs) = marshal_address hits addr ∷ plain_addresses hits addrs

abbrev pub plain_table : AddrMap → Table ℕ AddrMap → List ℕ
plain_table hits [] = []
plain_table hits ((line, addrs) ∷ lines) = plain_addresses hits addrs ++ plain_table hits lines

abbrev pub plain_entries : ℕ → Table ℕ AddrMap → List LineEntry
plain_entries at [] = []
plain_entries at ((line, addrs) ∷ lines) =
    (record { line = line; address_start = at; n_addresses = length addrs })
    ∷ plain_entries (at + length addrs) lines

abbrev pub plain : File → FileData
plain f = record {
  magic = merge_magic;
  version = merge_version;
  size = marshal_size f;
  checksum = f.checksum;
  timestamp = f.file_timestamp;
  n_entries = length f.lines;
  address_table_offset = table_start f;
  file_name_offset = name_start f;
  entries = plain_entries 0 f.lines;
  address_table = plain_table f.addr_hits f.lines;
  name = f.filename;
}

-- The addresses of all lines.
abbrev pub total : Table ℕ AddrMap → ℕ
total [] = 0
total ((line, addrs) ∷ lines) = length addrs + total lines

abbrev pub AddressInRange : ℕ × ℕ → Type 0
AddressInRange entry = entry.0 < 2 ^ 64

abbrev pub LineInRange : ℕ × AddrMap → Type 0
LineInRange entry = (entry.0 < 2 ^ 32) × All AddressInRange entry.1

-- The fields fit their types, and the block's size, without a wrap, fits the field for it.
pub record InRange (f : File) : Type 0 where
  pub lines : All LineInRange f.lines
  pub checksum : f.checksum < 2 ^ 32
  pub timestamp : f.file_timestamp < 2 ^ 64
  pub size : 40 + length f.lines * 12 + total f.lines * 8 + length f.filename + 1 + 8 < 2 ^ 32

-- A field survives the way to another host.
pub move_field :
    (host host' : Host) (w v : ℕ)
    → v < 256 ^ w
    → be_to_host host' w (move host host' w (to_be host w v)) ≡ v
unfolding put_be get_be
move_field host host' w v h = get_be-put_be host host' w v h

pub n_addrs-total :
    (n : ℕ) (lines : Table ℕ AddrMap) → n + total lines < 2 ^ 32 → n_addrs n lines ≡ n + total lines
unfolding n_addrs
n_addrs-total n [] h = omega arith
n_addrs-total n ((line, addrs) ∷ lines) h =
    ground (arith, n_addrs-total ((n + length addrs) % 2 ^ 32) lines)

length-plain_addresses : (hits addrs : AddrMap) → length (plain_addresses hits addrs) ≡ length addrs
length-plain_addresses hits [] = refl
length-plain_addresses hits ((addr, n) ∷ addrs) = ap suc (length-plain_addresses hits addrs)

pub length-plain_table :
    (hits : AddrMap) (lines : Table ℕ AddrMap) → length (plain_table hits lines) ≡ total lines
length-plain_table hits [] = refl
length-plain_table hits ((line, addrs) ∷ lines) = omega (
  arith,
  length-append (plain_addresses hits addrs) (plain_table hits lines),
  length-plain_addresses hits addrs,
  length-plain_table hits lines,
)

abbrev pub be_entry : Host → LineEntry → LineEntry
be_entry host p = record {
  line = to_be host 4 p.line;
  address_start = to_be host 4 p.address_start;
  n_addresses = to_be host 4 p.n_addresses;
}

marshal_addresses-map :
    (host : Host) (hits addrs : AddrMap)
    → marshal_addresses host hits addrs ≡ map (to_be host 8) (plain_addresses hits addrs)
marshal_addresses-map host hits [] = refl
marshal_addresses-map host hits ((addr, n) ∷ addrs) =
    ap (◌∷◌ (to_be host 8 (marshal_address hits addr))) (marshal_addresses-map host hits addrs)

map-append : {A B : Type 0} (g : A → B) (xs ys : List A) → map g (xs ++ ys) ≡ map g xs ++ map g ys
map-append g [] ys = refl
map-append g (x ∷ xs) ys = ap (◌∷◌ (g x)) (map-append g xs ys)

pair_path : {A B : Type 0} {a a' : A} {b b' : B} → a ≡ a' → b ≡ b' → Path (A × B) (a, b) (a', b')
pair_path e e' = λ i. (e i, e' i)

pub marshal_lines-plain :
    (host : Host) (hits : AddrMap) (at : ℕ) (lines : Table ℕ AddrMap)
    → at + total lines < 2 ^ 32
    → marshal_lines host hits at lines
      ≡ (map (be_entry host) (plain_entries at lines), map (to_be host 8) (plain_table hits lines))
unfolding marshal_lines
marshal_lines-plain host hits at [] h = refl
marshal_lines-plain host hits at ((line, addrs) ∷ lines) h =
    let next : (at + length addrs) % 2 ^ 32 ≡ at + length addrs = omega arith in
    let fits : length addrs % 2 ^ 32 ≡ length addrs = omega arith in
    let rest = marshal_lines-plain host hits (at + length addrs) lines (omega arith) in
    rw
      (
        next,
        rest,
        fits,
        marshal_addresses-map host hits addrs,
        map-append (to_be host 8) (plain_addresses hits addrs) (plain_table hits lines),
      )
      refl

pub map_first-map :
    {A : Type 0} (g h k : A → A) (xs : List A)
    → All (λ x. g (h (k x)) ≡ x) xs
    → map_first g (length xs) (map h (map k xs)) ≡ xs
map_first-map g h k [] all = refl
map_first-map g h k (x ∷ xs) all = rw (all.0, map_first-map g h k xs all.1) refl

addresses-Arrive :
    (host host' : Host) (hits addrs : AddrMap)
    → All AddressInRange addrs
    → All
        (λ v. be_to_host host' 8 (move host host' 8 (to_be host 8 v)) ≡ v)
        (plain_addresses hits addrs)
addresses-Arrive host host' hits [] h = tt
addresses-Arrive host host' hits ((addr, n) ∷ addrs) h = (
  move_field host host' 8 (marshal_address hits addr) (ground (arith, h.0)),
  addresses-Arrive host host' hits addrs h.1,
)

pub table-Arrives :
    (host host' : Host) (hits : AddrMap) (lines : Table ℕ AddrMap)
    → All LineInRange lines
    → All
        (λ v. be_to_host host' 8 (move host host' 8 (to_be host 8 v)) ≡ v)
        (plain_table hits lines)
table-Arrives host host' hits [] h = tt
table-Arrives host host' hits ((line, addrs) ∷ lines) h =
    All-append _ (plain_addresses hits addrs) (plain_table hits lines)
      (addresses-Arrive host host' hits addrs h.0.1) (table-Arrives host host' hits lines h.1)

pub entries-Arrive :
    (host host' : Host) (at : ℕ) (lines : Table ℕ AddrMap)
    → All LineInRange lines
    → at + total lines < 2 ^ 32
    → All
        (λ p. un_marshal_entry host' (move_entry host host' (be_entry host p)) ≡ p)
        (plain_entries at lines)
entries-Arrive host host' at [] h small = tt
entries-Arrive host host' at ((line, addrs) ∷ lines) h small = (
  λ i. record {
    line = move_field host host' 4 line (ground (arith, h.0.0)) i;
    address_start = move_field host host' 4 at (omega arith) i;
    n_addresses = move_field host host' 4 (length addrs) (omega arith) i;
  },
  entries-Arrive host host' (at + length addrs) lines h.1 (omega arith),
)

pub length-plain_entries :
    (at : ℕ) (lines : Table ℕ AddrMap) → length (plain_entries at lines) ≡ length lines
length-plain_entries at [] = refl
length-plain_entries at ((line, addrs) ∷ lines) =
    ap suc (length-plain_entries (at + length addrs) lines)
