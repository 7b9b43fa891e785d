-- ===== src/Merge/RoundTrip.antt =====
-- marshalFile and unMarshalFile of src/merge-file-parser.cc, on hosts of any byte order.
use kcov.Prelude.{
  suc, ◌+◌, ◌*◌, ◌%◌, ◌^◌, ◌≤◌, ◌<◌, ◌≡◌, refl, ap, List, [], ◌∷◌, map, arith, length, number_key,
}
use kcov.Endian.{Host, to_be}
use kcov.Merge.{File}
use kcov.Merge.Format.{FileData, marshal_size, table_start, name_start, marshal_file, table_length}
use kcov.Merge.Plain.{
  move, move_entry, plain_table, plain_entries, plain, total, n_addrs-total, length-plain_table,
  be_entry, marshal_lines-plain,
}

-- The block behind the conversion of its header.
abbrev arrived : Host → Host → File → FileData
arrived host host' f = record (plain f) {
  entries = map (move_entry host host') (map (be_entry host) (plain_entries 0 f.lines));
  address_table = map (move host host' 8) (map (to_be host 8) (plain_table f.addr_hits f.lines));
}

-- Sizes of the layout of a block that is in range.
record Layout (f : File) : Type 0 where
  size : marshal_size f % 2 ^ 32 ≡ marshal_size f
  entries : length f.lines % 2 ^ 32 ≡ length f.lines
  start : table_start f % 2 ^ 32 ≡ table_start f
  name : name_start f % 2 ^ 32 ≡ name_start f
  table : table_length (plain f) ≡ total f.lines
  small : marshal_size f < 2 ^ 32
  entries_small : length f.lines < 2 ^ 32
  start_small : table_start f < 2 ^ 32
  name_small : name_start f < 2 ^ 32

pub table_start-bounds :
    (f : File)
    → (36 + length f.lines * 12 ≤ table_start f)
      × (table_start f ≤ 36 + length f.lines * 12 + 7)
      × (table_start f % 8 ≡ 0)
unfolding table_start
table_start-bounds f = (ground arith, ground arith, ground arith)

length-map : {A B : Type 0} (g : A → B) (xs : List A) → length (map g xs) ≡ length xs
length-map g [] = refl
length-map g (x ∷ xs) = ap suc (length-map g xs)

-- In the block that marshalFile allocates, the entries end before the address table begins, which
-- is aligned to 8 bytes and ends before the name, and the name with its terminator ends within
-- the block. The number of addresses is assumed to fit its 32 bits.
pub marshal_file_fits :
    (host : Host) (f : File)
    → total f.lines < 2 ^ 32
    → (36 + length f.lines * 12 ≤ table_start f)
      × (table_start f % 8 ≡ 0)
      × (table_start f + length (marshal_file host f).address_table * 8 ≤ name_start f)
      × (name_start f + length f.filename + 1 ≤ marshal_size f)
unfolding marshal_file name_start marshal_size
marshal_file_fits host f small =
    let (low, high, aligned) = table_start-bounds f in
    let sum = n_addrs-total 0 f.lines (omega (arith, small)) in
    let table = marshal_lines-plain host f.addr_hits 0 f.lines (omega (arith, small)) in
    let mapped = length-map (to_be host 8) (plain_table f.addr_hits f.lines) in
    let long = length-plain_table f.addr_hits f.lines in
    (low, aligned, rw (table, mapped, long, sum) (omega arith), omega (arith, high))
