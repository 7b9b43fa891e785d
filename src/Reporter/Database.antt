-- ===== src/Reporter/Database.antt =====
-- The coverage database of Reporter in src/reporter.cc: marshal, unMarshal, onFile and
-- writeCoverageDatabase.
use mathlib.Core.Option
use kcov.Prelude.{
  ℕ, zero, suc, ◌+◌, ◌-◌, ◌*◌, ◌/◌, Bool, true, false, not, Option, none, some, List, [], ◌∷◌, ◌++◌,
  Bytes, eqb, ltb, if◌then◌else◌, length, get_elem?, set, replicate, take, drop, ◌>>=◌, number_key,
}
use kcov.Prelude.Table.{Table, find, insert, find_or}
use kcov.Endian.{put_be, get_be}
use kcov.Reporter.Line
use kcov.Reporter.Line.{Entry}
use kcov.Reporter.File
use kcov.Reporter.File.{File, Heap}
use kcov.Reporter.Env.{Env, single_shot}
use kcov.Reporter.State.{Reporter, report_address, on_address_hit}

abbrev pub kcov_magic : ℕ
kcov_magic = 0x6b636f76

abbrev pub kcov_db_version : ℕ
kcov_db_version = 6

abbrev pub get_marshal_entry_size : ℕ
get_marshal_entry_size = 4 * 8

-- sizeof(struct marshalHeaderStruct)
abbrev pub header_size : ℕ
header_size = 16

unfoldable pub sum_sizes : Heap → Table Bytes File → ℕ
sum_sizes heap [] = 0
sum_sizes heap ((name, f) ∷ files) = File.marshal_size_lines heap f.lines + sum_sizes heap files

unfoldable pub get_marshal_size : Reporter → ℕ
get_marshal_size r = sum_sizes r.heap r.files * get_marshal_entry_size + header_size

unfoldable pub marshal_header : Env → Bytes
marshal_header env =
    put_be env.host 4 kcov_magic
    ++ (put_be env.host 4 kcov_db_version ++ put_be env.host 8 env.checksum)

unfoldable pub marshal_files : Env → Heap → Table Bytes File → Bytes
marshal_files env heap [] = []
marshal_files env heap ((name, f) ∷ files) =
    File.marshal_lines env.host heap f.lines ++ marshal_files env heap files

-- A block of getMarshalSize() zero bytes, written over from its start.
unfoldable pub marshal : Env → Reporter → Bytes
marshal env r =
    let written = marshal_header env ++ marshal_files env r.heap r.files in
    written ++ replicate (get_marshal_size r - length written) 0

-- The header, if it is right, and what is behind it.
unfoldable pub un_marshal_header : Env → Bytes → Option Bytes
un_marshal_header env p =
    if not (eqb (get_be env.host 4 (take 4 p)) kcov_magic)
    then none
    else if not (eqb (get_be env.host 4 (take 4 (drop 4 p))) kcov_db_version)
    then none
    else if not (eqb (get_be env.host 8 (take 8 (drop 8 p))) env.checksum)
    then none
    else some (drop header_size p)

-- An entry at an address that no line has: added to the hits of its line by its index, if the
-- line's id is known, and kept for later if not.
abbrev pub restore_by_id : Env → Entry → Reporter → Option ℕ → Option Reporter
restore_by_id env e r none = some (record r {
  pending_files =
      insert e.file_hash
        (find_or [] e.file_hash r.pending_files ++ (record { index = e.index; hits = e.hits } ∷ []))
        r.pending_files;
})
restore_by_id env e r (some p) = do
  let r₁ = report_address r e.file_hash e.hits
  l ← get_elem? r₁.heap p
  some (record r₁ {
    heap = set r₁.heap p (Line.register_hit_index l e.index e.hits (single_shot env));
  })

abbrev pub restore_at : Env → Entry → Reporter → Option (List ℕ) → Option Reporter
restore_at env e r none = restore_by_id env e r (find e.file_hash r.line_id_to_line)
restore_at env e r (some lines) = on_address_hit env r e.addr e.hits

-- One round of the loop of unMarshal.
unfoldable pub restore_entry : Env → Entry → Reporter → Option Reporter
restore_entry env e r =
    if eqb e.hits 0 then some r else restore_at env e r (find e.addr r.addr_to_line)

unfoldable pub un_marshal_loop : Env → ℕ → Bytes → Reporter → Option Reporter
un_marshal_loop env zero p r = some r
un_marshal_loop env (suc n) p r = do
  let (e, rest) = Line.un_marshal env.host p
  r' ← restore_entry env e r
  un_marshal_loop env n rest r'

abbrev un_marshal_entries : Env → ℕ → Reporter → Option Bytes → Option (Reporter × Bool)
un_marshal_entries env sz r none = some (r, false)
un_marshal_entries env sz r (some p) = do
  r' ← un_marshal_loop env ((sz - header_size) / get_marshal_entry_size) p r
  some (r', true)

-- A block that is shorter than the header is a fault: the source reads past its end.
unfoldable pub un_marshal : Env → Bytes → Reporter → Option (Reporter × Bool)
un_marshal env data_ r =
    if ltb (length data_) header_size
    then none
    else un_marshal_entries env (length data_) r (un_marshal_header env data_)

abbrev pub read_database : Env → Reporter → Option Bytes → Option Reporter
read_database env r none = some r
read_database env r (some data_) =
    Option.map (λ (s : Reporter × Bool). s.0) (un_marshal env data_ r)

unfoldable pub on_file : Env → Reporter → Option Reporter
on_file env r =
    if r.unmarshalling_done
    then some r
    else Option.map (λ (s : Reporter). record s { unmarshalling_done = true })
        (if env.clean_output then some r else read_database env r (env.read_file env.db_file_name))

-- The file that is written, and its content.
unfoldable pub write_coverage_database : Env → Reporter → Bytes × Bytes
write_coverage_database env r = (env.db_file_name, marshal env r)
