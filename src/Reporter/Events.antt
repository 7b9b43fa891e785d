-- ===== src/Reporter/Events.antt =====
-- Any sequence of the events of src/reporter.cc: lines from the parser, hits from the collector,
-- files from the parser (the first of which reads the database).
use kcov.Prelude.{
  ℕ, zero, suc, ◌-◌, ◌/◌, ◌≤◌, ◌≡◌, refl, ◌∙◌, Bool, true, false, Option, none, some, List, [], ◌∷◌,
  Bytes, arith, eqb, Bool-cases, Option-cases, inl, inr, set, length, ltb, if◌then◌else◌, ◌>>=◌,
  number_key, name_key,
}
use mathlib.Core.Option
use kcov.Prelude.Table.{find}
use kcov.Filter.LineHandler.{LineHandler}
use kcov.Reporter.Line
use kcov.Reporter.Line.{Line, Entry}
use kcov.Reporter.Env.{Env, single_shot}
use kcov.Reporter.Heap.{Grows-set, register_hit_index-Same}
use kcov.Reporter.Valid.{Valid-Grows}
use kcov.Reporter.Hits.{IsValid, on_address_hit-IsValid}
use kcov.Reporter.Attach.{on_line-IsValid}
use kcov.Reporter.State.{Reporter, new_reporter, on_line, on_address_hit, report_address}
use kcov.Reporter.Database.{
  restore_by_id, restore_at, restore_entry, un_marshal_loop, un_marshal_header, un_marshal,
  read_database, on_file,
}

-- A step that does not fault and keeps the invariant.
abbrev Runs : Option Reporter → Type 0
Runs o = (r' : Reporter) × (o ≡ some r') × IsValid r'

restore_by_id-Runs :
    (env : Env) (e : Entry) (r : Reporter)
    → IsValid r
    → Runs (restore_by_id env e r (find e.file_hash r.line_id_to_line))
unfolding report_address
restore_by_id-Runs env e r v = elim (Option-cases (find e.file_hash r.line_id_to_line)) [
  | inl absent ↦ rw absent (_, refl, v)
  | inr (p, present) ↦
      let (l, at, id) = v.ids_live e.file_hash p present in
      let l' = Line.register_hit_index l e.index e.hits (single_shot env) in
      let same = register_hit_index-Same l e.index e.hits (single_shot env) in
      rw (present, at)
        (
          _,
          refl,
          Valid-Grows r.heap (set r.heap p l') (Grows-set r.heap p l l' at same) r.files
              r.addr_to_line r.line_id_to_line v,
        )
]

restore_at-Runs :
    (env : Env) (e : Entry) (r : Reporter)
    → IsValid r
    → Runs (restore_at env e r (find e.addr r.addr_to_line))
restore_at-Runs env e r v = elim (Option-cases (find e.addr r.addr_to_line)) [
  | inl absent ↦ rw absent (restore_by_id-Runs env e r v)
  | inr (ps, present) ↦
      let (r', run, v', k) = on_address_hit-IsValid env r e.addr e.hits v in
      rw present (r', run, v')
]

restore_entry-Runs :
    (env : Env) (e : Entry) (r : Reporter) → IsValid r → Runs (restore_entry env e r)
unfolding restore_entry
restore_entry-Runs env e r v = elim (Bool-cases (eqb e.hits 0)) [
  | inl zero_hits ↦ rw zero_hits (r, refl, v)
  | inr hit ↦ rw hit (restore_at-Runs env e r v)
]

un_marshal_loop-Runs :
    (env : Env) (n : ℕ) (p : Bytes) (r : Reporter) → IsValid r → Runs (un_marshal_loop env n p r)
unfolding un_marshal_loop
un_marshal_loop-Runs env zero p r v = (r, refl, v)
un_marshal_loop-Runs env (suc n) p r v =
    let (e, rest) = Line.un_marshal env.host p in
    let (r₁, run₁, v₁) = restore_entry-Runs env e r v in
    let (r₂, run₂, v₂) = un_marshal_loop-Runs env n rest r₁ v₁ in (r₂, rw run₁ run₂, v₂)

-- A database with a whole header, right or wrong, its entries sound or not, is read without a fault.
un_marshal-Runs :
    (env : Env) (data_ : Bytes) (r : Reporter)
    → 16 ≤ length data_
    → IsValid r
    → (r' : Reporter) × (b : Bool) × (un_marshal env data_ r ≡ some (r', b)) × IsValid r'
unfolding un_marshal
un_marshal-Runs env data_ r long v =
    let enough : ltb (length data_) 16 ≡ false = ground arith in
    elim (Option-cases (un_marshal_header env data_)) [
      | inl wrong ↦ (r, false, rw (enough, wrong), v)
      | inr (p, right) ↦
          let (r', run, v') = un_marshal_loop-Runs env ((length data_ - 16) / 32) p r v in
          (r', true, rw (enough, right, run), v')
    ]

-- What is assumed of the database file: where it is there, it has a whole header.
abbrev pub HasHeader : Env → Type 0
HasHeader env = (data_ : Bytes) → env.read_file env.db_file_name ≡ some data_ → 16 ≤ length data_

read_database-Runs :
    (env : Env) (r : Reporter) (o : Option Bytes)
    → ((data_ : Bytes) → o ≡ some data_ → 16 ≤ length data_)
    → IsValid r
    → Runs (read_database env r o)
read_database-Runs env r none whole v = (r, refl, v)
read_database-Runs env r (some data_) whole v =
    let (r', b, run, v') = un_marshal-Runs env data_ r (whole data_ refl) v in (r', rw run, v')

-- Whatever is read, the flag is set behind it.
finish-Runs :
    (o : Option Reporter)
    → Runs o
    → Runs (Option.map (λ (s : Reporter). record s { unmarshalling_done = true }) o)
finish-Runs o (r', run, v') = (record r' { unmarshalling_done = true }, rw run, v')

if-Runs : (b : Bool) (o o' : Option Reporter) → Runs o → Runs o' → Runs (if b then o else o')
if-Runs true o o' k k' = k
if-Runs false o o' k k' = k'

database-Runs :
    (env : Env) (r : Reporter)
    → HasHeader env
    → IsValid r
    → Runs
        (if env.clean_output then some r else read_database env r (env.read_file env.db_file_name))
database-Runs env r whole v =
    if-Runs env.clean_output _ _ (r, refl, v)
      (read_database-Runs env r (env.read_file env.db_file_name) whole v)

on_file_done : (env : Env) (r : Reporter) → r.unmarshalling_done ≡ true → on_file env r ≡ some r
unfolding on_file
on_file_done env r done = ground arith

on_file_first :
    (env : Env) (r : Reporter)
    → r.unmarshalling_done ≡ false
    → on_file env r
      ≡ Option.map
          (λ (s : Reporter). record s { unmarshalling_done = true })
          (if env.clean_output
            then some r
            else read_database env r (env.read_file env.db_file_name))
unfolding on_file
on_file_first env r first = ground arith

on_file-Runs : (env : Env) (r : Reporter) → HasHeader env → IsValid r → Runs (on_file env r)
on_file-Runs env r whole v = elim (Bool-cases r.unmarshalling_done) [
  | inl done ↦ (r, on_file_done env r done, v)
  | inr first ↦
      let (r', run, v') = finish-Runs _ (database-Runs env r whole v) in
      (r', on_file_first env r first ∙ run, v')
]

pub data Event : Type 0 where
  line_found : Bytes → ℕ → ℕ → Event
  address_hit : ℕ → ℕ → Event
  file_added : Event

unfoldable pub handle : Env → Event → Reporter → Option Reporter
handle env (line_found file nr addr) r = on_line env r file nr addr
handle env (address_hit addr hits) r = on_address_hit env r addr hits
handle env file_added r = on_file env r

unfoldable pub run_events : Env → List Event → Reporter → Option Reporter
run_events env [] r = some r
run_events env (e ∷ es) r = do r' ← handle env e r; run_events env es r'

handle-Runs :
    (env : Env) (e : Event) (r : Reporter) → HasHeader env → IsValid r → Runs (handle env e r)
unfolding handle
handle-Runs env (line_found file nr addr) r whole v = on_line-IsValid env r file nr addr v
handle-Runs env (address_hit addr hits) r whole v =
    let (r', run, v', k) = on_address_hit-IsValid env r addr hits v in (r', run, v')
handle-Runs env file_added r whole v = on_file-Runs env r whole v

run_events-Runs :
    (env : Env) (es : List Event) (r : Reporter)
    → HasHeader env
    → IsValid r
    → Runs (run_events env es r)
unfolding run_events
run_events-Runs env [] r whole v = (r, refl, v)
run_events-Runs env (e ∷ es) r whole v =
    let (r₁, run₁, v₁) = handle-Runs env e r whole v in
    let (r₂, run₂, v₂) = run_events-Runs env es r₁ whole v₁ in (r₂, rw run₁ run₂, v₂)

new_reporter-IsValid : (h : LineHandler) → IsValid (new_reporter h)
unfolding find
new_reporter-IsValid h = record {
  at_known = λ a ps e. cc;
  ids_live = λ id p e. cc;
  files_valid = tt;
}

-- From a new reporter, every sequence of lines, hits and files, in any order, is handled without a
-- dangling line and without an address that its line lacks, and ends in a valid state. The
-- database file, where there is one, is assumed to hold a whole header.
pub never_faults :
    (env : Env) (h : LineHandler) (es : List Event)
    → HasHeader env
    → (r : Reporter) × (run_events env es (new_reporter h) ≡ some r) × IsValid r
never_faults env h es whole = run_events-Runs env es (new_reporter h) whole (new_reporter-IsValid h)
