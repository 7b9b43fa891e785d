-- ===== src/Script/Addresses.antt =====
-- The lines that a script engine of src/engines/script-engine-base.hh has told its listeners, and
-- the addresses that its events have.
use kcov.Prelude.{
  ℕ, ◌+◌, ◌≡◌, refl, ◌∙◌, sym, ap, ◌⊎◌, inl, inr, false, none, some, List, [], ◌∷◌, ◌++◌, length,
  Bytes, arith, eqb, Bool-cases, Option-cases, number_key, name_key, All, Among, Among-append_left,
  Among-append_end, Among-end,
}
use kcov.Prelude.Table.{Table, find, insert, find_or, find-insert, find-insert_self}
use kcov.Collector.{EventType, Event}
use kcov.Script.{
  Env, Call, on_line, on_file, Script, new_script, get_line_id, line_address, report_event,
  add_found, file_line_found, lines_found, mark_reported, report_file, line_event,
}

-- The listeners have been told a line with this address.
abbrev pub Told : ℕ → Script → Type 0
Told a s = (path : Bytes) × (n : ℕ) × Among (on_line path n a) s.calls

-- How many lines the listeners have been told.
abbrev pub lines_told : List Call → ℕ
lines_told [] = 0
lines_told (on_line path n a ∷ calls) = 1 + lines_told calls
lines_told (on_file path ∷ calls) = lines_told calls

lines_told_end :
    (calls : List Call) (c : Call)
    → lines_told (calls ++ c ∷ []) ≡ lines_told calls + lines_told (c ∷ [])
lines_told_end [] c = omega arith
lines_told_end (on_line path n a ∷ calls) c = omega (arith, lines_told_end calls c)
lines_told_end (on_file path ∷ calls) c = omega (arith, lines_told_end calls c)

-- How many lines are known.
abbrev pub lines_known : Table ℕ ℕ → ℕ
lines_known m = length m

length-insert_new :
    (k v : ℕ) (m : Table ℕ ℕ) → find k m ≡ none → lines_known (insert k v m) ≡ lines_known m + 1
unfolding insert find
length-insert_new k v [] absent = omega arith
length-insert_new k v ((j, w) ∷ m) absent = elim (Bool-cases (eqb j k)) [
  | inl same ↦ ground arith
  | inr other ↦ ground (arith, length-insert_new k v m (ground arith))
]

-- As many lines have been told as are known.
abbrev pub AsManyTold : Script → Type 0
AsManyTold s = lines_told s.calls ≡ lines_known s.line_id_to_address

-- Every known address has been told, and what has been told is known.
pub record Agrees (env : Env) (s : Script) : Type 0 where
  pub known_told : (id a : ℕ) → find id s.line_id_to_address ≡ some a → Told a s
  pub told_known :
      (path : Bytes) (n a : ℕ)
      → Among (on_line path n a) s.calls
      → (f : Bytes) × (env.get_real_path f ≡ path)
        × (find (get_line_id env f n) s.line_id_to_address ≡ some a)

-- From one state to a later one: known addresses stay, and so does the listener.
pub record Later (env : Env) (s s' : Script) : Type 0 where
  pub agrees : Agrees env s'
  pub kept :
      (id a : ℕ) → find id s.line_id_to_address ≡ some a → find id s'.line_id_to_address ≡ some a
  pub listener : s'.has_listener ≡ s.has_listener
  pub once : AsManyTold s → AsManyTold s'

pub Later-same : (env : Env) (s : Script) → Agrees env s → Later env s s
Later-same env s g = record { agrees = g; kept = λ id a e. e; listener = refl; once = λ h. h }

pub Later-then : (env : Env) (s t u : Script) → Later env s t → Later env t u → Later env s u
Later-then env s t u l k = record {
  agrees = k.agrees;
  kept = λ id a e. k.kept id a (l.kept id a e);
  listener = k.listener ∙ l.listener;
  once = λ h. k.once (l.once h);
}

insert_new :
    (k j v w : ℕ) (m : Table ℕ ℕ)
    → find k m ≡ none
    → find j m ≡ some w
    → find j (insert k v m) ≡ some w
insert_new k j v w m absent there = elim (Bool-cases (eqb k j)) [
  | inl same ↦
      let is : k ≡ j = ground arith in
      let no_such : none ≡ some w = sym absent ∙ ap (λ i. find i m) is ∙ there in cc
  | inr other ↦ ground (arith, find-insert k j v m)
]

add_found-Later :
    (env : Env) (crc : ℕ) (filename : Bytes) (n : ℕ) (s : Script)
    → Agrees env s
    → find (get_line_id env filename n) s.line_id_to_address ≡ none
    → Later env s (add_found env crc filename n s none)
add_found-Later env crc filename n s g absent =
    let id = get_line_id env filename n in
    let a = line_address crc n in
    let table = s.line_id_to_address in
    record {
      agrees = record {
        known_told = λ j b e. elim (Bool-cases (eqb id j)) [
          | inl same ↦
              let is : a ≡ b = ground (arith, find-insert id j a table) in
              (
                env.get_real_path filename,
                n,
                rw (← is) (Among-append_end (on_line (env.get_real_path filename) n a) s.calls),
              )
          | inr other ↦
              let before : find j table ≡ some b = ground (arith, find-insert id j a table) in
              let (path, m, among) = g.known_told j b before in
              (path, m, Among-append_left (on_line path m b) s.calls _ among)
        ];
        told_known = λ path m b among.
            elim (Among-end (on_line path m b) (on_line (env.get_real_path filename) n a) s.calls
              among) [
                | inl before ↦
                    let (f, is, there) = g.told_known path m b before in
                    (f, is, insert_new id (get_line_id env f m) a b table absent there)
                | inr last ↦
                    let path_is : env.get_real_path filename ≡ path = ground arith in
                    let n_is : n ≡ m = ground arith in
                    let a_is : a ≡ b = ground arith in
                    (
                      filename,
                      path_is,
                      ap (λ k. find (get_line_id env filename k) (insert id a table)) (sym n_is)
                          ∙ find-insert_self id a table
                          ∙ ap some a_is,
                    )
              ];
      };
      kept = λ j b e. insert_new id j a b table absent e;
      listener = refl;
      once = λ h. omega (
        arith,
        lines_told_end s.calls (on_line (env.get_real_path filename) n a),
        length-insert_new id a table absent,
        h,
      );
    }

file_line_found-Later :
    (env : Env) (crc : ℕ) (filename : Bytes) (s : Script) (n : ℕ)
    → Agrees env s
    → Later env s (file_line_found env crc filename s n)
unfolding file_line_found
file_line_found-Later env crc filename s n g =
    elim (Option-cases (find (get_line_id env filename n) s.line_id_to_address)) [
      | inl absent ↦ rw absent (add_found-Later env crc filename n s g absent)
      | inr (a, there) ↦ rw there (Later-same env s g)
    ]

pub lines_found-Later :
    (env : Env) (crc : ℕ) (filename : Bytes) (s : Script) (ns : List ℕ)
    → Agrees env s
    → Later env s (lines_found env crc filename s ns)
unfolding lines_found
lines_found-Later env crc filename s [] g = Later-same env s g
lines_found-Later env crc filename s (n ∷ ns) g =
    let one = file_line_found-Later env crc filename s n g in
    Later-then env s (file_line_found env crc filename s n) _ one
      (lines_found-Later env crc filename (file_line_found env crc filename s n) ns one.agrees)

mark_reported-Later :
    (env : Env) (filename : Bytes) (s : Script)
    → Agrees env s
    → Later env s (mark_reported filename s)
mark_reported-Later env filename s g = record {
  agrees = record {
    known_told = λ id a e.
        let (path, n, among) = g.known_told id a e in
        (path, n, Among-append_left (on_line path n a) s.calls _ among);
    told_known = λ path n a among.
        elim (Among-end (on_line path n a) (on_file filename) s.calls among) [
          | inl before ↦ g.told_known path n a before
          | inr last ↦ cc
        ];
  };
  kept = λ id a e. e;
  listener = refl;
  once = λ h. omega (arith, lines_told_end s.calls (on_file filename), h);
}

-- A parse of a file that keeps the agreement.
abbrev pub Keeps : Env → (Bytes → Script → Script) → Type 0
Keeps env parse_file =
    (filename : Bytes) (s : Script) → Agrees env s → Later env s (parse_file filename s)

pub report_file-Later :
    (env : Env) (parse_file : Bytes → Script → Script) (filename : Bytes) (s : Script)
    → Keeps env parse_file
    → Agrees env s
    → Later env s (report_file parse_file filename s)
unfolding report_file
report_file-Later env parse_file filename s keeps g =
    elim (Bool-cases (find_or false filename s.reported_files)) [
      | inl before ↦ rw before (Later-same env s g)
      | inr first ↦
          let marked = mark_reported-Later env filename s g in
          rw first (
            Later-then env s (mark_reported filename s) _ marked
              (keeps filename (mark_reported filename s) marked.agrees))
    ]

-- An event at no address, or at one whose line has been told.
abbrev pub IsKnown : Script → Event → Type 0
IsKnown s e = (e.addr ≡ 0) ⊎ Told e.addr s

pub report_event-All :
    (P : Event → Type 0) (s : Script) (t : EventType) (d a : ℕ)
    → P (record { type_ = t; data_ = d; addr = a })
    → All P (report_event s t d a)
unfolding report_event
report_event-All P s t d a h = elim (Bool-cases s.has_listener) [
  | inl listens ↦ rw listens (h, tt)
  | inr silent ↦ rw silent tt
]

pub line_event-IsKnown :
    (env : Env) (s : Script) (filename : Bytes) (n : ℕ)
    → Agrees env s
    → All (IsKnown s) (line_event env s filename n)
unfolding line_event
line_event-IsKnown env s filename n g =
    elim (Option-cases (find (get_line_id env filename n) s.line_id_to_address)) [
      | inl absent ↦
          rw absent (report_event-All (IsKnown s) s kcov.Collector.ev_breakpoint 1 0 (inl refl))
      | inr (a, there) ↦ rw there (
          report_event-All (IsKnown s) s kcov.Collector.ev_breakpoint 1 a
            (inr (g.known_told (get_line_id env filename n) a there)))
    ]

pub new_script-Agrees : (env : Env) → Agrees env new_script
unfolding find
new_script-Agrees env = record {
  known_told = λ id a e. cc;
  told_known = λ path n a among. absurd among;
}
