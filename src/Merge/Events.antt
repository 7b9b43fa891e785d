-- ===== src/Merge/Events.antt =====
-- Any sequence of the reporter's calls of MergeParser in src/merge-file-parser.cc.
use kcov.Prelude.{
  ℕ, ◌≡◌, refl, true, Option, none, some, List, [], ◌∷◌, Bytes, Bool-cases, inl, inr, number_key,
  name_key, ◌>>=◌, bind_to,
}
use kcov.Prelude.Table.{find}
use kcov.Merge.{
  Env, File, MergeParser, new_merge_parser, new_file, hash_address, on_address, file_at, enter_line,
  report_line, on_line_reporter,
}
use kcov.Merge.Safe.{
  IsValid, WaitingBut, on_address-IsValid, enter_line-Linked, entered-Waiting, entered_known,
  flush_pending-IsValid,
}

-- A file that is there can be read.
abbrev pub Readable : Env → Type 0
Readable env =
    (name : Bytes)
    → env.file_exists name ≡ true
    → (content : Bytes) × (env.read_file name ≡ some content)

abbrev Runs : Option MergeParser → Type 0
Runs o = (m : MergeParser) × (o ≡ some m) × IsValid m

file_at-some :
    (env : Env) (name : Bytes) (o : Option File)
    → (content : Bytes) × (env.read_file name ≡ some content)
    → (f : File) × (file_at env name o ≡ some f)
unfolding new_file
file_at-some env name none (content, read) = (_, bind_to _ read refl)
file_at-some env name (some f) readable = (f, refl)

report_line-Runs :
    (env : Env) (m : MergeParser) (filename : Bytes) (line_nr addr : ℕ)
    → (content : Bytes) × (env.read_file filename ≡ some content)
    → IsValid m
    → Runs (report_line env m filename line_nr addr)
unfolding report_line WaitingBut
report_line-Runs env m filename line_nr addr readable v =
    let (f, there) = file_at-some env filename (find filename m.files) readable in
    let h = hash_address env filename line_nr in
    let (m', run, v') =
      flush_pending-IsValid (enter_line m f filename line_nr addr h) addr h
        (enter_line-Linked m f filename line_nr addr h v.linked)
        (λ j n other e. entered-Waiting m f filename line_nr addr h j n v.waiting other e)
        (entered_known m f filename line_nr addr h) in
    (m', bind_to _ there run, v')

on_line_reporter-Runs :
    (env : Env) (m : MergeParser) (filename : Bytes) (line_nr addr : ℕ)
    → Readable env
    → IsValid m
    → Runs (on_line_reporter env m filename line_nr addr)
unfolding on_line_reporter
on_line_reporter-Runs env m filename line_nr addr readable v =
    elim (Bool-cases (env.run_filters filename)) [
      | inl kept ↦ elim (Bool-cases (env.file_exists filename)) [
        | inl there ↦
            let (m', run, v') =
              report_line-Runs env m filename line_nr addr (readable filename there) v in
            (m', rw (kept, there) run, v')
        | inr gone ↦ (m, rw (kept, gone) refl, v)
      ]
      | inr dropped ↦ (m, rw dropped refl, v)
    ]

-- A call of the reporter's listener.
pub data Event : Type 0 where
  address : ℕ → ℕ → Event
  line : Bytes → ℕ → ℕ → Event

unfoldable pub handle : Env → Event → MergeParser → Option MergeParser
handle env (address addr hits) m = on_address m addr hits
handle env (line filename line_nr addr) m = on_line_reporter env m filename line_nr addr

unfoldable pub run_calls : Env → List Event → MergeParser → Option MergeParser
run_calls env [] m = some m
run_calls env (e ∷ es) m = do m' ← handle env e m; run_calls env es m'

run_calls-Runs :
    (env : Env) (es : List Event) (m : MergeParser)
    → Readable env
    → IsValid m
    → Runs (run_calls env es m)
unfolding run_calls handle
run_calls-Runs env [] m readable v = (m, refl, v)
run_calls-Runs env (address addr hits ∷ es) m readable v =
    let (m₁, run₁, v₁) = on_address-IsValid m addr hits v in
    let (m₂, run₂, v₂) = run_calls-Runs env es m₁ readable v₁ in (m₂, bind_to _ run₁ run₂, v₂)
run_calls-Runs env (line filename line_nr addr ∷ es) m readable v =
    let (m₁, run₁, v₁) = on_line_reporter-Runs env m filename line_nr addr readable v in
    let (m₂, run₂, v₂) = run_calls-Runs env es m₁ readable v₁ in (m₂, bind_to _ run₁ run₂, v₂)

new_merge_parser-IsValid : IsValid new_merge_parser
unfolding find
new_merge_parser-IsValid = record {
  linked = record { file_there = λ h name e. cc; hash_there = λ addr h e. cc };
  waiting = λ addr hits e. refl;
}

-- From a new merge parser, every sequence of lines and hits is handled without a missing file and
-- without a panic, and ends in a state in which each line's hash leads to a file, each known
-- address to a line's hash, and no hit is left pending at a known address. A file that is there is
-- assumed to be readable.
pub run_calls-IsValid :
    (env : Env) (es : List Event)
    → Readable env
    → (m : MergeParser) × (run_calls env es new_merge_parser ≡ some m) × IsValid m
run_calls-IsValid env es readable =
    run_calls-Runs env es new_merge_parser readable new_merge_parser-IsValid
