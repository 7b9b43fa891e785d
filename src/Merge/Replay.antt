-- ===== src/Merge/Replay.antt =====
-- What parseFileData of src/merge-file-parser.cc tells the listeners of a stored file.
use kcov.Prelude.{
  append_assoc, append-nil, ℕ, zero, suc, ◌+◌, ◌%◌, ◌^◌, ◌<◌, ◌≡◌, refl, ◌∙◌, sym, ap, Bool, true,
  false, not, Option, none, some, List, [], ◌∷◌, ◌++◌, map, Bytes, arith, eqb, leb, if◌then◌else◌,
  length, drop, get_elem?, All, number_key, name_key, bind_to, ◌⊎◌, inl, inr,
}
use kcov.Prelude.Table.{Table, find, insert, find_or, find-insert_self}
use kcov.Merge.{
  Env, AddrMap, File, MergeParser, Call, on_line, on_address_hit, new_file, add_line, register_hits,
  tell_line,
}
use kcov.Merge.Format.{
  FileData, marshal_address, parse_hit, parse_address, parse_addresses, parse_entries,
  parse_file_data,
}
use kcov.Merge.Plain.{plain_addresses, plain_table, plain_entries, plain, total}

-- The calls for one address: all line listeners `ls` and, if the address has hits, all collector
-- listeners `cs`.
abbrev pub address_calls : List ℕ → List ℕ → Bytes → ℕ → ℕ → Bool → List Call
address_calls ls cs name line addr hit =
    map (λ k. on_line k name line addr) ls
    ++ (if hit then map (λ k. on_address_hit k addr 1) cs else [])

abbrev pub has_hits : AddrMap → ℕ → Bool
has_hits hits addr = not (eqb (find_or 0 addr hits) 0)

abbrev pub line_calls : List ℕ → List ℕ → Bytes → AddrMap → ℕ → AddrMap → List Call
line_calls ls cs name hits line [] = []
line_calls ls cs name hits line ((addr, n) ∷ addrs) =
    address_calls ls cs name line addr (has_hits hits addr) ++ line_calls ls cs name hits line addrs

abbrev pub file_calls : List ℕ → List ℕ → Bytes → AddrMap → Table ℕ AddrMap → List Call
file_calls ls cs name hits [] = []
file_calls ls cs name hits ((line, addrs) ∷ lines) =
    line_calls ls cs name hits line addrs ++ file_calls ls cs name hits lines

abbrev pub HashAddress : ℕ × ℕ → Type 0
HashAddress entry = entry.0 < 2 ^ 63

abbrev pub HashLine : ℕ × AddrMap → Type 0
HashLine entry = All HashAddress entry.1

-- From one state to another: the file is there, and the listeners have been told these calls.
record Said (name : Bytes) (told : List Call) (m m' : MergeParser) : Type 0 where
  there : (f : File) × (find name m'.files ≡ some f)
  calls : m'.calls ≡ m.calls ++ told
  line_listeners : m'.line_listeners ≡ m.line_listeners
  collector_listeners : m'.collector_listeners ≡ m.collector_listeners

abbrev Runs : Bytes → List Call → MergeParser → Option MergeParser → Type 0
Runs name calls m o = (m' : MergeParser) × (o ≡ some m') × Said name calls m m'

Said-then :
    (name : Bytes) (cs ds : List Call) (m m' m'' : MergeParser)
    → Said name cs m m'
    → Said name ds m' m''
    → Said name (cs ++ ds) m m''
Said-then name cs ds m m' m'' a b = record {
  there = b.there;
  calls = b.calls ∙ ap (λ xs. xs ++ ds) a.calls ∙ append_assoc m.calls cs ds;
  line_listeners = b.line_listeners ∙ a.line_listeners;
  collector_listeners = b.collector_listeners ∙ a.collector_listeners;
}

parse_hit-Said :
    (m : MergeParser) (f f' : File) (name : Bytes) (line addr : ℕ) (hit : Bool)
    → Said name (address_calls m.line_listeners m.collector_listeners name line addr hit) m (
        parse_hit
          (tell_line (record m { files = insert name f m.files }) name line addr)
          f'
          name
          addr
          hit)
parse_hit-Said m f f' name line addr true = record {
  there = (
    register_hits f' addr 1,
    find-insert_self name (register_hits f' addr 1) (insert name f m.files),
  );
  calls =
      append_assoc m.calls (map (λ k. on_line k name line addr) m.line_listeners)
        (map (λ k. on_address_hit k addr 1) m.collector_listeners);
  line_listeners = refl;
  collector_listeners = refl;
}
parse_hit-Said m f f' name line addr false = record {
  there = (f, find-insert_self name f m.files);
  calls =
      ap (λ xs. m.calls ++ xs)
        (sym (append-nil (map (λ k. on_line k name line addr) m.line_listeners)));
  line_listeners = refl;
  collector_listeners = refl;
}

stored-addr :
    (hits : AddrMap) (addr : ℕ) → addr < 2 ^ 63 → marshal_address hits addr % 2 ^ 63 ≡ addr
stored-addr hits addr h = ground arith

stored-hit :
    (hits : AddrMap) (addr : ℕ)
    → addr < 2 ^ 63
    → leb (2 ^ 63) (marshal_address hits addr) ≡ has_hits hits addr
stored-hit hits addr h = ground arith

-- The listeners are those given.
record Listen (ls cs : List ℕ) (m : MergeParser) : Type 0 where
  line_listeners : m.line_listeners ≡ ls
  collector_listeners : m.collector_listeners ≡ cs

Listen-Said :
    (name : Bytes) (told : List Call) (ls cs : List ℕ) (m m' : MergeParser)
    → Said name told m m'
    → Listen ls cs m
    → Listen ls cs m'
Listen-Said name told ls cs m m' s l = record {
  line_listeners = s.line_listeners ∙ l.line_listeners;
  collector_listeners = s.collector_listeners ∙ l.collector_listeners;
}

Present : Bytes → MergeParser → Type 0
Present name m = (f : File) × (find name m.files ≡ some f)

parse_address-Runs :
    (m : MergeParser) (name : Bytes) (hits : AddrMap) (line addr : ℕ)
    → Present name m
    → addr < 2 ^ 63
    → Runs name
        (address_calls m.line_listeners m.collector_listeners name line addr (has_hits hits addr))
        m
        (parse_address m name line (marshal_address hits addr))
unfolding parse_address Present
parse_address-Runs m name hits line addr (f, there) small =
    let f' = add_line f line addr in
    (
      _,
      rw (there, stored-addr hits addr small, stored-hit hits addr small) refl,
      parse_hit-Said m f' f' name line addr (has_hits hits addr),
    )

parse_address-Listen :
    (m : MergeParser) (ls cs : List ℕ) (name : Bytes) (hits : AddrMap) (line addr : ℕ)
    → Listen ls cs m
    → Present name m
    → addr < 2 ^ 63
    → Runs name
        (address_calls ls cs name line addr (has_hits hits addr))
        m
        (parse_address m name line (marshal_address hits addr))
parse_address-Listen m ls cs name hits line addr l there small =
    rw (← l.line_listeners, ← l.collector_listeners)
      (parse_address-Runs m name hits line addr there small)

get_elem?-drop :
    (table : List ℕ) (at x : ℕ) (xs : List ℕ)
    → drop at table ≡ x ∷ xs
    → (get_elem? table at ≡ some x) × (drop (suc at) table ≡ xs)
get_elem?-drop [] zero x xs h = cc
get_elem?-drop [] (suc at) x xs h = cc
get_elem?-drop (y ∷ ys) zero x xs h = (ground arith, ground arith)
get_elem?-drop (y ∷ ys) (suc at) x xs h = get_elem?-drop ys at x xs h

-- The addresses of one line, from the place of the table where they stand.
parse_addresses-Runs :
    (table : List ℕ) (ls cs : List ℕ) (name : Bytes) (hits : AddrMap) (line : ℕ) (addrs : AddrMap)
    (at : ℕ) (more : List ℕ) (m : MergeParser)
    → drop at table ≡ plain_addresses hits addrs ++ more
    → at + length addrs < 2 ^ 32
    → All HashAddress addrs
    → Listen ls cs m
    → Present name m
    → Runs name
        (line_calls ls cs name hits line addrs)
        m
        (parse_addresses table name line (length addrs) at m)
unfolding parse_addresses Present
parse_addresses-Runs table ls cs name hits line [] at more m here fits small l there = (
  m,
  refl,
  record {
    there = there;
    calls = sym (append-nil m.calls);
    line_listeners = refl;
    collector_listeners = refl;
  },
)
parse_addresses-Runs table ls cs name hits line ((addr, n) ∷ addrs) at more m here fits small l
      there =
    let (read, rest) = get_elem?-drop table at (marshal_address hits addr) _ here in
    let (m₁, run₁, said₁) = parse_address-Listen m ls cs name hits line addr l there small.0 in
    let next : (at + 1) % 2 ^ 32 ≡ suc at = omega (arith, fits) in
    let (m₂, run₂, said₂) =
      parse_addresses-Runs table ls cs name hits line addrs (suc at) more m₁ rest
        (omega (arith, fits)) small.1 (Listen-Said name _ ls cs m m₁ said₁ l) said₁.there in
    (
      m₂,
      bind_to _ read (
          bind_to _ run₁
            (ap (λ k. parse_addresses table name line (length addrs) k m₁) next ∙ run₂)),
      Said-then name _ _ m m₁ m₂ said₁ said₂,
    )

drop-plain_addresses :
    (table : List ℕ) (at : ℕ) (hits addrs : AddrMap) (more : List ℕ)
    → drop at table ≡ plain_addresses hits addrs ++ more
    → drop (at + length addrs) table ≡ more
drop-plain_addresses table at hits [] more h =
    let same : at + 0 ≡ at = omega arith in ap (λ k. drop k table) same ∙ h
drop-plain_addresses table at hits ((addr, n) ∷ addrs) more h =
    let (read, rest) = get_elem?-drop table at (marshal_address hits addr) _ h in
    let same : at + length ((addr, n) ∷ addrs) ≡ suc at + length addrs = omega arith in
    ap (λ k. drop k table) same ∙ drop-plain_addresses table (suc at) hits addrs more rest

-- The lines, whose addresses fill the table from `at` on.
parse_entries-Runs :
    (fd : FileData) (ls cs : List ℕ) (name : Bytes) (hits : AddrMap) (lines : Table ℕ AddrMap)
    (at : ℕ) (m : MergeParser)
    → drop at fd.address_table ≡ plain_table hits lines
    → at + total lines < 2 ^ 32
    → All HashLine lines
    → Listen ls cs m
    → Present name m
    → Runs name
        (file_calls ls cs name hits lines)
        m
        (parse_entries fd name (length lines) (plain_entries at lines) m)
unfolding parse_entries Present
parse_entries-Runs fd ls cs name hits [] at m here fits small l there = (
  m,
  refl,
  record {
    there = there;
    calls = sym (append-nil m.calls);
    line_listeners = refl;
    collector_listeners = refl;
  },
)
parse_entries-Runs fd ls cs name hits ((line, addrs) ∷ lines) at m here fits small l there =
    let (m₁, run₁, said₁) =
      parse_addresses-Runs fd.address_table ls cs name hits line addrs at (plain_table hits lines) m
        here (omega (arith, fits)) small.0 l there in
    let rest = drop-plain_addresses fd.address_table at hits addrs (plain_table hits lines) here in
    let (m₂, run₂, said₂) =
      parse_entries-Runs fd ls cs name hits lines (at + length addrs) m₁ rest (omega (arith, fits))
        small.1 (Listen-Said name _ ls cs m m₁ said₁ l) said₁.there in
    (m₂, bind_to _ run₁ run₂, Said-then name _ _ m m₁ m₂ said₁ said₂)

-- The file is known with the stored checksum, or not known and readable.
unfoldable pub Known : Env → MergeParser → Bytes → ℕ → Type 0
Known env m name checksum =
    ((f : File) × (find name m.files ≡ some f) × (f.checksum ≡ checksum))
    ⊎ ((find name m.files ≡ none) × ((f : File) × (new_file env name ≡ some f)))

if-eqb : {A : Type 0} (a b : ℕ) (x y : A) → a ≡ b → (if eqb a b then x else y) ≡ x
if-eqb a b x y h = ground (arith, h)

-- Parsing what another run has stored of a file that is there, and is new or of the stored
-- checksum: the parser neither faults nor panics, and its listeners are told of each line's
-- addresses in the stored order, each followed by one hit where the other run has hits there, and
-- of nothing else. The addresses are hashes of 63 bits, fewer than 2^32, and the name is mapped to
-- itself.
pub parse_file_data-plain :
    (env : Env) (m : MergeParser) (f : File)
    → env.mangle_source_path f.filename ≡ f.filename
    → env.file_exists f.filename ≡ true
    → Known env m f.filename f.checksum
    → total f.lines < 2 ^ 32
    → All HashLine f.lines
    → (m' : MergeParser) × (parse_file_data env m (plain f) ≡ some m')
      × (m'.calls
          ≡ m.calls
            ++ file_calls m.line_listeners m.collector_listeners f.filename f.addr_hits f.lines)
unfolding parse_file_data Known Present
parse_file_data-plain env m f mangled exists (inl (g, there, same)) fits small =
    let (m', run, said) =
      parse_entries-Runs (plain f) m.line_listeners m.collector_listeners f.filename f.addr_hits
        f.lines 0 m refl (omega (arith, fits)) small
        (record { line_listeners = refl; collector_listeners = refl }) (g, there) in
    (m', rw (mangled, exists, there) (if-eqb g.checksum f.checksum _ _ same ∙ run), said.calls)
parse_file_data-plain env m f mangled exists (inr (absent, (g, new))) fits small =
    let m₁ = record m { files = insert f.filename g m.files } in
    let (m', run, said) =
      parse_entries-Runs (plain f) m.line_listeners m.collector_listeners f.filename f.addr_hits
        f.lines 0 m₁ refl (omega (arith, fits)) small
        (record { line_listeners = refl; collector_listeners = refl })
        (g, find-insert_self f.filename g m.files) in
    (m', rw (mangled, exists, absent) (bind_to _ new run), said.calls)
