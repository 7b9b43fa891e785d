-- ===== src/Merge/Safe.antt =====
-- The maps of MergeParser in src/merge-file-parser.cc agree with each other at all times.
use kcov.Prelude.{
  ℕ, ◌≡◌, refl, ◌∙◌, sym, ap, true, false, none, some, Bytes, arith, eqb, Bool-cases, Option-cases,
  inl, inr, Key, ◌≟◌, number_key, name_key, bind_to,
}
use kcov.Prelude.Table.{Table, find, insert, remove, find-insert, find-insert_self, find-remove}
use kcov.Merge.{
  File, MergeParser, add_line, set_local, register_hits, tell_hit, on_address, flush_pending,
  enter_line,
}

abbrev pub Has {ℓ κ} : {K : Type ℓ} {V : Type κ} ⦃keys : Key K⦄ → K → Table K V → Type κ
Has {V = V} k m = (v : V) × (find k m ≡ some v)

module _ {ℓ κ} {K : Type ℓ} {V : Type κ} ⦃keys : Key K⦄ where
  Has-insert : (k j : K) (v : V) (m : Table K V) → Has j m → Has j (insert k v m)
  Has-insert k j v m (w, h) = elim (Bool-cases (k ≟ j)) [
    | inl same ↦ (v, ground (arith, find-insert k j v m))
    | inr other ↦ (w, ground (arith, find-insert k j v m))
  ]

  insert-Has : (k : K) (v : V) (m : Table K V) → Has k (insert k v m)
  insert-Has k v m = (v, find-insert_self k v m)

  inserted :
      (k j : K) (v w : V) (m : Table K V) → (k ≟ j) ≡ true → find j (insert k v m) ≡ some w → v ≡ w
  inserted k j v w m same e = ground (arith, find-insert k j v m)

-- Every line's hash leads to a file, and every known address to a line's hash.
pub record Linked (m : MergeParser) : Type 0 where
  pub file_there : (h : ℕ) (name : Bytes) → find h m.files_by_address ≡ some name → Has name m.files
  pub hash_there :
      (addr h : ℕ) → find addr m.file_line_by_address ≡ some h → Has h m.files_by_address

-- No pending hit is at a known address.
abbrev pub Waiting : MergeParser → Type 0
Waiting m =
    (addr hits : ℕ) → find addr m.pending_hits ≡ some hits → find addr m.file_line_by_address ≡ none

pub record IsValid (m : MergeParser) : Type 0 where
  pub linked : Linked m
  pub waiting : Waiting m

-- A hit at a known address changes the files only, and only what they hold.
record HitAt (m m' : MergeParser) : Type 0 where
  linked : Linked m'
  pending : m'.pending_hits ≡ m.pending_hits
  hashes : m'.file_line_by_address ≡ m.file_line_by_address

hit-Linked :
    (m : MergeParser) (addr h hits : ℕ)
    → Linked m
    → find addr m.file_line_by_address ≡ some h
    → (m' : MergeParser) × (on_address m addr hits ≡ some m') × HitAt m m'
unfolding on_address
hit-Linked m addr h hits l known =
    let (name, by) = l.hash_there addr h known in
    let (f, there) = l.file_there h name by in
    (
      tell_hit (record m { files = insert name (register_hits f h hits) m.files }) h hits,
      rw (known, by, there) refl,
      record {
        linked = record {
          file_there = λ k name' e.
              Has-insert name name' (register_hits f h hits) m.files (l.file_there k name' e);
          hash_there = l.hash_there;
        };
        pending = refl;
        hashes = refl;
      },
    )

pending-Waiting :
    (m : MergeParser) (addr hits : ℕ)
    → find addr m.file_line_by_address ≡ none
    → Waiting m
    → Waiting (record m { pending_hits = insert addr hits m.pending_hits })
pending-Waiting m addr hits unknown w j n e = elim (Bool-cases (eqb addr j)) [
  | inl same ↦
      let is : addr ≡ j = ground arith in ap (λ t. find t m.file_line_by_address) (sym is) ∙ unknown
  | inr other ↦ w j n (ground (arith, find-insert addr j hits m.pending_hits))
]

pub on_address-IsValid :
    (m : MergeParser) (addr hits : ℕ)
    → IsValid m
    → (m' : MergeParser) × (on_address m addr hits ≡ some m') × IsValid m'
on_address-IsValid m addr hits v = elim (Option-cases (find addr m.file_line_by_address)) [
  | inl unknown ↦ (
    record m { pending_hits = insert addr hits m.pending_hits },
    unfold on_address in rw unknown refl,
    record {
      linked = record { file_there = v.linked.file_there; hash_there = v.linked.hash_there };
      waiting = pending-Waiting m addr hits unknown v.waiting;
    },
  )
  | inr (h, known) ↦
      let (m', run, hit) = hit-Linked m addr h hits v.linked known in
      (
        m',
        run,
        record {
          linked = hit.linked;
          waiting = λ j n e.
              ap (λ t. find j t) hit.hashes
              ∙ v.waiting j n (sym (ap (λ t. find j t) hit.pending) ∙ e);
        },
      )
]

pub enter_line-Linked :
    (m : MergeParser) (f : File) (filename : Bytes) (line_nr addr h : ℕ)
    → Linked m
    → Linked (enter_line m f filename line_nr addr h)
unfolding enter_line
enter_line-Linked m f filename line_nr addr h l = record {
  file_there = λ k name e. elim (Bool-cases (eqb h k)) [
    | inl same ↦
        let is = inserted h k filename name m.files_by_address same e in
        rw (← is) (insert-Has filename (add_line (set_local f) line_nr h) m.files)
    | inr other ↦
        Has-insert filename name (add_line (set_local f) line_nr h) m.files
          (l.file_there k name (ground (arith, find-insert h k filename m.files_by_address)))
  ];
  hash_there = λ a k e. elim (Bool-cases (eqb addr a)) [
    | inl same ↦
        let is = inserted addr a h k m.file_line_by_address same e in
        rw (← is) (insert-Has h filename m.files_by_address)
    | inr other ↦
        Has-insert h k filename m.files_by_address
          (l.hash_there a k (ground (arith, find-insert addr a h m.file_line_by_address)))
  ];
}

-- The pending hits when a line is entered: only its own address may be known by now.
pub entered-Waiting :
    (m : MergeParser) (f : File) (filename : Bytes) (line_nr addr h j hits : ℕ)
    → Waiting m
    → eqb addr j ≡ false
    → find j (enter_line m f filename line_nr addr h).pending_hits ≡ some hits
    → find j (enter_line m f filename line_nr addr h).file_line_by_address ≡ none
unfolding enter_line
entered-Waiting m f filename line_nr addr h j hits w other e =
    let before = w j hits e in ground (arith, find-insert addr j h m.file_line_by_address)

pub entered_known :
    (m : MergeParser) (f : File) (filename : Bytes) (line_nr addr h : ℕ)
    → find addr (enter_line m f filename line_nr addr h).file_line_by_address ≡ some h
unfolding enter_line
entered_known m f filename line_nr addr h = find-insert_self addr h m.file_line_by_address

-- A state in which only the hits pending at `addr` may be at a known address.
unfoldable pub WaitingBut : ℕ → MergeParser → Type 0
WaitingBut addr m =
    (j hits : ℕ)
    → eqb addr j ≡ false
    → find j m.pending_hits ≡ some hits
    → find j m.file_line_by_address ≡ none

erase-Waiting :
    (m : MergeParser) (addr : ℕ)
    → WaitingBut addr m
    → Waiting (record m { pending_hits = remove addr m.pending_hits })
unfolding WaitingBut
erase-Waiting m addr w j n e =
    let gone = find-remove addr j m.pending_hits in
    elim (Bool-cases (eqb addr j)) [
      | inl same ↦ ground (arith, gone)
      | inr other ↦ w j n other (ground (arith, gone))
    ]

none-Waiting :
    (m : MergeParser) (addr : ℕ) → WaitingBut addr m → find addr m.pending_hits ≡ none → Waiting m
unfolding WaitingBut
none-Waiting m addr w free j n e = elim (Bool-cases (eqb addr j)) [
  | inl same ↦
      let is : addr ≡ j = ground arith in
      let no : none ≡ some n = sym (ap (λ t. find t m.pending_hits) (sym is) ∙ free) ∙ e in cc
  | inr other ↦ w j n other e
]

pub flush_pending-IsValid :
    (m : MergeParser) (addr h : ℕ)
    → Linked m
    → WaitingBut addr m
    → find addr m.file_line_by_address ≡ some h
    → (m' : MergeParser) × (flush_pending m addr (find addr m.pending_hits) ≡ some m') × IsValid m'
unfolding WaitingBut
flush_pending-IsValid m addr h l w known = elim (Option-cases (find addr m.pending_hits)) [
  | inl free ↦ (m, rw free refl, record { linked = l; waiting = none-Waiting m addr w free })
  | inr (hits, held) ↦
      let (m', run, hit) = hit-Linked m addr h hits l known in
      (
        record m' { pending_hits = remove addr m'.pending_hits },
        rw held (bind_to _ run refl),
        record {
          linked = record {
            file_there = hit.linked.file_there;
            hash_there = hit.linked.hash_there;
          };
          waiting = erase-Waiting m' addr (λ j n other e.
              ap (λ t. find j t) hit.hashes
              ∙ w j n other (sym (ap (λ t. find j t) hit.pending) ∙ e));
        },
      )
]
