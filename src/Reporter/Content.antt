-- ===== src/Reporter/Content.antt =====
-- The content of a coverage database of src/reporter.cc: its entries, their ranges, their number.
use kcov.Prelude.{
  ℕ, zero, suc, ◌+◌, ◌*◌, ◌%◌, ◌^◌, ◌<◌, ◌≡◌, refl, sym, ◌∙◌, Option, none, some, List, [], ◌∷◌,
  ◌++◌, Bytes, arith, All, All-append, eqb, length, length-append, Bool-cases, inl, inr,
}
use kcov.Prelude.Table.{Table}
use kcov.Reporter.Line
use kcov.Reporter.Line.{Line, Entry, AddrHits, count_loop, sign_extend}
use kcov.Reporter.File
use kcov.Reporter.File.{File, Heap, target}
use kcov.Reporter.Env.{Env}
use kcov.Reporter.Database.{marshal_files, sum_sizes}
use kcov.Reporter.Entries.{
  line_entries, target_entries, file_entries, encode, encode-append, encode_onto,
  marshal_lines-encode, Fits,
}

-- The ranges of the source's integers.
pub record AddrInRange (p : AddrHits) : Type 0 where
  pub addr : p.addr < 2 ^ 64
  pub count : p.count < 2 ^ 32

pub record LineInRange (l : Line) : Type 0 where
  pub line_id : l.line_id < 2 ^ 64
  pub size : length l.addrs < 2 ^ 32
  pub addrs : All AddrInRange l.addrs

line_entries-Fits :
    (id index : ℕ) (ps : List AddrHits)
    → id < 2 ^ 64
    → index < 2 ^ 32
    → All AddrInRange ps
    → All Fits (line_entries id index ps)
unfolding line_entries
line_entries-Fits id index [] h i k = tt
line_entries-Fits id index (p ∷ ps) h i k =
    let rest = line_entries-Fits id ((index + 1) % 2 ^ 32) ps h (omega arith) k.1 in
    elim (Bool-cases (eqb p.count 0)) [
      | inl none_ ↦ rw none_ rest
      | inr hit ↦ rw hit (
        record {
          addr = k.0.addr;
          file_hash = h;
          index = omega arith;
          hits = ground (arith, k.0.count);
        },
        rest,
      )
    ]

-- The counting loop of marshalSize counts the entries.
count_loop-length :
    (id index n : ℕ) (ps : List AddrHits)
    → n + length ps < 2 ^ 32
    → count_loop n ps ≡ n + length (line_entries id index ps)
unfolding count_loop line_entries
count_loop-length id index n [] h = omega arith
count_loop-length id index n (p ∷ ps) h = elim (Bool-cases (eqb p.count 0)) [
  | inl none_ ↦ rw none_ (count_loop-length id ((index + 1) % 2 ^ 32) n ps (omega arith))
  | inr hit ↦ rw hit (
      let e : (n + 1) % 2 ^ 32 ≡ n + 1 = omega arith in
      rw e (omega (arith, count_loop-length id ((index + 1) % 2 ^ 32) (n + 1) ps (omega arith))))
]

target-Fits :
    (heap : Heap) (s : Option ℕ) → All LineInRange heap → All Fits (target_entries (target heap s))
target-Fits heap none h = tt
target-Fits [] (some p) h = tt
target-Fits (l ∷ ls) (some zero) h =
    line_entries-Fits l.line_id 0 l.addrs h.0.line_id (omega arith) h.0.addrs
target-Fits (l ∷ ls) (some (suc p)) h = target-Fits ls (some p) h.1

target_size :
    (heap : Heap) (s : Option ℕ)
    → All LineInRange heap
    → File.size_target (target heap s) ≡ 32 * length (target_entries (target heap s))
target_size heap none h = omega arith
target_size [] (some p) h = omega arith
target_size (l ∷ ls) (some zero) h =
    unfold Line.marshal_size in
    omega (arith, count_loop-length l.line_id 0 0 l.addrs (omega (arith, h.0.size)))
target_size (l ∷ ls) (some (suc p)) h = target_size ls (some p) h.1

file_Fits :
    (heap : Heap) (ss : List (Option ℕ)) → All LineInRange heap → All Fits (file_entries heap ss)
unfolding file_entries
file_Fits heap [] h = tt
file_Fits heap (s ∷ ss) h =
    All-append Fits (target_entries (target heap s)) (file_entries heap ss) (target-Fits heap s h)
      (file_Fits heap ss h)

file_size :
    (heap : Heap) (ss : List (Option ℕ))
    → All LineInRange heap
    → File.marshal_size_lines heap ss ≡ 32 * length (file_entries heap ss)
unfolding file_entries File.marshal_size_lines
file_size heap [] h = omega arith
file_size heap (s ∷ ss) h = omega (
  arith,
  target_size heap s h,
  file_size heap ss h,
  length-append (target_entries (target heap s)) (file_entries heap ss),
)

-- Everything that a database holds, in the order in which it is written.
pub all_entries : Heap → Table Bytes File → List Entry
all_entries heap [] = []
all_entries heap ((name, f) ∷ files) = file_entries heap f.lines ++ all_entries heap files

pub all_entries-Fits :
    (heap : Heap) (files : Table Bytes File)
    → All LineInRange heap
    → All Fits (all_entries heap files)
unfolding all_entries
all_entries-Fits heap [] h = tt
all_entries-Fits heap ((name, f) ∷ files) h =
    All-append Fits (file_entries heap f.lines) (all_entries heap files) (file_Fits heap f.lines h)
      (all_entries-Fits heap files h)

pub length-all_entries :
    (heap : Heap) (files : Table Bytes File)
    → All LineInRange heap
    → sum_sizes heap files ≡ 32 * length (all_entries heap files)
unfolding all_entries sum_sizes
length-all_entries heap [] h = omega arith
length-all_entries heap ((name, f) ∷ files) h = omega (
  arith,
  file_size heap f.lines h,
  length-all_entries heap files h,
  length-append (file_entries heap f.lines) (all_entries heap files),
)

pub marshal_files-encode :
    (env : Env) (heap : Heap) (files : Table Bytes File)
    → marshal_files env heap files ≡ encode env.host (all_entries heap files) []
unfolding marshal_files all_entries
marshal_files-encode env heap [] = unfold encode in refl
marshal_files-encode env heap ((name, f) ∷ files) =
    let tail = marshal_files-encode env heap files in
    let es = file_entries heap f.lines in
    let fs = all_entries heap files in
    rw (marshal_lines-encode env.host heap f.lines, tail)
      (sym (encode_onto env.host es [] (encode env.host fs []))
        ∙ sym (encode-append env.host es fs []))
