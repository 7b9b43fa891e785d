-- ===== src/ModeFile/Parts.antt =====
-- The parts of the block that getProcessedData of src/system-mode/file-data.cc makes.
use kcov.Prelude.{
  ℕ, zero, suc, ◌+◌, ◌-◌, ◌*◌, ◌^◌, ◌<◌, ◌≡◌, refl, ◌∙◌, sym, ap, true, false, some, List, [], ◌∷◌,
  ◌++◌, Bytes, arith, eqb, ltb, leb, if◌then◌else◌, length, length-append, length-replicate,
  get_elem?, set, append_assoc, append-nil, replicate, All,
}
use kcov.Strings.Escape.{c_string}
use kcov.Strings.CString.{NonZero, c_string-end, c_string_text}
use kcov.Endian.{Host, store}
use kcov.Endian.RoundTrip.{length-store}
use kcov.Endian.Fields.{drop_stored, read_stored}
use kcov.ModeFile.Layout.{pad_to_8}
use kcov.ModeFile.Trailers.{pad_to_8-le}
use kcov.ModeFile.{
  SystemModeFile, resize, add_entry, add_entries, string_part, entries_bytes, padding, read_entries,
  char_before, last_char,
}

pub length-padding : (n : ℕ) → n + length (padding n) ≡ pad_to_8 n
length-padding n = omega (arith, length-replicate {A = ℕ} (pad_to_8 n - n) 0, pad_to_8-le n)

-- A text's part: the text, a NUL and more of them.
part_is :
    (s : Bytes)
    → All NonZero s
    → string_part s ≡ s ++ 0 ∷ replicate (pad_to_8 (length s + 1) - (length s + 1)) 0
unfolding string_part
part_is s text =
    ap (λ x. x ++ 0 ∷ replicate (pad_to_8 (length s + 1) - (length x + 1)) 0) (c_string_text s text)

pub length-string_part :
    (s : Bytes) → All NonZero s → length (string_part s) ≡ pad_to_8 (length s + 1)
length-string_part s text =
    let n = pad_to_8 (length s + 1) - (length s + 1) in
    ap length (part_is s text)
    ∙ omega (
      arith,
      length-append s (0 ∷ replicate n 0),
      length-replicate {A = ℕ} n 0,
      pad_to_8-le (length s + 1),
    )

pub c_string-string_part : (s rest : Bytes) → All NonZero s → c_string (string_part s ++ rest) ≡ s
c_string-string_part s rest text =
    let zeros = replicate (pad_to_8 (length s + 1) - (length s + 1)) 0 in
    ap (λ x. c_string (x ++ rest)) (part_is s text)
    ∙ ap c_string (append_assoc s (0 ∷ zeros) rest)
    ∙ c_string-end s (zeros ++ rest) text

get_elem?-append_right :
    (xs ys : Bytes) (k : ℕ) → get_elem? (xs ++ ys) (length xs + k) ≡ get_elem? ys k
get_elem?-append_right [] ys k = ap (get_elem? ys) (omega arith)
get_elem?-append_right (x ∷ xs) ys k =
    let next : suc (length xs) + k ≡ suc (length xs + k) = omega arith in
    ap (get_elem? (x ∷ xs ++ ys)) next ∙ get_elem?-append_right xs ys k

char_before-append :
    (xs ys : Bytes) (k : ℕ) → 0 < k → char_before (xs ++ ys) (length xs + k) ≡ char_before ys k
char_before-append xs ys zero above = absurd (omega arith)
char_before-append xs ys (suc k) above =
    let next : length xs + suc k ≡ suc (length xs + k) = omega arith in
    ap (char_before (xs ++ ys)) next ∙ get_elem?-append_right xs ys k

-- The last character of a text's part is a NUL.
zeros_end : (n : ℕ) (rest : Bytes) → get_elem? (replicate (suc n) 0 ++ rest) n ≡ some 0
zeros_end zero rest = refl
zeros_end (suc n) rest = zeros_end n rest

pub last_char-string_part :
    (before s rest : Bytes) (size end_ : ℕ)
    → All NonZero s
    → size ≡ pad_to_8 (length s + 1)
    → end_ ≡ length before + size
    → last_char (before ++ (string_part s ++ rest)) size end_ ≡ some 0
last_char-string_part before s rest size end_ text size_is end_is =
    let n = pad_to_8 (length s + 1) - (length s + 1) in
    let long = pad_to_8-le (length s + 1) in
    let some_size : eqb size 0 ≡ false = ground (arith, long) in
    let size_split : size ≡ length s + suc n = omega (arith, size_is, long) in
    let behind : string_part s ++ rest ≡ s ++ (replicate (suc n) 0 ++ rest) =
      ap (λ x. x ++ rest) (part_is s text) ∙ append_assoc s (replicate (suc n) 0) rest in
    rw some_size (
      ap (char_before (before ++ (string_part s ++ rest))) end_is
      ∙ char_before-append before (string_part s ++ rest) size (omega arith)
      ∙ ap (λ xs. char_before xs size) behind
      ∙ ap (char_before (s ++ (replicate (suc n) 0 ++ rest))) size_split
      ∙ char_before-append s (replicate (suc n) 0 ++ rest) (suc n) (omega arith)
      ∙ zeros_end n rest)

read_entries_next :
    (host : Host) (n e : ℕ) (p : Bytes) (es : List ℕ)
    → e < 2 ^ 64
    → read_entries host n p ≡ some es
    → read_entries host (suc n) (store host 8 e ++ p) ≡ some (e ∷ es)
unfolding read_entries
read_entries_next host n e p es small later =
    let whole : ltb (length (store host 8 e ++ p)) 8 ≡ false =
      ground (arith, length-append (store host 8 e) p, length-store host 8 e) in
    rw (whole, drop_stored host 8 e p, later, read_stored host 8 e p small) refl

pub read_entries-entries_bytes :
    (host : Host) (es : List ℕ) (rest : Bytes)
    → All (λ e. e < 2 ^ 64) es
    → read_entries host (length es) (entries_bytes host es ++ rest) ≡ some es
unfolding read_entries entries_bytes
read_entries-entries_bytes host [] rest small = refl
read_entries-entries_bytes host (e ∷ es) rest small =
    ap (read_entries host (suc (length es)))
      (append_assoc (store host 8 e) (entries_bytes host es) rest)
    ∙ read_entries_next host (length es) e (entries_bytes host es ++ rest) es small.0
        (read_entries-entries_bytes host es rest small.1)

pub length-entries_bytes :
    (host : Host) (es : List ℕ) → length (entries_bytes host es) ≡ 8 * length es
unfolding entries_bytes
length-entries_bytes host [] = omega arith
length-entries_bytes host (e ∷ es) = omega (
  arith,
  length-append (store host 8 e) (entries_bytes host es),
  length-store host 8 e,
  length-entries_bytes host es,
)

set_end : (xs : List ℕ) (v : ℕ) → set (xs ++ 0 ∷ []) (length xs) v ≡ xs ++ v ∷ []
set_end [] v = refl
set_end (x ∷ xs) v = ap (◌∷◌ x) (set_end xs v)

add_entry_end :
    (f : SystemModeFile) (i value : ℕ)
    → length f.entries ≡ i
    → add_entry f i value ≡ record f { entries = f.entries ++ value ∷ [] }
unfolding add_entry
add_entry_end f i value at =
    let one : i + 1 - length f.entries ≡ 1 = omega arith in
    let grows : leb (length f.entries) i ≡ true = ground arith in
    let grown : resize (i + 1) f.entries ≡ f.entries ++ 0 ∷ [] =
      ap (λ n. f.entries ++ replicate n 0) one in
    let entries =
      ap (λ b. set (if b then resize (i + 1) f.entries else f.entries) i value) grows
      ∙ ap (λ xs. set xs i value) grown
      ∙ ap (λ j. set (f.entries ++ 0 ∷ []) j value) (sym at)
      ∙ set_end f.entries value in
    ap (λ es. record f { entries = es }) entries

-- addEntry, one index behind the other.
pub add_entries_lem :
    (f : SystemModeFile) (i : ℕ) (values : List ℕ)
    → length f.entries ≡ i
    → add_entries f i values ≡ record f { entries = f.entries ++ values }
unfolding add_entries
add_entries_lem f i [] at = ap (λ es. record f { entries = es }) (sym (append-nil f.entries))
add_entries_lem f i (value ∷ values) at =
    let es = f.entries ++ value ∷ [] in
    let longer : length es ≡ i + 1 = omega (arith, length-append f.entries (value ∷ []), at) in
    ap (λ g. add_entries g (i + 1) values) (add_entry_end f i value at)
    ∙ add_entries_lem (record f { entries = es }) (i + 1) values longer
    ∙ ap (λ xs. record f { entries = xs }) (append_assoc f.entries (value ∷ []) values)
