-- ===== src/Reporter/Entries.antt =====
-- The entries that marshal of src/reporter.cc writes, and their encoding as bytes.
use kcov.Prelude.{
  drop_add, append_assoc, ℕ, ◌+◌, ◌*◌, ◌%◌, ◌^◌, ◌<◌, ◌≡◌, refl, sym, ap, ◌∙◌, Option, none, some,
  List, [], ◌∷◌, ◌++◌, Bytes, arith, eqb, if◌then◌else◌, length, length-append, take, drop,
}
use kcov.Endian.{Host, put_be, get_be}
use kcov.Endian.RoundTrip.{length-put_be}
use kcov.Endian.Fields.{drop_field, read_field}
use kcov.Reporter.Line
use kcov.Reporter.Line.{Line, Entry, AddrHits, sign_extend, marshal_loop, count_loop}
use kcov.Reporter.File
use kcov.Reporter.File.{File, Heap, target}

-- The addresses of a line that have hits.
unfoldable pub line_entries : ℕ → ℕ → List AddrHits → List Entry
line_entries line_id index [] = []
line_entries line_id index (p ∷ ps) =
    let rest = line_entries line_id ((index + 1) % 2 ^ 32) ps in
    if eqb p.count 0
    then rest
    else record { addr = p.addr; file_hash = line_id; index = index; hits = sign_extend p.count }
      ∷ rest

abbrev pub target_entries : Option Line → List Entry
target_entries none = []
target_entries (some l) = line_entries l.line_id 0 l.addrs

unfoldable pub file_entries : Heap → List (Option ℕ) → List Entry
unfolding line_entries
file_entries heap [] = []
file_entries heap (cur ∷ rest) = target_entries (target heap cur) ++ file_entries heap rest

-- An entry is four big-endian 64-bit integers.
unfoldable pub encode : Host → List Entry → Bytes → Bytes
encode host [] rest = rest
encode host (e ∷ es) rest =
    put_be host 8 e.addr
    ++ (put_be host 8 e.file_hash
        ++ (put_be host 8 e.index ++ (put_be host 8 e.hits ++ encode host es rest)))

pub encode-append :
    (host : Host) (es fs : List Entry) (rest : Bytes)
    → encode host (es ++ fs) rest ≡ encode host es (encode host fs rest)
unfolding encode
encode-append host [] fs rest = refl
encode-append host (e ∷ es) fs rest = rw (encode-append host es fs rest)

pub encode_onto :
    (host : Host) (es : List Entry) (xs ys : Bytes)
    → encode host es (xs ++ ys) ≡ encode host es xs ++ ys
unfolding encode
encode_onto host [] xs ys = refl
encode_onto host (e ∷ es) xs ys = simp (encode_onto host es xs ys, append_assoc)

pub length-encode : (host : Host) (es : List Entry) → length (encode host es []) ≡ 32 * length es
unfolding encode
length-encode host [] = omega arith
length-encode host (e ∷ es) = omega (
  arith,
  length-append (put_be host 8 e.addr) _,
  length-append (put_be host 8 e.file_hash) _,
  length-append (put_be host 8 e.index) _,
  length-append (put_be host 8 e.hits) (encode host es []),
  length-put_be host 8 e.addr,
  length-put_be host 8 e.file_hash,
  length-put_be host 8 e.index,
  length-put_be host 8 e.hits,
  length-encode host es,
)

pub marshal_loop-encode :
    (host : Host) (id index : ℕ) (ps : List AddrHits)
    → marshal_loop host id index ps ≡ encode host (line_entries id index ps) []
unfolding marshal_loop line_entries encode
marshal_loop-encode host id index [] = refl
marshal_loop-encode host id index (p ∷ ps) =
    ground (arith, marshal_loop-encode host id ((index + 1) % 2 ^ 32) ps)

marshal_target-encode :
    (host : Host) (o : Option Line) → File.marshal_target host o ≡ encode host (target_entries o) []
unfolding encode Line.marshal
marshal_target-encode host none = refl
marshal_target-encode host (some l) = marshal_loop-encode host l.line_id 0 l.addrs

pub marshal_lines-encode :
    (host : Host) (heap : Heap) (lines : List (Option ℕ))
    → File.marshal_lines host heap lines ≡ encode host (file_entries heap lines) []
unfolding File.marshal_lines file_entries
marshal_lines-encode host heap [] = unfold encode in refl
marshal_lines-encode host heap (cur ∷ rest) =
    let tail = marshal_lines-encode host heap rest in
    let es = target_entries (target heap cur) in
    let fs = file_entries heap rest in
    rw (marshal_target-encode host (target heap cur), tail)
      (sym (encode_onto host es [] (encode host fs [])) ∙ sym (encode-append host es fs []))

-- Every field fits its 64 bits.
pub record Fits (e : Entry) : Type 0 where
  pub addr : e.addr < 2 ^ 64
  pub file_hash : e.file_hash < 2 ^ 64
  pub index : e.index < 2 ^ 64
  pub hits : e.hits < 2 ^ 64

-- What one host wrote as an entry the other reads as that entry.
pub un_marshal-encode :
    (writer reader : Host) (e : Entry) (es : List Entry) (rest : Bytes)
    → Fits e
    → Line.un_marshal reader (encode writer (e ∷ es) rest) ≡ (e, encode writer es rest)
unfolding Line.un_marshal encode
un_marshal-encode writer reader e es rest f =
    let more = encode writer es rest in
    let x₃ = put_be writer 8 e.hits ++ more in
    let x₂ = put_be writer 8 e.index ++ x₃ in
    let x₁ = put_be writer 8 e.file_hash ++ x₂ in
    let x₀ = put_be writer 8 e.addr ++ x₁ in
    let at₈ : drop 8 x₀ ≡ x₁ = drop_field writer 8 e.addr x₁ in
    let at₁₆ : drop 16 x₀ ≡ x₂ =
      drop_add 8 8 x₀ ∙ ap (drop 8) at₈ ∙ drop_field writer 8 e.file_hash x₂ in
    let at₂₄ : drop 24 x₀ ≡ x₃ =
      drop_add 16 8 x₀ ∙ ap (drop 8) at₁₆ ∙ drop_field writer 8 e.index x₃ in
    let at₃₂ : drop 32 x₀ ≡ more =
      drop_add 24 8 x₀ ∙ ap (drop 8) at₂₄ ∙ drop_field writer 8 e.hits more in
    let field = λ (b : Bytes). get_be reader 8 (take 8 b) in
    let p₀ : field x₀ ≡ e.addr = read_field writer 8 e.addr x₁ reader f.addr in
    let p₁ : field (drop 8 x₀) ≡ e.file_hash =
      ap field at₈ ∙ read_field writer 8 e.file_hash x₂ reader f.file_hash in
    let p₂ : field (drop 16 x₀) ≡ e.index =
      ap field at₁₆ ∙ read_field writer 8 e.index x₃ reader f.index in
    let p₃ : field (drop 24 x₀) ≡ e.hits =
      ap field at₂₄ ∙ read_field writer 8 e.hits more reader f.hits in
    λ i. (record { addr = p₀ i; file_hash = p₁ i; index = p₂ i; hits = p₃ i }, at₃₂ i)
