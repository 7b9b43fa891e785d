-- ===== src/Reporter/Decode.antt =====
-- The parts of unMarshal in src/reporter.cc on what marshal wrote: the header, and the loop.
use kcov.Prelude.{
  drop_add, append_assoc, ℕ, suc, ◌+◌, ◌^◌, ◌<◌, ◌≡◌, refl, sym, ap, ◌∙◌, Option, none, some, List,
  [], ◌∷◌, ◌++◌, Bytes, arith, All, eqb, if◌then◌else◌, length, take, drop, ◌>>=◌, bind_assoc,
  bind_cong,
}
use kcov.Endian.{put_be, get_be}
use kcov.Endian.Fields.{drop_field, read_field}
use kcov.Reporter.Line
use kcov.Reporter.Line.{Line, Entry, AddrHits, count_loop, sign_extend}
use kcov.Reporter.Env.{Env}
use kcov.Reporter.State.{Reporter}
use kcov.Reporter.Database.{
  restore_entry, un_marshal_loop, un_marshal_header, marshal_header, kcov_magic, kcov_db_version,
}
use kcov.Reporter.Entries.{encode, Fits, un_marshal-encode}

-- The effect of a database: each of its entries restored, in order.
pub restore_all : Env → List Entry → Reporter → Option Reporter
restore_all env [] r = some r
restore_all env (e ∷ es) r = do r' ← restore_entry env e r; restore_all env es r'

restore_all_step :
    (env : Env) (e : Entry) (es : List Entry) (r : Reporter) (g : Reporter → Option Reporter)
    → (restore_all env (e ∷ es) r >>= g)
      ≡ (restore_entry env e r >>= λ r'. restore_all env es r' >>= g)
unfolding restore_all
restore_all_step env e es r g = bind_assoc (restore_entry env e r) (restore_all env es) g

un_marshal_step :
    (env : Env) (n : ℕ) (p : Bytes) (r : Reporter)
    → un_marshal_loop env (suc n) p r ≡ (
        restore_entry env (Line.un_marshal env.host p).0 r
        >>= un_marshal_loop env n (Line.un_marshal env.host p).1)
unfolding un_marshal_loop
un_marshal_step env n p r = refl

pub un_marshal_loop-encode :
    (writer reader : Env) (es : List Entry) (k : ℕ) (rest : Bytes) (r : Reporter)
    → All Fits es
    → un_marshal_loop reader (length es + k) (encode writer.host es rest) r
      ≡ (restore_all reader es r >>= un_marshal_loop reader k rest)
un_marshal_loop-encode writer reader [] k rest r f =
    let e : 0 + k ≡ k = omega arith in rw e (unfold encode restore_all in refl)
un_marshal_loop-encode writer reader (e ∷ es) k rest r f =
    let n = length es + k in
    let e₁ : suc (length es) + k ≡ suc n = omega arith in
    let next = λ (x : Entry × Bytes). restore_entry reader x.0 r >>= un_marshal_loop reader n x.1 in
    let later = un_marshal_loop-encode writer reader es k rest in
    rw e₁ (
      un_marshal_step reader n (encode writer.host (e ∷ es) rest) r
      ∙ ap next (un_marshal-encode writer.host reader.host e es rest f.0)
      ∙ bind_cong (restore_entry reader e r) _ _ (λ r'. later r' f.1)
      ∙ sym (restore_all_step reader e es r (un_marshal_loop reader k rest)))

-- The header of a database is accepted if its checksum is the reader's.
module _ (writer reader : Env) (rest : Bytes) (small : writer.checksum < 2 ^ 64) where
  abbrev with_checksum : Bytes
  with_checksum = put_be writer.host 8 writer.checksum ++ rest

  abbrev with_version : Bytes
  with_version = put_be writer.host 4 kcov_db_version ++ with_checksum

  abbrev with_magic : Bytes
  with_magic = put_be writer.host 4 kcov_magic ++ with_version

  header_bytes : marshal_header writer ++ rest ≡ with_magic
  unfolding marshal_header
  header_bytes = simp append_assoc

  field : ℕ → Bytes → ℕ
  field w p = get_be reader.host w (take w p)

  magic_field : field 4 with_magic ≡ kcov_magic
  unfolding field
  magic_field = read_field writer.host 4 kcov_magic with_version reader.host (omega arith)

  after_magic : drop 4 with_magic ≡ with_version
  after_magic = drop_field writer.host 4 kcov_magic with_version

  version_field : field 4 (drop 4 with_magic) ≡ kcov_db_version
  unfolding field
  version_field =
      ap (field 4) after_magic
      ∙ read_field writer.host 4 kcov_db_version with_checksum reader.host (omega arith)

  after_version : drop 8 with_magic ≡ with_checksum
  after_version =
      drop_add 4 4 with_magic
      ∙ ap (drop 4) after_magic
      ∙ drop_field writer.host 4 kcov_db_version with_checksum

  checksum_field : field 8 (drop 8 with_magic) ≡ writer.checksum
  unfolding field
  checksum_field =
      ap (field 8) after_version ∙ read_field writer.host 8 writer.checksum rest reader.host small

  after_header : drop 16 with_magic ≡ rest
  after_header =
      drop_add 8 8 with_magic
      ∙ ap (drop 8) after_version
      ∙ drop_field writer.host 8 writer.checksum rest

  pub header_lem :
      un_marshal_header reader (marshal_header writer ++ rest)
      ≡ (if eqb writer.checksum reader.checksum then some rest else none)
  unfolding un_marshal_header field
  header_lem =
      ground (arith, header_bytes, magic_field, version_field, checksum_field, after_header)
