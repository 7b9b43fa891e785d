-- ===== src/Reporter/RoundTrip.antt =====
-- What unMarshal of src/reporter.cc makes of a database that marshal wrote.
use kcov.Prelude.{
  append_assoc, ℕ, ◌+◌, ◌-◌, ◌*◌, ◌/◌, ◌^◌, ◌≤◌, ◌<◌, ◌≡◌, sym, ap, ◌∙◌, true, false, Option, none,
  some, List, [], ◌++◌, Bytes, arith, All, eqb, if◌then◌else◌, length, length-append,
  length-replicate, ltb, ◌>>=◌, bind_cong, bind_some, Bool-cases, inl, inr,
}
use kcov.Endian.{put_be}
use kcov.Endian.RoundTrip.{length-put_be}
use kcov.Reporter.Line.{Entry}
use kcov.Reporter.Env.{Env}
use kcov.Reporter.State.{Reporter}
use kcov.Reporter.Database.{
  un_marshal_loop, un_marshal, un_marshal_header, marshal, marshal_header, marshal_files,
  get_marshal_size, kcov_magic, kcov_db_version,
}
use kcov.Reporter.Entries.{encode, encode_onto, length-encode}
use kcov.Reporter.Zeros.{zeros, un_marshal_loop-zeros}
use kcov.Reporter.Content.{
  LineInRange, all_entries, all_entries-Fits, length-all_entries, marshal_files-encode,
}
use kcov.Reporter.Decode.{restore_all, un_marshal_loop-encode, header_lem}

length-header : (env : Env) → length (marshal_header env) ≡ 16
unfolding marshal_header
length-header env = omega (
  arith,
  length-append (put_be env.host 4 kcov_magic)
      (put_be env.host 4 kcov_db_version ++ put_be env.host 8 env.checksum),
  length-append (put_be env.host 4 kcov_db_version) (put_be env.host 8 env.checksum),
  length-put_be env.host 4 kcov_magic,
  length-put_be env.host 4 kcov_db_version,
  length-put_be env.host 8 env.checksum,
)

module _ (env : Env) (r : Reporter) (sized : All LineInRange r.heap) where
  abbrev entries : List Entry
  entries = all_entries r.heap r.files

  written_length :
      length (marshal_header env ++ marshal_files env r.heap r.files) ≡ 16 + 32 * length entries
  written_length =
      length-append (marshal_header env) (marshal_files env r.heap r.files)
      ∙ omega (
        arith,
        length-header env,
        ap (λ (b : Bytes). length b) (marshal_files-encode env r.heap r.files),
        length-encode env.host entries,
      )

  size_lem : get_marshal_size r ≡ 16 + 32 * (length entries + 31 * length entries)
  unfolding get_marshal_size
  size_lem = omega (arith, length-all_entries r.heap r.files sized)

  -- What marshal writes fits the block that it has allocated for it.
  pub marshal_fits :
      length (marshal_header env ++ marshal_files env r.heap r.files) ≤ get_marshal_size r
  marshal_fits = omega (arith, written_length, size_lem)

  -- The database is the header, the entries and a multiple of 32 zero bytes.
  marshal_lem :
      marshal env r
      ≡ marshal_header env ++ encode env.host entries (zeros (32 * (31 * length entries)))
  unfolding marshal
  marshal_lem =
      let pad = 32 * (31 * length entries) in
      let padded : get_marshal_size r
            - length (marshal_header env ++ marshal_files env r.heap r.files)
          ≡ pad =
        omega (arith, written_length, size_lem) in
      rw padded (
        rw (marshal_files-encode env r.heap r.files) (
          append_assoc (marshal_header env) (encode env.host entries []) (zeros pad)
          ∙ ap (λ (b : Bytes). marshal_header env ++ b)
              (sym (encode_onto env.host entries [] (zeros pad)))))

  length-marshal : length (marshal env r) ≡ get_marshal_size r
  unfolding marshal
  length-marshal =
      let zero_byte : ℕ = 0 in
      let written = marshal_header env ++ marshal_files env r.heap r.files in
      let pad = get_marshal_size r - length written in
      omega (arith, length-append written (zeros pad), length-replicate pad zero_byte, marshal_fits)

-- A block of whole entries behind its header.
un_marshal_of :
    (env : Env) (data_ p : Bytes) (n : ℕ) (q : Reporter)
    → length data_ ≡ 16 + 32 * n
    → un_marshal_header env data_ ≡ some p
    → un_marshal env data_ q ≡ (un_marshal_loop env n p q >>= λ q'. some (q', true))
unfolding un_marshal
un_marshal_of env data_ p n q size head =
    let long : ltb (length data_) 16 ≡ false = ground (arith, size) in
    let rounds : (length data_ - 16) / 32 ≡ n = omega (arith, size) in rw (long, head, rounds)

un_marshal_refused :
    (env : Env) (data_ : Bytes) (n : ℕ) (q : Reporter)
    → length data_ ≡ 16 + 32 * n
    → un_marshal_header env data_ ≡ none
    → un_marshal env data_ q ≡ some (q, false)
unfolding un_marshal
un_marshal_refused env data_ n q size head =
    let long : ltb (length data_) 16 ≡ false = ground (arith, size) in rw (long, head)

-- A database that one reporter writes and another reads, on hosts of any byte order: if the
-- checksums of their binaries are equal, exactly the entries of the writer's lines are restored,
-- in order; if not, the reader is left as it was.
pub un_marshal-marshal :
    (writer reader : Env) (r q : Reporter)
    → All LineInRange r.heap
    → writer.checksum < 2 ^ 64
    → un_marshal reader (marshal writer r) q ≡ (
        if eqb writer.checksum reader.checksum
        then (do q' ← restore_all reader (all_entries r.heap r.files) q; some (q', true))
        else some (q, false))
un_marshal-marshal writer reader r q sized small =
    let es = all_entries r.heap r.files in
    let more = 31 * length es in
    let body = encode writer.host es (zeros (32 * more)) in
    let size : length (marshal writer r) ≡ 16 + 32 * (length es + more) =
      length-marshal writer r sized ∙ size_lem writer r sized in
    let head =
      ap (un_marshal_header reader) (marshal_lem writer r sized)
      ∙ header_lem writer reader body small in
    elim (Bool-cases (eqb writer.checksum reader.checksum)) [
      | inl same ↦ rw same (
          un_marshal_of reader (marshal writer r) body (length es + more) q size (head ∙ rw same)
          ∙ ap (λ (o : Option Reporter). o >>= λ q'. some (q', true))
              (un_marshal_loop-encode writer reader es more (zeros (32 * more)) q
                  (all_entries-Fits r.heap r.files sized)
                ∙ bind_cong (restore_all reader es q) _ _ (un_marshal_loop-zeros reader more)
                ∙ bind_some (restore_all reader es q)))
      | inr other ↦
          rw other (
            un_marshal_refused reader (marshal writer r) (length es + more) q size
              (head ∙ rw other))
    ]
