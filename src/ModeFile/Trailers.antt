-- ===== src/ModeFile/Trailers.antt =====
-- The trailer of src/system-mode/file-data.cc: what marshalling writes is read back.
use kcov.Prelude.{
  ℕ, ◌+◌, ◌*◌, ◌%◌, ◌^◌, ◌≤◌, ◌<◌, ◌≡◌, refl, ◌∙◌, ap, [], ◌∷◌, ◌++◌, Bytes, arith, length,
  length-append, take, drop, drop_add,
}
use kcov.Endian.{Host, store, load}
use kcov.Endian.RoundTrip.{length-store}
use kcov.Endian.Fields.{drop_stored, read_stored}
use kcov.ModeFile.Layout.{Trailer, sizeof_trailer, trailer_bytes, field, trailer_of, pad_to_8}

-- A field behind others.
field_after :
    (host : Host) (w offset a : ℕ) (p rest : Bytes)
    → drop offset p ≡ store host w a ++ rest
    → a < 256 ^ w
    → field host w offset p ≡ a
field_after host w offset a p rest at small =
    ap (λ xs. load host (take w xs)) at ∙ read_stored host w a rest small

drop_after :
    (host : Host) (w offset a : ℕ) (p rest : Bytes)
    → drop offset p ≡ store host w a ++ rest
    → drop (offset + w) p ≡ rest
drop_after host w offset a p rest at =
    drop_add offset w p ∙ ap (drop w) at ∙ drop_stored host w a rest

-- Every field fits its integer type.
pub record Fits (t : Trailer) : Type 0 where
  pub magic : t.magic < 2 ^ 32
  pub version : t.version < 2 ^ 32
  pub compressed_size : t.compressed_size < 2 ^ 32
  pub uncompressed_size : t.uncompressed_size < 2 ^ 32
  pub id : t.id < 2 ^ 32
  pub filename_size : t.filename_size < 2 ^ 32
  pub options_size : t.options_size < 2 ^ 32
  pub n_entries : t.n_entries < 2 ^ 16

pub trailer_of-trailer_bytes :
    (host : Host) (t : Trailer) → Fits t → trailer_of host (trailer_bytes host t) ≡ t
unfolding trailer_of trailer_bytes
trailer_of-trailer_bytes host t f =
    let p = trailer_bytes host t in
    let end_ = 0 ∷ 0 ∷ [] in
    let from_options = store host 4 t.options_size ++ (store host 2 t.n_entries ++ end_) in
    let from_filename = store host 4 t.filename_size ++ from_options in
    let from_id = store host 4 t.id ++ from_filename in
    let from_uncompressed = store host 4 t.uncompressed_size ++ from_id in
    let from_compressed = store host 4 t.compressed_size ++ from_uncompressed in
    let from_version = store host 4 t.version ++ from_compressed in
    let at₀ : drop 0 p ≡ store host 4 t.magic ++ from_version = refl in
    let at₁ : drop 4 p ≡ from_version = drop_after host 4 0 t.magic p _ at₀ in
    let at₂ : drop 8 p ≡ from_compressed = drop_after host 4 4 t.version p _ at₁ in
    let at₃ : drop 12 p ≡ from_uncompressed = drop_after host 4 8 t.compressed_size p _ at₂ in
    let at₄ : drop 16 p ≡ from_id = drop_after host 4 12 t.uncompressed_size p _ at₃ in
    let at₅ : drop 20 p ≡ from_filename = drop_after host 4 16 t.id p _ at₄ in
    let at₆ : drop 24 p ≡ from_options = drop_after host 4 20 t.filename_size p _ at₅ in
    let at₇ = drop_after host 4 24 t.options_size p _ at₆ in
    λ i. record {
      magic = field_after host 4 0 t.magic p _ at₀ f.magic i;
      version = field_after host 4 4 t.version p _ at₁ f.version i;
      compressed_size = field_after host 4 8 t.compressed_size p _ at₂ f.compressed_size i;
      uncompressed_size = field_after host 4 12 t.uncompressed_size p _ at₃ f.uncompressed_size i;
      id = field_after host 4 16 t.id p _ at₄ f.id i;
      filename_size = field_after host 4 20 t.filename_size p _ at₅ f.filename_size i;
      options_size = field_after host 4 24 t.options_size p _ at₆ f.options_size i;
      n_entries = field_after host 2 28 t.n_entries p end_ at₇ f.n_entries i;
    }

length_behind :
    (host : Host) (w a n : ℕ) (rest : Bytes)
    → length rest ≡ n
    → length (store host w a ++ rest) ≡ w + n
length_behind host w a n rest is =
    omega (arith, length-append (store host w a) rest, length-store host w a, is)

pub length-trailer_bytes :
    (host : Host) (t : Trailer) → length (trailer_bytes host t) ≡ sizeof_trailer
unfolding trailer_bytes
length-trailer_bytes host t =
    let word = length_behind host 4 in
    word t.magic 28 _ (
      word t.version 24 _ (
        word t.compressed_size 20 _ (
          word t.uncompressed_size 16 _ (
            word t.id 12 _ (
              word t.filename_size 8 _ (
                word t.options_size 4 _ (length_behind host 2 t.n_entries 2 (0 ∷ 0 ∷ []) refl)))))))

pub pad_to_8-multiple : (n : ℕ) → pad_to_8 n % 8 ≡ 0
unfolding pad_to_8
pad_to_8-multiple n = ground arith

pub pad_to_8-le : (n : ℕ) → n ≤ pad_to_8 n
unfolding pad_to_8
pad_to_8-le n = ground arith

pub pad_to_8-words : (n : ℕ) → pad_to_8 (8 * n) ≡ 8 * n
unfolding pad_to_8
pad_to_8-words n = ground arith
