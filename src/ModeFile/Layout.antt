-- ===== src/ModeFile/Layout.antt =====
-- struct trailer of src/include/system-mode/file-data.hh, as it lies in memory.
use kcov.Prelude.{
  ℕ, ◌+◌, ◌-◌, ◌%◌, Bool, ◌&&◌, [], ◌∷◌, ◌++◌, Bytes, eqb, if◌then◌else◌, take, drop,
}
use kcov.Endian.{Host, store, load}

-- struct trailer
pub record Trailer : Type 0 where
  pub magic : ℕ
  pub version : ℕ
  pub compressed_size : ℕ
  pub uncompressed_size : ℕ
  pub id : ℕ
  pub filename_size : ℕ
  pub options_size : ℕ
  pub n_entries : ℕ

abbrev pub trailer_magic : ℕ
trailer_magic = 0x19992000

abbrev pub trailer_version : ℕ
trailer_version = 1

abbrev pub sizeof_trailer : ℕ
sizeof_trailer = 32

-- The trailer in the host's memory, with the two bytes behind its last field.
unfoldable pub trailer_bytes : Host → Trailer → Bytes
trailer_bytes host t =
    store host 4 t.magic
    ++ (store host 4 t.version
        ++ (store host 4 t.compressed_size
            ++ (store host 4 t.uncompressed_size
                ++ (store host 4 t.id
                    ++ (store host 4 t.filename_size
                        ++ (store host 4 t.options_size
                            ++ (store host 2 t.n_entries ++ 0 ∷ 0 ∷ [])))))))

abbrev pub field : Host → ℕ → ℕ → Bytes → ℕ
field host w offset p = load host (take w (drop offset p))

unfoldable pub trailer_of : Host → Bytes → Trailer
trailer_of host p = record {
  magic = field host 4 0 p;
  version = field host 4 4 p;
  compressed_size = field host 4 8 p;
  uncompressed_size = field host 4 12 p;
  id = field host 4 16 p;
  filename_size = field host 4 20 p;
  options_size = field host 4 24 p;
  n_entries = field host 2 28 p;
}

unfoldable pub un_marshal_trailer : Trailer → Bool
un_marshal_trailer t =
    eqb t.magic trailer_magic
    && (eqb t.version trailer_version
        && (eqb (t.filename_size % 8) 0 && eqb (t.options_size % 8) 0))

unfoldable pub pad_to_8 : ℕ → ℕ
pad_to_8 sz = if eqb (sz % 8) 0 then sz else sz + (8 - sz % 8)
