-- ===== src/Endian/Fields.antt =====
-- Integers in front of other data, written by src/include/swap-endian.hh and read back.
use kcov.Prelude.{
  ℕ, ◌^◌, ◌<◌, ◌≡◌, ap, ◌∙◌, ◌++◌, Bytes, take, drop, take-length-append, drop-length-append,
}
use kcov.Endian.{Host, store, load, put_be, get_be}
use kcov.Endian.RoundTrip.{get_be-put_be, length-put_be, length-store, load-store}

-- A w-byte field in front of the rest of the data.
module _ (writer : Host) (w a : ℕ) (rest : Bytes) where
  pub take_field : take w (put_be writer w a ++ rest) ≡ put_be writer w a
  take_field = rw (length-put_be writer w a) at (take-length-append (put_be writer w a) rest)

  pub drop_field : drop w (put_be writer w a ++ rest) ≡ rest
  drop_field = rw (length-put_be writer w a) at (drop-length-append (put_be writer w a) rest)

  pub read_field :
      (reader : Host) → a < 256 ^ w → get_be reader w (take w (put_be writer w a ++ rest)) ≡ a
  read_field reader h = ap (get_be reader w) take_field ∙ get_be-put_be writer reader w a h

-- The same of a field in the host's own byte order.
module _ (host : Host) (w a : ℕ) (rest : Bytes) where
  pub drop_stored : drop w (store host w a ++ rest) ≡ rest
  drop_stored = rw (length-store host w a) at (drop-length-append (store host w a) rest)

  pub read_stored : a < 256 ^ w → load host (take w (store host w a ++ rest)) ≡ a
  read_stored h =
      ap (load host) (rw (length-store host w a) at (take-length-append (store host w a) rest))
      ∙ load-store host w a h
