-- ===== src/ModeFile/RoundTrip.antt =====
-- src/system-mode/file-data.cc: what getProcessedData makes of a file is parsed as that file.
use kcov.Prelude.{
  ℕ, ◌+◌, ◌-◌, ◌*◌, ◌%◌, ◌^◌, ◌<◌, ◌≡◌, refl, ◌∙◌, sym, ap, true, false, not, ◌||◌, some, [], ◌++◌,
  Bytes, arith, eqb, ltb, leb, length, length-append, take, drop, take-length-append,
  drop-length-append, append_assoc, append-nil, All, bind_to,
}
use kcov.Strings.Escape.{c_string}
use kcov.Strings.CString.{NonZero}
use kcov.Endian.{Host}
use kcov.ModeFile.Layout.{sizeof_trailer, trailer_bytes, trailer_of, un_marshal_trailer, pad_to_8}
use kcov.ModeFile.Trailers.{
  Fits, trailer_of-trailer_bytes, length-trailer_bytes, pad_to_8-multiple, pad_to_8-words,
}
use kcov.ModeFile.Parts.{
  length-padding, length-string_part, c_string-string_part, last_char-string_part,
  read_entries-entries_bytes, length-entries_bytes, add_entries_lem,
}
use kcov.ModeFile.{
  SystemModeFile, string_part, entries_bytes, trailer_for, padding, body_bytes, clears_inside,
  get_processed_data, uncompress_entries, read_entries, last_char, entries_start, options_start,
  filename_start, parse_entries, parse_strings, parse_trailer, from_processed_file,
}

-- A file with entries whose parts have the sizes that the trailer can hold.
pub record Storable (f : SystemModeFile) : Type 0 where
  pub filename : All NonZero f.filename
  pub options : All NonZero f.options
  pub id : f.id < 2 ^ 32
  pub values : All (λ e. e < 2 ^ 64) f.entries
  pub some_entries : 0 < length f.entries
  pub few_entries : length f.entries < 2 ^ 16
  pub short_filename : pad_to_8 (length f.filename + 1) < 2 ^ 32
  pub short_options : pad_to_8 (length f.options + 1) < 2 ^ 32
  pub inside : clears_inside f ≡ true

-- Entries that are stored as they are.
uncompress_same :
    (data_ : Bytes) (n m : ℕ) → n ≡ m → uncompress_entries data_ n m ≡ some (take m data_)
unfolding uncompress_entries
uncompress_same data_ n m same =
    let enough : leb m m ≡ true = ground arith in
    let none_left : m - m ≡ 0 = omega arith in
    rw (same, enough, none_left) (ap some (append-nil (take m data_)))

module _ (host : Host) (f : SystemModeFile) (h : Storable f) where
  abbrev name_size : ℕ
  name_size = pad_to_8 (length f.filename + 1)

  abbrev options_size : ℕ
  options_size = pad_to_8 (length f.options + 1)

  abbrev entries_size : ℕ
  entries_size = 8 * length f.entries

  abbrev front : Bytes
  front = f.data_ ++ padding (length f.data_)

  abbrev behind : Bytes
  behind = entries_bytes host f.entries ++ trailer_bytes host (trailer_for f)

  abbrev out : Bytes
  out = body_bytes host f ++ trailer_bytes host (trailer_for f)

  trailer_for-Fits : Fits (trailer_for f)
  unfolding trailer_for
  trailer_for-Fits =
      let words = pad_to_8-words (length f.entries) in
      record {
        magic = omega arith;
        version = omega arith;
        compressed_size = omega (arith, words, h.few_entries);
        uncompressed_size = omega (arith, h.few_entries);
        id = h.id;
        filename_size = h.short_filename;
        options_size = h.short_options;
        n_entries = omega arith;
      }

  trailer_for_accepted : un_marshal_trailer (trailer_for f) ≡ true
  unfolding un_marshal_trailer trailer_for
  trailer_for_accepted =
      ground
        (arith, pad_to_8-multiple (length f.filename + 1), pad_to_8-multiple (length f.options + 1))

  length-front : length front ≡ pad_to_8 (length f.data_)
  length-front = length-append f.data_ (padding (length f.data_)) ∙ length-padding (length f.data_)

  length-body :
      length (body_bytes host f) ≡ length front + (name_size + (options_size + entries_size))
  unfolding body_bytes
  length-body =
      let later = string_part f.options ++ entries_bytes host f.entries in
      omega (
        arith,
        length-append front (string_part f.filename ++ later),
        length-append (string_part f.filename) later,
        length-append (string_part f.options) (entries_bytes host f.entries),
        length-string_part f.filename h.filename,
        length-string_part f.options h.options,
        length-entries_bytes host f.entries,
      )

  -- The block at its three places.
  at_name : out ≡ front ++ (string_part f.filename ++ (string_part f.options ++ behind))
  unfolding body_bytes
  at_name = simp append_assoc

  at_options : out ≡ (front ++ string_part f.filename) ++ (string_part f.options ++ behind)
  at_options = at_name ∙ sym (append_assoc front (string_part f.filename) _)

  at_entries : out ≡ ((front ++ string_part f.filename) ++ string_part f.options) ++ behind
  at_entries = at_options ∙ sym (append_assoc (front ++ string_part f.filename) _ behind)

  abbrev start : ℕ
  start = length (body_bytes host f)

  words : pad_to_8 (8 * length f.entries) ≡ entries_size
  words = pad_to_8-words (length f.entries)

  length-named : length (front ++ string_part f.filename) ≡ length front + name_size
  length-named = omega (
    arith,
    length-append front (string_part f.filename),
    length-string_part f.filename h.filename,
  )

  length-optioned :
      length ((front ++ string_part f.filename) ++ string_part f.options)
      ≡ length front + name_size + options_size
  length-optioned = omega (
    arith,
    length-append (front ++ string_part f.filename) (string_part f.options),
    length-named,
    length-string_part f.options h.options,
  )

  options_start_is : options_start start (trailer_for f) ≡ length front + name_size
  unfolding trailer_for
  options_start_is = omega (arith, length-body, words)

  entries_start_is : entries_start start (trailer_for f) ≡ length front + name_size + options_size
  unfolding trailer_for
  entries_start_is = omega (arith, length-body, words)

  filename_start_is : filename_start start (trailer_for f) ≡ some (length front)
  unfolding trailer_for
  filename_start_is = ground (arith, length-body, words)

  name_last : last_char out name_size (options_start start (trailer_for f)) ≡ some 0
  name_last =
      ap (λ xs. last_char xs name_size (options_start start (trailer_for f))) at_name
      ∙ last_char-string_part front f.filename _ name_size _ h.filename refl options_start_is

  options_last : last_char out options_size (entries_start start (trailer_for f)) ≡ some 0
  options_last =
      ap (λ xs. last_char xs options_size (entries_start start (trailer_for f))) at_options
      ∙ last_char-string_part (front ++ string_part f.filename) f.options _ options_size _ h.options
          refl (omega (arith, entries_start_is, length-named))

  -- The data from a place on, where something else stands before it.
  drop_to :
      (n : ℕ) (before rest : Bytes) → out ≡ before ++ rest → n ≡ length before → drop n out ≡ rest
  drop_to n before rest split at =
      ap (λ k. drop k out) at ∙ ap (drop (length before)) split ∙ drop-length-append before rest

  name_back : c_string (drop (length front) out) ≡ f.filename
  name_back =
      ap c_string (drop_to (length front) front _ at_name refl)
      ∙ c_string-string_part f.filename _ h.filename

  options_back : c_string (drop (options_start start (trailer_for f)) out) ≡ f.options
  options_back =
      ap c_string (
        drop_to _ (front ++ string_part f.filename) _ at_options
          (options_start_is ∙ sym length-named))
      ∙ c_string-string_part f.options behind h.options

  block_back :
      uncompress_entries
        (drop (entries_start start (trailer_for f)) out)
        (pad_to_8 (8 * length f.entries))
        (8 * length f.entries)
      ≡ some (entries_bytes host f.entries)
  block_back =
      let at =
        drop_to _ ((front ++ string_part f.filename) ++ string_part f.options) behind at_entries
          (entries_start_is ∙ sym length-optioned) in
      let size = length-entries_bytes host f.entries in
      let taken : take entries_size behind ≡ entries_bytes host f.entries =
        ap (λ n. take n behind) (sym size)
        ∙ take-length-append (entries_bytes host f.entries) (trailer_bytes host (trailer_for f)) in
      uncompress_same (drop (entries_start start (trailer_for f)) out) _ _ words
      ∙ ap (λ xs. some (take entries_size xs)) at
      ∙ ap some taken

  entries_back :
      read_entries host (length f.entries % 2 ^ 16) (entries_bytes host f.entries) ≡ some f.entries
  entries_back =
      let all_ : length f.entries % 2 ^ 16 ≡ length f.entries = omega (arith, h.few_entries) in
      ap (λ n. read_entries host n (entries_bytes host f.entries)) all_
      ∙ ap (read_entries host (length f.entries)) (sym (append-nil (entries_bytes host f.entries)))
      ∙ read_entries-entries_bytes host f.entries [] h.values

  fields_back :
      record {
        filename = c_string (drop (length front) out);
        options = c_string (drop (options_start start (trailer_for f)) out);
        id = f.id;
        data_ = out;
        entries = f.entries;
      }
      ≡ record f { data_ = out }
  fields_back = λ i. record {
    filename = name_back i;
    options = options_back i;
    id = f.id;
    data_ = out;
    entries = f.entries;
  }

  parse_entries_back :
      parse_entries host out start (trailer_for f) ≡ some (some (record f { data_ = out }))
  unfolding parse_entries trailer_for
  parse_entries_back = bind_to _ filename_start_is (
      bind_to _ block_back (
        bind_to _ entries_back
          (ap (λ g. some (some g)) (add_entries_lem _ 0 f.entries refl ∙ fields_back))))

  length-out : length out ≡ start + sizeof_trailer
  length-out =
      length-append (body_bytes host f) (trailer_bytes host (trailer_for f))
      ∙ ap (λ n. start + n) (length-trailer_bytes host (trailer_for f))

  trailer_back : trailer_of host (drop start out) ≡ trailer_for f
  trailer_back =
      ap (trailer_of host) (drop-length-append (body_bytes host f) _)
      ∙ trailer_of-trailer_bytes host (trailer_for f) trailer_for-Fits

  parse_strings_back :
      parse_strings host out start (trailer_for f) ≡ some (some (record f { data_ = out }))
  unfolding parse_strings trailer_for
  parse_strings_back =
      let sizes_fit : ltb (length out + sizeof_trailer)
            ((name_size + options_size + pad_to_8 (8 * length f.entries)) % 2 ^ 32)
          ≡ false =
        ground (arith, length-out, length-body, words) in
      rw sizes_fit (bind_to _ name_last (bind_to _ options_last parse_entries_back))

  parsed_back : from_processed_file host out ≡ some (some (record f { data_ = out }))
  unfolding from_processed_file
  parsed_back =
      let multiple : length out % 8 ≡ 0 = omega (
        arith,
        length-out,
        length-body,
        length-front,
        pad_to_8-multiple (length f.data_),
        pad_to_8-multiple (length f.filename + 1),
        pad_to_8-multiple (length f.options + 1),
      ) in
      let aligned : eqb (length out) 0 || not (eqb (length out % 8) 0) ≡ false =
        ground (arith, length-out, multiple) in
      let long : ltb (length out) sizeof_trailer ≡ false = ground (arith, length-out) in
      let at : length out - sizeof_trailer ≡ start = omega (arith, length-out) in
      let parsed : parse_trailer host out start (trailer_for f)
          ≡ some (some (record f { data_ = out })) =
        rw trailer_for_accepted parse_strings_back in
      rw (aligned, long)
        (ap (λ k. parse_trailer host out k (trailer_of host (drop k out))) at
          ∙ ap (parse_trailer host out start) trailer_back
          ∙ parsed)

-- What getProcessedData makes of a file with entries, fromProcessedFile reads as that file, whose
-- data is now the whole block, on a host of any byte order: where both strings are texts without
-- NUL, every value fits its integer, there are fewer than 2 ^ 16 entries, and the stray write
-- behind the options is within the block.
pub from_processed_file-get_processed_data :
    (host : Host) (f : SystemModeFile)
    → Storable f
    → (out : Bytes) × (get_processed_data host f ≡ some out)
      × (from_processed_file host out ≡ some (some (record f { data_ = out })))
unfolding get_processed_data
from_processed_file-get_processed_data host f h =
    let entries : eqb (length f.entries) 0 ≡ false = ground (arith, h.some_entries) in
    (out host f h, rw (entries, h.inside) refl, parsed_back host f h)
