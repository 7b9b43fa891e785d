-- ===== src/Tests/Basics.antt =====
-- The byte order conversions of src/include/swap-endian.hh and the string helpers of src/utils.cc.
use kcov.Prelude.{ascii, ◌≡◌, refl, ◌⊎◌, [], ◌∷◌, ◌++◌, All}
use kcov.Endian.{little_endian, big_endian, swap_endian, to_be, put_be, cpu_is_little_endian}
use kcov.Strings.Split.{split_string, terminated, Without, split_string-terminated}

swap_16 : swap_endian little_endian 2 0x1122 ≡ 0x2211
unfolding swap_endian
swap_16 = refl

magic_bytes : put_be little_endian 4 0x6b636f76 ≡ ascii "kcov"
unfolding put_be to_be cpu_is_little_endian swap_endian
magic_bytes = refl

magic_bytes_big : put_be big_endian 4 0x6b636f76 ≡ ascii "kcov"
unfolding put_be to_be cpu_is_little_endian swap_endian
magic_bytes_big = refl

split_lines : split_string (ascii "a\n\nbc\n") b'\n' ≡ ascii "a" ∷ ascii "" ∷ ascii "bc" ∷ []
unfolding split_string
split_lines = refl

split_string-terminated_example :
    ((terminated b',' (split_string (ascii "a,b") b',') ≡ ascii "a,b")
      ⊎ (terminated b',' (split_string (ascii "a,b") b',') ≡ ascii "a,b" ++ b',' ∷ []))
    × All (Without b',') (split_string (ascii "a,b") b',')
split_string-terminated_example = split_string-terminated (ascii "a,b") b','
