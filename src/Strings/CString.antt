-- ===== src/Strings/CString.antt =====
-- Strings that C ends with a NUL.
use kcov.Prelude.{ℕ, ◌≡◌, ◌≢◌, refl, [], ◌∷◌, ◌++◌, Bytes, arith, All}
use kcov.Strings.Escape.{c_string}

abbrev pub NonZero : ℕ → Type 0
NonZero c = c ≢ 0

pub c_string-end : (s rest : Bytes) → All NonZero s → c_string (s ++ 0 ∷ rest) ≡ s
unfolding c_string
c_string-end [] rest h = refl
c_string-end (c ∷ s) rest h = ground (arith, h.0, c_string-end s rest h.1)

-- A text without NUL is its own C string.
pub c_string_text : (s : Bytes) → All NonZero s → c_string s ≡ s
unfolding c_string
c_string_text [] h = refl
c_string_text (c ∷ s) h = ground (arith, h.0, c_string_text s h.1)
