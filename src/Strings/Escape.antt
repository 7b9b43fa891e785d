-- ===== src/Strings/Escape.antt =====
-- escape_html and escape_json of src/utils.cc.
use kcov.Prelude.{
  length-take_le, ℕ, suc, ◌+◌, ◌*◌, ◌≤◌, ◌≡◌, refl, Bool, true, ◌||◌, ◌&&◌, not, [], ◌∷◌, ◌++◌,
  Bytes, arith, eqb, ltb, if◌then◌else◌, length, length-append, take, Bool-cases, inl, inr,
}

-- str.c_str() as a string: it ends before the first NUL.
unfoldable pub c_string : Bytes → Bytes
c_string [] = []
c_string (c ∷ s) = let rest = c_string s in if eqb c 0 then [] else c ∷ rest

-- "&lt;", "&gt;", "&amp;", "&quot;", "&#039;", "&#047;", "&#092;", " ".
unfoldable pub html_char : ℕ → Bytes
html_char c =
    if eqb c b'<'
    then b'&' ∷ b'l' ∷ b't' ∷ b';' ∷ []
    else if eqb c b'>'
    then b'&' ∷ b'g' ∷ b't' ∷ b';' ∷ []
    else if eqb c b'&'
    then b'&' ∷ b'a' ∷ b'm' ∷ b'p' ∷ b';' ∷ []
    else if eqb c b'"'
    then b'&' ∷ b'q' ∷ b'u' ∷ b'o' ∷ b't' ∷ b';' ∷ []
    else if eqb c 39
    then b'&' ∷ b'#' ∷ b'0' ∷ b'3' ∷ b'9' ∷ b';' ∷ []
    else if eqb c b'/'
    then b'&' ∷ b'#' ∷ b'0' ∷ b'4' ∷ b'7' ∷ b';' ∷ []
    else if eqb c 92
    then b'&' ∷ b'#' ∷ b'0' ∷ b'9' ∷ b'2' ∷ b';' ∷ []
    else if eqb c 10 || eqb c 13
    then b' ' ∷ []
    else c ∷ []

-- What the loop leaves in `buf`.
unfoldable pub html_loop : Bytes → Bytes
html_loop [] = []
html_loop (c ∷ s) = html_char c ++ html_loop s

-- The part that is escaped, at most 512 characters.
unfoldable pub html_part : Bytes → Bytes
html_part str = let s = c_string str in if ltb 512 (length s) then take 512 s else s

unfoldable pub escape_html : Bytes → Bytes
escape_html str =
    let buf = html_loop (html_part str) in
    if ltb 512 (length (c_string str)) then buf ++ b'.' ∷ b'.' ∷ b'.' ∷ [] else buf

-- The characters of escapeChars: " \ tab CR '
abbrev pub is_escape : ℕ → Bool
is_escape c = eqb c b'"' || (eqb c 92 || (eqb c 9 || (eqb c 13 || eqb c 39)))

unfoldable pub n_escapes : Bytes → ℕ
n_escapes [] = 0
n_escapes (c ∷ str) = let rest = n_escapes str in if is_escape c then suc rest else rest

unfoldable pub json_char : ℕ → Bytes
json_char c = if eqb c 9 then 92 ∷ b't' ∷ [] else if is_escape c then 92 ∷ c ∷ [] else c ∷ []

-- What the loop writes to `out`, one character behind the other.
unfoldable pub json_loop : Bytes → Bytes
json_loop [] = []
json_loop (c ∷ str) = json_char c ++ json_loop str

unfoldable pub escape_json : Bytes → Bytes
escape_json str = if eqb (n_escapes str) 0 then str else json_loop str

-- Not special in HTML but for the ampersand, which begins an entity.
abbrev pub is_plain : ℕ → Bool
is_plain c =
    not (eqb c b'<' || (eqb c b'>' || (eqb c b'"' || (eqb c 39 || (eqb c 10 || eqb c 13)))))

abbrev pub all_plain : Bytes → Bool
all_plain [] = true
all_plain (c ∷ s) = is_plain c && all_plain s

all_plain-append : (s t : Bytes) → all_plain (s ++ t) ≡ (all_plain s && all_plain t)
all_plain-append [] t = refl
all_plain-append (c ∷ s) t = ground (arith, all_plain-append s t)

all_plain-html_char : (c : ℕ) → all_plain (html_char c) ≡ true
unfolding html_char
all_plain-html_char c = ground arith

all_plain-html_loop : (s : Bytes) → all_plain (html_loop s) ≡ true
unfolding html_loop
all_plain-html_loop [] = refl
all_plain-html_loop (c ∷ s) =
    rw (all_plain-append (html_char c) (html_loop s), all_plain-html_char c, all_plain-html_loop s)
      refl

-- The text that escape_html gives has no <, no >, no quotation mark, no apostrophe and no end of
-- a line.
pub all_plain-escape_html : (str : Bytes) → all_plain (escape_html str) ≡ true
unfolding escape_html
all_plain-escape_html str =
    let buf = all_plain-html_loop (html_part str) in
    elim (Bool-cases (ltb 512 (length (c_string str)))) [
      | inl long ↦
          rw (long, all_plain-append (html_loop (html_part str)) (b'.' ∷ b'.' ∷ b'.' ∷ []), buf)
            refl
      | inr short ↦ rw short buf
    ]

length-html_char : (c : ℕ) → length (html_char c) ≤ 6
unfolding html_char
length-html_char c = ground arith

length-html_loop : (s : Bytes) → length (html_loop s) ≤ 6 * length s
unfolding html_loop
length-html_loop [] = omega arith
length-html_loop (c ∷ s) =
    omega (arith, length-append (html_char c) (html_loop s), length-html_char c, length-html_loop s)

length-html_part : (str : Bytes) → length (html_part str) ≤ 512
unfolding html_part
length-html_part str = elim (Bool-cases (ltb 512 (length (c_string str)))) [
  | inl long ↦ rw long (length-take_le 512 (c_string str))
  | inr short ↦ rw short (ground arith)
]

-- Whatever its argument, the loop of escape_html writes at most 3072 characters, so that they and
-- the NUL behind them stay in its buffer of 4096.
pub html_loop_fits : (str : Bytes) → length (html_loop (html_part str)) + 1 ≤ 4096
html_loop_fits str = omega (arith, length-html_loop (html_part str), length-html_part str)

length-json_char : (c : ℕ) → length (json_char c) ≡ (if is_escape c then 2 else 1)
unfolding json_char
length-json_char c = ground arith

-- The loop of escape_json fills exactly the room that the count of escapes has made.
pub length-json_loop : (str : Bytes) → length (json_loop str) ≡ length str + n_escapes str
unfolding json_loop n_escapes
length-json_loop [] = omega arith
length-json_loop (c ∷ str) =
    let one = length-json_char c in
    let rest = length-json_loop str in
    let both = length-append (json_char c) (json_loop str) in ground arith
