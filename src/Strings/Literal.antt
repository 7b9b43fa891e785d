-- ===== src/Strings/Literal.antt =====
-- The texts of escape_json (src/utils.cc) as JavaScript reads them: the html writer puts them
-- between the quotation marks of the source text `var data = {...}`.
use kcov.Prelude.{
  ℕ, ◌≡◌, refl, sym, ◌∙◌, ap, Bool, true, false, ◌||◌, ◌&&◌, Option, none, some, [], ◌∷◌, ◌++◌,
  Bytes, arith, eqb, leb, if◌then◌else◌, All, Bool-cases, inl, inr, append_assoc,
}
use kcov.Strings.Escape.{is_escape, n_escapes, json_char, json_loop, escape_json}

abbrev pub is_line_end : ℕ → Bool
is_line_end c = eqb c 10 || eqb c 13

-- The character that a backslash and `c` stand for in ECMAScript: \b \t \n \v \f \r, and any other
-- character for itself, without the escapes by number (a digit, x or u) and line continuations.
abbrev pub escaped_char : ℕ → Option ℕ
escaped_char c =
    if eqb c b'b'
    then some 8
    else if eqb c b't'
    then some 9
    else if eqb c b'n'
    then some 10
    else if eqb c b'v'
    then some 11
    else if eqb c b'f'
    then some 12
    else if eqb c b'r'
    then some 13
    else if (leb b'0' c && leb c b'9') || (eqb c b'x' || (eqb c b'u' || is_line_end c))
    then none
    else some c

abbrev pub before_read : Option ℕ → Option (Bytes × Bytes) → Option (Bytes × Bytes)
before_read (some c) (some (s, rest)) = some (c ∷ s, rest)
before_read (some c) none = none
before_read none read_ = none

-- What stands behind an opening quotation mark: the text of the literal, and the source behind the
-- closing one. The flag: a backslash has been read.
abbrev pub read_literal : Bool → Bytes → Option (Bytes × Bytes)
read_literal escaped [] = none
read_literal true (c ∷ s) = before_read (escaped_char c) (read_literal false s)
read_literal false (c ∷ s) =
    let plain = read_literal false s in
    let special = read_literal true s in
    if eqb c b'"'
    then some ([], s)
    else if eqb c 92
    then special
    else if is_line_end c
    then none
    else before_read (some c) plain

abbrev pub InLine : ℕ → Type 0
InLine c = is_line_end c ≡ false

read_literal-json_char :
    (c : ℕ) (s : Bytes)
    → InLine c
    → read_literal false (json_char c ++ s) ≡ before_read (some c) (read_literal false s)
unfolding json_char
read_literal-json_char c s line = ground arith

json_char_same : (c : ℕ) → is_escape c ≡ false → json_char c ≡ c ∷ []
unfolding json_char
json_char_same c h = ground arith

json_loop_same : (str : Bytes) → n_escapes str ≡ 0 → json_loop str ≡ str
unfolding json_loop n_escapes
json_loop_same [] h = refl
json_loop_same (c ∷ str) h = elim (Bool-cases (is_escape c)) [
  | inl escaped ↦ ground arith
  | inr plain ↦ rw (json_char_same c plain) (ap (◌∷◌ c) (json_loop_same str (ground arith)))
]

read_literal-json_loop :
    (str rest : Bytes)
    → All InLine str
    → read_literal false (json_loop str ++ b'"' ∷ rest) ≡ some (str, rest)
unfolding json_loop
read_literal-json_loop [] rest lines = refl
read_literal-json_loop (c ∷ str) rest (line, lines) =
    ap (read_literal false) (append_assoc (json_char c) (json_loop str) (b'"' ∷ rest))
    ∙ read_literal-json_char c (json_loop str ++ b'"' ∷ rest) line
    ∙ ap (before_read (some c)) (read_literal-json_loop str rest lines)

-- A text without an end of a line, escaped by escape_json and put between quotation marks, is one
-- string literal of JavaScript: the literal ends at the closing mark, not before, and it is the
-- text.
pub read_literal-escape_json :
    (str rest : Bytes)
    → All InLine str
    → read_literal false (escape_json str ++ b'"' ∷ rest) ≡ some (str, rest)
unfolding escape_json
read_literal-escape_json str rest lines = elim (Bool-cases (eqb (n_escapes str) 0)) [
  | inl none_ ↦
      let same = json_loop_same str (ground arith) in
      rw none_ (
        ap (λ s. read_literal false (s ++ b'"' ∷ rest)) (sym same)
        ∙ read_literal-json_loop str rest lines)
  | inr some_ ↦ rw some_ (read_literal-json_loop str rest lines)
]
