-- ===== src/Strings/Search.antt =====
-- The searches of std::string that need a position, and trim_string of src/utils.cc.
use mathlib.Core.Option
use kcov.Prelude.{
  ℕ, zero, suc, Bool, true, false, ◌||◌, Option, none, some, [], ◌∷◌, Bytes, eqb, ltb,
  if◌then◌else◌, get_elem?,
}
use kcov.Strings.Find.{starts_with}

-- s.find(pattern): where it is found, `none` for npos.
unfoldable pub position : Bytes → Bytes → Option ℕ
unfolding starts_with
position [] pattern = if starts_with [] pattern then some 0 else none
position (c ∷ s) pattern =
    let later = Option.map suc (position s pattern) in
    if starts_with (c ∷ s) pattern then some 0 else later

-- s.rfind(pattern, pos) != npos
unfoldable pub occurs_until : Bytes → Bytes → ℕ → Bool
unfolding starts_with
occurs_until s pattern zero = starts_with s pattern
occurs_until [] pattern (suc pos) = starts_with [] pattern
occurs_until (c ∷ s) pattern (suc pos) = starts_with (c ∷ s) pattern || occurs_until s pattern pos

-- p < pos for a result p of find, npos being the largest.
abbrev pub is_before : Option ℕ → ℕ → Bool
is_before none pos = false
is_before (some p) pos = ltb p pos

abbrev pub is_char : Option ℕ → ℕ → Bool
is_char none c = false
is_char (some x) c = eqb x c

-- s[i] == c
abbrev pub char_at_is : Bytes → ℕ → ℕ → Bool
char_at_is s i c = is_char (get_elem? s i) c

-- s[s.size() - 1] == c
unfoldable pub last_is : Bytes → ℕ → Bool
last_is [] c = false
last_is (x ∷ []) c = eqb x c
last_is (x ∷ y ∷ s) c = last_is (y ∷ s) c

abbrev pub is_empty : Bytes → Bool
is_empty [] = true
is_empty (c ∷ s) = false

abbrev pub is_member : ℕ → Bytes → Bool
is_member c [] = false
is_member c (x ∷ set_) = eqb c x || is_member c set_

-- std::count
unfoldable pub count_char : ℕ → Bytes → ℕ
count_char c [] = 0
count_char c (x ∷ s) = let rest = count_char c s in if eqb x c then suc rest else rest

-- Without the characters behind the last one that is not in the set.
abbrev pub cut_one : Bytes → ℕ → Bytes → Bytes
cut_one chars c [] = if is_member c chars then [] else c ∷ []
cut_one chars c (x ∷ rest) = c ∷ x ∷ rest

unfoldable pub cut_end : Bytes → Bytes → Bytes
cut_end chars [] = []
cut_end chars (c ∷ s) = cut_one chars c (cut_end chars s)

-- From the first character that is neither a space nor a tab on.
unfoldable pub cut_start : Bytes → Bytes
cut_start [] = []
cut_start (c ∷ s) = let rest = cut_start s in if eqb c b' ' || eqb c 9 then rest else c ∷ s

-- trim_string: a string of nothing but end characters is not cut at its end.
unfoldable pub trim_string : Bytes → Bytes → Bytes
trim_string str chars = let cut = cut_end chars str in cut_start (if is_empty cut then str else cut)

-- The default set, " \t\n\r".
abbrev pub blanks : Bytes
blanks = b' ' ∷ 9 ∷ 10 ∷ 13 ∷ []
