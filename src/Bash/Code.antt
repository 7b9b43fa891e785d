-- ===== src/Bash/Code.antt =====
-- strip_line of the bash parsers (src/engines/bash-engine.cc): the lines that it leaves empty.
use kcov.Prelude.{
  ℕ, ◌≡◌, refl, ◌∙◌, ap, Bool, true, false, ◌||◌, none, some, [], ◌∷◌, ◌++◌, Bytes, eqb, All,
  Bool-cases, inl, inr, append_assoc, if_both,
}
use kcov.Strings.Find.{starts_with}
use kcov.Strings.Search.{
  position, is_empty, is_member, cut_one, cut_end, cut_start, trim_string, blanks,
}
use kcov.Bash.Lines.{cut_comment, strip_line}

abbrev is_space : ℕ → Bool
is_space c = eqb c b' ' || eqb c 9

abbrev IsSpace : ℕ → Type 0
IsSpace c = is_space c ≡ true

-- The line's first character behind spaces and tabs is there, and is no "#".
abbrev pub HasCode : Bytes → Type 0
HasCode line =
    (pre : Bytes) × (c : ℕ) × (rest : Bytes) × (line ≡ pre ++ c ∷ rest)
    × All IsSpace pre
    × (is_space c ≡ false)
    × (eqb c b'#' ≡ false)

abbrev Prefix : Bytes → Bytes → Type 0
Prefix t line = (u : Bytes) × (line ≡ t ++ u)

cut_one-Prefix :
    (chars : Bytes) (c : ℕ) (s t : Bytes) → Prefix t s → Prefix (cut_one chars c t) (c ∷ s)
cut_one-Prefix chars c s [] (u, e) =
    if_both (λ t. Prefix t (c ∷ s)) (is_member c chars) _ _ (λ cut. (c ∷ s, refl))
      (λ kept. (u, ap (◌∷◌ c) e))
cut_one-Prefix chars c s (x ∷ t) (u, e) = (u, ap (◌∷◌ c) e)

cut_end-Prefix : (chars line : Bytes) → Prefix (cut_end chars line) line
unfolding cut_end
cut_end-Prefix chars [] = ([], refl)
cut_end-Prefix chars (c ∷ s) = cut_one-Prefix chars c s (cut_end chars s) (cut_end-Prefix chars s)

-- What is left behind spaces and tabs begins with the first character that is neither.
abbrev StartsAt : Bytes → Bytes → Type 0
StartsAt line [] = Unit {0}
StartsAt line (c ∷ s) =
    (pre : Bytes) × (rest : Bytes) × (line ≡ pre ++ c ∷ rest)
    × All IsSpace pre
    × (is_space c ≡ false)

StartsAt-cons : (c : ℕ) (line s : Bytes) → IsSpace c → StartsAt line s → StartsAt (c ∷ line) s
StartsAt-cons c line [] space h = tt
StartsAt-cons c line (x ∷ s) space (pre, rest, e, spaces, first) =
    (c ∷ pre, rest, ap (◌∷◌ c) e, (space, spaces), first)

cut_start-StartsAt : (line : Bytes) → StartsAt line (cut_start line)
unfolding cut_start
cut_start-StartsAt [] = tt
cut_start-StartsAt (c ∷ line) = elim (Bool-cases (is_space c)) [
  | inl space ↦ rw space (StartsAt-cons c line (cut_start line) space (cut_start-StartsAt line))
  | inr other ↦ rw other ([], line, refl, tt, other)
]

StartsAt-longer : (t u s : Bytes) → StartsAt t s → StartsAt (t ++ u) s
StartsAt-longer t u [] h = tt
StartsAt-longer t u (c ∷ s) (pre, rest, e, spaces, first) =
    (pre, rest ++ u, ap (λ xs. xs ++ u) e ∙ append_assoc pre (c ∷ rest) u, spaces, first)

trim_string-StartsAt : (line chars : Bytes) → StartsAt line (trim_string line chars)
unfolding trim_string
trim_string-StartsAt line chars =
    let (u, e) = cut_end-Prefix chars line in
    if_both (λ t. StartsAt line (cut_start t)) (is_empty (cut_end chars line)) _ _
      (λ blank. cut_start-StartsAt line)
      (λ some_. rw (← e) at (
        StartsAt-longer (cut_end chars line) u (cut_start (cut_end chars line))
          (cut_start-StartsAt (cut_end chars line))))

no_comment : position [] (b'#' ∷ []) ≡ none
unfolding position starts_with
no_comment = refl

comment_first : (c : ℕ) (s : Bytes) → eqb c b'#' ≡ true → position (c ∷ s) (b'#' ∷ []) ≡ some 0
unfolding position starts_with
comment_first c s is = rw is refl

cut_comment-HasCode :
    (line s : Bytes)
    → StartsAt line s
    → is_empty (cut_comment s (position s (b'#' ∷ []))) ≡ false
    → HasCode line
cut_comment-HasCode line [] h left = let none_left : true ≡ false = rw no_comment at left in cc
cut_comment-HasCode line (c ∷ s) (pre, rest, e, spaces, first) left =
    elim (Bool-cases (eqb c b'#')) [
      | inl comment ↦ let none_left : true ≡ false = rw (comment_first c s comment) at left in cc
      | inr other ↦ (pre, c, rest, e, spaces, first, other)
    ]

-- A line that keeps something when its blanks and its comment are removed.
pub strip_line-HasCode : (line : Bytes) → is_empty (strip_line line) ≡ false → HasCode line
unfolding strip_line
strip_line-HasCode line left =
    cut_comment-HasCode line (trim_string line blanks) (trim_string-StartsAt line blanks) left
