-- ===== src/Strings/Find.antt =====
-- std::string::find as the program calls it: for a whole pattern, compared with npos or with 0.
use kcov.Prelude.{
  ℕ, ◌≡◌, refl, ap, ◌↔◌, Bool, Bool-cases, inl, inr, true, false, ◌&&◌, ◌||◌, [], ◌∷◌, ◌++◌, Bytes,
  arith, eqb,
}

-- s.find(pattern) ≟ 0
unfoldable pub starts_with : Bytes → Bytes → Bool
starts_with s [] = true
starts_with [] (p ∷ ps) = false
starts_with (c ∷ s) (p ∷ ps) = eqb c p && starts_with s ps

-- s.find(pattern) != std::string::npos
unfoldable pub contains : Bytes → Bytes → Bool
unfolding starts_with
contains [] pattern = starts_with [] pattern
contains (c ∷ s) pattern = starts_with (c ∷ s) pattern || contains s pattern

starts_with-append : (pattern rest : Bytes) → starts_with (pattern ++ rest) pattern ≡ true
unfolding starts_with
starts_with-append [] [] = refl
starts_with-append [] (c ∷ s) = refl
starts_with-append (p ∷ ps) rest = ground (arith, starts_with-append ps rest)

split_at_pattern :
    (s pattern : Bytes) → starts_with s pattern ≡ true → (rest : Bytes) × (s ≡ pattern ++ rest)
unfolding starts_with
split_at_pattern s [] h = (s, refl)
split_at_pattern [] (p ∷ ps) h = cc
split_at_pattern (c ∷ s) (p ∷ ps) h =
    let (rest, e) = split_at_pattern s ps (ground arith) in (rest, ground arith)

-- `pattern` is found at the front exactly when the string splits there.
pub starts_with_iff :
    (s pattern : Bytes) → (starts_with s pattern ≡ true) ↔ ((rest : Bytes) × (s ≡ pattern ++ rest))
starts_with_iff s pattern =
    (split_at_pattern s pattern, λ (rest, e). rw e (starts_with-append pattern rest))

contains-starts_with :
    (s pattern : Bytes) → starts_with s pattern ≡ true → contains s pattern ≡ true
unfolding contains
contains-starts_with [] pattern h = h
contains-starts_with (c ∷ s) pattern h = ground arith

contains_later :
    (c : ℕ) (s pattern : Bytes) → contains s pattern ≡ true → contains (c ∷ s) pattern ≡ true
unfolding contains
contains_later c s pattern h = ground arith

contains-append :
    (before s pattern : Bytes)
    → starts_with s pattern ≡ true
    → contains (before ++ s) pattern ≡ true
contains-append [] s pattern h = contains-starts_with s pattern h
contains-append (c ∷ cs) s pattern h =
    contains_later c (cs ++ s) pattern (contains-append cs s pattern h)

find_split :
    (s pattern : Bytes)
    → contains s pattern ≡ true
    → (before after : Bytes) × (s ≡ before ++ (pattern ++ after))
find_split [] pattern h =
    let (after, e) = split_at_pattern [] pattern (unfold contains in h) in ([], after, e)
find_split (c ∷ s) pattern h = elim (Bool-cases (starts_with (c ∷ s) pattern)) [
  | inl found ↦ let (after, e) = split_at_pattern (c ∷ s) pattern found in ([], after, e)
  | inr later ↦
      let rest : contains s pattern ≡ true = unfold contains in ground arith in
      let (before, after, e) = find_split s pattern rest in (c ∷ before, after, ap (◌∷◌ c) e)
]

-- `pattern` is found somewhere exactly when the string splits around it.
pub contains_iff :
    (s pattern : Bytes)
    → (contains s pattern ≡ true) ↔ ((before after : Bytes) × (s ≡ before ++ (pattern ++ after)))
contains_iff s pattern = (
  find_split s pattern,
  λ (before, after, e).
      rw e (contains-append before (pattern ++ after) pattern (starts_with-append pattern after)),
)
