-- ===== src/Strings/Paths.antt =====
-- split_path of src/utils.cc.
use kcov.Prelude.{
  ℕ, zero, suc, ◌+◌, ◌≡◌, refl, ◌∙◌, sym, ap, ◌⊎◌, inl, inr, Option, none, some, [], ◌∷◌, ◌++◌,
  Bytes, arith, eqb, take, drop, Option-cases, if◌then◌else◌,
}
use kcov.Strings.Split.{Without}

-- std::string::rfind of one character.
abbrev last_of : ℕ → ℕ → Option ℕ → Option ℕ
last_of c x (some pos) = some (suc pos)
last_of c x none = if eqb x c then some 0 else none

unfoldable pub rfind : ℕ → Bytes → Option ℕ
rfind c [] = none
rfind c (x ∷ xs) = last_of c x (rfind c xs)

abbrev split_at : Bytes → Option ℕ → Bytes × Bytes
split_at path none = ([], path)
split_at path (some pos) = (take (pos + 1) path, drop (pos + 1) path)

unfoldable pub split_path : Bytes → Bytes × Bytes
split_path path = split_at path (rfind b'/' path)

take-drop : (n : ℕ) (xs : Bytes) → take n xs ++ drop n xs ≡ xs
take-drop zero xs = refl
take-drop (suc n) [] = refl
take-drop (suc n) (x ∷ xs) = ap (◌∷◌ x) (take-drop n xs)

rfind-none : (c : ℕ) (xs : Bytes) → rfind c xs ≡ none → Without c xs
unfolding rfind
rfind-none c [] h = tt
rfind-none c (x ∷ xs) h = elim (Option-cases (rfind c xs)) [
  | inl absent ↦
      let step : last_of c x none ≡ none = sym (ap (last_of c x) absent) ∙ h in
      (λ e. ground arith, rfind-none c xs absent)
  | inr (pos, found) ↦ let step : some (suc pos) ≡ none = sym (ap (last_of c x) found) ∙ h in cc
]

rfind-some :
    (c : ℕ) (xs : Bytes) (pos : ℕ)
    → rfind c xs ≡ some pos
    → ((before : Bytes) × (take (suc pos) xs ≡ before ++ c ∷ [])) × Without c (drop (suc pos) xs)
unfolding rfind
rfind-some c [] pos h = cc
rfind-some c (x ∷ xs) pos h = elim (Option-cases (rfind c xs)) [
  | inl absent ↦
      let step : last_of c x none ≡ some pos = sym (ap (last_of c x) absent) ∙ h in
      let same : x ≡ c = ground arith in
      let zero_ : 0 ≡ pos = ground arith in rw (← zero_, same) (([], refl), rfind-none c xs absent)
  | inr (p, found) ↦
      let step : some (suc p) ≡ some pos = sym (ap (last_of c x) found) ∙ h in
      let next : suc p ≡ pos = ground arith in
      let ((before, is), without) = rfind-some c xs p found in
      rw (← next) ((x ∷ before, ap (◌∷◌ x) is), without)
]

-- The two parts that split_path gives are together the path; the file name has no slash, and the
-- directory is empty or ends in a slash.
pub split_path-parts :
    (path : Bytes)
    → ((split_path path).0 ++ (split_path path).1 ≡ path)
      × Without b'/' (split_path path).1
      × (((split_path path).0 ≡ [])
          ⊎ ((before : Bytes) × ((split_path path).0 ≡ before ++ b'/' ∷ [])))
unfolding split_path
split_path-parts path = elim (Option-cases (rfind b'/' path)) [
  | inl absent ↦ rw absent (refl, rfind-none b'/' path absent, inl refl)
  | inr (pos, found) ↦
      let (there, without) = rfind-some b'/' path pos found in
      let next : pos + 1 ≡ suc pos = omega arith in
      rw (found, next) (take-drop (suc pos) path, without, inr there)
]
