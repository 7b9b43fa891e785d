-- ===== src/Strings/Split.antt =====
-- split and split_string of src/utils.cc: std::getline on a string stream, until it fails.
use kcov.Prelude.{
  append_assoc, ℕ, ◌≡◌, ◌≢◌, refl, ap, ◌∙◌, ◌⊎◌, inl, inr, true, false, List, [], ◌∷◌, ◌++◌, Bytes,
  arith, eqb, eqb_iff, Bool-cases, All, All-append,
}

-- At the end of the stream getline fails if it has extracted nothing.
abbrev last_item : Bytes → List Bytes
last_item [] = []
last_item (c ∷ cs) = (c ∷ cs) ∷ []

-- `item` holds the characters that the getline in progress has read.
split_from : ℕ → Bytes → Bytes → List Bytes
split_from delim item [] = last_item item
split_from delim item (c ∷ s) = elim (eqb c delim) [
  | true ↦ item ∷ split_from delim [] s
  | false ↦ split_from delim (item ++ c ∷ []) s
]

-- The program passes one-character strings of delimiters; the first character is used.
unfoldable pub split_string : Bytes → ℕ → List Bytes
unfolding split_from
split_string s delim = split_from delim [] s

-- Every item followed by the delimiter.
abbrev pub terminated : ℕ → List Bytes → Bytes
terminated delim [] = []
terminated delim (item ∷ items) = item ++ (delim ∷ terminated delim items)

abbrev pub Without : ℕ → Bytes → Type 0
Without delim = All (λ c. c ≢ delim)

split_from_hit :
    (delim c : ℕ) (item s : Bytes)
    → eqb c delim ≡ true
    → split_from delim item (c ∷ s) ≡ item ∷ split_from delim [] s
unfolding split_from
split_from_hit delim c item s h = ground arith

split_from_miss :
    (delim c : ℕ) (item s : Bytes)
    → eqb c delim ≡ false
    → split_from delim item (c ∷ s) ≡ split_from delim (item ++ c ∷ []) s
unfolding split_from
split_from_miss delim c item s h = ground arith

split_from-Without :
    (delim : ℕ) (item s : Bytes)
    → Without delim item
    → All (Without delim) (split_from delim item s)
split_from-Without delim [] [] h = unfold split_from in tt
split_from-Without delim (x ∷ xs) [] h = unfold split_from in (h, tt)
split_from-Without delim item (c ∷ s) h = elim (Bool-cases (eqb c delim)) [
  | inl e ↦ rw (split_from_hit delim c item s e) (h, split_from-Without delim [] s tt)
  | inr e ↦
      let other : c ≢ delim = ground (arith, eqb_iff c delim) in
      rw (split_from_miss delim c item s e) (
        split_from-Without delim (item ++ c ∷ []) s
          (All-append (λ x. x ≢ delim) item (c ∷ []) h (other, tt)))
]

split_from-terminated :
    (delim : ℕ) (item s : Bytes)
    → (terminated delim (split_from delim item s) ≡ item ++ s)
      ⊎ (terminated delim (split_from delim item s) ≡ item ++ (s ++ delim ∷ []))
split_from-terminated delim [] [] = unfold split_from in inl refl
split_from-terminated delim (x ∷ xs) [] = unfold split_from in inr refl
split_from-terminated delim item (c ∷ s) = elim (Bool-cases (eqb c delim)) [
  | inl e ↦
      let same : c ≡ delim = (eqb_iff c delim).0 e in
      rw (split_from_hit delim c item s e) (elim (split_from-terminated delim [] s) [
        | inl h ↦ inl (ap (λ (t : Bytes). item ++ (delim ∷ t)) h ∙ rw same)
        | inr h ↦ inr (ap (λ (t : Bytes). item ++ (delim ∷ t)) h ∙ rw same)
      ])
  | inr e ↦
      rw (split_from_miss delim c item s e) (elim (split_from-terminated delim (item ++ c ∷ []) s) [
        | inl h ↦ inl (h ∙ append_assoc item (c ∷ []) s)
        | inr h ↦ inr (h ∙ append_assoc item (c ∷ []) (s ++ delim ∷ []))
      ])
]

-- The items, each followed by the delimiter, are the string, or the string and one delimiter that
-- its last item lacks; no item holds the delimiter.
pub split_string-terminated :
    (s : Bytes) (delim : ℕ)
    → ((terminated delim (split_string s delim) ≡ s)
        ⊎ (terminated delim (split_string s delim) ≡ s ++ delim ∷ []))
      × All (Without delim) (split_string s delim)
unfolding split_string
split_string-terminated s delim =
    (split_from-terminated delim [] s, split_from-Without delim [] s tt)
