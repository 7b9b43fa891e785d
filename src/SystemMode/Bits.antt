-- ===== src/SystemMode/Bits.antt =====
-- The bits of src/engines/system-mode-file-format.cc: what a write changes of indexIsHit.
use kcov.Prelude.{
  ℕ, ◌/◌, ◌%◌, ◌<◌, ◌≡◌, refl, ◌∙◌, ap, ◌≢◌, true, false, some, List, [], ◌∷◌, arith, eqb, leb,
  length, get_elem?, set, All, Bool-cases, inl, inr, length-set, get_elem?-set_self,
  get_elem?-set_ne,
}
use kcov.SystemMode.{Word, Memory, test_bit, set_bit, word_at, index_is_hit, write_word, word_eq}

pub word_eq_sound : (v w : Word) → word_eq v w ≡ true → v ≡ w
unfolding word_eq
word_eq_sound [] [] h = refl
word_eq_sound [] (b ∷ ys) h = cc
word_eq_sound (a ∷ xs) [] h = cc
word_eq_sound (true ∷ xs) (true ∷ ys) h = ap (◌∷◌ true) (word_eq_sound xs ys h)
word_eq_sound (false ∷ xs) (false ∷ ys) h = ap (◌∷◌ false) (word_eq_sound xs ys h)
word_eq_sound (true ∷ xs) (false ∷ ys) h = cc
word_eq_sound (false ∷ xs) (true ∷ ys) h = cc

pub word_eq_refl : (w : Word) → word_eq w w ≡ true
unfolding word_eq
word_eq_refl [] = refl
word_eq_refl (true ∷ w) = word_eq_refl w
word_eq_refl (false ∷ w) = word_eq_refl w

-- Every word has 32 bits.
abbrev pub HasWidth : Word → Type 0
HasWidth w = length w ≡ 32

get_elem?-All :
    {A : Type 0} (P : A → Type 0) (xs : List A) (i : ℕ)
    → All P xs
    → i < length xs
    → (x : A) × (get_elem? xs i ≡ some x) × P x
get_elem?-All P [] i h lt = elim lt [ ]
get_elem?-All P (x ∷ xs) Prim.Native.Nat.zero h lt = (x, refl, h.0)
get_elem?-All P (x ∷ xs) (Prim.Native.Nat.suc i) h lt = get_elem?-All P xs i h.1 (omega arith)

-- The word of an index in range.
pub word_at-some :
    (m : Memory) (i : ℕ)
    → All HasWidth m.data_
    → i / 32 < length m.data_
    → (get_elem? m.data_ (i / 32) ≡ some (word_at m i)) × HasWidth (word_at m i)
word_at-some m i wide lt =
    let (w, at, width) = get_elem?-All HasWidth m.data_ (i / 32) wide lt in
    (rw at refl, rw at width)

pub index_is_hit-in_range :
    (m : Memory) (i : ℕ)
    → i / 32 < length m.data_
    → index_is_hit m i ≡ test_bit (word_at m i) (i % 32)
unfolding index_is_hit
index_is_hit-in_range m i lt = ground (arith, lt)

pub index_is_hit-range : (m : Memory) (i : ℕ) → index_is_hit m i ≡ true → i / 32 < length m.data_
unfolding index_is_hit
index_is_hit-range m i h = elim (Bool-cases (leb (length m.data_) (i / 32))) [
  | inl out ↦ ground arith
  | inr in_range ↦ ground arith
]

abbrev pub written : Memory → ℕ → Memory
written m i = write_word m i (set_bit (word_at m i) (i % 32))

pub written_self :
    (m : Memory) (i : ℕ)
    → All HasWidth m.data_
    → i / 32 < length m.data_
    → index_is_hit (written m i) i ≡ true
written_self m i wide lt =
    let (at, width) = word_at-some m i wide lt in
    let w' = set_bit (word_at m i) (i % 32) in
    let there = get_elem?-set_self m.data_ (i / 32) w' lt in
    let bit = get_elem?-set_self (word_at m i) (i % 32) true (omega (arith, width)) in
    index_is_hit-in_range (written m i) i (omega (arith, lt, length-set m.data_ (i / 32) w'))
    ∙ rw (there, bit) refl

eqb_sound : (a b : ℕ) → eqb a b ≡ true → a ≡ b
eqb_sound a b h = ground arith

eqb_ne : (a b : ℕ) → eqb a b ≡ false → a ≢ b
eqb_ne a b h e = ground arith

same_range :
    (m m' : Memory) (j : ℕ)
    → length m'.data_ ≡ length m.data_
    → test_bit (word_at m' j) (j % 32) ≡ test_bit (word_at m j) (j % 32)
    → index_is_hit m' j ≡ index_is_hit m j
unfolding index_is_hit
same_range m m' j len bits = rw (len, bits) refl

-- A write changes no other index.
pub written-other :
    (m : Memory) (i j : ℕ)
    → All HasWidth m.data_
    → i / 32 < length m.data_
    → i ≢ j
    → index_is_hit (written m i) j ≡ index_is_hit m j
written-other m i j wide lt ne =
    let w' = set_bit (word_at m i) (i % 32) in
    let len = length-set m.data_ (i / 32) w' in
    elim (Bool-cases (eqb (i / 32) (j / 32))) [
      | inr apart ↦
          let kept =
            get_elem?-set_ne m.data_ (i / 32) (j / 32) w' (eqb_ne (i / 32) (j / 32) apart) in
          same_range m (written m i) j len (rw kept refl)
      | inl together ↦
          let word : i / 32 ≡ j / 32 = eqb_sound (i / 32) (j / 32) together in
          let bits : i % 32 ≢ j % 32 = λ e. ne (omega (arith, e, word)) in
          let there = get_elem?-set_self m.data_ (i / 32) w' lt in
          let kept = get_elem?-set_ne (word_at m i) (i % 32) (j % 32) true bits in
          same_range m (written m i) j len (rw (← word, there, kept) refl)
    ]

All-set :
    {A : Type 0} (P : A → Type 0) (xs : List A) (i : ℕ) (v : A)
    → All P xs
    → P v
    → All P (set xs i v)
All-set P [] i v h p = h
All-set P (x ∷ xs) Prim.Native.Nat.zero v h p = (p, h.1)
All-set P (x ∷ xs) (Prim.Native.Nat.suc i) v h p = (h.0, All-set P xs i v h.1 p)

pub written-HasWidth :
    (m : Memory) (i : ℕ)
    → All HasWidth m.data_
    → i / 32 < length m.data_
    → All HasWidth (written m i).data_
written-HasWidth m i wide lt =
    let (at, width) = word_at-some m i wide lt in
    let w' = set_bit (word_at m i) (i % 32) in
    All-set HasWidth m.data_ (i / 32) w' wide (length-set (word_at m i) (i % 32) true ∙ width)
