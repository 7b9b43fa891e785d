-- ===== src/Prelude/Table.antt =====
-- std::unordered_map as a table in order of insertion. `find` is `find`, `insert` is the
-- assignment m[k] = v, `remove` is erase, `find_or` is the read m[k] of a value with a default.
use mathlib.Core.Path.{◌≡◌, refl, sym, ap, ◌∙◌}
use mathlib.Core.Bool.{Bool, true, false}
use mathlib.Core.Logic.{inl, inr}
use mathlib.Core.List.{List, [], ◌∷◌}
use mathlib.Core.Option.{Option, none, some}
use native.Mathlib.Omega.{arith}
use kcov.Prelude.Tests.{Key, ◌≟◌, if◌then◌else◌, Bool-cases}
use kcov.Prelude.Lists.{All}

abbrev pub Table {ℓ κ} : Type ℓ → Type κ → Type (ℓ ⊔ κ)
Table K V = List (K × V)

abbrev pub or_default {ℓ} : {V : Type ℓ} → V → Option V → V
or_default d none = d
or_default d (some v) = v

pub same_refl {ℓ} : {K : Type ℓ} ⦃keys : Key K⦄ (k : K) → (k ≟ k) ≡ true
same_refl ⦃keys⦄ k = (keys.same_iff k k).1 refl

All-if {ℓ κ} :
    {A : Type ℓ} (P : A → Type κ) (b : Bool) (xs ys : List A)
    → All P xs
    → All P ys
    → All P (if b then xs else ys)
All-if P true xs ys h k = h
All-if P false xs ys h k = k

module _ {ℓ κ} {K : Type ℓ} {V : Type κ} ⦃keys : Key K⦄ where
  unfoldable pub find : K → Table K V → Option V
  find k [] = none
  find k ((j, v) ∷ m) = if j ≟ k then some v else find k m

  unfoldable pub insert : K → V → Table K V → Table K V
  insert k v [] = (k, v) ∷ []
  insert k v ((j, w) ∷ m) = if j ≟ k then (j, v) ∷ m else (j, w) ∷ insert k v m

  unfoldable pub remove : K → Table K V → Table K V
  remove k [] = []
  remove k ((j, w) ∷ m) = let rest = remove k m in if j ≟ k then rest else (j, w) ∷ rest

  abbrev pub find_or : V → K → Table K V → V
  find_or d k m = or_default d (find k m)

  pub find-insert :
      (k j : K) (v : V) (m : Table K V)
      → find j (insert k v m) ≡ (if k ≟ j then some v else find j m)
  unfolding find insert
  find-insert k j v [] = refl
  find-insert k j v ((i, w) ∷ m) =
      ground (arith, keys.same_iff k j, keys.same_iff i k, keys.same_iff i j, find-insert k j v m)

  pub find-remove :
      (k j : K) (m : Table K V) → find j (remove k m) ≡ (if k ≟ j then none else find j m)
  unfolding find remove
  find-remove k j [] = ground arith
  find-remove k j ((i, w) ∷ m) =
      ground (arith, keys.same_iff k j, keys.same_iff i k, keys.same_iff i j, find-remove k j m)

  pub find-insert_self : (k : K) (v : V) (m : Table K V) → find k (insert k v m) ≡ some v
  find-insert_self k v m = ground (arith, find-insert k k v m, same_refl k)

  -- A property of every value.
  abbrev pub AllValues {ι} : (V → Type ι) → Table K V → Type ι
  AllValues P = All (λ (entry : K × V). P entry.1)

  pub AllValues-find {ι} :
      (P : V → Type ι) (k : K) (v : V) (m : Table K V) → AllValues P m → find k m ≡ some v → P v
  unfolding find
  AllValues-find P k v [] h e = cc
  AllValues-find P k v ((j, w) ∷ m) h e = elim (Bool-cases (j ≟ k)) [
    | inl same ↦ let w_is : w ≡ v = ground arith in rw (← w_is) h.0
    | inr other ↦ AllValues-find P k v m h.1 (ground arith)
  ]

  pub AllValues-insert {ι} :
      (P : V → Type ι) (k : K) (v : V) (m : Table K V)
      → AllValues P m
      → P v
      → AllValues P (insert k v m)
  unfolding insert
  AllValues-insert P k v [] h p = (p, tt)
  AllValues-insert P k v ((j, w) ∷ m) h p =
      All-if (λ (entry : K × V). P entry.1) (j ≟ k) ((j, v) ∷ m) ((j, w) ∷ insert k v m) (p, h.1)
        (h.0, AllValues-insert P k v m h.1 p)

  -- Every value is the one that a function gives for its key.
  abbrev pub Matches : (K → V) → Table K V → Type (ℓ ⊔ κ)
  Matches f m = (k : K) (v : V) → find k m ≡ some v → v ≡ f k

  pub insert-Matches :
      (f : K → V) (k : K) (m : Table K V) → Matches f m → Matches f (insert k (f k) m)
  insert-Matches f k m h j v there = elim (Bool-cases (k ≟ j)) [
    | inl same ↦
        let is : k ≡ j = (keys.same_iff k j).0 same in
        let found : some v ≡ some (f k) =
          sym there ∙ find-insert k j (f k) m ∙ ap (λ b. if b then some (f k) else find j m) same in
        let v_is : v ≡ f k = cc in v_is ∙ ap f is
    | inr other ↦
        h j v (
          sym (find-insert k j (f k) m ∙ ap (λ b. if b then some (f k) else find j m) other)
          ∙ there)
  ]

  -- Erasing a key that has just been added.
  pub remove-insert_new :
      (k : K) (v : V) (m : Table K V) → find k m ≡ none → remove k (insert k v m) ≡ m
  unfolding find insert remove
  remove-insert_new k v [] h = ground (arith, same_refl k)
  remove-insert_new k v ((j, w) ∷ m) h = elim (Bool-cases (j ≟ k)) [
    | inl same ↦ ground arith
    | inr other ↦ let rest = remove-insert_new k v m (ground arith) in ground arith
  ]
