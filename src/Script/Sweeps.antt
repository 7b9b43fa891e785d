-- ===== src/Script/Sweeps.antt =====
-- The lines that a parser of src/engines takes for code: which numbers the loop over the lines of a
-- file finds.
use kcov.Prelude.{
  ℕ, suc, ◌+◌, ◌-◌, ◌≤◌, ◌<◌, ◌≡◌, refl, ◌∙◌, ap, Bool, true, false, Option, some, List, [], ◌∷◌,
  ◌++◌, Bytes, arith, if◌then◌else◌, length, get_elem?, if_both, All, All-map_of,
}
use kcov.Script.{sweep}

-- Above the number, each larger than the one before, and at most the bound.
abbrev pub Ascending : ℕ → ℕ → List ℕ → Type 0
Ascending low high [] = Unit {0}
Ascending low high (k ∷ ks) = (low < k) × (k ≤ high) × Ascending k high ks

-- Line number k of the lines that begin behind number n.
abbrev pub line_at : List Bytes → ℕ → ℕ → Option Bytes
line_at lines n k = get_elem? lines (k - (n + 1))

abbrev pub Found : (Bytes → Type 0) → List Bytes → ℕ → ℕ → Type 0
Found P lines n k = (line : Bytes) × (n < k) × (line_at lines n k ≡ some line) × P line

Ascending-below :
    (low low' high : ℕ) (ks : List ℕ) → low' ≤ low → Ascending low high ks → Ascending low' high ks
Ascending-below low low' high [] le a = tt
Ascending-below low low' high (k ∷ ks) le a = (omega (arith, a.0), a.1, a.2)

Found-shift :
    (P : Bytes → Type 0) (line : Bytes) (lines : List Bytes) (n k : ℕ)
    → Found P lines (n + 1) k
    → Found P (line ∷ lines) n k
Found-shift P line lines n k (l, above, at, holds) =
    let index : k - (n + 1) ≡ suc (k - (n + 1 + 1)) = omega (arith, above) in
    (l, omega (arith, above), ap (get_elem? (line ∷ lines)) index ∙ at, holds)

module _ {S : Type 0} (step : S → Bytes → S × Bool) where
  pub sweep-Ascending :
      (st : S) (n high : ℕ) (lines : List Bytes)
      → n + length lines ≤ high
      → Ascending n high (sweep step st n lines)
  unfolding sweep
  sweep-Ascending st n high [] le = tt
  sweep-Ascending st n high (line ∷ lines) le =
      let (st', is_code) = step st line in
      let rest = sweep-Ascending st' (n + 1) high lines (omega (arith, le)) in
      if_both (Ascending n high) is_code _ _ (λ code. (omega arith, omega (arith, le), rest))
        (λ other. Ascending-below (n + 1) n high _ (omega arith) rest)

  -- What the step only finds of lines with a property, the loop does.
  pub sweep-Found :
      (P : Bytes → Type 0)
      → ((st : S) (line : Bytes) → (step st line).1 ≡ true → P line)
      → (st : S) (n : ℕ) (lines : List Bytes) → All (Found P lines n) (sweep step st n lines)
  unfolding sweep
  sweep-Found P only st n [] = tt
  sweep-Found P only st n (line ∷ lines) =
      let (st', is_code) = step st line in
      let rest =
        All-map_of (Found P lines (n + 1)) (Found P (line ∷ lines) n) (sweep step st' (n + 1) lines)
          (Found-shift P line lines n) (sweep-Found P only st' (n + 1) lines) in
      if_both (All (Found P (line ∷ lines) n)) is_code _ _
        (λ code.
          let index : n + 1 - (n + 1) ≡ 0 = omega arith in
          ((line, omega arith, ap (get_elem? (line ∷ lines)) index, only st line code), rest))
        (λ other. rest)

  pub sweep_line :
      (st st' : S) (n k : ℕ) (line : Bytes) (lines : List Bytes) (is_code : Bool)
      → step st line ≡ (st', is_code)
      → n + 1 ≡ k
      → sweep step st n (line ∷ lines)
        ≡ (if is_code then k ∷ sweep step st' k lines else sweep step st' k lines)
  unfolding sweep
  sweep_line st st' n k line lines is_code e is = rw (e, is) refl

  -- A line of which the parser finds nothing.
  pub sweep-quiet :
      (st st' : S) (n : ℕ) (line : Bytes) (lines : List Bytes)
      → step st line ≡ (st', false)
      → sweep step st n (line ∷ lines) ≡ sweep step st' (n + 1) lines
  unfolding sweep
  sweep-quiet st st' n line lines e = rw e refl

  -- Lines that leave the state as it is.
  pub sweep-kept :
      (st : S) (n : ℕ) (body rest : List Bytes)
      → All (λ line. step st line ≡ (st, false)) body
      → sweep step st n (body ++ rest) ≡ sweep step st (n + length body) rest
  sweep-kept st n [] rest same = ap (λ m. sweep step st m rest) (omega arith)
  sweep-kept st n (line ∷ body) rest same =
      sweep-quiet st st n line (body ++ rest) same.0
      ∙ sweep-kept st (n + 1) body rest same.1
      ∙ ap (λ m. sweep step st m rest) (omega arith)
