-- ===== src/Tests/Matches.antt =====
-- src/parser-manager.cc and src/engine-factory.cc with three answers.
use kcov.Prelude.{◌≡◌, refl, ◌⊎◌, ℕ, true, none, some, [], ◌∷◌, All}
use kcov.Matching.{match_parser, match_loop, match_none, IsFirstLargest, match_parser-best}

second_of_three : match_parser true (0 ∷ 7 ∷ 7 ∷ []) ≡ some 1
unfolding match_parser match_loop
second_of_three = refl

no_parser : match_parser true (0 ∷ 0 ∷ []) ≡ none
unfolding match_parser match_loop
no_parser = refl

match_parser-best_example :
    ((match_parser true (0 ∷ 7 ∷ 7 ∷ []) ≡ none) × All (λ v. v ≡ match_none) (0 ∷ 7 ∷ 7 ∷ []))
    ⊎ ((k : ℕ) × (w : ℕ) × (match_parser true (0 ∷ 7 ∷ 7 ∷ []) ≡ some k)
        × IsFirstLargest (0 ∷ 7 ∷ 7 ∷ []) match_none k w)
match_parser-best_example = match_parser-best (0 ∷ 7 ∷ 7 ∷ [])
