-- ===== src/Configuration/Lists.antt =====
-- getCommaSeparatedList of src/configuration.cc.
use kcov.Prelude.{
  ℕ, ◌≡◌, ◌≢◌, refl, sym, ap, ◌∙◌, false, List, [], ◌∷◌, ◌++◌, Bytes, arith, ascii, eqb,
  if◌then◌else◌, if_both, All, All-append, append_assoc, append-nil,
}
use kcov.Strings.Find.{contains, starts_with}

-- The loop: `cur` is the part from lastPos on. What is behind the last comma is a part too.
unfoldable pub list_loop : Bytes → Bytes → List Bytes
list_loop cur [] = cur ∷ []
list_loop cur (c ∷ str) =
    let rest = list_loop [] str in
    let longer = list_loop (cur ++ c ∷ []) str in if eqb c b',' then cur ∷ rest else longer

unfoldable pub get_comma_separated_list : Bytes → List Bytes
get_comma_separated_list str = if contains str (ascii ",") then list_loop [] str else str ∷ []

abbrev pub NoComma : Bytes → Type 0
NoComma s = All (λ c. c ≢ b',') s

-- The parts with commas between them.
abbrev pub joined : Bytes → List Bytes → Bytes
joined s [] = s
joined s (t ∷ ts) = s ++ b',' ∷ joined t ts

abbrev pub Split : Bytes → List Bytes → Type 0
Split str parts =
    (first : Bytes) × (rest : List Bytes) × (parts ≡ first ∷ rest)
    × (joined first rest ≡ str)
    × All NoComma parts

NoComma-end : (s : Bytes) (c : ℕ) → NoComma s → c ≢ b',' → NoComma (s ++ c ∷ [])
NoComma-end s c h other = All-append (λ x. x ≢ b',') s (c ∷ []) h (other, tt)

list_loop-Split : (cur str : Bytes) → NoComma cur → Split (cur ++ str) (list_loop cur str)
unfolding list_loop
list_loop-Split cur [] h = (cur, [], refl, sym (append-nil cur), (h, tt))
list_loop-Split cur (c ∷ str) h =
    if_both (Split (cur ++ c ∷ str)) (eqb c b',') _ _
      (λ comma.
        let (first, rest, is, joins, parts) = list_loop-Split [] str tt in
        let c_is : b',' ≡ c = ground arith in
        (
          cur,
          list_loop [] str,
          refl,
          ap (joined cur) is ∙ ap (λ s. cur ++ b',' ∷ s) joins ∙ ap (λ x. cur ++ x ∷ str) c_is,
          (h, parts),
        ))
      (λ other.
        let differs : c ≢ b',' = ground (arith, other) in
        let (first, rest, is, joins, parts) =
          list_loop-Split (cur ++ c ∷ []) str (NoComma-end cur c h differs) in
        (first, rest, is, joins ∙ append_assoc cur (c ∷ []) str, parts))

without_comma : (s : Bytes) → contains s (ascii ",") ≡ false → NoComma s
unfolding contains starts_with
without_comma [] no_comma = tt
without_comma (c ∷ s) no_comma =
    (ground (arith, no_comma), without_comma s (ground (arith, no_comma)))

-- The parts of a list, joined by commas, are the string, and no part has a comma.
pub get_comma_separated_list-Split : (str : Bytes) → Split str (get_comma_separated_list str)
unfolding get_comma_separated_list
get_comma_separated_list-Split str =
    if_both (Split str) (contains str (ascii ",")) _ _ (λ some_comma. list_loop-Split [] str tt)
      (λ no_comma. (str, [], refl, refl, (without_comma str no_comma, tt)))
