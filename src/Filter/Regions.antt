-- ===== src/Filter/Regions.antt =====
-- Excluded regions, over the lines of a file in order.
use kcov.Prelude.{
  ℕ, suc, ◌+◌, ◌-◌, ◌≡◌, refl, ap, ◌∙◌, Bool, true, false, not, ◌&&◌, ◌||◌, List, [], ◌∷◌, ◌++◌,
  Bytes, arith, ◌≟◌, name_key, All, All-append, ltb, if◌then◌else◌, length,
}
use kcov.Prelude.Table.{same_refl}
use kcov.Strings.Find.{contains}
use kcov.Filter.LineHandler.{LineHandler, single_loop, begin_loop, end_loop, match}

abbrev pub found_in : Bytes → List Bytes → Bool
found_in line [] = false
found_in line (p ∷ ps) = contains line p || found_in line ps

single_loop_found :
    (out : Bool) (line : Bytes) (ps : List Bytes)
    → single_loop out line ps ≡ (out && not (found_in line ps))
unfolding single_loop
single_loop_found true line [] = refl
single_loop_found false line [] = refl
single_loop_found out line (p ∷ ps) =
    ground (arith, single_loop_found (if contains line p then false else out) line ps)

begin_loop_found :
    (d : ℕ) (line : Bytes) (ps : List Bytes)
    → begin_loop d line ps ≡ (if found_in line ps then d + 1 else d)
unfolding begin_loop
begin_loop_found d line [] = refl
begin_loop_found d line (p ∷ ps) = ground (arith, begin_loop_found d line ps)

end_loop_found :
    (d : ℕ) (line : Bytes) (ps : List Bytes)
    → end_loop d line ps ≡ (if found_in line ps then d - 1 else d)
unfolding end_loop
end_loop_found d line [] = refl
end_loop_found d line (p ∷ ps) = ground (arith, end_loop_found d line ps)

abbrev pub at_depth : LineHandler → ℕ → LineHandler
at_depth h d = record h { exclude_start = d }

-- A line that opens a region, that closes one, and that does neither.
pub record Opens (h : LineHandler) (line : Bytes) : Type 0 where
  pub begins : found_in line h.line_begin ≡ true
  pub no_end : found_in line h.line_end ≡ false

pub record Closes (h : LineHandler) (line : Bytes) : Type 0 where
  pub no_begin : found_in line h.line_begin ≡ false
  pub ends : found_in line h.line_end ≡ true

pub record Plain (h : LineHandler) (line : Bytes) : Type 0 where
  pub no_begin : found_in line h.line_begin ≡ false
  pub no_end : found_in line h.line_end ≡ false

-- Lines in which every region that opens also closes, nested ones included.
pub data Balanced (h : LineHandler) : List Bytes → Type 0 where
  empty : Balanced h []
  plain :
      {line : Bytes} {rest : List Bytes} → Plain h line → Balanced h rest → Balanced h (line ∷ rest)
  region :
      {start stop : Bytes} {body rest : List Bytes}
      → Opens h start
      → Balanced h body
      → Closes h stop
      → Balanced h rest
      → Balanced h (start ∷ (body ++ (stop ∷ rest)))

-- The lines of the handler's file in order, from line `nr` on.
pub match_all : LineHandler → ℕ → List Bytes → LineHandler × List Bool
match_all h nr [] = (h, [])
match_all h nr (line ∷ lines) =
    let (h', kept) = match h h.cur_file nr line in
    let (h'', rest) = match_all h' (nr + 1) lines in (h'', kept ∷ rest)

match_lem :
    (h : LineHandler) (nr : ℕ) (line : Bytes)
    → match h h.cur_file nr line ≡ (
        let d = (if found_in line h.line_begin then h.exclude_start + 1 else h.exclude_start) in
        (
          at_depth h (if found_in line h.line_end then d - 1 else d),
          (if ltb 0 d then false else not (found_in line h.ignore_single_line)),
        ))
unfolding match
match_lem h nr line = ground (
  arith,
  same_refl h.cur_file,
  single_loop_found true line h.ignore_single_line,
  begin_loop_found h.exclude_start line h.line_begin,
  end_loop_found (begin_loop h.exclude_start line h.line_begin) line h.line_end,
)

match_all-append :
    (g : LineHandler) (nr : ℕ) (xs ys : List Bytes)
    → (match_all g nr (xs ++ ys)).0 ≡ (match_all (match_all g nr xs).0 (nr + length xs) ys).0
      × ((match_all g nr (xs ++ ys)).1
          ≡ (match_all g nr xs).1 ++ (match_all (match_all g nr xs).0 (nr + length xs) ys).1)
unfolding match_all
match_all-append g nr [] ys = let e : nr + 0 ≡ nr = omega arith in rw e (refl, refl)
match_all-append g nr (x ∷ xs) ys =
    let e : nr + suc (length xs) ≡ nr + 1 + length xs = omega arith in
    let (h', kept) = match g g.cur_file nr x in
    let (states, lists) = match_all-append h' (nr + 1) xs ys in rw e (states, ap (◌∷◌ kept) lists)

module _ (h : LineHandler) where
  Opens-match :
      (d nr : ℕ) (line : Bytes)
      → Opens h line
      → match (at_depth h d) h.cur_file nr line ≡ (at_depth h (suc d), false)
  Opens-match d nr line o = match_lem (at_depth h d) nr line ∙ ground arith

  Plain-match :
      (d nr : ℕ) (line : Bytes)
      → Plain h line
      → match (at_depth h (suc d)) h.cur_file nr line ≡ (at_depth h (suc d), false)
  Plain-match d nr line o = match_lem (at_depth h (suc d)) nr line ∙ ground arith

  Closes-match :
      (d nr : ℕ) (line : Bytes)
      → Closes h line
      → match (at_depth h (suc d)) h.cur_file nr line ≡ (at_depth h d, false)
  Closes-match d nr line o = match_lem (at_depth h (suc d)) nr line ∙ ground arith

  abbrev IsFalse : Bool → Type 0
  IsFalse b = b ≡ false

  -- Read from depth `d`, the lines are all left out, and the depth is `e` behind them.
  abbrev Skips : ℕ → ℕ → List Bytes → Type 0
  Skips d e lines =
      (nr : ℕ)
      → ((match_all (at_depth h d) nr lines).0 ≡ at_depth h e)
        × All IsFalse (match_all (at_depth h d) nr lines).1

  Skips-cons :
      (d m e : ℕ) (line : Bytes) (lines : List Bytes)
      → ((nr : ℕ) → match (at_depth h d) h.cur_file nr line ≡ (at_depth h m, false))
      → Skips m e lines
      → Skips d e (line ∷ lines)
  unfolding match_all
  Skips-cons d m e line lines first rest nr =
      rw (first nr) ((rest (nr + 1)).0, (refl, (rest (nr + 1)).1))

  Skips-append :
      (d m e : ℕ) (xs ys : List Bytes) → Skips d m xs → Skips m e ys → Skips d e (xs ++ ys)
  Skips-append d m e xs ys p q nr =
      let (states, lists) = match_all-append (at_depth h d) nr xs ys in
      let (first, falses) = p nr in
      let (last, more) = rw (← first) at (q (nr + length xs)) in
      (states ∙ last, rw lists (All-append IsFalse _ _ falses more))

  Skips-empty : (d : ℕ) → Skips d d []
  unfolding match_all
  Skips-empty d nr = (refl, tt)

  -- Inside an open region everything is left out, whatever regions are nested in it.
  Balanced-Skips : (d : ℕ) (lines : List Bytes) → Balanced h lines → Skips (suc d) (suc d) lines
  Balanced-Skips d lines empty = Skips-empty (suc d)
  Balanced-Skips d _ (plain {line} {rest} p b) =
      Skips-cons (suc d) (suc d) (suc d) line rest (λ nr. Plain-match d nr line p)
        (Balanced-Skips d rest b)
  Balanced-Skips d _ (region {start} {stop} {body} {rest} o b c r) =
      Skips-cons (suc d) (suc (suc d)) (suc d) start (body ++ (stop ∷ rest))
        (λ nr. Opens-match (suc d) nr start o)
        (Skips-append (suc (suc d)) (suc (suc d)) (suc d) body (stop ∷ rest)
          (Balanced-Skips (suc d) body b)
          (Skips-cons (suc (suc d)) (suc d) (suc d) stop rest (λ nr. Closes-match (suc d) nr stop c)
            (Balanced-Skips d rest r)))

  -- A region is left out from its opening line to its closing line, both included, with the
  -- regions nested in it; behind it the handler is as it was.
  pub region_excluded :
      (nr d : ℕ) (start stop : Bytes) (body : List Bytes)
      → Opens h start
      → Balanced h body
      → Closes h stop
      → ((match_all (at_depth h d) nr (start ∷ (body ++ (stop ∷ [])))).0 ≡ at_depth h d)
        × All IsFalse (match_all (at_depth h d) nr (start ∷ (body ++ (stop ∷ [])))).1
  region_excluded nr d start stop body o b c =
      Skips-cons d (suc d) d start (body ++ (stop ∷ [])) (λ nr. Opens-match d nr start o)
        (Skips-append (suc d) (suc d) d body (stop ∷ []) (Balanced-Skips d body b)
          (Skips-cons (suc d) d d stop [] (λ nr. Closes-match d nr stop c) (Skips-empty d)))
        nr

-- In another file than the last one the regions left open are forgotten.
pub match_swap :
    (h : LineHandler) (file : Bytes) (nr : ℕ) (line : Bytes)
    → (h.cur_file ≟ file) ≡ false
    → match h file nr line ≡ match (record h { cur_file = file; exclude_start = 0 }) file nr line
unfolding match
match_swap h file nr line other = ground (arith, same_refl file)

-- Outside a region, a line that opens and closes none is kept unless a single-line pattern is in
-- it, and a closing line that nothing opened is ignored: the depth stays 0.
pub match_outside :
    (h : LineHandler) (nr : ℕ) (line : Bytes)
    → h.exclude_start ≡ 0
    → found_in line h.line_begin ≡ false
    → match h h.cur_file nr line ≡ (h, not (found_in line h.ignore_single_line))
match_outside h nr line outside b = match_lem h nr line ∙ ground arith
