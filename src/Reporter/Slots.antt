-- ===== src/Reporter/Slots.antt =====
-- addLine of Reporter::File in src/reporter.cc keeps the file's invariant when it fills a free
-- slot, which is the only way in which the reporter calls it.
use kcov.Prelude.{
  ℕ, zero, suc, ◌+◌, ◌-◌, ◌≤◌, ◌<◌, ◌≡◌, refl, ap, ◌∙◌, Bool, Option, none, some, List, [], ◌∷◌,
  ◌++◌, arith, All, All-append, get_elem?, set, length, replicate, if◌then◌else◌, leb, Bool-cases,
  inl, inr, length-append, length-replicate, length-set,
}
use kcov.Reporter.Line.{Line}
use kcov.Reporter.File.{File, Heap, add_line, get_line, resize, slot, target, reachable_target}
use kcov.Reporter.Valid.{Live, LiveSlot, reachable_count, one_if, FileIsValid}

abbrev free : Option ℕ
free = none

abbrev free_slots : ℕ → List (Option ℕ)
free_slots n = replicate n free

All-set :
    (heap : Heap) (ss : List (Option ℕ)) (i p : ℕ)
    → All (LiveSlot heap) ss
    → Live heap p
    → All (LiveSlot heap) (set ss i (some p))
All-set heap [] i p h k = tt
All-set heap (s ∷ ss) zero p h k = (k, h.1)
All-set heap (s ∷ ss) (suc i) p h k = (h.0, All-set heap ss i p h.1 k)

All-free : (heap : Heap) (n : ℕ) → All (LiveSlot heap) (replicate n none)
All-free heap zero = tt
All-free heap (suc n) = (tt, All-free heap n)

count-append_free :
    (heap : Heap) (ss : List (Option ℕ)) (n : ℕ)
    → reachable_count heap (ss ++ replicate n none) ≡ reachable_count heap ss
unfolding reachable_count
count-append_free heap [] zero = refl
count-append_free heap [] (suc n) = omega (arith, count-append_free heap [] n)
count-append_free heap (s ∷ ss) n = omega (arith, count-append_free heap ss n)

count-set :
    (heap : Heap) (ss : List (Option ℕ)) (i p : ℕ)
    → get_elem? ss i ≡ some none
    → reachable_count heap (set ss i (some p))
      ≡ reachable_count heap ss + one_if (reachable_target (target heap (some p)))
unfolding reachable_count
count-set heap [] i p e = cc
count-set heap (s ∷ ss) zero p e = ground arith
count-set heap (s ∷ ss) (suc i) p e = omega (arith, count-set heap ss i p e)

free_in_replicate : (n i : ℕ) → i < n → get_elem? (free_slots n) i ≡ some none
free_in_replicate zero i h = elim h [ ]
free_in_replicate (suc n) zero h = refl
free_in_replicate (suc n) (suc i) h = free_in_replicate n i (omega arith)

free_in_resize :
    (ss : List (Option ℕ)) (i : ℕ) → length ss ≤ i → get_elem? (resize (i + 1) ss) i ≡ some none
free_in_resize [] i h =
    let e : i + 1 - 0 ≡ i + 1 = omega arith in rw e (free_in_replicate (i + 1) i (omega arith))
free_in_resize (s ∷ ss) zero h = absurd (omega arith)
free_in_resize (s ∷ ss) (suc i) h =
    let e : suc i + 1 - suc (length ss) ≡ i + 1 - length ss = omega arith in
    rw e (free_in_resize ss i (omega arith))

free_inside :
    (ss : List (Option ℕ)) (i : ℕ)
    → i < length ss
    → slot (get_elem? ss i) ≡ none
    → get_elem? ss i ≡ some none
free_inside [] i h e = elim h [ ]
free_inside (s ∷ ss) zero h e = ap some e
free_inside (s ∷ ss) (suc i) h e = free_inside ss i (omega arith) e

-- The vector that addLine writes to, after the resize.
abbrev roomy : List (Option ℕ) → ℕ → List (Option ℕ)
roomy ss i = if leb (length ss) i then resize (i + 1) ss else ss

module _ (heap : Heap) (f : File) (i p : ℕ) where
  roomy_free : get_line f i ≡ none → get_elem? (roomy f.lines i) i ≡ some none
  unfolding get_line
  roomy_free e = elim (Bool-cases (leb (length f.lines) i)) [
    | inl short ↦ rw short (free_in_resize f.lines i (ground arith))
    | inr inside ↦ rw inside (free_inside f.lines i (ground arith) (rw inside at e))
  ]

  roomy_live : FileIsValid heap f → All (LiveSlot heap) (roomy f.lines i)
  roomy_live v = elim (Bool-cases (leb (length f.lines) i)) [
    | inl short ↦ rw short (All-append (LiveSlot heap) f.lines _ v.slots (All-free heap _))
    | inr inside ↦ rw inside v.slots
  ]

  roomy_count : reachable_count heap (roomy f.lines i) ≡ reachable_count heap f.lines
  roomy_count = elim (Bool-cases (leb (length f.lines) i)) [
    | inl short ↦ rw short (count-append_free heap f.lines _)
    | inr inside ↦ rw inside
  ]

  pub add_line-FileIsValid :
      (l : Line)
      → get_elem? heap p ≡ some l
      → get_line f i ≡ none
      → FileIsValid heap f
      → FileIsValid heap (add_line f i p l.unreachable)
  unfolding add_line
  add_line-FileIsValid l e free v = record {
    slots = All-set heap (roomy f.lines i) i p (roomy_live v) (l, e);
    counts =
        ground
          (arith, v.counts, count-set heap (roomy f.lines i) i p (roomy_free free), roomy_count, e);
  }

  pub length-add_line : (u : Bool) → length f.lines ≤ i → length (add_line f i p u).lines ≡ i + 1
  unfolding add_line
  length-add_line u h =
      length-set (roomy f.lines i) i (some p)
      ∙ ground (
        arith,
        length-append f.lines (replicate (i + 1 - length f.lines) none),
        length-replicate (i + 1 - length f.lines) free,
      )
