-- ===== src/Reporter/Valid.antt =====
-- The invariant of Reporter in src/reporter.cc: where its tables point, and what its files count.
use kcov.Prelude.{
  ℕ, ◌+◌, ◌%◌, ◌^◌, ◌≡◌, refl, sym, ap, ◌∙◌, Bool, true, Option, none, some, List, [], ◌∷◌, Bytes,
  arith, All, All-map_of, get_elem?, if◌then◌else◌, number_key, name_key,
}
use kcov.Prelude.Table.{Table, find, AllValues}
use kcov.Reporter.Line.{Line, knows}
use kcov.Reporter.File.{File, Heap, target, reachable_target}
use kcov.Reporter.Heap.{Grows}

-- `p` points to a line, to a line that knows `addr`, to the line of an id.
abbrev pub Live : Heap → ℕ → Type 0
Live heap p = (l : Line) × (get_elem? heap p ≡ some l)

abbrev pub Knows : Heap → ℕ → ℕ → Type 0
Knows heap addr p = (l : Line) × (get_elem? heap p ≡ some l) × (knows addr l.addrs ≡ true)

abbrev pub HasId : Heap → ℕ → ℕ → Type 0
HasId heap id p = (l : Line) × (get_elem? heap p ≡ some l) × (l.line_id ≡ id)

abbrev pub LiveSlot : Heap → Option ℕ → Type 0
LiveSlot heap none = Unit
LiveSlot heap (some p) = Live heap p

-- The slots that hold a reachable line.
abbrev pub one_if : Bool → ℕ
one_if b = if b then 1 else 0

unfoldable pub reachable_count : Heap → List (Option ℕ) → ℕ
reachable_count heap [] = 0
reachable_count heap (s ∷ ss) = one_if (reachable_target (target heap s)) + reachable_count heap ss

pub record FileIsValid (heap : Heap) (f : File) : Type 0 where
  pub slots : All (LiveSlot heap) f.lines
  pub counts : f.nr_lines ≡ reachable_count heap f.lines % 2 ^ 32

pub record Valid (heap : Heap) (files : Table Bytes File) (at : Table ℕ (List ℕ)) (ids : Table ℕ ℕ)
    : Type 0 where
  pub at_known : (a : ℕ) (ps : List ℕ) → find a at ≡ some ps → All (Knows heap a) ps
  pub ids_live : (id p : ℕ) → find id ids ≡ some p → HasId heap id p
  pub files_valid : AllValues (FileIsValid heap) files

-- All of it is kept when objects are added or updated.
pub Live-Grows : (h h' : Heap) → Grows h h' → (p : ℕ) → Live h p → Live h' p
Live-Grows h h' g p (l, e) = let (l', e', s) = g p l e in (l', e')

pub Knows-Grows : (h h' : Heap) → Grows h h' → (a p : ℕ) → Knows h a p → Knows h' a p
Knows-Grows h h' g a p (l, e, k) = let (l', e', s) = g p l e in (l', e', s.knows_on a k)

HasId-Grows : (h h' : Heap) → Grows h h' → (id p : ℕ) → HasId h id p → HasId h' id p
HasId-Grows h h' g id p (l, e, k) = let (l', e', s) = g p l e in (l', e', s.line_id ∙ k)

LiveSlot-Grows : (h h' : Heap) → Grows h h' → (s : Option ℕ) → LiveSlot h s → LiveSlot h' s
LiveSlot-Grows h h' g none k = tt
LiveSlot-Grows h h' g (some p) k = Live-Grows h h' g p k

reachable-Grows :
    (h h' : Heap)
    → Grows h h'
    → (s : Option ℕ) → LiveSlot h s
    → reachable_target (target h' s) ≡ reachable_target (target h s)
reachable-Grows h h' g none k = refl
reachable-Grows h h' g (some p) (l, e) = let (l', e', s) = g p l e in ground (arith, s.unreachable)

reachable_count-Grows :
    (h h' : Heap)
    → Grows h h'
    → (ss : List (Option ℕ)) → All (LiveSlot h) ss
    → reachable_count h' ss ≡ reachable_count h ss
unfolding reachable_count
reachable_count-Grows h h' g [] k = refl
reachable_count-Grows h h' g (s ∷ ss) k =
    cc (reachable-Grows h h' g s k.0, reachable_count-Grows h h' g ss k.1)

pub FileIsValid-Grows : (h h' : Heap) → Grows h h' → (f : File) → FileIsValid h f → FileIsValid h' f
FileIsValid-Grows h h' g f v = record {
  slots = All-map_of (LiveSlot h) (LiveSlot h') f.lines (LiveSlot-Grows h h' g) v.slots;
  counts =
      v.counts ∙ ap (λ (n : ℕ). n % 2 ^ 32) (sym (reachable_count-Grows h h' g f.lines v.slots));
}

pub Valid-Grows :
    (h h' : Heap)
    → Grows h h'
    → (files : Table Bytes File) (at : Table ℕ (List ℕ)) (ids : Table ℕ ℕ) → Valid h files at ids
    → Valid h' files at ids
Valid-Grows h h' g files at ids v = record {
  at_known =
      λ a ps e. All-map_of (Knows h a) (Knows h' a) ps (Knows-Grows h h' g a) (v.at_known a ps e);
  ids_live = λ id p e. HasId-Grows h h' g id p (v.ids_live id p e);
  files_valid =
      All-map_of (λ (e : Bytes × File). FileIsValid h e.1)
        (λ (e : Bytes × File). FileIsValid h' e.1) files (λ e k. FileIsValid-Grows h h' g e.1 k)
        v.files_valid;
}
