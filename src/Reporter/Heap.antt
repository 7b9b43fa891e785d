-- ===== src/Reporter/Heap.antt =====
-- How the Line objects change: an object keeps its id and its reachability, and never forgets an
-- address. (Reporter of src/reporter.cc never deletes a line before its own end.)
use kcov.Prelude.{
  ℕ, zero, suc, ◌≡◌, ◌≢◌, refl, ap, ◌∙◌, inl, inr, Bool, true, ◌||◌, some, List, [], ◌∷◌, ◌++◌,
  arith, eqb, leb, eqb_iff, Bool-cases, length, get_elem?, set, get_elem?-set_self,
  get_elem?-set_ne, get_elem?-lt, get_elem?-append_left,
}
use kcov.Reporter.Line
use kcov.Reporter.Line.{Line, AddrHits, knows, register_in, bump_at, counted}
use kcov.Reporter.File.{Heap}

pub record Same (l l' : Line) : Type 0 where
  pub line_id : l'.line_id ≡ l.line_id
  pub unreachable : l'.unreachable ≡ l.unreachable
  pub knows_on : (a : ℕ) → knows a l.addrs ≡ true → knows a l'.addrs ≡ true

pub Same-refl : (l : Line) → Same l l
Same-refl l = record { line_id = refl; unreachable = refl; knows_on = λ a h. h }

pub Same-trans : {k l m : Line} → Same k l → Same l m → Same k m
Same-trans p q = record {
  line_id = q.line_id ∙ p.line_id;
  unreachable = q.unreachable ∙ p.unreachable;
  knows_on = λ a h. q.knows_on a (p.knows_on a h);
}

-- Every object of `heap` is in `heap'`, at its place.
abbrev pub Grows : Heap → Heap → Type 0
Grows heap heap' =
    (p : ℕ) (l : Line)
    → get_elem? heap p ≡ some l
    → (l' : Line) × (get_elem? heap' p ≡ some l') × Same l l'

pub Grows-refl : (heap : Heap) → Grows heap heap
Grows-refl heap p l e = (l, e, Same-refl l)

pub Grows-trans : (h k m : Heap) → Grows h k → Grows k m → Grows h m
Grows-trans h k m g f p l e =
    let (l', e', s) = g p l e in let (l'', e'', s') = f p l' e' in (l'', e'', Same-trans s s')

pub Grows-alloc : (heap : Heap) (x : Line) → Grows heap (heap ++ x ∷ [])
Grows-alloc heap x p l e =
    (l, get_elem?-append_left heap (x ∷ []) p (get_elem?-lt heap p l e) ∙ e, Same-refl l)

pub Grows-set :
    (heap : Heap) (q : ℕ) (l l' : Line)
    → get_elem? heap q ≡ some l
    → Same l l'
    → Grows heap (set heap q l')
Grows-set heap q l l' at s p k e = elim (Bool-cases (eqb q p)) [
  | inl same ↦
      let same' : q ≡ p = (eqb_iff q p).0 same in
      let k_is : l ≡ k = cc in
      (l', rw (← same') (get_elem?-set_self heap q l' (get_elem?-lt heap q l at)), rw (← k_is) s)
  | inr other ↦
      let ne : q ≢ p = ground (arith, eqb_iff q p) in
      (k, get_elem?-set_ne heap q p l' ne ∙ e, Same-refl k)
]

-- The updates of Line.
add_knows :
    (a b : ℕ) (ps : List AddrHits)
    → knows a ps ≡ true
    → knows a (ps ++ (record { addr = b; count = 0 } ∷ [])) ≡ true
add_knows a b [] h = cc
add_knows a b (p ∷ ps) h = ground (arith, add_knows a b ps)

add_knows_new :
    (b : ℕ) (ps : List AddrHits) → knows b (ps ++ (record { addr = b; count = 0 } ∷ [])) ≡ true
add_knows_new b [] = ground arith
add_knows_new b (p ∷ ps) = ground (arith, add_knows_new b ps)

pub add_address-Same : (l : Line) (b : ℕ) → Same l (Line.add_address l b)
unfolding Line.add_address
add_address-Same l b = elim (Bool-cases (knows b l.addrs)) [
  | inl old ↦ rw old (Same-refl l)
  | inr new ↦
      rw new
        (record { line_id = refl; unreachable = refl; knows_on = λ a h. add_knows a b l.addrs h })
]

pub add_address-knows : (l : Line) (b : ℕ) → knows b (Line.add_address l b).addrs ≡ true
unfolding Line.add_address
add_address-knows l b = ground (arith, add_knows_new b l.addrs)

knows_bump : (a i n : ℕ) (ps : List AddrHits) → knows a (bump_at ps i n) ≡ knows a ps
knows_bump a i n [] = refl
knows_bump a zero n (p ∷ ps) = refl
knows_bump a (suc i) n (p ∷ ps) = ap (λ (b : Bool). eqb p.addr a || b) (knows_bump a i n ps)

pub register_hit_index-Same :
    (l : Line) (i n : ℕ) (s : Bool) → Same l (Line.register_hit_index l i n s)
unfolding Line.register_hit_index
register_hit_index-Same l i n s = elim (Bool-cases (leb (length l.addrs) i)) [
  | inl broken ↦ rw broken (Same-refl l)
  | inr inside ↦ rw inside (record {
    line_id = refl;
    unreachable = refl;
    knows_on = λ a h. knows_bump a i n l.addrs ∙ h;
  })
]

-- The update of a known address is found, and keeps the addresses.
register_in_known :
    (a n : ℕ) (s : Bool) (ps : List AddrHits)
    → knows a ps ≡ true
    → (qs : List AddrHits) × (register_in ps a n s ≡ some qs) × ((b : ℕ) → knows b qs ≡ knows b ps)
unfolding register_in
register_in_known a n s [] h = cc
register_in_known a n s (p ∷ ps) h = elim (Bool-cases (eqb p.addr a)) [
  | inl here ↦ (record p { count = counted p.count n s } ∷ ps, rw here, λ b. refl)
  | inr later ↦
      let (qs, e, keeps) = register_in_known a n s ps (ground arith) in
      (p ∷ qs, rw later (rw e), λ b. ap (λ (t : Bool). eqb p.addr b || t) (keeps b))
]

-- A hit on an address that the line knows is registered, and changes counts only.
pub register_hit_known :
    (l : Line) (a n : ℕ) (s : Bool)
    → knows a l.addrs ≡ true
    → (l' : Line) × (Line.register_hit l a n s ≡ some l') × Same l l'
unfolding Line.register_hit
register_hit_known l a n s h =
    let (qs, e, keeps) = register_in_known a n s l.addrs h in
    (
      record l { addrs = qs },
      rw e,
      record { line_id = refl; unreachable = refl; knows_on = λ b k. keeps b ∙ k },
    )
