-- ===== src/Reporter/Counts.antt =====
-- How often a line is hit: what onAddressHit of src/reporter.cc adds to the hits of the lines.
use kcov.Prelude.{
  ℕ, ◌+◌, ◌%◌, ◌^◌, ◌<◌, ◌≡◌, ◌≢◌, refl, sym, ap, subst, ◌∙◌, ◌⊎◌, inl, inr, true, false, some,
  List, [], ◌∷◌, arith, All, All-map_of, eqb, get_elem?, get_elem?-set_self, get_elem?-set_ne,
  get_elem?-lt, Bool, if◌then◌else◌, Bool-cases, Among, number_key, name_key,
}
use kcov.Prelude.Table.{find}
use kcov.Reporter.Line.{AddrHits, Line, counted, register_in, register_hit, hits_loop, hits, knows}
use kcov.Reporter.File.{Heap}
use kcov.Reporter.Env.{Env, single_shot}
use kcov.Reporter.Heap.{Grows}
use kcov.Reporter.Valid.{Knows, Knows-Grows}
use kcov.Reporter.State.{
  Reporter, hit_line, hit_lines, on_address_hit, report_address, with_hit, set_order,
}
use kcov.Reporter.Hits.{IsValid, hit_line_known}

abbrev sum : List AddrHits → ℕ
sum [] = 0
sum (p ∷ ps) = p.count + sum ps

hits_loop-sum :
    (out : ℕ) (ps : List AddrHits) → out < 2 ^ 32 → hits_loop out ps ≡ (out + sum ps) % 2 ^ 32
unfolding hits_loop
hits_loop-sum out [] small = omega arith
hits_loop-sum out (p ∷ ps) small =
    hits_loop-sum ((out + p.count) % 2 ^ 32) ps (omega arith) ∙ omega arith

-- The hits that stand at an address.
abbrev pub hits_at : ℕ → List AddrHits → ℕ
hits_at a [] = 0
hits_at a (p ∷ ps) = let later = hits_at a ps in if eqb p.addr a then p.count else later

-- What a report of `n` hits leaves at an address that has `count`: 1 where an address is hit at
-- most once, and else the sum in 32 bits.
abbrev pub hits_after : Bool → ℕ → ℕ → ℕ
hits_after single count n = if single then 1 else (count + n) % 2 ^ 32

counted_is : (count n : ℕ) (single : Bool) → counted count n single ≡ hits_after single count n
counted_is count n true = refl
counted_is count n false = refl

register_in-sum :
    (ps : List AddrHits) (a n : ℕ) (single : Bool)
    → knows a ps ≡ true
    → (ps' : List AddrHits) × (register_in ps a n single ≡ some ps')
      × (hits_at a ps' ≡ hits_after single (hits_at a ps) n)
      × (sum ps' + hits_at a ps ≡ sum ps + hits_at a ps')
unfolding register_in
register_in-sum [] a n single k = cc
register_in-sum (p ∷ ps) a n single k = elim (Bool-cases (eqb p.addr a)) [
  | inl here ↦ (
    record p { count = counted p.count n single } ∷ ps,
    rw here refl,
    rw here (counted_is p.count n single),
    rw here (omega arith),
  )
  | inr other ↦
      let later : knows a ps ≡ true = rw other at k in
      let (ps', e, h, s) = register_in-sum ps a n single later in
      (p ∷ ps', rw (other, e) refl, rw other h, rw other (omega (arith, s)))
]

register_hit-hits :
    (l : Line) (a n : ℕ) (single : Bool)
    → knows a l.addrs ≡ true
    → (l' : Line) × (register_hit l a n single ≡ some l')
      × (hits_at a l'.addrs ≡ hits_after single (hits_at a l.addrs) n)
      × ((hits l' + hits_at a l.addrs) % 2 ^ 32 ≡ (hits l + hits_at a l'.addrs) % 2 ^ 32)
unfolding register_hit hits
register_hit-hits l a n single k =
    let (ps, e, h, s) = register_in-sum l.addrs a n single k in
    let before = hits_loop-sum 0 l.addrs (omega arith) in
    let after = hits_loop-sum 0 ps (omega arith) in
    (record l { addrs = ps }, rw e refl, h, omega (arith, s, before, after))

-- The line at `p` has, after a report of `n` hits at the address `a`, what it is to have there, and
-- its hits, in 32 bits, have changed by as much.
abbrev pub Counted : Bool → Heap → Heap → ℕ → ℕ → ℕ → Type 0
Counted single heap heap' a p n =
    (l : Line) × (l' : Line) × (get_elem? heap p ≡ some l)
    × (get_elem? heap' p ≡ some l')
    × (hits_at a l'.addrs ≡ hits_after single (hits_at a l.addrs) n)
    × ((hits l' + hits_at a l.addrs) % 2 ^ 32 ≡ (hits l + hits_at a l'.addrs) % 2 ^ 32)

-- The lines that are not at the address are the same objects as before.
abbrev pub OthersKept : Heap → Heap → List ℕ → Type 0
OthersKept heap heap' ps = (q : ℕ) → (Among q ps → ⊥) → get_elem? heap' q ≡ get_elem? heap q

-- The line stands once in the list.
abbrev pub Once : ℕ → List ℕ → Type 0
Once p [] = ⊥
Once p (q ∷ qs) = ((p ≡ q) × (Among p qs → ⊥)) ⊎ ((p ≢ q) × Once p qs)

-- The object with the hit, and its order, in its place.
set_order-addrs : (o : ℕ) (l : Line) → (set_order o l).addrs ≡ l.addrs
set_order-addrs o l = elim (Bool-cases (eqb l.order 0)) [
  | inl unset ↦ rw unset refl
  | inr is_set ↦ rw is_set refl
]

record Step (env : Env) (r r' : Reporter) (a p n : ℕ) : Type 0 where
  grows : Grows r.heap r'.heap
  counted : Counted (single_shot env) r.heap r'.heap a p n
  others : (q : ℕ) → q ≢ p → get_elem? r'.heap q ≡ get_elem? r.heap q

hits-addrs : (l l' : Line) → l.addrs ≡ l'.addrs → hits l ≡ hits l'
unfolding hits
hits-addrs l l' same = ap (hits_loop 0) same

hit_line-Step :
    (env : Env) (a n : ℕ) (r : Reporter) (p : ℕ)
    → Knows r.heap a p
    → (r' : Reporter) × (hit_line env a n r p ≡ some r') × Step env r r' a p n
unfolding hit_line report_address
hit_line-Step env a n r p (l, e, k) =
    let (l', e', there, total) = register_hit-hits l a n (single_shot env) k in
    let r₁ = with_hit r p l' n in
    let reached : hit_line env a n r p ≡ some r₁ = rw (e, e') refl in
    let (r₂, e₂, keeps) = hit_line_known env a n r p (l, e, k) in
    let same : r₂ ≡ r₁ = cc in
    let addrs = set_order-addrs r.order l' in
    (
      r₁,
      reached,
      record {
        grows = subst (λ (x : Reporter). Grows r.heap x.heap) same keeps.grows;
        counted = (
          l,
          set_order r.order l',
          e,
          get_elem?-set_self r.heap p _ (get_elem?-lt r.heap p l e),
          ap (hits_at a) addrs ∙ there,
          ap (λ h. (h + hits_at a l.addrs) % 2 ^ 32) (hits-addrs (set_order r.order l') l' addrs)
              ∙ total
              ∙ ap (λ ps. (hits l + hits_at a ps) % 2 ^ 32) (sym addrs),
        );
        others = λ q other. get_elem?-set_ne r.heap p q _ (λ is. other (sym is));
      },
    )

Knows-rest :
    (env : Env) (r r' : Reporter) (p n a : ℕ) (ps : List ℕ)
    → Step env r r' a p n
    → All (Knows r.heap a) ps
    → All (Knows r'.heap a) ps
Knows-rest env r r' p n a ps step k =
    All-map_of (Knows r.heap a) (Knows r'.heap a) ps (Knows-Grows r.heap r'.heap step.grows a) k

hit_lines-OthersKept :
    (env : Env) (a n : ℕ) (r : Reporter) (ps : List ℕ)
    → All (Knows r.heap a) ps
    → (r' : Reporter) × (hit_lines env a n r ps ≡ some r') × OthersKept r.heap r'.heap ps
unfolding hit_lines
hit_lines-OthersKept env a n r [] k = (r, refl, λ q other. refl)
hit_lines-OthersKept env a n r (p ∷ ps) k =
    let (r₁, e₁, step) = hit_line-Step env a n r p k.0 in
    let (r₂, e₂, kept) =
      hit_lines-OthersKept env a n r₁ ps (Knows-rest env r r₁ p n a ps step k.1) in
    (r₂, rw e₁ e₂, λ q other. kept q (λ m. other (inr m)) ∙ step.others q (λ is. other (inl is)))

hit_lines-Counted :
    (env : Env) (a n : ℕ) (r : Reporter) (p : ℕ) (ps : List ℕ)
    → All (Knows r.heap a) ps
    → Once p ps
    → (r' : Reporter) × (hit_lines env a n r ps ≡ some r')
      × Counted (single_shot env) r.heap r'.heap a p n
unfolding hit_lines
hit_lines-Counted env a n r p [] k once = absurd once
hit_lines-Counted env a n r p (x ∷ ps) k (inl (here, later)) =
    let (r₁, e₁, step) = hit_line-Step env a n r x k.0 in
    let (r₂, e₂, kept) =
      hit_lines-OthersKept env a n r₁ ps (Knows-rest env r r₁ x n a ps step k.1) in
    let (l, l', before, after, there, total) = step.counted in
    (
      r₂,
      rw e₁ e₂,
      (
        l,
        l',
        ap (get_elem? r.heap) here ∙ before,
        kept p later ∙ ap (get_elem? r₁.heap) here ∙ after,
        there,
        total,
      ),
    )
hit_lines-Counted env a n r p (x ∷ ps) k (inr (other, once)) =
    let (r₁, e₁, step) = hit_line-Step env a n r x k.0 in
    let (r₂, e₂, (l, l', before, after, there, total)) =
      hit_lines-Counted env a n r₁ p ps (Knows-rest env r r₁ x n a ps step k.1) once in
    (r₂, rw e₁ e₂, (l, l', sym (step.others p other) ∙ before, after, there, total))

-- The hits of a line that stands once at an address are counted exactly. From a valid state, a
-- report of `n` hits at an address leaves there, in the line, 1 hit where an address is hit at most
-- once, and `n` more than before, in 32 bits, where it is not. The hits of the line change by as
-- much, and every line that is not at the address stays the object that it was.
pub on_address_hit-Counted :
    (env : Env) (r : Reporter) (a n p : ℕ) (ps : List ℕ)
    → IsValid r
    → find a r.addr_to_line ≡ some ps
    → Once p ps
    → (r' : Reporter) × (on_address_hit env r a n ≡ some r')
      × Counted (single_shot env) r.heap r'.heap a p n
      × OthersKept r.heap r'.heap ps
unfolding on_address_hit
on_address_hit-Counted env r a n p ps v at once =
    let known = v.at_known a ps at in
    let (r₁, e₁, counted) = hit_lines-Counted env a n r p ps known once in
    let (r₂, e₂, kept) = hit_lines-OthersKept env a n r ps known in
    let same : r₂ ≡ r₁ = cc in
    (r₁, rw at e₁, counted, subst (λ (x : Reporter). OthersKept r.heap x.heap ps) same kept)
