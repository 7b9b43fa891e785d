-- ===== src/Reporter/Hits.antt =====
-- onAddressHit of src/reporter.cc under the invariant: it never meets a dangling line, and always
-- finds the address in the line.
use kcov.Prelude.{
  ℕ, ◌≡◌, refl, ◌∙◌, some, List, [], ◌∷◌, All, All-map_of, eqb, Option-cases, Bool-cases,
  number_key, name_key, inl, inr,
}
use kcov.Prelude.Table.{find}
use kcov.Reporter.Line.{Line}
use kcov.Reporter.Env.{Env, single_shot}
use kcov.Reporter.Heap.{
  Same, Same-refl, Same-trans, Grows, Grows-refl, Grows-trans, Grows-set, register_hit_known,
}
use kcov.Reporter.Valid.{Knows, Knows-Grows, Valid, Valid-Grows}
use kcov.Reporter.State.{
  Reporter, hit_line, hit_lines, on_address_hit, report_address, with_hit, set_order,
}

abbrev pub IsValid : Reporter → Type 0
IsValid r = Valid r.heap r.files r.addr_to_line r.line_id_to_line

-- Objects are updated, the tables stay.
pub record Keeps (r r' : Reporter) : Type 0 where
  pub grows : Grows r.heap r'.heap
  pub files : r'.files ≡ r.files
  pub addr_to_line : r'.addr_to_line ≡ r.addr_to_line
  pub line_id_to_line : r'.line_id_to_line ≡ r.line_id_to_line
  pub pending_files : r'.pending_files ≡ r.pending_files

pub Keeps-refl : (r : Reporter) → Keeps r r
Keeps-refl r = record {
  grows = Grows-refl r.heap;
  files = refl;
  addr_to_line = refl;
  line_id_to_line = refl;
  pending_files = refl;
}

pub Keeps-trans : (q r s : Reporter) → Keeps q r → Keeps r s → Keeps q s
Keeps-trans q r s k l = record {
  grows = Grows-trans q.heap r.heap s.heap k.grows l.grows;
  files = l.files ∙ k.files;
  addr_to_line = l.addr_to_line ∙ k.addr_to_line;
  line_id_to_line = l.line_id_to_line ∙ k.line_id_to_line;
  pending_files = l.pending_files ∙ k.pending_files;
}

pub Keeps-IsValid : (r r' : Reporter) → Keeps r r' → IsValid r → IsValid r'
Keeps-IsValid r r' k v =
    rw (k.files, k.addr_to_line, k.line_id_to_line)
      (Valid-Grows r.heap r'.heap k.grows r.files r.addr_to_line r.line_id_to_line v)

set_order-Same : (o : ℕ) (l : Line) → Same l (set_order o l)
set_order-Same o l = elim (Bool-cases (eqb l.order 0)) [
  | inl unset ↦ rw unset (record { line_id = refl; unreachable = refl; knows_on = λ a h. h })
  | inr is_set ↦ rw is_set (Same-refl l)
]

pub hit_line_known :
    (env : Env) (a n : ℕ) (r : Reporter) (p : ℕ)
    → Knows r.heap a p
    → (r' : Reporter) × (hit_line env a n r p ≡ some r') × Keeps r r'
unfolding hit_line report_address
hit_line_known env a n r p (l, e, k) =
    let (l', e', s) = register_hit_known l a n (single_shot env) k in
    (
      with_hit r p l' n,
      rw (e, e'),
      record {
        grows =
            Grows-set r.heap p l (set_order r.order l') e
              (Same-trans s (set_order-Same r.order l'));
        files = refl;
        addr_to_line = refl;
        line_id_to_line = refl;
        pending_files = refl;
      },
    )

hit_lines_known :
    (env : Env) (a n : ℕ) (r : Reporter) (ps : List ℕ)
    → All (Knows r.heap a) ps
    → (r' : Reporter) × (hit_lines env a n r ps ≡ some r') × Keeps r r'
unfolding hit_lines
hit_lines_known env a n r [] k = (r, refl, Keeps-refl r)
hit_lines_known env a n r (p ∷ ps) k =
    let (r₁, e₁, k₁) = hit_line_known env a n r p k.0 in
    let known =
      All-map_of (Knows r.heap a) (Knows r₁.heap a) ps (Knows-Grows r.heap r₁.heap k₁.grows a)
        k.1 in
    let (r₂, e₂, k₂) = hit_lines_known env a n r₁ ps known in
    (r₂, rw e₁ e₂, Keeps-trans r r₁ r₂ k₁ k₂)

-- From a valid state every reported hit is registered without a fault, and leaves a valid state
-- with the same files, addresses, line ids and pending hits.
pub on_address_hit-IsValid :
    (env : Env) (r : Reporter) (a n : ℕ)
    → IsValid r
    → (r' : Reporter) × (on_address_hit env r a n ≡ some r') × IsValid r' × Keeps r r'
unfolding on_address_hit
on_address_hit-IsValid env r a n v = elim (Option-cases (find a r.addr_to_line)) [
  | inl absent ↦ (r, rw absent, v, Keeps-refl r)
  | inr (ps, present) ↦
      let (r', e, k) = hit_lines_known env a n r ps (v.at_known a ps present) in
      (r', rw present e, Keeps-IsValid r r' k v, k)
]
