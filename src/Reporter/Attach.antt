-- ===== src/Reporter/Attach.antt =====
-- The second half of onLine of src/reporter.cc, on the line of the event, and onLine as a whole.
use kcov.Prelude.{
  ℕ, ◌≡◌, refl, Bool, true, false, ◌||◌, Option, none, some, List, [], ◌∷◌, ◌++◌, Bytes, All,
  All-append, All-map_of, eqb, number_key, name_key, Bool-cases, Option-cases, inl, inr, get_elem?,
  set, if◌then◌else◌, get_elem?-set_self, get_elem?-lt,
}
use kcov.Prelude.Table.{find, insert, find_or}
use kcov.Reporter.Line
use kcov.Reporter.Line.{Line, knows}
use kcov.Reporter.File
use kcov.Reporter.File.{File, Heap}
use kcov.Reporter.Env.{Env, single_shot}
use kcov.Reporter.Heap.{
  Grows, Grows-set, add_address-Same, add_address-knows, register_hit_index-Same,
}
use kcov.Reporter.Valid.{Live, Live-Grows, Knows, Knows-Grows, Valid-Grows}
use kcov.Reporter.Tables.{insert_at, insert_id}
use kcov.Reporter.Lines.{found_file-IsValid, found_line-IsValid}
use kcov.Reporter.Hits.{IsValid, Keeps, Keeps-refl, Keeps-trans, Keeps-IsValid}
use kcov.Reporter.State.{
  Reporter, PendingFileAddress, found_file, found_line, is_dup, apply_pending, handle_pending,
  attach_address, on_line, report_address, notify, on_line_reporter,
}

is_dup_decides :
    (heap : Heap) (id : ℕ) (ps : List ℕ)
    → All (Live heap) ps
    → (b : Bool) × (is_dup heap id ps ≡ some b)
unfolding is_dup
is_dup_decides heap id [] k = (false, refl)
is_dup_decides heap id (p ∷ ps) k =
    let (l, e) = k.0 in
    let (b, d) = is_dup_decides heap id ps k.1 in (eqb id l.line_id || b, rw (e, d))

apply_pending-Keeps :
    (env : Env) (id p : ℕ) (r : Reporter) (pending : List PendingFileAddress)
    → Live r.heap p
    → (r' : Reporter) × (apply_pending env id p r pending ≡ some r') × Keeps r r'
unfolding apply_pending report_address
apply_pending-Keeps env id p r [] live = (r, refl, Keeps-refl r)
apply_pending-Keeps env id p r (pend ∷ rest) live =
    let (l, e) = live in
    let l' = Line.register_hit_index l pend.index pend.hits (single_shot env) in
    let same = register_hit_index-Same l pend.index pend.hits (single_shot env) in
    let grows = Grows-set r.heap p l l' e same in
    let r₁ = record (report_address r id pend.hits) { heap = set r.heap p l' } in
    let (r₂, e₂, k₂) =
      apply_pending-Keeps env id p r₁ rest (Live-Grows r.heap r₁.heap grows p live) in
    let k₁ : Keeps r r₁ = record {
      grows = grows;
      files = refl;
      addr_to_line = refl;
      line_id_to_line = refl;
      pending_files = refl;
    } in
    (r₂, rw e e₂, Keeps-trans r r₁ r₂ k₁ k₂)

handle_pending-IsValid :
    (env : Env) (id p : ℕ) (r : Reporter) (o : Option (List PendingFileAddress))
    → IsValid r
    → Live r.heap p
    → (r' : Reporter) × (handle_pending env id p r o ≡ some r') × IsValid r'
handle_pending-IsValid env id p r none v live = (r, refl, v)
handle_pending-IsValid env id p r (some pending) v live =
    let (r', e, k) = apply_pending-Keeps env id p r pending live in
    (record r' { pending_files = insert id [] r'.pending_files }, rw e, Keeps-IsValid r r' k v)

All-unless :
    (P : ℕ → Type 0) (b : Bool) (xs : List ℕ) (x : ℕ)
    → All P xs
    → P x
    → All P (if b then xs else xs ++ x ∷ [])
All-unless P true xs x k px = k
All-unless P false xs x k px = All-append P xs (x ∷ []) k (px, tt)

module _ (env : Env) (r : Reporter) (p addr : ℕ) (v : IsValid r) where
  known_before :
      (heap : Heap) → Grows r.heap heap → All (Knows heap addr) (find_or [] addr r.addr_to_line)
  known_before heap grows = elim (Option-cases (find addr r.addr_to_line)) [
    | inl absent ↦ rw absent tt
    | inr (ps, present) ↦ rw present (
        All-map_of (Knows r.heap addr) (Knows heap addr) ps (Knows-Grows r.heap heap grows addr)
          (v.at_known addr ps present))
  ]

  attach_address-IsValid :
      Live r.heap p → (s : Reporter × ℕ) × (attach_address env r p addr ≡ some s) × IsValid s.0
  unfolding attach_address
  attach_address-IsValid live =
      let (l, e) = live in
      let l' = Line.add_address l addr in
      let heap = set r.heap p l' in
      let same = add_address-Same l addr in
      let grows = Grows-set r.heap p l l' e same in
      let here : get_elem? heap p ≡ some l' =
        get_elem?-set_self r.heap p l' (get_elem?-lt r.heap p l e) in
      let old = known_before heap grows in
      let lines = find_or [] addr r.addr_to_line in
      let (dup, d) =
        is_dup_decides heap l.line_id lines
          (All-map_of (Knows heap addr) (Live heap) lines (λ q k. (k.0, k.1)) old) in
      let lines' = (if dup then lines else lines ++ p ∷ []) in
      let new : All (Knows heap addr) lines' =
        All-unless (Knows heap addr) dup lines p old (l', here, add_address-knows l addr) in
      let r₂ = record r {
        heap = heap;
        addr_to_line = insert addr lines' r.addr_to_line;
        line_id_to_line = insert l.line_id p r.line_id_to_line;
      } in
      let v₂ : IsValid r₂ =
        insert_id heap r.files (insert addr lines' r.addr_to_line) r.line_id_to_line l.line_id p
          (insert_at heap r.files r.addr_to_line r.line_id_to_line addr lines'
            (Valid-Grows r.heap heap grows r.files r.addr_to_line r.line_id_to_line v) new)
          (l', here, same.line_id) in
      let (r₃, e₃, v₃) =
        handle_pending-IsValid env l.line_id p r₂ (find l.line_id r₂.pending_files) v₂ (l', here) in
      ((r₃, l.line_id), rw (e, d, e₃), v₃)

-- From a valid state every line that the parser reports is taken in without a fault, and leaves a
-- valid state.
pub on_line-IsValid :
    (env : Env) (r : Reporter) (file : Bytes) (nr addr : ℕ)
    → IsValid r
    → (r' : Reporter) × (on_line env r file nr addr ≡ some r') × IsValid r'
unfolding on_line
on_line-IsValid env r file nr addr v = elim (Bool-cases (env.run_filters file)) [
  | inr excluded ↦ (r, rw excluded, v)
  | inl included ↦
      let (v₁, f₁) = found_file-IsValid env file nr r (find file r.files) refl v in
      let (r₁, fp) = found_file env file nr r (find file r.files) in
      let (v₂, live) = found_line-IsValid file nr r₁ fp (File.get_line fp nr) refl v₁ f₁ in
      let (r₂, p) = found_line file nr r₁ fp (File.get_line fp nr) in
      let (s, e, v₃) = attach_address-IsValid env r₂ p addr v₂ live in
      (notify s.0 (on_line_reporter file nr s.1), rw (included, e), v₃)
]
