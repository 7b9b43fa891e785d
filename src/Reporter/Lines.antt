-- ===== src/Reporter/Lines.antt =====
-- onLine of src/reporter.cc under the invariant.
use kcov.Prelude.{
  ℕ, zero, suc, ◌+◌, ◌≤◌, ◌≡◌, Bool, true, false, Option, none, some, List, [], ◌∷◌, ◌++◌, Bytes,
  arith, All, number_key, name_key, Bool-cases, inl, inr, length, get_elem?, get_elem?-append_end,
}
use kcov.Prelude.Table.{find, AllValues-find}
use kcov.Filter.LineHandler.{LineHandler, match}
use kcov.Reporter.Line
use kcov.Reporter.Line.{Line, knows}
use kcov.Reporter.File
use kcov.Reporter.File.{File, Heap}
use kcov.Reporter.Env.{Env}
use kcov.Reporter.Heap.{Grows, Grows-refl, Grows-trans, Grows-alloc}
use kcov.Reporter.Valid.{
  Live, LiveSlot, reachable_count, FileIsValid, FileIsValid-Grows, Valid-Grows,
}
use kcov.Reporter.Slots.{add_line-FileIsValid, length-add_line}
use kcov.Reporter.Tables.{insert_file}
use kcov.Reporter.Hits.{IsValid}
use kcov.Reporter.State.{
  Reporter, mark_unreachable, create_file, found_file, found_line, file_hash_of,
}

-- The objects and the file that the loop over the source lines leaves.
record Marked (heap : Heap) (s : Heap × File × LineHandler) : Type 0 where
  grows : Grows heap s.0
  file : FileIsValid s.0 s.1

-- A new line in a free slot.
alloc-FileIsValid :
    (heap : Heap) (f : File) (nr hash : ℕ) (u : Bool)
    → File.get_line f nr ≡ none
    → FileIsValid heap f
    → FileIsValid (heap ++ Line.new_line hash nr u ∷ []) (File.add_line f nr (length heap) u)
unfolding Line.new_line
alloc-FileIsValid heap f nr hash u free v =
    let l = Line.new_line hash nr u in
    let heap' = heap ++ l ∷ [] in
    add_line-FileIsValid heap' f nr (length heap) l (get_elem?-append_end heap l) free
      (FileIsValid-Grows heap heap' (Grows-alloc heap l) f v)

free_beyond : (f : File) (nr : ℕ) → length f.lines ≤ nr → File.get_line f nr ≡ none
unfolding File.get_line
free_beyond f nr h = ground arith

mark_unreachable-Marked :
    (file : Bytes) (line_nr nr : ℕ) (texts : List Bytes) (heap : Heap) (f : File) (h : LineHandler)
    → FileIsValid heap f
    → length f.lines ≤ nr
    → Marked heap (mark_unreachable file line_nr nr texts (heap, f, h))
unfolding mark_unreachable
mark_unreachable-Marked file line_nr nr [] heap f h v fits = record {
  grows = Grows-refl heap;
  file = v;
}
mark_unreachable-Marked file line_nr nr (text ∷ texts) heap f h v fits =
    let (h', kept) = match h file line_nr text in
    let l = Line.new_line f.file_hash nr true in
    let heap' = heap ++ l ∷ [] in
    let f' = File.add_line f nr (length heap) true in
    let skip = mark_unreachable-Marked file line_nr (nr + 1) texts heap f h' v (omega arith) in
    let mark =
      mark_unreachable-Marked file line_nr (nr + 1) texts heap' f' h'
        (alloc-FileIsValid heap f nr f.file_hash true (free_beyond f nr fits) v)
        (omega (arith, length-add_line heap f nr (length heap) true fits)) in
    elim (Bool-cases kept) [
      | inl keep ↦ rw keep skip
      | inr drop ↦ rw drop (record {
        grows = Grows-trans heap heap' _ (Grows-alloc heap l) mark.grows;
        file = mark.file;
      })
    ]

new_file-FileIsValid : (heap : Heap) (hash : ℕ) → FileIsValid heap (File.new_file hash)
unfolding File.new_file reachable_count
new_file-FileIsValid heap hash = record { slots = tt; counts = omega arith }

new_file_short : (hash : ℕ) → length (File.new_file hash).lines ≤ 1
unfolding File.new_file
new_file_short hash = omega arith

-- A new file, with its unreachable lines.
create_file-IsValid :
    (env : Env) (file : Bytes) (nr : ℕ) (r : Reporter)
    → IsValid r
    → IsValid (create_file env file nr r).0
      × FileIsValid (create_file env file nr r).0.heap (create_file env file nr r).1
unfolding create_file
create_file-IsValid env file nr r v =
    let hash = file_hash_of env file in
    let f = File.new_file hash in
    let m =
      mark_unreachable-Marked file nr 1 (env.get_lines file) r.heap f r.line_handler
        (new_file-FileIsValid r.heap hash) (new_file_short hash) in
    let (heap, fp, h) =
      mark_unreachable file nr 1 (env.get_lines file) (r.heap, f, r.line_handler) in
    (
      insert_file heap r.files r.addr_to_line r.line_id_to_line file fp
          (Valid-Grows r.heap heap m.grows r.files r.addr_to_line r.line_id_to_line v) m.file,
      m.file,
    )

pub found_file-IsValid :
    (env : Env) (file : Bytes) (nr : ℕ) (r : Reporter) (o : Option File)
    → find file r.files ≡ o
    → IsValid r
    → IsValid (found_file env file nr r o).0
      × FileIsValid (found_file env file nr r o).0.heap (found_file env file nr r o).1
found_file-IsValid env file nr r none e v = create_file-IsValid env file nr r v
found_file-IsValid env file nr r (some fp) e v =
    (v, AllValues-find (FileIsValid r.heap) file fp r.files v.files_valid e)

Live-at :
    (heap : Heap) (ss : List (Option ℕ)) (i p : ℕ)
    → All (LiveSlot heap) ss
    → File.slot (get_elem? ss i) ≡ some p
    → Live heap p
Live-at heap [] i p k e = cc
Live-at heap (none ∷ ss) zero p k e = cc
Live-at heap (some q ∷ ss) zero p k e = let q_is : q ≡ p = cc in rw (← q_is) k.0
Live-at heap (s ∷ ss) (suc i) p k e = Live-at heap ss i p k.1 e

get_line-slot :
    (f : File) (nr p : ℕ) → File.get_line f nr ≡ some p → File.slot (get_elem? f.lines nr) ≡ some p
unfolding File.get_line
get_line-slot f nr p e = ground arith

-- The line of the event is there, and the state is valid.
pub found_line-IsValid :
    (file : Bytes) (nr : ℕ) (r : Reporter) (fp : File) (o : Option ℕ)
    → File.get_line fp nr ≡ o
    → IsValid r
    → FileIsValid r.heap fp
    → IsValid (found_line file nr r fp o).0
      × Live (found_line file nr r fp o).0.heap (found_line file nr r fp o).1
found_line-IsValid file nr r fp (some p) e v fv =
    (v, Live-at r.heap fp.lines nr p fv.slots (get_line-slot fp nr p e))
found_line-IsValid file nr r fp none e v fv =
    let l = Line.new_line fp.file_hash nr false in
    let heap = r.heap ++ l ∷ [] in
    (
      insert_file heap r.files r.addr_to_line r.line_id_to_line file
          (File.add_line fp nr (length r.heap) false)
          (Valid-Grows r.heap heap (Grows-alloc r.heap l) r.files r.addr_to_line r.line_id_to_line
            v)
          (alloc-FileIsValid r.heap fp nr fp.file_hash false e fv),
      (l, get_elem?-append_end r.heap l),
    )
