-- ===== src/Merge/Order.antt =====
-- The hits of src/merge-file-parser.cc whose line is not yet known: m_pendingHits.
use kcov.Prelude.{
  ℕ, ◌≡◌, refl, ◌∙◌, ap, none, some, Bytes, Bool-cases, Option-cases, inl, inr, number_key,
  name_key, ◌>>=◌,
}
use kcov.Prelude.Table.{find, insert, remove, find-insert_self, remove-insert_new}
use kcov.Merge.{
  Env, File, MergeParser, add_line, set_local, register_hits, tell_hit, hash_address, on_address,
  file_at, flush_pending, enter_line, report_line, on_line_reporter,
}

-- The state after a hit at a line that has just been entered.
abbrev hit_entered : MergeParser → Bytes → File → ℕ → ℕ → MergeParser
hit_entered m filename f h hits =
    tell_hit (record m { files = insert filename (register_hits f h hits) m.files }) h hits

on_address-enter_line :
    (m : MergeParser) (f : File) (filename : Bytes) (line_nr addr h hits : ℕ)
    → on_address (enter_line m f filename line_nr addr h) addr hits
      ≡ some (
          hit_entered
            (enter_line m f filename line_nr addr h)
            filename
            (add_line (set_local f) line_nr h)
            h
            hits)
unfolding on_address enter_line
on_address-enter_line m f filename line_nr addr h hits =
    rw
      (
        find-insert_self addr h m.file_line_by_address,
        find-insert_self h filename m.files_by_address,
        find-insert_self filename (add_line (set_local f) line_nr h) m.files,
      )
      refl

abbrev with_pending : MergeParser → ℕ → ℕ → MergeParser
with_pending m addr hits = record m { pending_hits = insert addr hits m.pending_hits }

erased :
    (m : MergeParser) (f : File) (filename : Bytes) (line_nr addr h hits : ℕ)
    → find addr m.pending_hits ≡ none
    → (λ (r : MergeParser). record r { pending_hits = remove addr r.pending_hits })
        (hit_entered
          (enter_line (with_pending m addr hits) f filename line_nr addr h)
          filename
          (add_line (set_local f) line_nr h)
          h
          hits)
      ≡ hit_entered
          (enter_line m f filename line_nr addr h)
          filename
          (add_line (set_local f) line_nr h)
          h
          hits
unfolding enter_line
erased m f filename line_nr addr h hits free = λ i.
    record (hit_entered (enter_line m f filename line_nr addr h) filename
      (add_line (set_local f) line_nr h) h hits) {
        pending_hits = remove-insert_new addr hits m.pending_hits free i;
      }

-- In a state that holds the hits back, the line's entry registers them and lets go of them.
flush-enter_line :
    (m : MergeParser) (f : File) (filename : Bytes) (line_nr addr h hits : ℕ)
    → find addr m.pending_hits ≡ none
    → flush_pending
        (enter_line (with_pending m addr hits) f filename line_nr addr h)
        addr
        (some hits)
      ≡ some (
          hit_entered
            (enter_line m f filename line_nr addr h)
            filename
            (add_line (set_local f) line_nr h)
            h
            hits)
flush-enter_line m f filename line_nr addr h hits free =
    ap
      (λ o.
        o >>= λ (r : MergeParser). some (record r { pending_hits = remove addr r.pending_hits }))
      (on_address-enter_line (with_pending m addr hits) f filename line_nr addr h hits)
    ∙ ap some (erased m f filename line_nr addr h hits free)

pending-enter_line :
    (m : MergeParser) (f : File) (filename : Bytes) (line_nr addr h : ℕ)
    → (enter_line m f filename line_nr addr h).pending_hits ≡ m.pending_hits
unfolding enter_line
pending-enter_line m f filename line_nr addr h = refl

held :
    (m : MergeParser) (addr hits : ℕ)
    → find addr (with_pending m addr hits).pending_hits ≡ some hits
held m addr hits = find-insert_self addr hits m.pending_hits

report_line-pending :
    (env : Env) (m : MergeParser) (filename : Bytes) (line_nr addr hits : ℕ)
    → find addr m.pending_hits ≡ none
    → report_line env (with_pending m addr hits) filename line_nr addr
      ≡ (report_line env m filename line_nr addr >>= λ m'. on_address m' addr hits)
unfolding report_line on_address find enter_line
report_line-pending env m filename line_nr addr hits free =
    elim (Option-cases (file_at env filename (find filename m.files))) [
      | inl panics ↦ rw panics refl
      | inr (f, there) ↦
          let h = hash_address env filename line_nr in
          rw
            (
              there,
              pending-enter_line (with_pending m addr hits) f filename line_nr addr h,
              pending-enter_line m f filename line_nr addr h,
              held m addr hits,
              free,
              flush-enter_line m f filename line_nr addr h hits free,
              on_address-enter_line m f filename line_nr addr h hits,
            )
            refl
    ]

on_address-unknown :
    (m : MergeParser) (addr hits : ℕ)
    → find addr m.file_line_by_address ≡ none
    → on_address m addr hits ≡ some (with_pending m addr hits)
unfolding on_address
on_address-unknown m addr hits unknown = rw unknown refl

-- Hits at an address that is not known yet and holds no hits give, with the report of its line
-- behind them, the same state and the same calls as the line's report with the hits behind it,
-- also where the filter leaves the file out, or it is not there.
pub on_address-on_line_reporter :
    (env : Env) (m : MergeParser) (filename : Bytes) (line_nr addr hits : ℕ)
    → find addr m.file_line_by_address ≡ none
    → find addr m.pending_hits ≡ none
    → (on_address m addr hits >>= λ m'. on_line_reporter env m' filename line_nr addr)
      ≡ (on_line_reporter env m filename line_nr addr >>= λ m'. on_address m' addr hits)
unfolding on_line_reporter
on_address-on_line_reporter env m filename line_nr addr hits unknown free =
    let first = on_address-unknown m addr hits unknown in
    let reported = report_line-pending env m filename line_nr addr hits free in
    elim (Bool-cases (env.run_filters filename)) [
      | inl kept ↦ elim (Bool-cases (env.file_exists filename)) [
        | inl there ↦ rw (first, kept, there) reported
        | inr gone ↦ rw (first, kept, gone, first) refl
      ]
      | inr dropped ↦ rw (first, dropped, first) refl
    ]
