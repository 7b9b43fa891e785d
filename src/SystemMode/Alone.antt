-- ===== src/SystemMode/Alone.antt =====
-- One call of reportIndex of src/engines/system-mode-file-format.cc that no other thread interrupts.
use kcov.Prelude.{
  ℕ, zero, suc, ◌+◌, ◌/◌, ◌%◌, ◌^◌, ◌<◌, ◌≡◌, ◌≢◌, refl, ◌∙◌, sym, ap, subst, length-set, Bool,
  true, false, not, ◌&&◌, ◌||◌, arith, eqb, leb, if◌then◌else◌, length, All, Bool-cases, inl, inr,
}
use kcov.SystemMode.{
  Memory, Thread, checking, returned, index_is_hit, report_index, advance, test_bit, word_at,
  set_bit, count_dirty,
}
use kcov.SystemMode.Bits.{
  HasWidth, word_eq_refl, index_is_hit-in_range, written, written_self, written-other,
}

abbrev pub accesses : ℕ → Memory × Thread → Memory × Thread
accesses zero s = s
accesses (suc n) (m, t) = accesses n (advance m t)

abbrev pub in_range : Memory → ℕ → Bool
in_range m i = not (leb (length m.data_) (i / 32))

-- The memory as the set of the hit indexes, to which one is added if there is a bit for it, and
-- which is counted as changed if it was not there.
pub record Adds (m m' : Memory) (i : ℕ) : Type 0 where
  pub hits : (j : ℕ) → index_is_hit m' j ≡ (index_is_hit m j || (eqb i j && in_range m i))
  pub counted : m'.dirty_count ≡ (
      if in_range m i && not (index_is_hit m i)
      then (m.dirty_count + 1) % 2 ^ 32
      else m.dirty_count)
  pub size : length m'.data_ ≡ length m.data_

accesses-report_index :
    (m : Memory) (i : ℕ) → accesses 4 (m, checking i) ≡ (report_index m i, returned i)
unfolding advance report_index
accesses-report_index m i = elim (Bool-cases (leb (length m.data_) (i / 32))) [
  | inl out ↦ rw out refl
  | inr within ↦ elim (Bool-cases (test_bit (word_at m i) (i % 32))) [
    | inl hit ↦ rw (within, hit) refl
    | inr not_hit ↦ rw (within, not_hit, word_eq_refl (word_at m i)) refl
  ]
]

Adds-same : (m : Memory) (i : ℕ) → (in_range m i ≡ true → index_is_hit m i ≡ true) → Adds m m i
Adds-same m i there = elim (Bool-cases (in_range m i)) [
  | inl within ↦
      let hit = there within in
      record {
        hits = λ j. elim (Bool-cases (eqb i j)) [
          | inl same ↦
              let is : i ≡ j = ground arith in
              let hit_j : index_is_hit m j ≡ true = ap (index_is_hit m) (sym is) ∙ hit in
              rw hit_j refl
          | inr other ↦ ground (arith, other)
        ];
        counted = rw (within, hit) refl;
        size = refl;
      }
  | inr out ↦ record { hits = λ j. ground (arith, out); counted = rw out refl; size = refl }
]

count_dirty-hit : (m : Memory) (j : ℕ) → index_is_hit (count_dirty m) j ≡ index_is_hit m j
unfolding index_is_hit
count_dirty-hit m j = refl

Adds-new :
    (m : Memory) (i : ℕ)
    → All HasWidth m.data_
    → leb (length m.data_) (i / 32) ≡ false
    → index_is_hit m i ≡ false
    → Adds m (count_dirty (written m i)) i
Adds-new m i wide within new =
    let lt : i / 32 < length m.data_ = ground arith in
    record {
      hits = λ j. count_dirty-hit (written m i) j ∙ elim (Bool-cases (eqb i j)) [
        | inl same ↦
            let is : i ≡ j = ground arith in
            let hit : index_is_hit (written m i) j ≡ true =
              ap (index_is_hit (written m i)) (sym is) ∙ written_self m i wide lt in
            hit ∙ ground (arith, within, same)
        | inr other ↦
            let ne : i ≢ j = λ is. ground arith in
            written-other m i j wide lt ne ∙ ground (arith, other)
      ];
      counted = rw (within, new) refl;
      size = length-set m.data_ (i / 32) (set_bit (word_at m i) (i % 32));
    }

report_index-Adds : (m : Memory) (i : ℕ) → All HasWidth m.data_ → Adds m (report_index m i) i
unfolding report_index
report_index-Adds m i wide = elim (Bool-cases (leb (length m.data_) (i / 32))) [
  | inl out ↦ rw out (Adds-same m i (λ within. let no : false ≡ true = rw out at within in cc))
  | inr within ↦
      let lt : i / 32 < length m.data_ = ground arith in
      elim (Bool-cases (test_bit (word_at m i) (i % 32))) [
        | inl hit ↦ rw (within, hit) (Adds-same m i (λ in_. index_is_hit-in_range m i lt ∙ hit))
        | inr not_hit ↦
            rw (within, not_hit) (Adds-new m i wide within (index_is_hit-in_range m i lt ∙ not_hit))
      ]
]

-- A thread that nobody interrupts is through with reportIndex within four accesses, in any memory
-- of words of 32 bits. The hit indexes are then those before and its own, if there is a bit for it;
-- the changes counted are one more if that index was not hit before, and as many if it was or has
-- no bit; and the memory has its size.
pub accesses-Adds :
    (m : Memory) (i : ℕ)
    → All HasWidth m.data_
    → Adds m (accesses 4 (m, checking i)).0 i × ((accesses 4 (m, checking i)).1 ≡ returned i)
accesses-Adds m i wide =
    let done = accesses-report_index m i in
    (
      subst (λ (s : Memory × Thread). Adds m s.0 i) (sym done) (report_index-Adds m i wide),
      ap (λ (s : Memory × Thread). s.1) done,
    )
