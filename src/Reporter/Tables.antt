-- ===== src/Reporter/Tables.antt =====
-- The invariant of Reporter in src/reporter.cc when its tables get an entry.
use kcov.Prelude.{
  ℕ, ◌≡◌, some, List, Bytes, arith, All, eqb_iff, ◌≟◌, number_key, name_key, Bool-cases, inl, inr,
}
use kcov.Prelude.Table.{Table, insert, find-insert, AllValues-insert}
use kcov.Reporter.File.{File, Heap}
use kcov.Reporter.Valid.{Knows, HasId, FileIsValid, Valid}

-- The tables with one more entry.
pub insert_file :
    (heap : Heap) (files : Table Bytes File) (at : Table ℕ (List ℕ)) (ids : Table ℕ ℕ)
    (name : Bytes) (f : File)
    → Valid heap files at ids
    → FileIsValid heap f
    → Valid heap (insert name f files) at ids
insert_file heap files at ids name f v fv = record {
  at_known = v.at_known;
  ids_live = v.ids_live;
  files_valid = AllValues-insert (FileIsValid heap) name f files v.files_valid fv;
}

pub insert_at :
    (heap : Heap) (files : Table Bytes File) (at : Table ℕ (List ℕ)) (ids : Table ℕ ℕ) (a : ℕ)
    (ps : List ℕ)
    → Valid heap files at ids
    → All (Knows heap a) ps
    → Valid heap files (insert a ps at) ids
insert_at heap files at ids a ps v k = record {
  at_known = λ b qs e. elim (Bool-cases (a ≟ b)) [
    | inl same ↦
        let a_is : a ≡ b = ground (arith, eqb_iff a b) in
        let e' : some ps ≡ some qs = ground (arith, find-insert a b ps at) in
        let ps_is : ps ≡ qs = cc in rw (← a_is, ← ps_is) k
    | inr other ↦ v.at_known b qs (ground (arith, find-insert a b ps at))
  ];
  ids_live = v.ids_live;
  files_valid = v.files_valid;
}

pub insert_id :
    (heap : Heap) (files : Table Bytes File) (at : Table ℕ (List ℕ)) (ids : Table ℕ ℕ) (id p : ℕ)
    → Valid heap files at ids
    → HasId heap id p
    → Valid heap files at (insert id p ids)
insert_id heap files at ids id p v k = record {
  at_known = v.at_known;
  ids_live = λ j q e. elim (Bool-cases (id ≟ j)) [
    | inl same ↦
        let id_is : id ≡ j = ground (arith, eqb_iff id j) in
        let e' : some p ≡ some q = ground (arith, find-insert id j p ids) in
        let p_is : p ≡ q = cc in rw (← id_is, ← p_is) k
    | inr other ↦ v.ids_live j q (ground (arith, find-insert id j p ids))
  ];
  files_valid = v.files_valid;
}
