-- ===== src/Tests/Shared.antt =====
-- src/engines/system-mode-file-format.cc: two threads that report bits of one word.
use kcov.Prelude.{ascii, ℕ, ◌≡◌, refl, ◌⊎◌, true, some, List, [], ◌∷◌, arith, All, get_elem?}
use kcov.SystemMode.{
  Memory, new_memory, returned, checking, index_is_hit, report_index, advance, word_eq,
}
use kcov.SystemMode.Bits.{HasWidth}
use kcov.SystemMode.Races.{
  step, run_schedule, raced, run_schedule-kept, run_schedule-returned, run_schedule-new,
}
use kcov.SystemMode.Alone.{accesses, Adds, accesses-Adds}

abbrev memory : Memory
memory = new_memory (ascii "/bin/ls") [] 2

memory_wide : All HasWidth memory.data_
memory_wide = (refl, (refl, tt))

-- Both read the word before either writes it: the second compare-and-swap fails first.
abbrev reported : List ℕ
reported = 3 ∷ 5 ∷ []

abbrev schedule : List ℕ
schedule = 0 ∷ 1 ∷ 0 ∷ 1 ∷ 0 ∷ 1 ∷ 0 ∷ 1 ∷ 1 ∷ 1 ∷ []

second_returned : get_elem? (raced memory reported schedule).1 1 ≡ some (returned 5)
unfolding run_schedule step advance word_eq
second_returned = refl

run_schedule-returned_example : index_is_hit (raced memory reported schedule).0 5 ≡ true
run_schedule-returned_example =
    run_schedule-returned memory reported schedule 1 5 memory_wide second_returned (omega arith)

abbrev hit_before : Memory
hit_before = report_index memory 40

hit_wide : All HasWidth hit_before.data_
unfolding report_index
hit_wide = (refl, (refl, tt))

hit_40 : index_is_hit hit_before 40 ≡ true
unfolding report_index index_is_hit
hit_40 = refl

run_schedule-kept_example : index_is_hit (raced hit_before reported schedule).0 40 ≡ true
run_schedule-kept_example = run_schedule-kept hit_before reported schedule 40 hit_wide hit_40

hit_3 : index_is_hit (raced memory reported schedule).0 3 ≡ true
unfolding run_schedule step advance word_eq index_is_hit
hit_3 = refl

run_schedule-new_example :
    (index_is_hit memory 3 ≡ true) ⊎ ((k : ℕ) × (get_elem? reported k ≡ some 3))
run_schedule-new_example = run_schedule-new memory reported schedule 3 memory_wide hit_3

accesses-Adds_example :
    Adds memory (accesses 4 (memory, checking 33)).0 33
    × ((accesses 4 (memory, checking 33)).1 ≡ returned 33)
accesses-Adds_example = accesses-Adds memory 33 memory_wide
