-- ===== src/SystemMode.antt =====
-- system_mode_memory of src/engines/system-mode-file-format.cc: the hits of an instrumented
-- binary, one bit for each index, in memory that its threads and forked processes share.
-- A uint32_t of `data` is the list of its 32 bits, the lowest first.
pub mod Bits
pub mod Threads
pub mod Races
pub mod Alone
use kcov.Prelude.{
  ℕ, ◌+◌, ◌/◌, ◌%◌, ◌^◌, Bool, true, false, not, ◌&&◌, Option, none, some, List, [], ◌∷◌, Bytes,
  eqb, leb, if◌then◌else◌, length, get_elem?, set, replicate,
}

abbrev pub Word : Type 0
Word = List Bool

pub record Memory : Type 0 where
  pub filename : Bytes
  pub options : Bytes
  pub data_ : List Word
  pub dirty_count : ℕ
  pub clean_count : ℕ

-- The constructor, with n_entries words that mmap has cleared.
abbrev pub new_memory : Bytes → Bytes → ℕ → Memory
new_memory filename options n = record {
  filename = filename;
  options = options;
  data_ = replicate n (replicate 32 false);
  dirty_count = 0;
  clean_count = 0;
}

-- cur & (1 << bit), and val | (1 << bit).
abbrev pub bit_or_false : Option Bool → Bool
bit_or_false none = false
bit_or_false (some b) = b

abbrev pub test_bit : Word → ℕ → Bool
test_bit cur bit = bit_or_false (get_elem? cur bit)

abbrev pub set_bit : Word → ℕ → Word
set_bit val bit = set val bit true

-- *p for p = &data[wordIdx], behind the test of wordIdx.
abbrev pub word_or_empty : Option Word → Word
word_or_empty none = []
word_or_empty (some w) = w

abbrev pub word_at : Memory → ℕ → Word
word_at m index = word_or_empty (get_elem? m.data_ (index / 32))

unfoldable pub index_is_hit : Memory → ℕ → Bool
index_is_hit m index =
    if leb (length m.data_) (index / 32) then false else test_bit (word_at m index) (index % 32)

abbrev pub write_word : Memory → ℕ → Word → Memory
write_word m index w = record m { data_ = set m.data_ (index / 32) w }

abbrev pub count_dirty : Memory → Memory
count_dirty m = record m { dirty_count = (m.dirty_count + 1) % 2 ^ 32 }

-- reportIndex with nobody else at the memory: the first compare-and-swap succeeds.
unfoldable pub report_index : Memory → ℕ → Memory
report_index m index =
    if leb (length m.data_) (index / 32)
    then m
    else if test_bit (word_at m index) (index % 32)
    then m
    else count_dirty (write_word m index (set_bit (word_at m index) (index % 32)))

unfoldable pub is_dirty : Memory → Bool
is_dirty m = not (eqb m.dirty_count m.clean_count)

unfoldable pub mark_clean : Memory → Memory
mark_clean m = record m { clean_count = m.dirty_count }

-- Where a thread is in reportIndex(index): before the guards, before val = *p, before the
-- compare-and-swap with its val, before the count, at the end.
pub data Thread : Type 0 where
  checking reading counting returned : ℕ → Thread
  swapping : ℕ → Word → Thread

abbrev pub bit_eq : Bool → Bool → Bool
bit_eq true b = b
bit_eq false b = not b

unfoldable pub word_eq : Word → Word → Bool
word_eq [] [] = true
word_eq (a ∷ xs) (b ∷ ys) = bit_eq a b && word_eq xs ys
word_eq _ _ = false

-- One access to the memory by a thread.
unfoldable pub advance : Memory → Thread → Memory × Thread
advance m (checking i) =
    if leb (length m.data_) (i / 32)
    then (m, returned i)
    else if test_bit (word_at m i) (i % 32)
    then (m, returned i)
    else (m, reading i)
advance m (reading i) = (m, swapping i (word_at m i))
advance m (swapping i val) =
    if word_eq (word_at m i) val
    then (write_word m i (set_bit val (i % 32)), counting i)
    else (m, reading i)
advance m (counting i) = (count_dirty m, returned i)
advance m (returned i) = (m, returned i)
