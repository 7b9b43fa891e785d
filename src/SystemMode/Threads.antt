-- ===== src/SystemMode/Threads.antt =====
-- Threads and processes inside reportIndex of src/engines/system-mode-file-format.cc at the same
-- memory, one access at a time.
use kcov.Prelude.{
  ℕ, ◌+◌, ◌/◌, ◌%◌, ◌^◌, ◌<◌, ◌≡◌, refl, ◌∙◌, sym, ap, ◌≢◌, ◌⊎◌, inl, inr, Bool, true, false,
  Option, none, some, List, [], ◌∷◌, arith, eqb, leb, if◌then◌else◌, length, get_elem?, set, All,
  Bool-cases,
}
use kcov.SystemMode.{
  Memory, Thread, checking, reading, swapping, counting, returned, test_bit, word_at, index_is_hit,
  write_word, set_bit, count_dirty, advance, word_eq,
}
use kcov.SystemMode.Bits.{
  HasWidth, word_eq_sound, index_is_hit-in_range, written, written_self, written-other,
  written-HasWidth,
}

-- The index that a thread reports.
abbrev pub index_of : Thread → ℕ
index_of (checking i) = i
index_of (reading i) = i
index_of (counting i) = i
index_of (returned i) = i
index_of (swapping i val) = i

-- What is true of a thread wherever it is: its index is in range behind the guards, and hit behind
-- the compare-and-swap.
abbrev pub Sound : Memory → Thread → Type 0
Sound m (checking i) = Unit
Sound m (reading i) = i / 32 < length m.data_
Sound m (swapping i val) = i / 32 < length m.data_
Sound m (counting i) = index_is_hit m i ≡ true
Sound m (returned i) = i / 32 < length m.data_ → index_is_hit m i ≡ true

-- From one memory to a later one: the words keep their number and width, no hit is lost, and only
-- `i` may be hit anew.
pub record Later (i : ℕ) (m m' : Memory) : Type 0 where
  pub size : length m'.data_ ≡ length m.data_
  pub wide : All HasWidth m'.data_
  pub kept : (j : ℕ) → index_is_hit m j ≡ true → index_is_hit m' j ≡ true
  pub new : (j : ℕ) → index_is_hit m' j ≡ true → (index_is_hit m j ≡ true) ⊎ (i ≡ j)

pub Later-same : (i : ℕ) (m : Memory) → All HasWidth m.data_ → Later i m m
Later-same i m wide = record { size = refl; wide = wide; kept = λ j h. h; new = λ j h. inl h }

count_dirty-Later : (i : ℕ) (m : Memory) → All HasWidth m.data_ → Later i m (count_dirty m)
unfolding index_is_hit
count_dirty-Later i m wide = record {
  size = refl;
  wide = wide;
  kept = λ j h. h;
  new = λ j h. inl h;
}

written-Later :
    (i : ℕ) (m : Memory) → All HasWidth m.data_ → i / 32 < length m.data_ → Later i m (written m i)
written-Later i m wide lt = record {
  size = kcov.Prelude.length-set m.data_ (i / 32) (set_bit (word_at m i) (i % 32));
  wide = written-HasWidth m i wide lt;
  kept = λ j h. elim (Bool-cases (eqb i j)) [
    | inl same ↦ let is : i ≡ j = ground arith in rw (← is) (written_self m i wide lt)
    | inr other ↦ written-other m i j wide lt (λ e. ground arith) ∙ h
  ];
  new = λ j h. elim (Bool-cases (eqb i j)) [
    | inl same ↦ inr (ground arith)
    | inr other ↦ inl (sym (written-other m i j wide lt (λ e. ground arith)) ∙ h)
  ];
}

pub Sound-Later : (k : ℕ) (m m' : Memory) (t : Thread) → Later k m m' → Sound m t → Sound m' t
Sound-Later k m m' (checking i) l s = tt
Sound-Later k m m' (reading i) l s = rw l.size s
Sound-Later k m m' (swapping i val) l s = rw l.size s
Sound-Later k m m' (counting i) l s = l.kept i s
Sound-Later k m m' (returned i) l s = λ lt. l.kept i (s (rw (← l.size) lt))

-- One access keeps the thread's index and makes the memory a later one in which the thread is
-- sound.
pub record Advanced (m : Memory) (t : Thread) (next : Memory × Thread) : Type 0 where
  pub index : index_of next.1 ≡ index_of t
  pub later : Later (index_of t) m next.0
  pub sound : Sound next.0 next.1

if-Advanced :
    (m : Memory) (t : Thread) (b : Bool) (x y : Memory × Thread)
    → (b ≡ true → Advanced m t x)
    → (b ≡ false → Advanced m t y)
    → Advanced m t (if b then x else y)
if-Advanced m t true x y f g = f refl
if-Advanced m t false x y f g = g refl

pub advance-Advanced :
    (m : Memory) (t : Thread) → All HasWidth m.data_ → Sound m t → Advanced m t (advance m t)
unfolding advance
advance-Advanced m (checking i) wide s =
    if-Advanced m (checking i) (leb (length m.data_) (i / 32)) (m, returned i)
      (if test_bit (word_at m i) (i % 32) then (m, returned i) else (m, reading i))
      (λ out. record { index = refl; later = Later-same i m wide; sound = λ lt. ground arith })
      (λ in_range.
        if-Advanced m (checking i) (test_bit (word_at m i) (i % 32)) (m, returned i) (m, reading i)
          (λ hit. record {
            index = refl;
            later = Later-same i m wide;
            sound = λ lt. index_is_hit-in_range m i lt ∙ hit;
          })
          (λ not_hit. record { index = refl; later = Later-same i m wide; sound = ground arith }))
advance-Advanced m (reading i) wide s = record {
  index = refl;
  later = Later-same i m wide;
  sound = s;
}
advance-Advanced m (swapping i val) wide s =
    if-Advanced m (swapping i val) (word_eq (word_at m i) val)
      (write_word m i (set_bit val (i % 32)), counting i) (m, reading i)
      (λ equal.
        let is = word_eq_sound (word_at m i) val equal in
        rw (← is) (record {
          index = refl;
          later = written-Later i m wide s;
          sound = written_self m i wide s;
        }))
      (λ changed. record { index = refl; later = Later-same i m wide; sound = s })
advance-Advanced m (counting i) wide s = record {
  index = refl;
  later = count_dirty-Later i m wide;
  sound = λ lt. (count_dirty-Later i m wide).kept i s;
}
advance-Advanced m (returned i) wide s = record {
  index = refl;
  later = Later-same i m wide;
  sound = s;
}
