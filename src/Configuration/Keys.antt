-- ===== src/Configuration/Keys.antt =====
-- The keys of src/configuration.cc: each that has a default can be read, whatever the options are.
use kcov.Prelude.{
  ℕ, ◌%◌, ◌^◌, ◌≡◌, ◌∙◌, ap, Option, none, some, List, [], ◌∷◌, Bytes, bytes_eq, if◌then◌else◌, All,
  name_key, Bool-cases, inl, inr,
}
use kcov.Prelude.Table.{Table, find, insert, find-insert, find-insert_self}
use kcov.Configuration.{
  Setting, string_setting, int_setting, list_setting, Configuration, key_as_string, key_as_int,
  key_as_list, notify_found, notify_key_listeners, set_key, set_keys,
}
use kcov.Configuration.Configure.{Outcome, next, usage, panic, uncaught, exit_, ◌>>=◌}

-- The key of a setting can be read at its type.
abbrev pub Readable : Configuration → Setting → Type 0
Readable c (string_setting key val) = (v : Bytes) × (key_as_string c key ≡ some v)
Readable c (int_setting key val) = (v : ℕ) × (key_as_int c key ≡ some v)
Readable c (list_setting key val) = (v : List Bytes) × (key_as_list c key ≡ some v)

-- What can be read in one configuration can be read in another.
abbrev pub Keeps : Configuration → Configuration → Type 0
Keeps c c' = (s : Setting) → Readable c s → Readable c' s

insert_kept :
    {V : Type 0} (k j : Bytes) (v : V) (m : Table Bytes V)
    → (w : V) × (find j m ≡ some w)
    → (w : V) × (find j (insert k v m) ≡ some w)
insert_kept k j v m (w, there) = elim (Bool-cases (bytes_eq k j)) [
  | inl same ↦ (v, find-insert k j v m ∙ ap (λ b. if b then some v else find j m) same)
  | inr other ↦ (w, find-insert k j v m ∙ ap (λ b. if b then some v else find j m) other ∙ there)
]

insert_there :
    {V : Type 0} (k : Bytes) (v : V) (m : Table Bytes V)
    → (w : V) × (find k (insert k v m) ≡ some w)
insert_there k v m = (v, find-insert_self k v m)

notify_found-Readable :
    (key : Bytes) (c : Configuration) (o : Option ℕ) (s : Setting)
    → Readable c s
    → Readable (notify_found key c o) s
unfolding key_as_string key_as_int key_as_list
notify_found-Readable key c none s r = r
notify_found-Readable key c (some l) (string_setting k v) r = r
notify_found-Readable key c (some l) (int_setting k v) r = r
notify_found-Readable key c (some l) (list_setting k v) r = r

notify-Readable :
    (key : Bytes) (c : Configuration) (s : Setting)
    → Readable c s
    → Readable (notify_key_listeners key c) s
unfolding notify_key_listeners
notify-Readable key c s r = notify_found-Readable key c (find key c.listeners) s r

pub set_key-Keeps : (c : Configuration) (s : Setting) → Keeps c (set_key c s)
unfolding set_key key_as_string key_as_int key_as_list
set_key-Keeps c (string_setting k v) (string_setting j w) r =
    notify-Readable k _ (string_setting j w) (insert_kept k j v c.strings r)
set_key-Keeps c (string_setting k v) (int_setting j w) r = notify-Readable k _ (int_setting j w) r
set_key-Keeps c (string_setting k v) (list_setting j w) r = notify-Readable k _ (list_setting j w) r
set_key-Keeps c (int_setting k v) (string_setting j w) r =
    notify-Readable k _ (string_setting j w) r
set_key-Keeps c (int_setting k v) (int_setting j w) r =
    notify-Readable k _ (int_setting j w) (insert_kept k j (v % 2 ^ 32) c.ints r)
set_key-Keeps c (int_setting k v) (list_setting j w) r = notify-Readable k _ (list_setting j w) r
set_key-Keeps c (list_setting k v) (string_setting j w) r =
    notify-Readable k _ (string_setting j w) r
set_key-Keeps c (list_setting k v) (int_setting j w) r = notify-Readable k _ (int_setting j w) r
set_key-Keeps c (list_setting k v) (list_setting j w) r =
    notify-Readable k _ (list_setting j w) (insert_kept k j v c.string_vectors r)

pub set_key-Readable : (c : Configuration) (s : Setting) → Readable (set_key c s) s
unfolding set_key key_as_string key_as_int key_as_list
set_key-Readable c (string_setting k v) =
    notify-Readable k _ (string_setting k v) (insert_there k v c.strings)
set_key-Readable c (int_setting k v) =
    notify-Readable k _ (int_setting k v) (insert_there k (v % 2 ^ 32) c.ints)
set_key-Readable c (list_setting k v) =
    notify-Readable k _ (list_setting k v) (insert_there k v c.string_vectors)

pub set_keys-Keeps : (c : Configuration) (ss : List Setting) → Keeps c (set_keys c ss)
unfolding set_keys
set_keys-Keeps c [] t r = r
set_keys-Keeps c (s ∷ ss) t r = set_keys-Keeps (set_key c s) ss t (set_key-Keeps c s t r)

pub set_keys-Readable : (c : Configuration) (ss : List Setting) → All (Readable (set_keys c ss)) ss
unfolding set_keys
set_keys-Readable c [] = tt
set_keys-Readable c (s ∷ ss) =
    (set_keys-Keeps (set_key c s) ss s (set_key-Readable c s), set_keys-Readable (set_key c s) ss)

-- A property of what a step goes on with.
abbrev pub After : {A : Type 0} → (A → Type 0) → Outcome A → Type 0
After P (next a) = P a
After P ended = Unit {0}

pub After-bind :
    {A : Type 0} {B : Type 0} (P : A → Type 0) (Q : B → Type 0) (m : Outcome A) (f : A → Outcome B)
    → After P m
    → ((a : A) → P a → After Q (f a))
    → After Q (m >>= f)
After-bind P Q (next a) f h k = k a h
After-bind P Q usage f h k = tt
After-bind P Q panic f h k = tt
After-bind P Q uncaught f h k = tt
After-bind P Q exit_ f h k = tt

abbrev pub Any : {A : Type 0} → A → Type 0
Any a = Unit {0}

pub After-Any : {A : Type 0} (m : Outcome A) → After Any m
After-Any (next a) = tt
After-Any usage = tt
After-Any panic = tt
After-Any uncaught = tt
After-Any exit_ = tt

pub After-map :
    {A : Type 0} (P Q : A → Type 0) (m : Outcome A) → ((a : A) → P a → Q a) → After P m → After Q m
After-map P Q (next a) f h = f a h
After-map P Q usage f h = tt
After-map P Q panic f h = tt
After-map P Q uncaught f h = tt
After-map P Q exit_ f h = tt
