-- ===== src/Endian.antt =====
-- src/include/swap-endian.hh: the byte order of the integers in kcov's files.
-- An integer of w bytes is a number below 256 ^ w; `store` and `load` are its representation in
-- the memory of a host, whose byte order is the parameter of `cpu_is_little_endian`.
pub mod RoundTrip
pub mod Fields
use mathlib.Core.List.{reverse}
use kcov.Prelude.{
  ℕ, zero, suc, ◌+◌, ◌*◌, ◌/◌, ◌%◌, Bool, true, false, List, [], ◌∷◌, Bytes, eqb, if◌then◌else◌,
}

-- Which end of an integer the host's memory begins with.
pub data Host : Type 0 where
  little_endian big_endian : Host

-- The bytes of an integer, the lowest first, and back.
unfoldable pub le_bytes : ℕ → ℕ → Bytes
le_bytes zero u = []
le_bytes (suc w) u = (u % 256) ∷ le_bytes w (u / 256)

unfoldable pub from_le : Bytes → ℕ
from_le [] = 0
from_le (b ∷ bs) = b + 256 * from_le bs

-- The union's `u8` and `u`.
unfoldable pub store : Host → ℕ → ℕ → Bytes
unfolding le_bytes
store little_endian w u = le_bytes w u
store big_endian w u = reverse (le_bytes w u)

unfoldable pub load : Host → Bytes → ℕ
unfolding from_le
load little_endian bs = from_le bs
load big_endian bs = from_le (reverse bs)

unfoldable pub byte_at : Bytes → ℕ → ℕ
byte_at [] k = 0
byte_at (b ∷ bs) zero = b
byte_at (b ∷ bs) (suc k) = byte_at bs k

-- The loop over k, with n = sizeof(T) - k rounds left: it reads source.u8[sizeof(T) - k - 1].
unfoldable pub swap_bytes : ℕ → Bytes → Bytes
unfolding byte_at
swap_bytes zero source = []
swap_bytes (suc n) source = byte_at source n ∷ swap_bytes n source

unfoldable pub swap_endian : Host → ℕ → ℕ → ℕ
unfolding store load swap_bytes
swap_endian host w u = load host (swap_bytes w (store host w u))

-- p[0] ≟ 0x22 for the two bytes of 0x1122.
unfoldable pub cpu_is_little_endian : Host → Bool
unfolding store byte_at
cpu_is_little_endian host = eqb (byte_at (store host 2 0x1122) 0) 0x22

unfoldable pub to_be : Host → ℕ → ℕ → ℕ
to_be host w u = if cpu_is_little_endian host then swap_endian host w u else u

unfoldable pub to_le : Host → ℕ → ℕ → ℕ
to_le host w u = if cpu_is_little_endian host then u else swap_endian host w u

unfoldable pub be_to_host : Host → ℕ → ℕ → ℕ
be_to_host host w u = if cpu_is_little_endian host then swap_endian host w u else u

unfoldable pub le_to_host : Host → ℕ → ℕ → ℕ
le_to_host host w u = if cpu_is_little_endian host then u else swap_endian host w u

-- *p = to_be<T>(u), as the bytes that reach the file, and be_to_host<T>(*p) of bytes read from one.
unfoldable pub put_be : Host → ℕ → ℕ → Bytes
put_be host w u = store host w (to_be host w u)

unfoldable pub get_be : Host → ℕ → Bytes → ℕ
get_be host w bs = be_to_host host w (load host bs)

-- The bytes of an integer, the highest first.
unfoldable pub be_bytes : ℕ → ℕ → Bytes
unfolding le_bytes
be_bytes w u = reverse (le_bytes w u)
