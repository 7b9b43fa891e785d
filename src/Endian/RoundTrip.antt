-- ===== src/Endian/RoundTrip.antt =====
-- What the conversions of swap-endian.hh keep, and the bytes that they leave in memory.
use mathlib.Core.List.{reverse, reverse-append, reverse-reverse}
use native.Mathlib.Nat.{pow-suc}
use kcov.Prelude.{
  ℕ, zero, suc, ◌*◌, ◌/◌, ◌^◌, ◌<◌, ◌≡◌, refl, sym, ap, ◌∙◌, true, false, [], ◌∷◌, ◌++◌, Bytes,
  arith, length, length-append, All, All-append,
}
use kcov.Endian.{
  Host, little_endian, big_endian, le_bytes, from_le, store, load, byte_at, swap_bytes, swap_endian,
  cpu_is_little_endian, to_be, to_le, be_to_host, le_to_host, put_be, get_be, be_bytes,
}

pub length-le_bytes : (w u : ℕ) → length (le_bytes w u) ≡ w
unfolding le_bytes
length-le_bytes zero u = refl
length-le_bytes (suc w) u = ap suc (length-le_bytes w (u / 256))

from_le-le_bytes : (w u : ℕ) → u < 256 ^ w → from_le (le_bytes w u) ≡ u
unfolding from_le le_bytes
from_le-le_bytes zero u h = omega arith
from_le-le_bytes (suc w) u h =
    let small : u < 256 * 256 ^ w = omega (arith, pow-suc 256 w) in
    omega (arith, from_le-le_bytes w (u / 256) (omega arith))

abbrev IsByte : ℕ → Type 0
IsByte b = b < 256

le_bytes-IsByte : (w u : ℕ) → All IsByte (le_bytes w u)
unfolding le_bytes
le_bytes-IsByte zero u = tt
le_bytes-IsByte (suc w) u = (omega arith, le_bytes-IsByte w (u / 256))

le_bytes-from_le : (bs : Bytes) → All IsByte bs → le_bytes (length bs) (from_le bs) ≡ bs
unfolding from_le le_bytes
le_bytes-from_le [] h = refl
le_bytes-from_le (b ∷ bs) h = ground (arith, le_bytes-from_le bs h.1)

swap_bytes-cons : (n x : ℕ) (xs : Bytes) → swap_bytes (suc n) (x ∷ xs) ≡ swap_bytes n xs ++ x ∷ []
unfolding swap_bytes
swap_bytes-cons zero x xs = refl
swap_bytes-cons (suc n) x xs = ap (◌∷◌ (byte_at xs n)) (swap_bytes-cons n x xs)

-- Reading from the last byte to the first reverses the bytes.
swap_bytes-reverse : (bs : Bytes) → swap_bytes (length bs) bs ≡ reverse bs
unfolding swap_bytes
swap_bytes-reverse [] = refl
swap_bytes-reverse (b ∷ bs) =
    swap_bytes-cons (length bs) b bs
    ∙ ap (λ (xs : Bytes). xs ++ b ∷ []) (swap_bytes-reverse bs)
    ∙ sym (reverse-append (b ∷ []) bs)

length-reverse : (bs : Bytes) → length (reverse bs) ≡ length bs
length-reverse [] = refl
length-reverse (b ∷ bs) =
    rw (reverse-append (b ∷ []) bs)
      (omega (arith, length-append (reverse bs) (b ∷ []), length-reverse bs))

pub length-store : (host : Host) (w u : ℕ) → length (store host w u) ≡ w
unfolding store
length-store little_endian w u = length-le_bytes w u
length-store big_endian w u = length-reverse (le_bytes w u) ∙ length-le_bytes w u

swap_bytes-store :
    (host : Host) (w u : ℕ) → swap_bytes w (store host w u) ≡ reverse (store host w u)
swap_bytes-store host w u =
    let e = swap_bytes-reverse (store host w u) in rw (length-store host w u) at e

from_le-bound : (bs : Bytes) → All IsByte bs → from_le bs < 256 ^ length bs
unfolding from_le
from_le-bound [] h = omega arith
from_le-bound (b ∷ bs) h = omega (arith, from_le-bound bs h.1, pow-suc 256 (length bs), h.0)

All-reverse : (bs : Bytes) → All IsByte bs → All IsByte (reverse bs)
All-reverse [] h = tt
All-reverse (b ∷ bs) h =
    rw (reverse-append (b ∷ []) bs)
      (All-append IsByte (reverse bs) (b ∷ []) (All-reverse bs h.1) (h.0, tt))

-- The bytes of the number that reversed bytes stand for.
le_bytes-reversed :
    (w u : ℕ) → le_bytes w (from_le (reverse (le_bytes w u))) ≡ reverse (le_bytes w u)
le_bytes-reversed w u =
    let e = le_bytes-from_le (reverse (le_bytes w u)) (All-reverse _ (le_bytes-IsByte w u)) in
    rw (length-reverse (le_bytes w u) ∙ length-le_bytes w u) at e

-- Both hosts swap to the same number.
swap_endian_lem : (host : Host) (w u : ℕ) → swap_endian host w u ≡ from_le (reverse (le_bytes w u))
unfolding swap_endian
swap_endian_lem little_endian w u = ap from_le (swap_bytes-store little_endian w u)
swap_endian_lem big_endian w u =
    ap (λ (bs : Bytes). from_le (reverse bs)) (swap_bytes-store big_endian w u)
    ∙ ap from_le (reverse-reverse (reverse (le_bytes w u)))

-- Swapping the bytes of a w-byte integer twice gives it back, on either host.
pub swap_endian-swap_endian :
    (host : Host) (w u : ℕ) → u < 256 ^ w → swap_endian host w (swap_endian host w u) ≡ u
swap_endian-swap_endian host w u h = rw (swap_endian_lem host w u) (
    rw (swap_endian_lem host w (from_le (reverse (le_bytes w u))))
      (rw (le_bytes-reversed w u) (rw (reverse-reverse (le_bytes w u)) (from_le-le_bytes w u h))))

cpu_little : cpu_is_little_endian little_endian ≡ true
unfolding cpu_is_little_endian
cpu_little = refl

cpu_big : cpu_is_little_endian big_endian ≡ false
unfolding cpu_is_little_endian
cpu_big = refl

-- What to_be leaves in memory is the big-endian byte string, whichever byte order the host has.
pub put_be-be_bytes : (host : Host) (w u : ℕ) → put_be host w u ≡ be_bytes w u
put_be-be_bytes little_endian w u =
    unfold put_be to_be store be_bytes in
    rw cpu_little (rw (swap_endian_lem little_endian w u) (le_bytes-reversed w u))
put_be-be_bytes big_endian w u = unfold put_be to_be store be_bytes in rw cpu_big

get_be-be_bytes : (host : Host) (w u : ℕ) → u < 256 ^ w → get_be host w (be_bytes w u) ≡ u
get_be-be_bytes little_endian w u h =
    unfold get_be be_to_host load be_bytes in
    rw cpu_little (
      rw (swap_endian_lem little_endian w (from_le (reverse (le_bytes w u))))
        (rw (le_bytes-reversed w u) (rw (reverse-reverse (le_bytes w u)) (from_le-le_bytes w u h))))
get_be-be_bytes big_endian w u h =
    unfold get_be be_to_host load be_bytes in
    rw cpu_big (rw (reverse-reverse (le_bytes w u)) (from_le-le_bytes w u h))

-- A w-byte integer written on one host is read back on any other.
pub get_be-put_be :
    (writer reader : Host) (w u : ℕ) → u < 256 ^ w → get_be reader w (put_be writer w u) ≡ u
get_be-put_be writer reader w u h = rw (put_be-be_bytes writer w u) (get_be-be_bytes reader w u h)

-- The little-endian pair of conversions is inverse on one host.
pub le_to_host-to_le :
    (host : Host) (w u : ℕ) → u < 256 ^ w → le_to_host host w (to_le host w u) ≡ u
le_to_host-to_le little_endian w u h = unfold to_le le_to_host in rw cpu_little
le_to_host-to_le big_endian w u h =
    unfold to_le le_to_host in rw cpu_big (swap_endian-swap_endian big_endian w u h)

pub length-put_be : (host : Host) (w u : ℕ) → length (put_be host w u) ≡ w
unfolding put_be
length-put_be host w u = length-store host w (to_be host w u)

pub load-store : (host : Host) (w u : ℕ) → u < 256 ^ w → load host (store host w u) ≡ u
unfolding load store
load-store little_endian w u h = from_le-le_bytes w u h
load-store big_endian w u h = rw (reverse-reverse (le_bytes w u)) (from_le-le_bytes w u h)
