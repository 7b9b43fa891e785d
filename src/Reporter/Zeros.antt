-- ===== src/Reporter/Zeros.antt =====
-- The zero bytes that marshal of src/reporter.cc leaves behind its entries: unMarshal reads them
-- as entries with no hits, which it passes over.
use kcov.Prelude.{
  ℕ, zero, suc, ◌+◌, ◌*◌, ◌≡◌, refl, sym, ap, ◌∙◌, some, ◌∷◌, Bytes, arith, take, drop, replicate,
}
use kcov.Endian.{Host, get_be, be_bytes}
use kcov.Endian.RoundTrip.{get_be-put_be, put_be-be_bytes}
use kcov.Reporter.Line
use kcov.Reporter.Line.{Entry}
use kcov.Reporter.Env.{Env}
use kcov.Reporter.State.{Reporter}
use kcov.Reporter.Database.{restore_entry, un_marshal_loop}

abbrev pub zeros : ℕ → Bytes
zeros n = replicate n 0

abbrev no_entry : Entry
no_entry = record { addr = 0; file_hash = 0; index = 0; hits = 0 }

take-zeros : (a b : ℕ) → take a (zeros (a + b)) ≡ zeros a
take-zeros zero b = refl
take-zeros (suc a) b =
    let e : suc a + b ≡ suc (a + b) = omega arith in rw e (ap (◌∷◌ 0) (take-zeros a b))

drop-zeros : (a b : ℕ) → drop a (zeros (a + b)) ≡ zeros b
drop-zeros zero b = let e : 0 + b ≡ b = omega arith in rw e
drop-zeros (suc a) b = let e : suc a + b ≡ suc (a + b) = omega arith in rw e (drop-zeros a b)

zero_bytes : be_bytes 8 0 ≡ zeros 8
unfolding be_bytes
zero_bytes = refl

get_zero : (host : Host) → get_be host 8 (zeros 8) ≡ 0
get_zero host =
    ap (get_be host 8) (sym (put_be-be_bytes host 8 0 ∙ zero_bytes))
    ∙ get_be-put_be host host 8 0 (omega arith)

field_zeros : (host : Host) (a b : ℕ) → get_be host 8 (take 8 (drop a (zeros (a + (8 + b))))) ≡ 0
field_zeros host a b =
    ap (λ (xs : Bytes). get_be host 8 (take 8 xs)) (drop-zeros a (8 + b))
    ∙ ap (get_be host 8) (take-zeros 8 b)
    ∙ get_zero host

un_marshal-zeros :
    (host : Host) (m : ℕ) → Line.un_marshal host (zeros (32 + m)) ≡ (no_entry, zeros m)
unfolding Line.un_marshal
un_marshal-zeros host m =
    let at = λ (a b : ℕ) (e : 32 + m ≡ a + (8 + b)).
      ap (λ (n : ℕ). get_be host 8 (take 8 (drop a (zeros n)))) e ∙ field_zeros host a b in
    let p₀ = at 0 (24 + m) (omega arith) in
    let p₁ = at 8 (16 + m) (omega arith) in
    let p₂ = at 16 (8 + m) (omega arith) in
    let p₃ = at 24 m (omega arith) in
    λ i. (record { addr = p₀ i; file_hash = p₁ i; index = p₂ i; hits = p₃ i }, drop-zeros 32 m i)

restore_no_entry : (env : Env) (r : Reporter) → restore_entry env no_entry r ≡ some r
unfolding restore_entry
restore_no_entry env r = refl

pub un_marshal_loop-zeros :
    (env : Env) (k : ℕ) (r : Reporter) → un_marshal_loop env k (zeros (32 * k)) r ≡ some r
unfolding un_marshal_loop
un_marshal_loop-zeros env zero r = refl
un_marshal_loop-zeros env (suc k) r =
    let e : 32 * suc k ≡ 32 + 32 * k = omega arith in
    rw e (
      rw (un_marshal-zeros env.host (32 * k))
        (rw (restore_no_entry env r) (un_marshal_loop-zeros env k r)))
