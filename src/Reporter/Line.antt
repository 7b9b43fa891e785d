-- ===== src/Reporter/Line.antt =====
-- Reporter::Line of src/reporter.cc: the addresses of one source line and their hit counts.
use mathlib.Core.Option
use kcov.Prelude.{
  ℕ, zero, suc, ◌+◌, ◌-◌, ◌*◌, ◌%◌, ◌^◌, Bool, true, false, ◌||◌, Option, none, some, List, [], ◌∷◌,
  ◌++◌, Bytes, eqb, leb, ltb, if◌then◌else◌, length, get_elem?, set, take, drop,
}
use kcov.Endian.{Host, put_be, get_be}

-- An address with its count: an int, held as its 32-bit pattern.
pub record AddrHits : Type 0 where
  pub addr : ℕ
  pub count : ℕ

pub record Line : Type 0 where
  pub addrs : List AddrHits
  pub line_id : ℕ
  pub order : ℕ
  pub unreachable : Bool

-- (fileHash << 32) | lineNr in 64 bits: the two share no bit, so the or is a sum.
unfoldable pub make_line_id : ℕ → ℕ → ℕ
make_line_id file_hash line_nr = file_hash * 2 ^ 32 % 2 ^ 64 + line_nr

unfoldable pub new_line : ℕ → ℕ → Bool → Line
new_line file_hash line_nr unreachable = record {
  addrs = [];
  line_id = make_line_id file_hash line_nr;
  order = 0;
  unreachable = unreachable;
}

-- The loop of addAddress: does a pair with `addr` exist?
abbrev pub knows : ℕ → List AddrHits → Bool
knows addr [] = false
knows addr (p ∷ ps) = eqb p.addr addr || knows addr ps

unfoldable pub add_address : Line → ℕ → Line
add_address l addr =
    if knows addr l.addrs
    then l
    else record l { addrs = l.addrs ++ (record { addr = addr; count = 0 } ∷ []) }

abbrev pub counted : ℕ → ℕ → Bool → ℕ
counted n hits single_shot = if single_shot then 1 else (n + hits) % 2 ^ 32

-- The search of registerHit and the update behind it. An unknown address is a fault (`none`): the
-- source then steps back from an end iterator that its own push_back has invalidated.
unfoldable pub register_in : List AddrHits → ℕ → ℕ → Bool → Option (List AddrHits)
register_in [] addr hits single_shot = none
register_in (p ∷ ps) addr hits single_shot =
    let rest = register_in ps addr hits single_shot in
    if eqb p.addr addr
    then some (record p { count = counted p.count hits single_shot } ∷ ps)
    else Option.map (◌∷◌ p) rest

unfoldable pub register_hit : Line → ℕ → ℕ → Bool → Option Line
register_hit l addr hits single_shot =
    Option.map (λ (ps : List AddrHits). record l { addrs = ps })
      (register_in l.addrs addr hits single_shot)

-- m_addrs[index].second += hits; `single_shot` is not looked at.
abbrev pub bump_at : List AddrHits → ℕ → ℕ → List AddrHits
bump_at [] index hits = []
bump_at (p ∷ ps) zero hits = record p { count = (p.count + hits) % 2 ^ 32 } ∷ ps
bump_at (p ∷ ps) (suc i) hits = p ∷ bump_at ps i hits

unfoldable pub register_hit_index : Line → ℕ → ℕ → Bool → Line
register_hit_index l index hits single_shot =
    if leb (length l.addrs) index then l else record l { addrs = bump_at l.addrs index hits }

unfoldable pub clear_hits : Line → Line
clear_hits l = record l {
  addrs = kcov.Prelude.map (λ (p : AddrHits). record p { count = 0 }) l.addrs;
}

-- The sum, in 32 bits.
unfoldable pub hits_loop : ℕ → List AddrHits → ℕ
hits_loop out [] = out
hits_loop out (p ∷ ps) = hits_loop ((out + p.count) % 2 ^ 32) ps

unfoldable pub hits : Line → ℕ
hits l = hits_loop 0 l.addrs

unfoldable pub possible_hits : Line → Bool → ℕ
possible_hits l single_shot = if single_shot then length l.addrs % 2 ^ 32 else 0

-- An int as a uint64_t.
abbrev pub sign_extend : ℕ → ℕ
sign_extend n = if ltb n (2 ^ 31) then n else n + (2 ^ 64 - 2 ^ 32)

-- The loop of marshal: address, hash, index and number of hits of each address that has hits.
unfoldable pub marshal_loop : Host → ℕ → ℕ → List AddrHits → Bytes
marshal_loop host line_id index [] = []
marshal_loop host line_id index (p ∷ ps) =
    let rest = marshal_loop host line_id ((index + 1) % 2 ^ 32) ps in
    if eqb p.count 0
    then rest
    else put_be host 8 p.addr
      ++ (put_be host 8 line_id
          ++ (put_be host 8 index ++ (put_be host 8 (sign_extend p.count) ++ rest)))

unfoldable pub marshal : Host → Line → Bytes
marshal host l = marshal_loop host l.line_id 0 l.addrs

unfoldable pub count_loop : ℕ → List AddrHits → ℕ
count_loop n [] = n
count_loop n (p ∷ ps) = count_loop (if eqb p.count 0 then n else (n + 1) % 2 ^ 32) ps

unfoldable pub marshal_size : Line → ℕ
marshal_size l = count_loop 0 l.addrs * 8 * 4

-- One entry of the database.
pub record Entry : Type 0 where
  pub addr : ℕ
  pub file_hash : ℕ
  pub index : ℕ
  pub hits : ℕ

-- unMarshal: the entry at `p`, and what is behind it.
unfoldable pub un_marshal : Host → Bytes → Entry × Bytes
un_marshal host p = (
  record {
    addr = get_be host 8 (take 8 p);
    file_hash = get_be host 8 (take 8 (drop 8 p));
    index = get_be host 8 (take 8 (drop 16 p));
    hits = get_be host 8 (take 8 (drop 24 p));
  },
  drop 32 p,
)
