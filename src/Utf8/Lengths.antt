-- ===== src/Utf8/Lengths.antt =====
-- How long the lossy decoder's output can be.
use blvm_datum.Common.{
  ℕ, suc, if◌then◌else◌, ◌-◌, ◌+◌, ◌*◌, ◌≤◌, ◌≡◌, refl, Bool, not, [], ◌∷◌, ◌++◌, length,
  length-append, ◌==◌, arith, true, false,
}
use blvm_datum.Bytes.{Bytes}
use blvm_datum.Utf8.{
  DecoderState, between, inside, start, decode_byte, decode_from, from_utf8_lossy, replacement,
  in_range,
}

-- Inside a character of at most four bytes, of which one at least is to come.
abbrev IsWithin : DecoderState → Type 0
IsWithin between = Unit
IsWithin (inside buf left lo hi) = length buf + left ≤ 3

-- What a state still owes for the bytes that it has taken.
abbrev owed : DecoderState → ℕ
owed between = 0
owed (inside _ _ _ _) = 3

abbrev Spends : Bytes × DecoderState → ℕ → Type 0
Spends r budget = IsWithin r.1 × (length r.0 + owed r.1 ≤ budget)

start-Spends : (c : ℕ) → Spends (start c) 3
unfolding start
start-Spends c = ground arith

inside-Spends :
    (bad last : Bool) (buf : Bytes) (left c : ℕ) (r : Bytes × DecoderState)
    → length buf + left ≤ 3
    → last ≡ (left == 0)
    → Spends r 3
    → Spends
        (if bad
          then (replacement ++ r.0, r.1)
          else if last
          then (buf ++ c ∷ [], between)
          else ([], inside (buf ++ c ∷ []) (left - 1) 0x80 0xBF))
        6
inside-Spends true last buf left c r h e s = (s.0, omega (arith, s.1))
inside-Spends false true buf left c r h e s = (tt, omega (arith, length-append buf (c ∷ []), h))
inside-Spends false false buf left c r h e s =
    (ground (arith, length-append buf (c ∷ [])), omega arith)

decode_byte-Spends : (s : DecoderState) (c : ℕ) → IsWithin s → Spends (decode_byte s c) (owed s + 3)
unfolding decode_byte
decode_byte-Spends between c h = start-Spends c
decode_byte-Spends (inside buf left lo hi) c h =
    inside-Spends (not (in_range lo hi c)) (left == 0) buf left c (start c) h refl (start-Spends c)

-- One byte, and what the rest gives.
length-decoded :
    (budget n : ℕ) (r : Bytes × DecoderState) (cs : Bytes)
    → Spends r (budget + 3)
    → length (decode_from r.1 cs) ≤ owed r.1 + 3 * n
    → length (r.0 ++ decode_from r.1 cs) ≤ budget + 3 * suc n
length-decoded budget n r cs (_, spent) rest =
    omega (arith, length-append r.0 (decode_from r.1 cs), spent, rest)

decode_from-length :
    (s : DecoderState) (bytes : Bytes)
    → IsWithin s
    → length (decode_from s bytes) ≤ owed s + 3 * length bytes
unfolding decode_from
decode_from-length between [] h = omega arith
decode_from-length (inside buf left lo hi) [] h = omega arith
decode_from-length between (c ∷ cs) h =
    let spends = decode_byte-Spends between c h in
    length-decoded 0 (length cs) (decode_byte between c) cs spends
      (decode_from-length (decode_byte between c).1 cs spends.0)
decode_from-length (inside buf left lo hi) (c ∷ cs) h =
    let spends = decode_byte-Spends (inside buf left lo hi) c h in
    length-decoded 3 (length cs) (decode_byte (inside buf left lo hi) c) cs spends
      (decode_from-length (decode_byte (inside buf left lo hi) c).1 cs spends.0)

pub length-from_utf8_lossy : (bytes : Bytes) → length (from_utf8_lossy bytes) ≤ 3 * length bytes
unfolding from_utf8_lossy
length-from_utf8_lossy bytes = omega (arith, decode_from-length between bytes tt)
