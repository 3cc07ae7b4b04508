-- ===== src/Bytes/Endian.antt =====
-- The laws of the little-endian codec.
use blvm_datum.Common.{
  ℕ, zero, suc, ◌+◌, ◌*◌, ◌/◌, ◌^◌, ◌<◌, ◌≡◌, refl, ap, ap₂, ◌∙◌, [], ◌∷◌, length, arith,
}
use blvm_datum.Bytes.{Bytes, IsBytes, to_le_bytes, from_le_bytes}
use native.Mathlib.Nat.{pow-suc}

pub length-to_le_bytes : (k n : ℕ) → length (to_le_bytes k n) ≡ k
length-to_le_bytes zero n = refl
length-to_le_bytes (suc k) n = ap suc (length-to_le_bytes k (n / 256))

pub to_le_bytes-IsBytes : (k n : ℕ) → IsBytes (to_le_bytes k n)
to_le_bytes-IsBytes zero n = tt
to_le_bytes-IsBytes (suc k) n = (omega arith, to_le_bytes-IsBytes k (n / 256))

-- The bytes of a number that fits `k` bytes give it back.
pub from_le_bytes-to_le_bytes : (k n : ℕ) → n < 256 ^ k → from_le_bytes (to_le_bytes k n) ≡ n
from_le_bytes-to_le_bytes zero n h = omega arith
from_le_bytes-to_le_bytes (suc k) n h =
    omega (arith, from_le_bytes-to_le_bytes k (n / 256) (omega (arith, pow-suc 256 k)))

-- The number that `k` bytes stand for has those bytes, and fits.
pub to_le_bytes-from_le_bytes :
    (bs : Bytes) → IsBytes bs → to_le_bytes (length bs) (from_le_bytes bs) ≡ bs
to_le_bytes-from_le_bytes [] h = refl
to_le_bytes-from_le_bytes (b ∷ bs) (hb, hbs) = ap₂ ◌∷◌ (omega arith) (
    ap (to_le_bytes (length bs)) {x = (b + 256 * from_le_bytes bs) / 256} {y = from_le_bytes bs}
      (omega arith)
    ∙ to_le_bytes-from_le_bytes bs hbs)

pub from_le_bytes-lt : (bs : Bytes) → IsBytes bs → from_le_bytes bs < 256 ^ length bs
from_le_bytes-lt [] h = omega arith
from_le_bytes-lt (b ∷ bs) (hb, hbs) =
    omega (arith, from_le_bytes-lt bs hbs, pow-suc 256 (length bs))
