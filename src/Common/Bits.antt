-- ===== src/Common/Bits.antt =====
-- The bitwise operations on the native numbers as arithmetic, at every width.
use Prim.Native.Nat.{
  ℕ, zero, suc, ◌+◌, ◌-◌, ◌*◌, ◌/◌, ◌%◌, ◌^◌, ◌≤◌, ◌<◌, min, max, digits, bitwise, differ, bit_and,
  bit_or, bit_xor, bit_and-bitwise, bit_or-bitwise, bit_xor-bitwise,
}
use mathlib.Core.Path.{◌≡◌, refl, sym, ap, ◌∙◌}
use mathlib.Core.Bool.{Bool, true, ◌&&◌}
use native.Mathlib.Omega.{arith}
use native.Mathlib.Nat.{pow-suc, one-le-pow, le_refl}

-- The definitions count digits down; one equation for the lowest digit does without the count.
module _ (z : ℕ → ℕ) (f : ℕ → ℕ → ℕ) where
  digits_count : (i j x y : ℕ) → x ≤ i → x ≤ j → digits z f i x y ≡ digits z f j x y
  digits_count (suc i) (suc j) (suc x) y hi hj =
      let rest = digits_count i j (suc x / 2) (y / 2) (omega arith) (omega arith) in rw rest
  digits_count (suc i) (suc j) zero y hi hj = refl
  digits_count (suc i) zero zero y hi hj = refl
  digits_count zero (suc j) zero y hi hj = refl
  digits_count zero zero zero y hi hj = refl
  digits_count zero j (suc x) y hi hj = absurd (omega arith)
  digits_count (suc i) zero (suc x) y hi hj = absurd (omega arith)

  bitwise-suc :
      (x y : ℕ)
      → bitwise z f (suc x) y ≡ f (suc x % 2) (y % 2) + bitwise z f (suc x / 2) (y / 2) * 2
  bitwise-suc x y =
      omega (arith, digits_count x (suc x / 2) (suc x / 2) (y / 2) (omega arith) (le_refl _))

differ_bits : (x y : ℕ) → x < 2 → y < 2 → differ x y ≡ (x + y) % 2
differ_bits zero y p q = omega arith
differ_bits (suc zero) zero p q = refl
differ_bits (suc zero) (suc zero) p q = refl
differ_bits (suc zero) (suc (suc y)) p q = absurd (omega arith)
differ_bits (suc (suc x)) y p q = absurd (omega arith)

bit_and_step : (x y : ℕ) → bit_and x y ≡ bit_and (x / 2) (y / 2) * 2 + min (x % 2) (y % 2)
bit_and_step zero y = omega (arith, bit_and-bitwise 0 y, bit_and-bitwise 0 (y / 2))
bit_and_step (suc x) y = omega (
  arith,
  bit_and-bitwise (suc x) y,
  bit_and-bitwise (suc x / 2) (y / 2),
  bitwise-suc (λ t. 0) min x y,
)

bit_or_step : (x y : ℕ) → bit_or x y ≡ bit_or (x / 2) (y / 2) * 2 + max (x % 2) (y % 2)
bit_or_step zero y = omega (arith, bit_or-bitwise 0 y, bit_or-bitwise 0 (y / 2))
bit_or_step (suc x) y = omega (
  arith,
  bit_or-bitwise (suc x) y,
  bit_or-bitwise (suc x / 2) (y / 2),
  bitwise-suc (λ t. t) max x y,
)

pub bit_xor_step : (a b : ℕ) → bit_xor a b ≡ bit_xor (a / 2) (b / 2) * 2 + (a % 2 + b % 2) % 2
bit_xor_step zero b = simp bit_xor-bitwise (omega arith)
bit_xor_step (suc a) b = omega (
  arith,
  bit_xor-bitwise (suc a) b,
  bit_xor-bitwise (suc a / 2) (b / 2),
  bitwise-suc (λ y. y) differ a b,
  differ_bits (suc a % 2) (b % 2) (omega arith) (omega arith),
)

zero-bit_or : (b : ℕ) → bit_or 0 b ≡ b
zero-bit_or b = bit_or-bitwise 0 b

zero-bit_and : (b : ℕ) → bit_and 0 b ≡ 0
zero-bit_and b = bit_and-bitwise 0 b

bit_and-zero_below : (n a : ℕ) → a ≤ n → bit_and a 0 ≡ 0
bit_and-zero_below n zero h = refl
bit_and-zero_below zero (suc a) h = absurd (omega arith)
bit_and-zero_below (suc n) (suc a) h =
    omega (arith, bit_and_step (suc a) 0, bit_and-zero_below n (suc a / 2) (omega arith))

mul-pow-suc : (k p : ℕ) → p * 2 ^ suc k ≡ p * 2 ^ k * 2
mul-pow-suc k p = let e = pow-suc 2 k in omega (arith, ap (λ (power : ℕ). p * power) e)

-- `r | (q << k)` is a sum when `r` fits `k` bits.
pub bit_or_fields : (k r q : ℕ) → r < 2 ^ k → bit_or r (q * 2 ^ k) ≡ r + q * 2 ^ k
bit_or_fields zero zero q h = ground (arith, zero-bit_or (q * 1))
bit_or_fields zero (suc r) q h = absurd (omega arith)
bit_or_fields (suc k) r q h = ground (
  arith,
  bit_or_step r (q * 2 ^ suc k),
  mul-pow-suc k q,
  pow-suc 2 k,
  bit_or_fields k (r / 2) q (omega (arith, pow-suc 2 k)),
)

bit_and_low : (k q r : ℕ) → r < 2 ^ k → bit_and (q * 2 ^ k + r) (2 ^ k - 1) ≡ r
bit_and_low zero q r h = omega (arith, bit_and-zero_below (q * 1 + r) (q * 1 + r) (le_refl _))
bit_and_low (suc k) q r h = ground (
  arith,
  bit_and_step (q * 2 ^ suc k + r) (2 ^ suc k - 1),
  mul-pow-suc k q,
  pow-suc 2 k,
  one-le-pow k 2,
  bit_and_low k q (r / 2) (omega (arith, pow-suc 2 k)),
)

-- `a & (2^k - 1)` is the remainder by `2^k`.
pub bit_and_mask : (k a : ℕ) → bit_and a (2 ^ k - 1) ≡ a % 2 ^ k
bit_and_mask k a = ground (arith, one-le-pow k 2, bit_and_low k (a / 2 ^ k) (a % 2 ^ k))

pub xor-below : (k a b : ℕ) → a < 2 ^ k → b < 2 ^ k → bit_xor a b < 2 ^ k
xor-below zero zero zero p q = omega arith
xor-below zero zero (suc b) p q = absurd (omega arith)
xor-below zero (suc a) b p q = absurd (omega arith)
xor-below (suc k) a b p q = omega (
  arith,
  bit_xor_step a b,
  pow-suc 2 k,
  xor-below k (a / 2) (b / 2) (omega (arith, pow-suc 2 k)) (omega (arith, pow-suc 2 k)),
)

-- Applying the same key twice gives the number back.
pub xor_twice : (k a b : ℕ) → a < 2 ^ k → b < 2 ^ k → bit_xor (bit_xor a b) b ≡ a
xor_twice zero zero zero p q = refl
xor_twice zero zero (suc b) p q = absurd (omega arith)
xor_twice zero (suc a) b p q = absurd (omega arith)
xor_twice (suc k) a b p q = omega (
  arith,
  bit_xor_step a b,
  bit_xor_step (bit_xor a b) b,
  xor_twice k (a / 2) (b / 2) (omega (arith, pow-suc 2 k)) (omega (arith, pow-suc 2 k)),
  ap (λ (t : ℕ). bit_xor t (b / 2)) {x = bit_xor a b / 2} {y = bit_xor (a / 2) (b / 2)}
      (omega (arith, bit_xor_step a b)),
)

zero_xor : bit_xor 0 0 ≡ 0
zero_xor = refl

xor-zero_below : (n a : ℕ) → a ≤ n → bit_xor a 0 ≡ a
xor-zero_below n zero h = refl
xor-zero_below zero (suc a) h = absurd (omega arith)
xor-zero_below (suc n) (suc a) h =
    omega (arith, bit_xor_step (suc a) 0, xor-zero_below n (suc a / 2) (omega arith))

xor_self : (k a : ℕ) → a < 2 ^ k → bit_xor a a ≡ 0
xor_self zero zero p = refl
xor_self zero (suc a) p = absurd (omega arith)
xor_self (suc k) a p =
    omega (arith, bit_xor_step a a, xor_self k (a / 2) (omega (arith, pow-suc 2 k)))

-- Splitting both numbers at bit `k`.
pub xor_fields :
    (k a b p q : ℕ)
    → a < 2 ^ k
    → b < 2 ^ k
    → bit_xor (a + p * 2 ^ k) (b + q * 2 ^ k) ≡ bit_xor a b + bit_xor p q * 2 ^ k
xor_fields zero a b p q ha hb = ground (arith, zero_xor)
xor_fields (suc k) a b p q ha hb = ground (
  arith,
  bit_xor_step (a + p * 2 ^ suc k) (b + q * 2 ^ suc k),
  bit_xor_step a b,
  mul-pow-suc k p,
  mul-pow-suc k q,
  mul-pow-suc k (bit_xor p q),
  xor_fields k (a / 2) (b / 2) p q (omega (arith, pow-suc 2 k)) (omega (arith, pow-suc 2 k)),
)

pub xor_comm : (k a b : ℕ) → a < 2 ^ k → b < 2 ^ k → bit_xor a b ≡ bit_xor b a
xor_comm zero zero zero p q = refl
xor_comm zero zero (suc b) p q = absurd (omega arith)
xor_comm zero (suc a) b p q = absurd (omega arith)
xor_comm (suc k) a b p q = omega (
  arith,
  bit_xor_step a b,
  bit_xor_step b a,
  xor_comm k (a / 2) (b / 2) (omega (arith, pow-suc 2 k)) (omega (arith, pow-suc 2 k)),
)

pub xor-zero : (a : ℕ) → bit_xor a 0 ≡ a
xor-zero a = xor-zero_below a a (le_refl a)

pub xor_twice_left : (k a b : ℕ) → a < 2 ^ k → b < 2 ^ k → bit_xor b (bit_xor a b) ≡ a
xor_twice_left k a b p q = xor_comm k b (bit_xor a b) q (xor-below k a b p q) ∙ xor_twice k a b p q

-- A number that leaves another unchanged is 0.
pub xor_eq_self : (k a b : ℕ) → a < 2 ^ k → b < 2 ^ k → bit_xor a b ≡ a → b ≡ 0
xor_eq_self k a b p q e =
    sym (xor_twice k b a q p)
    ∙ ap (λ (t : ℕ). bit_xor t a) (xor_comm k b a q p ∙ e)
    ∙ xor_self k a p

-- A test that passes at every number below `n`, by evaluation.
unfoldable pub all_below : ℕ → (ℕ → Bool) → Bool
all_below zero test = true
all_below (suc n) test = test n && all_below n test

pub all_below_lem :
    (n : ℕ) (test : ℕ → Bool) (i : ℕ) → all_below n test ≡ true → i < n → test i ≡ true
unfolding all_below
all_below_lem zero test i e h = absurd (omega arith)
all_below_lem (suc n) test i e h = ground (arith, all_below_lem n test i)
