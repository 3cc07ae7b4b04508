-- ===== src/Bytes.antt =====
-- Byte slices as the source reads them: `data[i]`, `data[a..b]`, `from_le_bytes`, `to_le_bytes`,
-- the casts to the fixed widths and the shifts.
pub mod Endian
pub mod Slices
use Prim.Native.Nat.{bit_and}
use blvm_datum.Common.{
  ℕ, zero, suc, ◌+◌, ◌-◌, ◌*◌, ◌/◌, ◌%◌, ◌^◌, ◌≤◌, ◌<◌, Bool, ◌&&◌, List, [], ◌∷◌, ◌++◌, Option,
  none, some, All, leb, if◌then◌else◌, length, get_elem?, take, drop,
}
use blvm_datum.Error.{Result, ok, err, panic, ◌>>=◌}

abbrev pub Bytes : Type 0
Bytes = List ℕ

abbrev pub IsByte : ℕ → Type 0
IsByte b = b < 256

abbrev pub IsBytes : Bytes → Type 0
IsBytes = All IsByte

abbrev pub u8 : ℕ → ℕ
u8 n = n % 2 ^ 8

abbrev pub u32 : ℕ → ℕ
u32 n = n % 2 ^ 32

abbrev pub u64 : ℕ → ℕ
u64 n = n % 2 ^ 64

infixl 75 ◌<<<◌ ◌>>>◌
abbrev pub ◌<<<◌ : ℕ → ℕ → ℕ
x <<< k = x * 2 ^ k

abbrev pub ◌>>>◌ : ℕ → ℕ → ℕ
x >>> k = x / 2 ^ k

-- `data[i]` panics out of bounds.
unfoldable pub index : Bytes → ℕ → Result ℕ
index xs i = elim (get_elem? xs i) [ none ↦ panic | some b ↦ ok b ]

-- `data[a..b]`
unfoldable pub slice : Bytes → ℕ → ℕ → Result Bytes
slice xs a b = if leb a b && leb b (length xs) then ok (take (b - a) (drop a xs)) else panic

-- `data[a..]`
unfoldable pub slice_from : Bytes → ℕ → Result Bytes
slice_from xs a = if leb a (length xs) then ok (drop a xs) else panic

-- `to_le_bytes` of a `k`-byte integer: its lowest `k` bytes, lowest first.
abbrev pub to_le_bytes : ℕ → ℕ → Bytes
to_le_bytes zero n = []
to_le_bytes (suc k) n = (n % 256) ∷ to_le_bytes k (n / 256)

abbrev pub from_le_bytes : Bytes → ℕ
from_le_bytes [] = 0
from_le_bytes (b ∷ bs) = b + 256 * from_le_bytes bs

-- `u32::from_le_bytes([data[i], ..., data[i + 3]])`
unfoldable pub read_u32 : Bytes → ℕ → Result ℕ
unfolding index
read_u32 xs i = do
  b0 ← index xs i
  b1 ← index xs (i + 1)
  b2 ← index xs (i + 2)
  b3 ← index xs (i + 3)
  ok (from_le_bytes (b0 ∷ b1 ∷ b2 ∷ b3 ∷ []))

-- `u64::from_le_bytes([data[i], ..., data[i + 7]])`
unfoldable pub read_u64 : Bytes → ℕ → Result ℕ
unfolding index
read_u64 xs i = do
  b0 ← index xs i
  b1 ← index xs (i + 1)
  b2 ← index xs (i + 2)
  b3 ← index xs (i + 3)
  b4 ← index xs (i + 4)
  b5 ← index xs (i + 5)
  b6 ← index xs (i + 6)
  b7 ← index xs (i + 7)
  ok (from_le_bytes (b0 ∷ b1 ∷ b2 ∷ b3 ∷ b4 ∷ b5 ∷ b6 ∷ b7 ∷ []))
