-- ===== src/Bytes/Slices.antt =====
-- When reads of a slice stay in bounds, and what they give.
use blvm_datum.Common.{
  All-take, All-drop, subst, ap₂, zero, suc, take-append-drop, length-take, ℕ, ◌+◌, ◌-◌, ◌^◌, ◌≤◌,
  ◌<◌, ◌≡◌, refl, sym, ap, ◌∙◌, [], ◌∷◌, ◌++◌, length, take, drop, arith, get_elem?-drop,
  get_elem?-lt, get_elem?-ge, length-drop, length-append, take-append, drop-append, drop-drop,
}
use blvm_datum.Error.{ok-injective, ok, panic}
use blvm_datum.Bytes.{
  Bytes, IsByte, IsBytes, index, slice, slice_from, read_u32, read_u64, from_le_bytes, to_le_bytes,
}
use blvm_datum.Bytes.Endian.{from_le_bytes-to_le_bytes, to_le_bytes-from_le_bytes, from_le_bytes-lt}

-- `rest` is what stands at offset `o` of `xs`, up to the end.
abbrev pub At : Bytes → ℕ → Bytes → Type 0
At xs o rest = (drop o xs ≡ rest) × (o ≤ length xs)

pub At-length : (xs : Bytes) (o : ℕ) (rest : Bytes) → At xs o rest → length xs ≡ o + length rest
At-length xs o rest h = omega (arith, length-drop o xs, ap length h.0)

pub At-append :
    (xs : Bytes) (o : ℕ) (ys rest : Bytes) → At xs o (ys ++ rest) → At xs (o + length ys) rest
At-append xs o ys rest h = (
  sym (drop-drop o (length ys) xs) ∙ ap (drop (length ys)) h.0 ∙ drop-append ys rest _ refl,
  omega (arith, At-length xs o (ys ++ rest) h, length-append ys rest),
)

pub At-next : (xs : Bytes) (o b : ℕ) (rest : Bytes) → At xs o (b ∷ rest) → At xs (o + 1) rest
At-next xs o b rest h = At-append xs o (b ∷ []) rest h

index-drop : (xs : Bytes) (o i : ℕ) → index xs (o + i) ≡ index (drop o xs) i
unfolding index
index-drop xs o i = rw (get_elem?-drop o i xs, index)

index_first : (xs : Bytes) (o : ℕ) → index xs o ≡ index (drop o xs) 0
index_first xs o = ap (index xs) {x = o} {y = o + 0} (omega arith) ∙ index-drop xs o 0

pub index-At : (xs : Bytes) (o b : ℕ) (rest : Bytes) → At xs o (b ∷ rest) → index xs o ≡ ok b
index-At xs o b rest h = index_first xs o ∙ rw h.0 (unfold index in refl)

pub slice-At :
    (xs : Bytes) (o : ℕ) (ys rest : Bytes)
    → At xs o (ys ++ rest)
    → slice xs o (o + length ys) ≡ ok ys
unfolding slice
slice-At xs o ys rest h = ground (
  arith,
  At-length xs o (ys ++ rest) h,
  length-append ys rest,
  ap (λ (k : ℕ). take k (drop o xs)) {x = o + length ys - o} {y = length ys} (omega arith),
  ap (take (length ys)) h.0,
  take-append ys rest (length ys) refl,
)

read_u64-drop : (xs : Bytes) (o : ℕ) → read_u64 xs o ≡ read_u64 (drop o xs) 0
unfolding read_u64
read_u64-drop xs o = rw (index_first xs o) (simp (index-drop xs o))

read_u32-drop : (xs : Bytes) (o : ℕ) → read_u32 xs o ≡ read_u32 (drop o xs) 0
unfolding read_u32
read_u32-drop xs o = rw (index_first xs o) (simp (index-drop xs o))

pub read_u64-At :
    (xs : Bytes) (o v : ℕ) (rest : Bytes)
    → v < 2 ^ 64
    → At xs o (to_le_bytes 8 v ++ rest)
    → read_u64 xs o ≡ ok v
read_u64-At xs o v rest hv h =
    read_u64-drop xs o
    ∙ rw h.0 (unfold read_u64 in ap ok (from_le_bytes-to_le_bytes 8 v (omega arith)))

pub read_u32-At :
    (xs : Bytes) (o v : ℕ) (rest : Bytes)
    → v < 2 ^ 32
    → At xs o (to_le_bytes 4 v ++ rest)
    → read_u32 xs o ≡ ok v
read_u32-At xs o v rest hv h =
    read_u32-drop xs o
    ∙ rw h.0 (unfold read_u32 in ap ok (from_le_bytes-to_le_bytes 4 v (omega arith)))

pub index-lt : (xs : Bytes) (i : ℕ) → i < length xs → (b : ℕ) × (index xs i ≡ ok b)
unfolding index
index-lt xs i h = let (b, e) = get_elem?-lt xs i h in (b, rw (e, index))

pub index-ge : (xs : Bytes) (i : ℕ) → length xs ≤ i → index xs i ≡ panic
unfolding index
index-ge xs i h = rw (get_elem?-ge xs i h, index)

pub slice-le :
    (xs : Bytes) (a b : ℕ) → a ≤ b → b ≤ length xs → slice xs a b ≡ ok (take (b - a) (drop a xs))
unfolding slice
slice-le xs a b p q = ground arith

pub slice_from-le : (xs : Bytes) (a : ℕ) → a ≤ length xs → slice_from xs a ≡ ok (drop a xs)
unfolding slice_from
slice_from-le xs a p = ground arith

read_u64_front : (ys : Bytes) → 8 ≤ length ys → read_u64 ys 0 ≡ ok (from_le_bytes (take 8 ys))
unfolding read_u64
read_u64_front (b0 ∷ b1 ∷ b2 ∷ b3 ∷ b4 ∷ b5 ∷ b6 ∷ b7 ∷ ys) h = refl
read_u64_front _ h = absurd (omega arith)

read_u32_front : (ys : Bytes) → 4 ≤ length ys → read_u32 ys 0 ≡ ok (from_le_bytes (take 4 ys))
unfolding read_u32
read_u32_front (b0 ∷ b1 ∷ b2 ∷ b3 ∷ ys) h = refl
read_u32_front _ h = absurd (omega arith)

pub read_u64-le :
    (xs : Bytes) (o : ℕ)
    → o + 8 ≤ length xs
    → read_u64 xs o ≡ ok (from_le_bytes (take 8 (drop o xs)))
read_u64-le xs o h =
    read_u64-drop xs o ∙ read_u64_front (drop o xs) (omega (arith, length-drop o xs))

pub read_u32-le :
    (xs : Bytes) (o : ℕ)
    → o + 4 ≤ length xs
    → read_u32 xs o ≡ ok (from_le_bytes (take 4 (drop o xs)))
read_u32-le xs o h =
    read_u32-drop xs o ∙ read_u32_front (drop o xs) (omega (arith, length-drop o xs))

-- What a successful read says of the bytes at its offset.
pub index-eq-ok : (xs : Bytes) (o b : ℕ) → index xs o ≡ ok b → drop o xs ≡ b ∷ drop (o + 1) xs
unfolding index
index-eq-ok [] o b e = cc
index-eq-ok (x ∷ xs) zero b e = ap (λ (t : ℕ). t ∷ xs) (ok-injective e)
index-eq-ok (x ∷ xs) (suc o) b e =
    index-eq-ok xs o b e
    ∙ ap (λ (k : ℕ). b ∷ drop k (x ∷ xs)) {x = suc (o + 1)} {y = suc o + 1} (omega arith)

pub drop-split : (xs : Bytes) (o n : ℕ) → drop o xs ≡ take n (drop o xs) ++ drop (o + n) xs
drop-split xs o n =
    sym (take-append-drop n (drop o xs))
    ∙ ap (λ (t : Bytes). take n (drop o xs) ++ t) (drop-drop o n xs)

-- The range `a..b` and what follows it.
pub drop-range : (xs : Bytes) (a b : ℕ) → a ≤ b → drop a xs ≡ take (b - a) (drop a xs) ++ drop b xs
drop-range xs a b h =
    drop-split xs a (b - a)
    ∙ ap (λ (k : ℕ). take (b - a) (drop a xs) ++ drop k xs) {x = a + (b - a)} {y = b} (omega arith)

pub length-range :
    (xs : Bytes) (a b : ℕ) → b ≤ length xs → length (take (b - a) (drop a xs)) ≡ b - a
length-range xs a b h = length-take (b - a) (drop a xs) (omega (arith, length-drop a xs))

pub range-IsBytes : (xs : Bytes) (a n : ℕ) → IsBytes xs → IsBytes (take n (drop a xs))
range-IsBytes xs a n h = All-take IsByte n (drop a xs) (All-drop IsByte a xs h)

-- The bytes of a range are those of the number that they are read as.
pub le_range :
    (xs : Bytes) (a k : ℕ)
    → IsBytes xs
    → a + k ≤ length xs
    → drop a xs ≡ to_le_bytes k (from_le_bytes (take k (drop a xs))) ++ drop (a + k) xs
le_range xs a k hb h =
    drop-split xs a k
    ∙ ap (λ (t : Bytes). t ++ drop (a + k) xs)
        (sym (
          ap (λ (n : ℕ). to_le_bytes n (from_le_bytes (take k (drop a xs)))) (sym cut)
          ∙ to_le_bytes-from_le_bytes (take k (drop a xs)) (range-IsBytes xs a k hb)))
  where
    cut : length (take k (drop a xs)) ≡ k
    cut = length-take k (drop a xs) (omega (arith, length-drop a xs))

pub le_range-lt :
    (xs : Bytes) (a k : ℕ)
    → IsBytes xs
    → a + k ≤ length xs
    → from_le_bytes (take k (drop a xs)) < 256 ^ k
le_range-lt xs a k hb h =
    subst (λ (n : ℕ). from_le_bytes (take k (drop a xs)) < 256 ^ n)
      (length-take k (drop a xs) (omega (arith, length-drop a xs)))
      (from_le_bytes-lt (take k (drop a xs)) (range-IsBytes xs a k hb))

-- A length byte and the range that it counts.
pub counted_range :
    (xs : Bytes) (o len : ℕ)
    → index xs o ≡ ok len
    → o + 1 + len ≤ length xs
    → let raw = take (o + 1 + len - (o + 1)) (drop (o + 1) xs) in
      (drop o xs ≡ length raw ∷ (raw ++ drop (o + 1 + len) xs)) × (length raw ≡ len)
counted_range xs o len e h = (
  index-eq-ok xs o len e
      ∙ ap₂ ◌∷◌ (sym counted) (drop-range xs (o + 1) (o + 1 + len) (omega arith)),
  counted,
)
  where
    counted : length (take (o + 1 + len - (o + 1)) (drop (o + 1) xs)) ≡ len
    counted = omega (arith, length-range xs (o + 1) (o + 1 + len) h)
