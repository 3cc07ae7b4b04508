-- ===== src/Header/Obfuscation.antt =====
-- The XOR of the header: it undoes itself, and where it leaves the key.
use Prim.Native.Nat.{bit_xor}
use blvm_datum.Common.{
  All-append, All-take, length-take, ℕ, ◌+◌, ◌*◌, ◌/◌, ◌%◌, ◌^◌, ◌≤◌, ◌<◌, ◌≡◌, ◌↔◌, refl, sym, ap,
  ap₂, ◌∙◌, [], ◌∷◌, length, take, arith, ◌++◌, ge→ltb,
}
use blvm_datum.Common.Bits.{
  xor_fields, xor_twice, xor_twice_left, xor_eq_self, xor-zero, xor-below, bit_and_mask,
}
use blvm_datum.Error.Ensures.{Ensures, holds, failed}
use blvm_datum.Error.{ok, ◌>>=◌}
use blvm_datum.Bytes.{Bytes, IsByte, IsBytes, from_le_bytes}
use blvm_datum.Bytes.Endian.{from_le_bytes-lt}
use blvm_datum.Header.{xor_byte, xor_prefix, apply_header_xor}
use native.Mathlib.Nat.{pow-suc}

-- Each byte with its own byte of the key.
xor_bytes : ℕ → Bytes → Bytes
xor_bytes k [] = []
xor_bytes k (b ∷ bs) = bit_xor b (k % 256) ∷ xor_bytes (k / 256) bs

xor_byte_lem : (k i b : ℕ) → xor_byte k i b ≡ bit_xor b (k / 2 ^ (i * 8) % 256)
unfolding xor_byte
xor_byte_lem k i b = ap (bit_xor b) (omega (arith, bit_and_mask 8 (k / 2 ^ (i * 8))))

xor_byte-lt : (k i b : ℕ) → b < 256 → xor_byte k i b < 256
xor_byte-lt k i b h =
    omega (arith, xor_byte_lem k i b, xor-below 8 b (k / 2 ^ (i * 8) % 256) h (omega arith))

xor_prefix-xor_bytes :
    (k b0 b1 b2 b3 : ℕ) (rest : Bytes)
    → xor_prefix k 0 4 (b0 ∷ b1 ∷ b2 ∷ b3 ∷ rest)
      ≡ bit_xor b0 (k % 256)
        ∷ bit_xor b1 (k / 256 % 256)
        ∷ bit_xor b2 (k / 256 / 256 % 256)
        ∷ bit_xor b3 (k / 256 / 256 / 256 % 256)
        ∷ rest
unfolding xor_prefix
xor_prefix-xor_bytes k b0 b1 b2 b3 rest =
    ground
      (arith, xor_byte_lem k 0 b0, xor_byte_lem k 1 b1, xor_byte_lem k 2 b2, xor_byte_lem k 3 b3)

xor_bytes-IsBytes : (k : ℕ) (bs : Bytes) → IsBytes bs → IsBytes (xor_bytes k bs)
unfolding xor_bytes
xor_bytes-IsBytes k [] h = tt
xor_bytes-IsBytes k (b ∷ bs) (hb, hbs) =
    (xor-below 8 b (k % 256) (omega arith) (omega arith), xor_bytes-IsBytes (k / 256) bs hbs)

-- As numbers, the bytes are XORed with the key.
from_le_bytes-xor_bytes :
    (k : ℕ) (bs : Bytes)
    → IsBytes bs
    → k < 256 ^ length bs
    → from_le_bytes (xor_bytes k bs) ≡ bit_xor (from_le_bytes bs) k
unfolding xor_bytes
from_le_bytes-xor_bytes k [] h hk = ap (bit_xor 0) {x = 0} {y = k} (omega arith)
from_le_bytes-xor_bytes k (b ∷ bs) (hb, hbs) hk = ground (
  arith,
  from_le_bytes-xor_bytes (k / 256) bs hbs (omega (arith, pow-suc 256 (length bs))),
  xor_fields 8 b (k % 256) (from_le_bytes bs) (k / 256) (omega arith) (omega arith),
)

-- What the code computes on four bytes and more.
apply_header_xor-bytes :
    (k b0 b1 b2 b3 : ℕ) (rest : Bytes)
    → IsBytes (b0 ∷ b1 ∷ b2 ∷ b3 ∷ [])
    → k < 2 ^ 32
    → apply_header_xor (b0 ∷ b1 ∷ b2 ∷ b3 ∷ rest) k
      ≡ ok (xor_bytes k (b0 ∷ b1 ∷ b2 ∷ b3 ∷ []) ++ rest, from_le_bytes (b0 ∷ b1 ∷ b2 ∷ b3 ∷ []))
unfolding apply_header_xor
apply_header_xor-bytes k b0 b1 b2 b3 rest h hk =
    rw
      (
        ge→ltb (length (b0 ∷ b1 ∷ b2 ∷ b3 ∷ rest)) 4 (omega arith),
        xor_prefix-xor_bytes k b0 b1 b2 b3 rest,
      )
      (unfold xor_bytes in ap (λ (t : ℕ). ok (xor_bytes k (b0 ∷ b1 ∷ b2 ∷ b3 ∷ []) ++ rest, t)) key)
  where
    bs : Bytes
    bs = b0 ∷ b1 ∷ b2 ∷ b3 ∷ []

    sum : from_le_bytes (xor_bytes k bs) ≡ bit_xor (from_le_bytes bs) k
    sum = from_le_bytes-xor_bytes k bs h (omega arith)

    key : bit_xor k (from_le_bytes (xor_bytes k bs)) ≡ from_le_bytes bs
    key =
        ap (bit_xor k) sum
        ∙ xor_twice_left 32 (from_le_bytes bs) k (omega (arith, from_le_bytes-lt bs h)) hk

-- One call on a header and a second one on its output, with the same key.
pub record IsExchanged (header : Bytes) (k : ℕ) (out : Bytes) : Type 0 where
  pub hidden : apply_header_xor header k ≡ ok (out, from_le_bytes (take 4 header))
  pub shown : apply_header_xor out k ≡ ok (header, from_le_bytes (take 4 out))
  pub same_length : length out ≡ length header
  pub out_bytes : IsBytes out
  pub masked : from_le_bytes (take 4 out) ≡ bit_xor (from_le_bytes (take 4 header)) k

xor_bytes_twice : (k : ℕ) (bs : Bytes) → IsBytes bs → xor_bytes k (xor_bytes k bs) ≡ bs
unfolding xor_bytes
xor_bytes_twice k [] h = refl
xor_bytes_twice k (b ∷ bs) (hb, hbs) =
    ap₂ ◌∷◌ (xor_twice 8 b (k % 256) hb (omega arith)) (xor_bytes_twice (k / 256) bs hbs)

pub exchange :
    (k : ℕ) (header : Bytes)
    → IsBytes header
    → 4 ≤ length header
    → k < 2 ^ 32
    → (out : Bytes) × IsExchanged header k out
exchange k (b0 ∷ b1 ∷ b2 ∷ b3 ∷ rest) (h0, (h1, (h2, (h3, hs)))) le hk = (
  xor_bytes k bs ++ rest,
  record {
    hidden = apply_header_xor-bytes k b0 b1 b2 b3 rest bs_bytes hk;
    shown =
        unfold xor_bytes in
        (apply_header_xor-bytes k _ _ _ _ rest hidden_bytes hk
          ∙ ap (λ (t : Bytes). ok (t ++ rest, from_le_bytes (xor_bytes k bs)))
              (xor_bytes_twice k bs bs_bytes));
    same_length = unfold xor_bytes in refl;
    out_bytes = All-append IsByte (xor_bytes k bs) rest hidden_bytes hs;
    masked = unfold xor_bytes in from_le_bytes-xor_bytes k bs bs_bytes (omega arith);
  },
)
  where
    bs : Bytes
    bs = b0 ∷ b1 ∷ b2 ∷ b3 ∷ []

    bs_bytes : IsBytes bs
    bs_bytes = (h0, (h1, (h2, (h3, tt))))

    hidden_bytes : IsBytes (xor_bytes k bs)
    hidden_bytes = xor_bytes-IsBytes k bs bs_bytes
exchange k _ h le hk = absurd (omega arith)

module _ (k : ℕ) (header : Bytes) (bytes : IsBytes header) (long : 4 ≤ length header)
    (fits : k < 2 ^ 32) where
  -- For a header of at least four bytes and a key below 2 ^ 32: the bytes that one call returns,
  -- given to a second call with the same key, come back unchanged.
  pub apply_header_xor_twice :
      (apply_header_xor header k >>= λ r. apply_header_xor r.0 k >>= λ s. ok s.0) ≡ ok header
  apply_header_xor_twice =
      let (out, e) = exchange k header bytes long fits in rw e.hidden (rw e.shown)

  -- For a header of at least four bytes and a key below 2 ^ 32: the key that a call leaves is its
  -- own input's first four bytes, and the old key has no part in it.
  pub apply_header_xor_key :
      (apply_header_xor header k >>= λ r. ok r.1) ≡ ok (from_le_bytes (take 4 header))
  apply_header_xor_key = let (out, e) = exchange k header bytes long fits in rw e.hidden

  -- For a header of at least four bytes and a key below 2 ^ 32: the end that hides the header and
  -- the end that shows it again go on with the same key exactly if the key was 0.
  pub keys_agree_iff :
      (out : Bytes) (hider_key shower_key : ℕ)
      → apply_header_xor header k ≡ ok (out, hider_key)
      → apply_header_xor out k ≡ ok (header, shower_key)
      → (hider_key ≡ shower_key) ↔ (k ≡ 0)
  keys_agree_iff out kh ks eh es = (
    λ same. xor_eq_self 32 start k start_fits fits (sym (cc (hider, same, shower))),
    λ zero_key. hider ∙ sym (rw zero_key at shower ∙ xor-zero start),
  )
    where
      ex : (o : Bytes) × IsExchanged header k o
      ex = exchange k header bytes long fits

      start : ℕ
      start = from_le_bytes (take 4 header)

      start_fits : start < 2 ^ 32
      start_fits = omega (
        arith,
        from_le_bytes-lt (take 4 header) (All-take IsByte 4 header bytes),
        ap (λ (t : ℕ). 256 ^ t) (length-take 4 header long),
      )

      hider : kh ≡ start
      hider = cc (eh, ex.1.hidden)

      shower : ks ≡ bit_xor start k
      shower = cc (eh, ex.1.hidden, es, ex.1.shown, ex.1.masked)

-- XOR with 32 bits leaves the bits above them.
xor_high : (k r : ℕ) → r < 2 ^ 32 → bit_xor k r / 2 ^ 32 ≡ k / 2 ^ 32
xor_high k r fits = omega (
  arith,
  parts ∙ xor_fields 32 (k % 2 ^ 32) r (k / 2 ^ 32) 0 (omega arith) fits,
  xor-below 32 (k % 2 ^ 32) r (omega arith) fits,
  xor-zero (k / 2 ^ 32),
)
  where
    parts : bit_xor k r ≡ bit_xor (k % 2 ^ 32 + k / 2 ^ 32 * 2 ^ 32) (r + 0 * 2 ^ 32)
    parts =
        let high : k ≡ k % 2 ^ 32 + k / 2 ^ 32 * 2 ^ 32 = omega arith in
        let low : r ≡ r + 0 * 2 ^ 32 = omega arith in ap₂ bit_xor high low

-- Whatever the key, the call returns bytes and leaves the bits of the key from the 33rd on, of which
-- a `u32` has none, or it refuses a header of fewer than four bytes.
pub apply_header_xor-Ensures :
    (header : Bytes) (k : ℕ)
    → IsBytes header
    → Ensures (λ r. IsBytes r.0 × (r.1 / 2 ^ 32 ≡ k / 2 ^ 32)) (apply_header_xor header k)
unfolding apply_header_xor xor_prefix
apply_header_xor-Ensures (b0 ∷ b1 ∷ b2 ∷ b3 ∷ rest) k (h0, (h1, (h2, (h3, hs)))) =
    rw (ge→ltb (length (b0 ∷ b1 ∷ b2 ∷ b3 ∷ rest)) 4 (omega arith)) (
      holds (
        (
          xor_byte-lt k 0 b0 h0,
          (xor_byte-lt k 1 b1 h1, (xor_byte-lt k 2 b2 h2, (xor_byte-lt k 3 b3 h3, hs))),
        ),
        xor_high k (from_le_bytes front) (omega (arith, from_le_bytes-lt front front_bytes)),
      ))
  where
    front : Bytes
    front = xor_byte k 0 b0 ∷ xor_byte k 1 b1 ∷ xor_byte k 2 b2 ∷ xor_byte k 3 b3 ∷ []

    front_bytes : IsBytes front
    front_bytes = (
      xor_byte-lt k 0 b0 h0,
      (xor_byte-lt k 1 b1 h1, (xor_byte-lt k 2 b2 h2, (xor_byte-lt k 3 b3 h3, tt))),
    )
apply_header_xor-Ensures _ k h = failed
