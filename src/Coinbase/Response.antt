-- ===== src/Coinbase/Response.antt =====
-- The frame of the response: what it accepts, and the one read that can go out of bounds.
use blvm_datum.Common.{
  ℕ, ◌+◌, ◌-◌, ap₂, ◌≤◌, ◌<◌, ◌^◌, ◌≡◌, ◌≢◌, ◌↔◌, ◌⊎◌, inl, inr, sym, ap, not, ◌==◌, ◌++◌, length,
  take, drop, arith, ltb, ltb→ge, ge→ltb, lt→ltb, ◌∙◌, false,
}
use native.Mathlib.Decide.{dec_lt, ℕ_discrete}
use blvm_datum.Error.{ok, panic, protocol_error, text, fail_if, ◌>>=◌, ◌>>◌}
use blvm_datum.Error.Ensures.{
  Ensures, failed, Ensures-ok, Ensures-ne-panic, Ensures-fail_if, Ensures-value, Ensures-map,
}
use blvm_datum.Bytes.{Bytes, IsBytes, index, slice, from_le_bytes, to_le_bytes}
use blvm_datum.Bytes.Slices.{
  range-IsBytes, le_range, le_range-lt, index-lt, index-ge, index-eq-ok, slice-le, read_u64-le,
  read_u32-le, drop-range, length-range,
}
use blvm_datum.Coinbase.{CoinbasePayout, parse_coinbase_data, parse_coinbase_response}
use blvm_datum.Coinbase.Print.{print_response}
use blvm_datum.Coinbase.Sound.{IsPayload, parse_coinbase_data-Ensures}

-- The length that the response declares for its payload.
abbrev pub declared_length : Bytes → ℕ
declared_length bytes = from_le_bytes (take 4 (drop 8 bytes))

-- The response ends where its terminator should stand.
abbrev pub EndsEarly : Bytes → Type 0
EndsEarly bytes = (13 ≤ length bytes) × (length bytes ≡ 12 + declared_length bytes)

-- The bytes are laid out as documented around a payload that the payout was read from.
pub record IsResponse (bytes : Bytes) (p : CoinbasePayout) : Type 0 where
  pub value : ℕ
  pub coinbase_data : Bytes
  pub rest : Bytes
  pub layout : bytes ≡ print_response value coinbase_data rest
  pub value_fits : value < 2 ^ 64
  pub length_fits : length coinbase_data < 2 ^ 32
  pub payload : IsPayload coinbase_data p

module _ (bytes : Bytes) where
  -- Past the first tests, the response is decided by its declared length.
  after_header :
      13 ≤ length bytes
      → parse_coinbase_response bytes ≡ (
          fail_if
            (ltb (length bytes) (12 + declared_length bytes))
            (protocol_error (text "Coinbase data length exceeds buffer"))
          >> (index bytes (12 + declared_length bytes) >>= λ terminator.
              (fail_if
                  (not (terminator == 0xFE))
                  (protocol_error (text "Missing coinbase response terminator"))
                >> (slice bytes 12 (12 + declared_length bytes) >>= parse_coinbase_data))))
  unfolding parse_coinbase_response
  after_header h = rw (
    ge→ltb (length bytes) 13 h,
    ge→ltb (length bytes) 8 (omega arith),
    read_u64-le bytes 0 (omega arith),
    ge→ltb (length bytes) 12 (omega arith),
    read_u32-le bytes 8 (omega arith),
  )

  at_end-panics :
      13 ≤ length bytes
      → length bytes ≡ 12 + declared_length bytes
      → parse_coinbase_response bytes ≡ panic
  at_end-panics h e =
      after_header h
      ∙ rw (
        ge→ltb (length bytes) (12 + declared_length bytes) (omega arith),
        index-ge bytes (12 + declared_length bytes) (omega arith),
      )

is_terminator : (last : ℕ) → not (last == 0xFE) ≡ false → last ≡ 0xFE
is_terminator last h = ground arith

module _ (bytes : Bytes) (are_bytes : IsBytes bytes) where
  payload_length :
      12 + declared_length bytes < length bytes
      → length (take (12 + declared_length bytes - 12) (drop 12 bytes)) ≡ declared_length bytes
  payload_length h = omega (arith, length-range bytes 12 (12 + declared_length bytes) (omega arith))

  framed :
      12 + declared_length bytes < length bytes
      → index bytes (12 + declared_length bytes) ≡ ok 0xFE
      → let cd = take (12 + declared_length bytes - 12) (drop 12 bytes) in
        bytes
        ≡ print_response
            (from_le_bytes (take 8 bytes))
            cd
            (drop (12 + declared_length bytes + 1) bytes)
  framed h e =
      le_range bytes 0 8 are_bytes (omega arith)
      ∙ ap (λ (t : Bytes). to_le_bytes 8 (from_le_bytes (take 8 bytes)) ++ t)
          (le_range bytes 8 4 are_bytes (omega arith)
            ∙ ap₂ (λ (n : ℕ) (t : Bytes). to_le_bytes 4 n ++ t) (sym (payload_length h))
                (drop-range bytes 12 (12 + declared_length bytes) (omega arith)
                  ∙ ap (λ (t : Bytes). take (12 + declared_length bytes - 12) (drop 12 bytes) ++ t)
                      (index-eq-ok bytes (12 + declared_length bytes) 0xFE e)))

  off_end-Ensures :
      length bytes ≢ 12 + declared_length bytes
      → 13 ≤ length bytes
      → Ensures (IsResponse bytes) (parse_coinbase_response bytes)
  off_end-Ensures ne h = rw (after_header bytes h) (
      Ensures-fail_if (ltb (length bytes) (12 + declared_length bytes)) _ λ fits.
        let inside : 12 + declared_length bytes < length bytes = omega (arith, ltb→ge _ _ fits) in
        let (last, e) = index-lt bytes (12 + declared_length bytes) inside in
        Ensures-value _ last e (
          Ensures-fail_if (not (last == 0xFE)) _ λ terminated.
            Ensures-value _ _
              (slice-le bytes 12 (12 + declared_length bytes) (omega arith) (omega arith))
              (Ensures-map (parse_coinbase_data-Ensures _ (range-IsBytes bytes 12 _ are_bytes))
                λ p payload. record {
                  value = from_le_bytes (take 8 bytes);
                  coinbase_data = take (12 + declared_length bytes - 12) (drop 12 bytes);
                  rest = drop (12 + declared_length bytes + 1) bytes;
                  layout = framed inside (e ∙ ap ok (is_terminator last terminated));
                  value_fits = omega (arith, le_range-lt bytes 0 8 are_bytes (omega arith));
                  length_fits =
                      omega (
                        arith,
                        payload_length inside,
                        le_range-lt bytes 8 4 are_bytes (omega arith),
                      );
                  payload = payload;
                })))

  IsResponse-cases : EndsEarly bytes ⊎ Ensures (IsResponse bytes) (parse_coinbase_response bytes)
  IsResponse-cases = elim (dec_lt (length bytes) 13) [
    | yes short ↦ inr (unfold parse_coinbase_response in rw (lt→ltb (length bytes) 13 short) failed)
    | no long ↦ elim (ℕ_discrete (length bytes) (12 + declared_length bytes)) [
      | yes e ↦ inl (omega arith, e)
      | no ne ↦ inr (off_end-Ensures ne (omega arith))
    ]
  ]

  -- On any bytes, the parser panics exactly if there are at least 13 and they end where the
  -- terminator of the payload of the declared length should stand.
  pub parse_coinbase_response_panics_iff : (parse_coinbase_response bytes ≡ panic) ↔ EndsEarly bytes
  parse_coinbase_response_panics_iff = (
    λ p. elim IsResponse-cases [ inl early ↦ early | inr r ↦ absurd (Ensures-ne-panic r p) ],
    λ h. at_end-panics bytes h.0 h.1,
  )

  -- Bytes that are accepted consist of an amount of 8 bytes, the length of a payload in 4, the
  -- payload, the terminator and any rest, and the payout is what the payload holds.
  pub parse_coinbase_response_sound :
      {p : CoinbasePayout} → parse_coinbase_response bytes ≡ ok p → IsResponse bytes p
  parse_coinbase_response_sound {p} e = elim IsResponse-cases [
    | inl early ↦ absurd (ok_ne_panic (sym e ∙ at_end-panics bytes early.0 early.1))
    | inr r ↦ Ensures-ok r e
  ]
    where
      ok_ne_panic : ok p ≡ panic → ⊥
      ok_ne_panic h = cc
