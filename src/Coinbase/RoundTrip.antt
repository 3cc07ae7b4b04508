-- ===== src/Coinbase/RoundTrip.antt =====
-- A response in the documented layout is read back, whatever stands behind the outputs and behind
-- the terminator.
use blvm_datum.Common.{
  ℕ, suc, ◌+◌, ◌^◌, ◌<◌, ◌≡◌, refl, ap, ◌∙◌, List, [], ◌∷◌, ◌++◌, All, length, arith, leb, ge→ltb,
  append_assoc, length-append, append-nil, false,
}
use blvm_datum.Error.{ok, DatumError}
use blvm_datum.Bytes.{Bytes, to_le_bytes}
use blvm_datum.Bytes.Slices.{
  At, At-length, At-append, At-next, index-At, slice-At, read_u64-At, read_u32-At,
}
use blvm_datum.Utf8.{from_utf8_lossy}
use blvm_datum.Utf8.Valid.{from_utf8_lossy_valid}
use blvm_datum.Coinbase.{
  CoinbaseOutput, CoinbasePayout, read_text, read_output, read_outputs, parse_coinbase_data,
  parse_coinbase_response,
}
use blvm_datum.Coinbase.Print.{
  print_output, print_outputs, print_coinbase_data, print_response, FitsOutput, FitsPayout,
}

lt→leb : (a b : ℕ) → b < a → leb a b ≡ false
lt→leb a b h = ground arith

module _ (xs : Bytes) (o : ℕ) where
  pub read_text-At :
      (t rest : Bytes) (missing too_long : DatumError)
      → At xs o (length t ∷ (t ++ rest))
      → read_text xs o missing too_long ≡ ok (from_utf8_lossy t, o + 1 + length t)
  unfolding read_text
  read_text-At t rest missing too_long h = rw (
    lt→leb (length xs) o (omega (arith, len)),
    index-At xs o (length t) (t ++ rest) h,
    ge→ltb (length xs) (o + 1 + length t) (omega (arith, len, length-append t rest)),
    slice-At xs (o + 1) t rest (At-next xs o (length t) (t ++ rest) h),
  )
    where
      len : length xs ≡ o + suc (length (t ++ rest))
      len = At-length xs o (length t ∷ (t ++ rest)) h

  pub read_output-At :
      (out : CoinbaseOutput) (rest : Bytes)
      → out.value < 2 ^ 64
      → At xs o (print_output out ++ rest)
      → read_output xs o ≡ ok (out, o + 8 + 1 + length out.script)
  unfolding read_output
  read_output-At out rest hv h = rw (
    ge→ltb (length xs) (o + 8) (omega (arith, len, length-append out.script rest)),
    read_u64-At xs o out.value (length out.script ∷ (out.script ++ rest)) hv h,
    lt→leb (length xs) (o + 8) (omega (arith, len, length-append out.script rest)),
    index-At xs (o + 8) (length out.script) (out.script ++ rest) behind,
    ge→ltb (length xs) (o + 8 + 1 + length out.script)
        (omega (arith, len, length-append out.script rest)),
    slice-At xs (o + 8 + 1) out.script rest
        (At-next xs (o + 8) (length out.script) (out.script ++ rest) behind),
  )
    where
      behind : At xs (o + 8) (length out.script ∷ (out.script ++ rest))
      behind = At-append xs o (to_le_bytes 8 out.value) (length out.script ∷ (out.script ++ rest)) h

      len : length xs ≡ o + 8 + suc (length (out.script ++ rest))
      len = At-length xs (o + 8) _ behind

  At-behind_text :
      (t rest : Bytes) → At xs o (length t ∷ (t ++ rest)) → At xs (o + 1 + length t) rest
  At-behind_text t rest h = At-append xs (o + 1) t rest (At-next xs o (length t) (t ++ rest) h)

  At-behind_output :
      (out : CoinbaseOutput) (rest : Bytes)
      → At xs o (print_output out ++ rest)
      → At xs (o + 8 + 1 + length out.script) rest
  At-behind_output out rest h = At-append xs (o + 8 + 1) out.script rest (
      At-next xs (o + 8) (length out.script) (out.script ++ rest)
        (At-append xs o (to_le_bytes 8 out.value) (length out.script ∷ (out.script ++ rest)) h))

read_outputs-At :
    (xs : Bytes) (outs : List CoinbaseOutput) (o : ℕ) (before : List CoinbaseOutput) (rest : Bytes)
    → All FitsOutput outs
    → At xs o (print_outputs outs ++ rest)
    → read_outputs (length outs) xs o before ≡ ok (before ++ outs)
unfolding read_outputs
read_outputs-At xs [] o before rest fits h = rw append-nil
read_outputs-At xs (out ∷ outs) o before rest fits h =
    rw (read_output-At xs o out (print_outputs outs ++ rest) fits.0.value_fits first) (
      read_outputs-At xs outs (o + 8 + 1 + length out.script) (before ++ out ∷ []) rest fits.1
        (At-behind_output xs o out (print_outputs outs ++ rest) first)
      ∙ ap ok (append_assoc before (out ∷ []) outs))
  where
    first : At xs o (print_output out ++ (print_outputs outs ++ rest))
    first = (h.0 ∙ append_assoc (print_output out) (print_outputs outs) rest, h.1)

-- The texts come out of the lossy decoder; bytes behind the last output are not read.
pub parse_coinbase_data-print :
    (tag id : Bytes) (outs : List CoinbaseOutput) (rest : Bytes)
    → All FitsOutput outs
    → parse_coinbase_data (print_coinbase_data tag id outs ++ rest)
      ≡ ok (record {
        outputs = outs;
        primary_tag = from_utf8_lossy tag;
        unique_id = from_utf8_lossy id;
      })
unfolding parse_coinbase_data
parse_coinbase_data-print tag id outs rest fits = rw (
  read_text-At xs 0 tag behind_tag _ _ at_tag,
  read_text-At xs (0 + 1 + length tag) id behind_id _ _ at_id,
  lt→leb (length xs) at_count_offset (omega (arith, At-length xs at_count_offset _ at_count)),
  index-At xs at_count_offset (length outs) (print_outputs outs ++ rest) at_count,
  read_outputs-At xs outs (at_count_offset + 1) [] rest fits
      (At-next xs at_count_offset (length outs) (print_outputs outs ++ rest) at_count),
)
  where
    xs : Bytes
    xs = print_coinbase_data tag id outs ++ rest

    behind_id : Bytes
    behind_id = length outs ∷ (print_outputs outs ++ rest)

    behind_tag : Bytes
    behind_tag = length id ∷ (id ++ behind_id)

    at_count_offset : ℕ
    at_count_offset = 0 + 1 + length tag + 1 + length id

    at_tag : At xs 0 (length tag ∷ (tag ++ behind_tag))
    at_tag = (simp append_assoc, omega arith)

    at_id : At xs (0 + 1 + length tag) (length id ∷ (id ++ behind_id))
    at_id = At-behind_text xs 0 tag behind_tag at_tag

    at_count : At xs at_count_offset (length outs ∷ (print_outputs outs ++ rest))
    at_count = At-behind_text xs (0 + 1 + length tag) id behind_id at_id

-- For an amount below 2 ^ 64 and a payload shorter than 2 ^ 32, a response parses to what its
-- payload parses to, whatever the amount is and whatever follows the terminator.
pub parse_coinbase_response-print :
    (value : ℕ) (coinbase_data rest : Bytes)
    → value < 2 ^ 64
    → length coinbase_data < 2 ^ 32
    → parse_coinbase_response (print_response value coinbase_data rest)
      ≡ parse_coinbase_data coinbase_data
unfolding parse_coinbase_response
parse_coinbase_response-print value cd rest hv hc = rw (
  ge→ltb (length xs) 13 (omega (arith, long)),
  ge→ltb (length xs) 8 (omega (arith, long)),
  read_u64-At xs 0 value _ hv (refl, omega arith),
  ge→ltb (length xs) 12 (omega (arith, long)),
  read_u32-At xs 8 (length cd) (cd ++ (0xFE ∷ rest)) hc (refl, omega (arith, long)),
  ge→ltb (length xs) (12 + length cd) (omega (arith, long)),
  index-At xs (12 + length cd) 0xFE rest (At-append xs 12 cd (0xFE ∷ rest) payload),
  slice-At xs 12 cd (0xFE ∷ rest) payload,
)
  where
    xs : Bytes
    xs = print_response value cd rest

    long : length xs ≡ 12 + (length cd + suc (length rest))
    long = omega (arith, length-append cd (0xFE ∷ rest))

    payload : At xs 12 (cd ++ (0xFE ∷ rest))
    payload = (refl, omega (arith, long))

-- A payout whose texts are UTF-8 and fit their length bytes, with at most 255 outputs that fit
-- theirs, comes back from a response around it, whose amount and payload length fit their fields.
-- Bytes between the last output and the terminator, or behind it, change nothing.
pub parse_coinbase_response-payout :
    (value : ℕ) (p : CoinbasePayout) (inner rest : Bytes)
    → value < 2 ^ 64
    → FitsPayout p
    → length (print_coinbase_data p.primary_tag p.unique_id p.outputs ++ inner) < 2 ^ 32
    → parse_coinbase_response (
        print_response value
          (print_coinbase_data p.primary_tag p.unique_id p.outputs ++ inner)
          rest)
      ≡ ok p
parse_coinbase_response-payout value p inner rest hv f hl =
    parse_coinbase_response-print value _ rest hv hl
    ∙ parse_coinbase_data-print p.primary_tag p.unique_id p.outputs inner f.outputs_fit
    ∙ rw (
      from_utf8_lossy_valid p.primary_tag f.tag_utf8,
      from_utf8_lossy_valid p.unique_id f.id_utf8,
    )
