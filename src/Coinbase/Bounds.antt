-- ===== src/Coinbase/Bounds.antt =====
-- How large an accepted payout can be.
use blvm_datum.Common.{
  ℕ, ◌+◌, ◌*◌, ◌≤◌, ◌≡◌, ap, List, [], ◌∷◌, ◌++◌, All, length, length-append, arith,
}
use blvm_datum.Error.{ok}
use blvm_datum.Bytes.{Bytes, IsBytes, to_le_bytes}
use blvm_datum.Utf8.Lengths.{length-from_utf8_lossy}
use blvm_datum.Coinbase.{CoinbaseOutput, CoinbasePayout, parse_coinbase_response}
use blvm_datum.Coinbase.Print.{print_output, print_outputs, print_coinbase_data, FitsOutput}
use blvm_datum.Coinbase.Sound.{IsPayload}
use blvm_datum.Coinbase.Parts.{IsResponse-HasByteParts}
use blvm_datum.Coinbase.Response.{parse_coinbase_response_sound}

-- A payout that a response of this length can hold.
pub record IsBounded (size : ℕ) (p : CoinbasePayout) : Type 0 where
  pub few_outputs : length p.outputs ≤ 255
  pub outputs_fit : All FitsOutput p.outputs
  pub short_tag : length p.primary_tag ≤ 765
  pub short_id : length p.unique_id ≤ 765
  pub paid_for : 9 * length p.outputs + 16 ≤ size

print_outputs-length : (outs : List CoinbaseOutput) → 9 * length outs ≤ length (print_outputs outs)
print_outputs-length [] = omega arith
print_outputs-length (o ∷ outs) = omega (
  arith,
  print_outputs-length outs,
  length-append (print_output o) (print_outputs outs),
  length-append (to_le_bytes 8 o.value) (length o.script ∷ o.script),
)

module _ (xs : Bytes) (p : CoinbasePayout) (payload : IsPayload xs p) where
  payload_size : 9 * length p.outputs + 3 ≤ length xs
  payload_size =
      let outs = length p.outputs ∷ print_outputs p.outputs in
      let ids = length payload.id ∷ (payload.id ++ outs) in
      omega (
        arith,
        ap length payload.layout,
        length-append (print_coinbase_data payload.tag payload.id p.outputs) payload.inner,
        length-append payload.tag ids,
        length-append payload.id outs,
        print_outputs-length p.outputs,
      )

-- A payout that is parsed from a response has at most 255 outputs, each with a value below 2 ^ 64 and
-- a script of at most 255 bytes, and two texts of at most 765 bytes: 255 that the response has room
-- for, of which each can become a replacement character. The response has nine bytes and more for
-- each output, and sixteen for the rest, so that a short response makes no long list.
pub parse_coinbase_response-IsBounded :
    (bytes : Bytes) (p : CoinbasePayout)
    → IsBytes bytes
    → parse_coinbase_response bytes ≡ ok p
    → IsBounded (length bytes) p
parse_coinbase_response-IsBounded bytes p are_bytes parsed =
    let r = parse_coinbase_response_sound bytes are_bytes parsed in
    let payload = r.payload in
    let parts = IsResponse-HasByteParts bytes p are_bytes r in
    record {
      few_outputs = omega (arith, parts.output_count);
      outputs_fit = payload.outputs_fit;
      short_tag = omega (
        arith,
        ap length payload.tag_decoded,
        length-from_utf8_lossy payload.tag,
        parts.tag_length,
      );
      short_id =
          omega (
            arith,
            ap length payload.id_decoded,
            length-from_utf8_lossy payload.id,
            parts.id_length,
          );
      paid_for = omega (
        arith,
        ap length r.layout,
        length-append r.coinbase_data (0xFE ∷ r.rest),
        payload_size r.coinbase_data p payload,
      );
    }
