-- ===== src/Coinbase/Parts.antt =====
-- The parts of a coinbase response that is made of bytes.
use blvm_datum.Common.{
  ◌<◌, subst, List, ◌∷◌, ◌++◌, All-drop, All-append_left, All-append_right, length,
}
use blvm_datum.Bytes.{Bytes, IsByte, IsBytes}
use blvm_datum.Coinbase.{CoinbaseOutput, CoinbasePayout}
use blvm_datum.Coinbase.Print.{print_outputs, print_coinbase_data, print_response}
use blvm_datum.Coinbase.Response.{IsResponse}

-- The length bytes are bytes, and so are the printed outputs.
pub record HasByteParts (tag id : Bytes) (outputs : List CoinbaseOutput) : Type 0 where
  pub tag_length : length tag < 256
  pub id_length : length id < 256
  pub output_count : length outputs < 256
  pub output_bytes : IsBytes (print_outputs outputs)

print_coinbase_data-HasByteParts :
    (tag id : Bytes) (outputs : List CoinbaseOutput)
    → IsBytes (print_coinbase_data tag id outputs)
    → HasByteParts tag id outputs
print_coinbase_data-HasByteParts tag id outputs h =
    let from_count = length outputs ∷ print_outputs outputs in
    let from_id = All-append_right IsByte tag (length id ∷ (id ++ from_count)) h.1 in
    let last = All-append_right IsByte id from_count from_id.1 in
    record { tag_length = h.0; id_length = from_id.0; output_count = last.0; output_bytes = last.1 }

pub IsResponse-HasByteParts :
    (bytes : Bytes) (p : CoinbasePayout)
    → IsBytes bytes
    → (r : IsResponse bytes p) → HasByteParts r.payload.tag r.payload.id p.outputs
IsResponse-HasByteParts bytes p are_bytes r =
    let payload = r.payload in
    let response_bytes = subst IsBytes r.layout are_bytes in
    let data_bytes =
      All-append_left IsByte r.coinbase_data (0xFE ∷ r.rest)
        (All-drop IsByte 12 (print_response r.value r.coinbase_data r.rest) response_bytes) in
    print_coinbase_data-HasByteParts payload.tag payload.id p.outputs (
      All-append_left IsByte (print_coinbase_data payload.tag payload.id p.outputs) payload.inner
        (subst IsBytes payload.layout data_bytes))
