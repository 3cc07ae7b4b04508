-- ===== src/Coinbase/Typed.antt =====
-- The fields of an accepted payout are values of the types that src/pool.rs gives them.
use blvm_datum.Common.{
  ◌^◌, ◌<◌, ◌≡◌, sym, subst, List, [], ◌∷◌, All, All-append_left, All-append_right, length,
}
use blvm_datum.Error.{ok}
use blvm_datum.Bytes.{Bytes, IsByte, IsBytes, to_le_bytes}
use blvm_datum.Utf8.Valid.{IsUtf8}
use blvm_datum.Utf8.Strings.{from_utf8_lossy-IsUtf8}
use blvm_datum.Coinbase.{CoinbaseOutput, CoinbasePayout, parse_coinbase_response}
use blvm_datum.Coinbase.Print.{print_output, print_outputs, FitsOutput}
use blvm_datum.Coinbase.Parts.{IsResponse-HasByteParts}
use blvm_datum.Coinbase.Response.{parse_coinbase_response_sound}

-- A `u64` and a `Vec<u8>`.
pub record IsOutput (o : CoinbaseOutput) : Type 0 where
  pub value_fits : o.value < 2 ^ 64
  pub script_bytes : IsBytes o.script

-- Two `String`s and the outputs.
pub record IsPayout (p : CoinbasePayout) : Type 0 where
  pub outputs_typed : All IsOutput p.outputs
  pub tag_string : IsUtf8 p.primary_tag
  pub id_string : IsUtf8 p.unique_id

print_outputs-IsOutput :
    (outs : List CoinbaseOutput)
    → All FitsOutput outs
    → IsBytes (print_outputs outs)
    → All IsOutput outs
print_outputs-IsOutput [] fit h = tt
print_outputs-IsOutput (o ∷ outs) fit h =
    let first = All-append_left IsByte (print_output o) (print_outputs outs) h in
    let behind_value =
      All-append_right IsByte (to_le_bytes 8 o.value) (length o.script ∷ o.script) first in
    (
      record { value_fits = fit.0.value_fits; script_bytes = behind_value.1 },
      print_outputs-IsOutput outs fit.1 (All-append_right IsByte (print_output o) _ h),
    )

-- What is parsed from bytes has outputs with a `u64` value and a script of bytes, and two texts that are
-- valid UTF-8, whatever bytes the response has for them.
pub parse_coinbase_response-IsPayout :
    (bytes : Bytes) (p : CoinbasePayout)
    → IsBytes bytes
    → parse_coinbase_response bytes ≡ ok p
    → IsPayout p
parse_coinbase_response-IsPayout bytes p are_bytes parsed =
    let r = parse_coinbase_response_sound bytes are_bytes parsed in
    let payload = r.payload in
    let parts = IsResponse-HasByteParts bytes p are_bytes r in
    record {
      outputs_typed = print_outputs-IsOutput p.outputs payload.outputs_fit parts.output_bytes;
      tag_string = subst IsUtf8 (sym payload.tag_decoded) (from_utf8_lossy-IsUtf8 payload.tag);
      id_string = subst IsUtf8 (sym payload.id_decoded) (from_utf8_lossy-IsUtf8 payload.id);
    }
