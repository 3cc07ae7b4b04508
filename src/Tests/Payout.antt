-- ===== src/Tests/Payout.antt =====
-- The coinbase response: src/pool.rs on concrete bytes.
use blvm_datum.Common.{◌≡◌, ◌↔◌, refl, [], ◌∷◌, ◌++◌, length, take, arith}
use blvm_datum.Error.{ok, panic, codes}
use blvm_datum.Bytes.{Bytes, IsBytes, index, slice, read_u64, read_u32}
use blvm_datum.Utf8.Valid.{IsUtf8}
use blvm_datum.Utf8.{from_utf8_lossy, decode_from, decode_byte, start, encode, encode_char}
use blvm_datum.Coinbase.{
  CoinbasePayout, parse_coinbase_response, parse_coinbase_data, read_text, read_outputs,
  read_output,
}
use blvm_datum.Coinbase.Print.{print_response, print_coinbase_data, FitsPayout}
use blvm_datum.Coinbase.RoundTrip.{parse_coinbase_response-payout}
use blvm_datum.Coinbase.Bounds.{IsBounded, parse_coinbase_response-IsBounded}
use blvm_datum.Coinbase.Typed.{IsPayout, parse_coinbase_response-IsPayout}
use blvm_datum.Coinbase.Response.{
  EndsEarly, IsResponse, parse_coinbase_response_panics_iff, parse_coinbase_response_sound,
}

abbrev pub payout : CoinbasePayout
payout = record {
  outputs = record { script = 0x51 ∷ 0x52 ∷ []; value = 5000 } ∷ [];
  primary_tag = codes "pool";
  unique_id = codes "id";
}

abbrev payload : Bytes
payload = print_coinbase_data (codes "pool") (codes "id") payout.outputs

abbrev response : Bytes
response = print_response 5000 payload []

response-IsBytes : IsBytes response
response-IsBytes = omega arith

parse_response : parse_coinbase_response response ≡ ok payout
parse_response =
    unfold parse_coinbase_response parse_coinbase_data read_text read_outputs read_output index
      slice read_u64 read_u32 from_utf8_lossy decode_from decode_byte start in
    refl

-- A response that lacks just its terminator.
abbrev cut_response : Bytes
cut_response = take 32 response

cut_response-IsBytes : IsBytes cut_response
cut_response-IsBytes = omega arith

parse_coinbase_response_panics_iff_example :
    (parse_coinbase_response cut_response ≡ panic) ↔ EndsEarly cut_response
parse_coinbase_response_panics_iff_example =
    parse_coinbase_response_panics_iff cut_response cut_response-IsBytes

cut_response-EndsEarly : EndsEarly cut_response
cut_response-EndsEarly = (omega arith, refl)

parse_coinbase_response_sound_example : IsResponse response payout
parse_coinbase_response_sound_example =
    parse_coinbase_response_sound response response-IsBytes parse_response

pub payout-FitsPayout : FitsPayout payout
payout-FitsPayout = record {
  tag_utf8 = pool-IsUtf8;
  tag_fits = omega arith;
  id_utf8 = id-IsUtf8;
  id_fits = omega arith;
  outputs_fit = (record { script_fits = omega arith; value_fits = omega arith }, tt);
  output_count_fits = omega arith;
}
  where
    pool-IsUtf8 : IsUtf8 (codes "pool")
    pool-IsUtf8 = record {
      chars = codes "pool";
      scalars = omega arith;
      encodes = unfold encode encode_char in refl;
    }

    id-IsUtf8 : IsUtf8 (codes "id")
    id-IsUtf8 = record {
      chars = codes "id";
      scalars = omega arith;
      encodes = unfold encode encode_char in refl;
    }

parse_coinbase_response-payout_example :
    parse_coinbase_response (print_response 7 (payload ++ (9 ∷ [])) (1 ∷ 2 ∷ [])) ≡ ok payout
parse_coinbase_response-payout_example =
    parse_coinbase_response-payout 7 payout (9 ∷ []) (1 ∷ 2 ∷ []) (omega arith) payout-FitsPayout
      (omega arith)

parse_coinbase_response-IsBounded_example : IsBounded (length response) payout
parse_coinbase_response-IsBounded_example =
    parse_coinbase_response-IsBounded response payout response-IsBytes parse_response

pub payout-IsPayout : IsPayout payout
payout-IsPayout = parse_coinbase_response-IsPayout response payout response-IsBytes parse_response
