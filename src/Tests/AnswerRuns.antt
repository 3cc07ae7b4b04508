-- ===== src/Tests/AnswerRuns.antt =====
-- A fetch that the pool answers, from the client of src/datum_protocol.rs to the pool of src/pool.rs.
use blvm_datum.Common.{
  ℕ, ◌≡◌, refl, true, false, some, [], ◌∷◌, ◌++◌, length, replicate, arith, All-append,
}
use blvm_datum.Error.{ok, err, io_error, unexpected_eof}
use blvm_datum.Bytes.{Bytes, IsByte, IsBytes, to_le_bytes}
use blvm_datum.Stream.{Stream}
use blvm_datum.Messages.{DatumMessageHeader, fetch_coinbaser, to_u8}
use blvm_datum.Header.RoundTrip.{packed, packed-IsBytes, length-packed}
use blvm_datum.Header.Obfuscation.{exchange, IsExchanged}
use blvm_datum.Client.{Client}
use blvm_datum.Client.Transport.{
  send_message, receive_message, message_header, encrypt_with, decrypt_with, check_signature,
}
use blvm_datum.Client.Send.{header_number, header_number-lt}
use blvm_datum.Client.Frame.{sender}
use blvm_datum.Client.Answer.{IsFrame}
use blvm_datum.Client.Overtaking.{requested, overtaken, receive_message-overtaken}
use blvm_datum.Pool.{Pool, fetch_coinbase_payout}
use blvm_datum.Pool.Answer.{payout_message, fetch_coinbase_payout-print}
use blvm_datum.Tests.Toy.{toy, toy-Signs, online, keys, empty_stream}
use blvm_datum.Tests.Payout.{payout, payout-FitsPayout}
use blvm_datum.Tests.PoolRuns.{configured}

abbrev message : Bytes
message = payout_message 7 payout (9 ∷ []) (1 ∷ 2 ∷ [])

message-IsBytes : IsBytes message
message-IsBytes = omega arith

abbrev answer_header : DatumMessageHeader
answer_header = record {
  cmd_len = length message;
  reserved = 0;
  is_signed = true;
  is_encrypted_pubkey = false;
  is_encrypted_channel = true;
  proto_cmd = to_u8 fetch_coinbaser;
}

abbrev question : DatumMessageHeader
question = message_header fetch_coinbaser (to_le_bytes 8 5000)

hidden : (out : Bytes) × IsExchanged (packed answer_header) (header_number question) out
hidden =
    exchange (header_number question) (packed answer_header) (packed-IsBytes answer_header)
      (omega (arith, length-packed answer_header)) (header_number-lt question)

abbrev answer : Bytes
answer = hidden.0 ++ (replicate 64 0 ++ (message ++ []))

answer-IsBytes : IsBytes answer
answer-IsBytes = All-append IsByte hidden.0 _ hidden.1.out_bytes (
    All-append IsByte (replicate 64 0) (message ++ []) (omega arith)
      (All-append IsByte message [] message-IsBytes tt))

abbrev client : Client
client = record online { pool_ed25519_public = some [] }

abbrev answered : Stream
answered = record empty_stream { incoming = answer }

answer-IsFrame :
    IsFrame toy client.recv_cipher client.pool_ed25519_public
      (header_number question)
      7
      fetch_coinbaser
      message
      hidden.0
      (replicate 64 0)
      message
unfolding check_signature decrypt_with
answer-IsFrame = record {
  header = answer_header;
  fits = unfold to_u8 in omega arith;
  signed = refl;
  is_command = refl;
  hidden = hidden.1;
  sig_length = refl;
  body_length = refl;
  accepted = refl;
  opens = refl;
}

abbrev asking : Pool ℕ
asking = record configured { protocol_client = some (sender client answered keys) }

fetch_coinbase_payout-print_example :
    (d : Client) × (fetch_coinbase_payout toy 5000 asking
      ≡ (ok payout, record asking { protocol_client = some d; current_coinbase = some payout }))
fetch_coinbase_payout-print_example =
    fetch_coinbase_payout-print toy 5000 7 payout (9 ∷ []) (1 ∷ 2 ∷ [])
      (to_le_bytes 8 5000 ++ replicate 16 0) hidden.0 (replicate 64 0) message [] client answered
      keys asking toy-Signs refl (omega arith) (unfold encrypt_with in refl) refl answer-IsBytes
      answer-IsFrame (omega arith) payout-FitsPayout (omega arith)

receive_message-overtaken_example :
    ((send_message toy fetch_coinbaser (to_le_bytes 8 5000) (sender client answered keys)).0
      ≡ ok tt)
    × ((receive_message toy
          (requested toy fetch_coinbaser (to_le_bytes 8 5000) client answered keys)).0
        ≡ ok (fetch_coinbaser, message))
    × ((receive_message toy
          (overtaken toy fetch_coinbaser (to_le_bytes 8 5000) client answered keys)).0
        ≡ err (io_error unexpected_eof))
receive_message-overtaken_example =
    receive_message-overtaken toy fetch_coinbaser (to_le_bytes 8 5000) message
      (to_le_bytes 8 5000 ++ replicate 16 0) hidden.0 (replicate 64 0) message client answered keys
      toy-Signs (omega arith) (unfold encrypt_with in refl) refl answer-IsBytes answer-IsFrame
