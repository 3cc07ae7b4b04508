-- ===== src/Tests/Session.antt =====
-- The client: src/datum_protocol.rs with a cryptography that is easy to compute.
use blvm_datum.Common.{drop, length, ℕ, ◌≡◌, ◌≢◌, refl, true, some, [], ◌∷◌, ◌++◌, replicate, arith}
use blvm_datum.Error.{ok, panic}
use blvm_datum.Error.Ensures.{Ensures}
use blvm_datum.Bytes.{Bytes}
use blvm_datum.Messages.{handshake, submit_pow, narrow_submit_pow}
use blvm_datum.Client.{Client, create_nonce, lift, then_result}
use blvm_datum.Client.Logic.{Meets}
use blvm_datum.Client.Transport.{
  send_message, receive_message, receive_message_internal, message_header, encrypt_with,
  decrypt_with,
}
use blvm_datum.Client.Receive.{Received, Attempted, receive_message_internal-Meets}
use blvm_datum.Client.Dispatch.{receive_message-internal}
use blvm_datum.Client.Send.{SendOutcome, send_message_lem}
use blvm_datum.Client.Interleaving.{IsOnline, Onward, Run, no_call, sends, receives, Run-ne-panic}
use blvm_datum.Client.Nonces.{nonces_differ}
use blvm_datum.Client.Frame.{sender, sent_frame, receiver, read_frame}
use blvm_datum.Client.Delivery.{send-receive, tag_size}
use blvm_datum.Client.Handshake.{check_response}
use blvm_datum.Client.Announced.{read_length, send_message-announces}
use blvm_datum.Client.Session.{IsEcho, check_response-Ensures}
use blvm_datum.Tests.Toy.{
  online, waiting, waiting-IsBytes, toy, toy-Signs, toy-AppendsTag, empty_stream, keys,
}

receive_message_internal-Meets_example :
    Meets
      (Received online)
      (Attempted online)
      (receive_message_internal toy online).0
      (receive_message_internal toy online).1
receive_message_internal-Meets_example = receive_message_internal-Meets toy online waiting-IsBytes

receive_message-internal_example : receive_message toy online ≡ receive_message_internal toy online
receive_message-internal_example = receive_message-internal toy online waiting-IsBytes

send_message_lem_example :
    SendOutcome submit_pow
      (5 ∷ [])
      online
      true
      (some waiting)
      (send_message toy submit_pow (5 ∷ []) online)
send_message_lem_example = send_message_lem toy submit_pow (5 ∷ []) online (omega arith)

pub online-IsOnline : IsOnline online
online-IsOnline = record {
  on = refl;
  stream_open = refl;
  readable = waiting-IsBytes;
  key_fits = omega arith;
  send_nonce_fits = omega arith;
  recv_nonce_fits = omega arith;
}

-- A request, between whose send and receive the receive loop takes a message.
abbrev after_send : Client
after_send = (send_message toy submit_pow (5 ∷ []) online).1

abbrev after_request : Client
after_request = (receive_message toy (receive_message toy after_send).1).1

request-Run : Run toy online 1 after_request
request-Run = receives (receives (sends submit_pow (5 ∷ []) no_call))

Run-ne-panic_example :
    Onward online 1 after_request
    × ((send_message toy handshake [] after_request).0 ≢ panic)
    × ((receive_message toy after_request).0 ≢ panic)
Run-ne-panic_example = Run-ne-panic toy handshake [] online-IsOnline request-Run

nonces_differ_example : create_nonce online.send_nonce ≢ create_nonce after_request.send_nonce
nonces_differ_example = nonces_differ toy online-IsOnline (omega arith) (omega arith) request-Run

abbrev sealed : Bytes
sealed = (5 ∷ 6 ∷ []) ++ replicate 16 0

abbrev peer : Client
peer = record online { recv_cipher = some (replicate 32 0) }

send-receive_example :
    (f : Bytes) × (key : ℕ) × (send_message toy submit_pow
        (5 ∷ 6 ∷ [])
        (sender online empty_stream keys)
      ≡ (ok tt, sent_frame online empty_stream keys (message_header submit_pow (5 ∷ 6 ∷ [])) f))
    × (length (replicate {A = ℕ} 16 0) ≡ tag_size online.send_cipher)
    × (receive_message_internal toy (receiver peer empty_stream 0 (f ++ []))
        ≡ then_result
            (decrypt_with toy (some (replicate 32 0)) 7 (5 ∷ 6 ∷ []))
            (read_frame peer empty_stream key (replicate 16 0))
            (λ plain. lift (ok (submit_pow, plain))))
send-receive_example =
    send-receive toy submit_pow (5 ∷ 6 ∷ []) sealed [] online peer empty_stream empty_stream keys
      toy-Signs toy-AppendsTag narrow_submit_pow (omega arith) (omega arith)
      (unfold encrypt_with in refl)

send_message-announces_example :
    (f : Bytes) × (send_message toy submit_pow (5 ∷ 6 ∷ []) (sender online empty_stream keys)
      ≡ (ok tt, sent_frame online empty_stream keys (message_header submit_pow (5 ∷ 6 ∷ [])) f))
    × (drop 68 f ≡ sealed)
    × (read_length 0 f ≡ ok 2)
send_message-announces_example =
    send_message-announces toy submit_pow (5 ∷ 6 ∷ []) sealed online empty_stream keys toy-Signs
      (omega arith) (unfold encrypt_with in refl)

check_response-Ensures_example :
    Ensures
      (λ _. IsEcho toy keys keys (replicate 200 0))
      (check_response toy keys keys handshake (replicate 200 0))
check_response-Ensures_example = check_response-Ensures toy keys keys handshake (replicate 200 0)
