-- ===== src/Client/Transport.antt =====
-- src/datum_protocol.rs: sending and receiving messages, and the two requests built on them.
use blvm_datum.Common.{
  ℕ, ◌+◌, Bool, true, false, not, Option, none, some, [], ◌∷◌, ◌++◌, length, ◌==◌, if◌then◌else◌,
}
use blvm_datum.Error.{
  Result, ok, err, panic, protocol_error, pool_connection_error, encryption_error, text, decimal,
  fail_if, ok_or, map_err,
}
use blvm_datum.Bytes.{Bytes, u32, u64, to_le_bytes}
use blvm_datum.Crypto.{Crypto}
use blvm_datum.Stream.{read_exact, write_all}
use blvm_datum.Messages.{
  DatumMessageHeader, DatumCommand, fetch_coinbaser, submit_pow, to_u8, from_u8, same_command,
}
use blvm_datum.Header.{serialize_header, deserialize_header}
use blvm_datum.Handlers.{dispatch}
use blvm_datum.Client.{
  DatumEncryptionKeys, M, ◌>>=◌, ◌>>◌, lift, get, on_stream, require_stream, xor_header,
  create_nonce,
}

-- `*nonce_guard += 1`, which gives the old value.
abbrev pub next_send_nonce : M ℕ
next_send_nonce c = (ok c.send_nonce, record c { send_nonce = u64 (c.send_nonce + 1) })

abbrev pub next_recv_nonce : M ℕ
next_recv_nonce c = (ok c.recv_nonce, record c { recv_nonce = u64 (c.recv_nonce + 1) })

unfoldable pub message_header : DatumCommand → Bytes → DatumMessageHeader
message_header command message = record {
  cmd_len = u32 (length message);
  reserved = 0;
  is_signed = true;
  is_encrypted_pubkey = false;
  is_encrypted_channel = true;
  proto_cmd = to_u8 command;
}

-- `match data[0]` of `submit_pow`
unfoldable pub verdict_of : ℕ → Result Bool
verdict_of code =
    if code == 0x50
    then ok true
    else if code == 0x55
    then ok true
    else if code == 0x66
    then ok false
    else err (protocol_error (text "Unknown response code: " ++ decimal code))

unfoldable pub first_verdict : Bytes → Result Bool
unfolding verdict_of
first_verdict [] = panic
first_verdict (code ∷ _) = verdict_of code

-- The answer to a submission.
unfoldable pub read_verdict : Bytes → Result Bool
unfolding first_verdict
read_verdict message =
    if length message == 0
    then err (protocol_error (text "Empty response"))
    else first_verdict message

-- The signature's bytes behind the header, if it announces them.
unfoldable pub read_signature : Bool → M (Option Bytes)
read_signature true = do sig ← on_stream (read_exact 64); lift (ok (some sig))
read_signature false = lift (ok none)

module _ (crypto : Crypto) where
  -- The bytes that go out as the body, with the cipher that there is.
  unfoldable pub encrypt_with : Option Bytes → ℕ → Bytes → Result Bytes
  encrypt_with none nonce message = ok message
  encrypt_with (some key) nonce message =
      map_err (crypto.encrypt key (create_nonce nonce) message)
        (λ e. encryption_error (text "Encryption failed: " ++ e))

  unfoldable pub decrypt_with : Option Bytes → ℕ → Bytes → Result Bytes
  decrypt_with none nonce body = ok body
  decrypt_with (some key) nonce body =
      map_err (crypto.decrypt key (create_nonce nonce) body)
        (λ e. encryption_error (text "Decryption failed: " ++ e))

  -- The signature over the plain header and the body, if there are keys.
  unfoldable pub sign_with : Option DatumEncryptionKeys → Bytes → Bytes
  sign_with none message = []
  sign_with (some keys) message = crypto.sign keys.ed25519_signing message

  unfoldable pub send_message : DatumCommand → Bytes → M (Unit {0})
  send_message command message = do
    connected ← get (λ c. c.connected)
    lift (fail_if (not connected) (pool_connection_error (text "Not connected to pool")))
    require_stream
    header_bytes ← lift (serialize_header (message_header command message))
    key ← get (λ c. c.header_xor_key)
    header_xor ← xor_header header_bytes key
    nonce ← next_send_nonce
    cipher ← get (λ c. c.send_cipher)
    encrypted ← lift (encrypt_with cipher nonce message)
    keys ← get (λ c. c.local_keys)
    let signature = sign_with keys (header_bytes ++ encrypted)
    on_stream (write_all header_xor)
    if length signature == 0 then lift (ok tt) else on_stream (write_all signature)
    on_stream (write_all encrypted)

  -- A signature is checked if there is one and the pool's key is known.
  unfoldable pub check_signature : Option Bytes → Option Bytes → Bytes → Result (Unit {0})
  check_signature none pool_key message = ok tt
  check_signature (some sig) none message = ok tt
  check_signature (some sig) (some pool_key) message =
      if not (length sig == 64)
      then err (protocol_error (text "Invalid signature format"))
      else fail_if (not (crypto.verify pool_key message sig))
          (protocol_error (text "Signature verification failed"))

  unfoldable pub receive_message_internal : M (DatumCommand × Bytes)
  receive_message_internal = do
    require_stream
    header_bytes ← on_stream (read_exact 4)
    key ← get (λ c. c.header_xor_key)
    header_deobfuscated ← xor_header header_bytes key
    header ← lift (deserialize_header header_deobfuscated)
    signature ← read_signature header.is_signed
    encrypted ← on_stream (read_exact header.cmd_len)
    pool_key ← get (λ c. c.pool_ed25519_public)
    lift (check_signature signature pool_key (header_deobfuscated ++ encrypted))
    nonce ← next_recv_nonce
    cipher ← get (λ c. c.recv_cipher)
    message ← lift (decrypt_with cipher nonce encrypted)
    command ← lift (
        ok_or (from_u8 header.proto_cmd)
          (protocol_error (text "Unknown command: " ++ decimal header.proto_cmd)))
    lift (ok (command, message))

  -- `handle_protocol_message`
  unfoldable pub handle_protocol_message : DatumCommand → Bytes → M (Unit {0})
  handle_protocol_message command message = do
    handler ← get (λ c. c.message_handler)
    lift (dispatch handler command message)

  unfoldable pub receive_message : M (DatumCommand × Bytes)
  receive_message = do
    (command, message) ← receive_message_internal
    handle_protocol_message command message
    lift (ok (command, message))

  unfoldable pub fetch_coinbaser_request : ℕ → M Bytes
  fetch_coinbaser_request value = do
    send_message fetch_coinbaser (to_le_bytes 8 value)
    (command, message) ← receive_message
    lift (
        fail_if (not (same_command command fetch_coinbaser))
          (protocol_error (text "Unexpected response command")))
    lift (ok message)

  -- `submit_pow`
  unfoldable pub submit_pow_request : Bytes → M Bool
  submit_pow_request pow_data = do
    send_message submit_pow pow_data
    (command, message) ← receive_message
    lift (
        fail_if (not (same_command command submit_pow))
          (protocol_error (text "Unexpected response command")))
    lift (read_verdict message)
