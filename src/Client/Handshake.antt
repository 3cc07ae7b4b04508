-- ===== src/Client/Handshake.antt =====
-- src/datum_protocol.rs: the handshake and `connect`. Random numbers, and what dialling an address
-- gives, are arguments.
use blvm_datum.Common.{
  ℕ, suc, ◌+◌, ◌-◌, ◌⊎◌, Bool, true, false, not, ◌&&◌, Option, none, some, [], ◌∷◌, ◌++◌, length,
  ltb, ◌==◌, if◌then◌else◌,
}
use mathlib.Core.Option
use blvm_datum.Error
use blvm_datum.Error.{
  Result, ok, err, panic, DatumError, protocol_error, pool_connection_error, encryption_error, Text,
  text, codes, fail_if, ok_or, map_err,
}
use blvm_datum.Bytes.{Bytes, u32, to_le_bytes, slice, slice_from}
use blvm_datum.Crypto.{Crypto}
use blvm_datum.Stream.{Stream, write_all, flush}
use blvm_datum.Messages.{DatumMessageHeader, DatumCommand, handshake, to_u8, same_command}
use blvm_datum.Header.{serialize_header}
use blvm_datum.Utf8.{from_utf8_lossy}
use blvm_datum.Client.{
  Client, DatumEncryptionKeys, M, ◌>>=◌, ◌>>◌, lift, get, modify, on_stream, require_stream,
  xor_header, datum_protocol_version, generate_keys, ed25519_public, derive_key,
  initialize_session_nonce,
}
use blvm_datum.Client.Transport.{receive_message_internal}

-- The random numbers of one `connect`.
pub record Entropy : Type 0 where
  pub local_signing : Bytes
  pub local_secret : Bytes
  pub session_signing : Bytes
  pub session_secret : Bytes
  -- a `u32`
  pub header_key : ℕ
  -- 1 to 200 bytes
  pub padding : Bytes
  pub seal_randomness : Bytes
  pub dummy_signing : Bytes
  pub dummy_secret : Bytes

unfoldable pub bytes_eq : Bytes → Bytes → Bool
bytes_eq [] [] = true
bytes_eq (x ∷ xs) (y ∷ ys) = (x == y) && bytes_eq xs ys
bytes_eq _ _ = false

-- `iter().position(|&b| b == 0)`
unfoldable pub position_zero : Bytes → Option ℕ
position_zero [] = none
position_zero (b ∷ bs) = if b == 0 then some 0 else Option.map suc (position_zero bs)

-- The message of the day, which is only logged.
unfoldable pub read_motd : Bytes → Result Text
read_motd response = Error.◌>>=◌ (slice_from response 192) λ rest.
    let end = Option.get_or (position_zero rest) (length response - 192) in
    Error.◌>>=◌ (slice response 192 (192 + end)) λ motd. ok (from_utf8_lossy motd)

-- `strip_prefix` with `unwrap_or`
unfoldable pub strip_prefix_or : Bytes → Bytes → Bytes → Bytes
strip_prefix_or [] rest whole = rest
strip_prefix_or (p ∷ ps) [] whole = whole
strip_prefix_or (p ∷ ps) (b ∷ bs) whole = if p == b then strip_prefix_or ps bs whole else whole

unfoldable pub pool_address : Text → Text
unfolding strip_prefix_or
pool_address url = strip_prefix_or (codes "tcp://") url url

unfoldable pub is_some : Option Bytes → Bool
is_some none = false
is_some (some _) = true

unfoldable pub hello_header : Option Bytes → Bytes → DatumMessageHeader
unfolding is_some
hello_header pool_key encrypted = record {
  cmd_len = u32 (length encrypted);
  reserved = 0;
  is_signed = true;
  is_encrypted_pubkey = is_some pool_key;
  is_encrypted_channel = false;
  proto_cmd = to_u8 handshake;
}

module _ (crypto : Crypto) where
  -- The hello message up to its signature.
  unfoldable pub hello_body : DatumEncryptionKeys → DatumEncryptionKeys → ℕ → Bytes → Bytes
  hello_body local session header_key padding =
      ed25519_public crypto local
      ++ (local.x25519_public
          ++ (ed25519_public crypto session
              ++ (session.x25519_public
                  ++ (datum_protocol_version ++ (0 ∷ (to_le_bytes 4 header_key ++ padding))))))

  unfoldable pub hello_message : DatumEncryptionKeys → DatumEncryptionKeys → ℕ → Bytes → Bytes
  hello_message local session header_key padding =
      let body = hello_body local session header_key padding in
      body ++ crypto.sign local.ed25519_signing body

  -- Sealed to the pool's key, or plain if none is configured.
  unfoldable pub encrypt_hello : Option Bytes → Bytes → Bytes → Result Bytes
  encrypt_hello none randomness hello = ok hello
  encrypt_hello (some pool_key) randomness hello =
      Error.◌>>=◌
        (map_err (crypto.read_sealing_key pool_key)
          (λ e. encryption_error (text "Invalid pool public key: " ++ e)))
        λ key. map_err (crypto.seal key randomness hello) (λ e. encryption_error e)

  -- One of the echoed keys, at its offset.
  unfoldable pub check_echo : Bytes → ℕ → Bytes → DatumError → Result (Unit {0})
  check_echo response offset key mismatch =
      Error.◌>>=◌ (slice response offset (offset + 32))
        λ echoed. fail_if (not (bytes_eq echoed key)) mismatch

  -- The checks of the response before its keys are used.
  unfoldable pub check_response :
      DatumEncryptionKeys → DatumEncryptionKeys → DatumCommand → Bytes → Result (Unit {0})
  check_response local session command response =
      Error.◌>>◌
        (fail_if (not (same_command command handshake))
          (protocol_error (text "Expected handshake response")))
        (Error.◌>>◌
          (fail_if (ltb (length response) 192)
            (protocol_error (text "Handshake response too short")))
          (Error.◌>>◌
            (check_echo response 0 (ed25519_public crypto local)
              (protocol_error (text "Echoed Ed25519 key mismatch")))
            (Error.◌>>◌
              (check_echo response 32 local.x25519_public
                (protocol_error (text "Echoed X25519 key mismatch")))
              (Error.◌>>◌
                (check_echo response 64 (ed25519_public crypto session)
                  (protocol_error (text "Echoed session Ed25519 key mismatch")))
                (check_echo response 96 session.x25519_public
                  (protocol_error (text "Echoed session X25519 key mismatch")))))))

  -- The key under which the pool will sign.
  unfoldable pub read_pool_key : Bytes → Result Bytes
  read_pool_key response = Error.◌>>=◌ (slice response 128 160) λ key.
      map_err (crypto.read_verifying_key key)
        (λ e. protocol_error (text "Invalid Ed25519 key: " ++ e))

  -- The ciphers and counters of the session.
  unfoldable pub start_session : Entropy → DatumEncryptionKeys → Bytes → Client → Client
  start_session e session pool_x25519 c =
      let shared = crypto.diffie_hellman session.x25519_secret pool_x25519 in
      let nonce = initialize_session_nonce crypto e.header_key in
      record c {
        send_cipher = some (derive_key crypto shared (text "send"));
        recv_cipher = some (derive_key crypto shared (text "recv"));
        remote_keys = some (record {
          ed25519_signing = e.dummy_signing;
          x25519_secret = e.dummy_secret;
          x25519_public = pool_x25519;
        });
        send_nonce = nonce;
        recv_nonce = nonce;
      }

  -- The hello message goes out.
  unfoldable pub send_hello : Entropy → DatumEncryptionKeys → DatumEncryptionKeys → M (Unit {0})
  send_hello e local session = do
    pool_key ← get (λ c. c.pool_public_key)
    let hello = hello_message local session e.header_key e.padding
    encrypted ← lift (encrypt_hello pool_key e.seal_randomness hello)
    modify (λ c. record c { header_xor_key = e.header_key })
    require_stream
    header_bytes ← lift (serialize_header (hello_header pool_key encrypted))
    header_xor ← xor_header header_bytes e.header_key
    on_stream (write_all header_xor)
    on_stream (write_all encrypted)
    on_stream flush

  -- The pool's answer comes in.
  unfoldable pub read_hello_response :
      Entropy → DatumEncryptionKeys → DatumEncryptionKeys → M (Unit {0})
  read_hello_response e local session = do
    (command, response) ← receive_message_internal crypto
    lift (check_response local session command response)
    pool_key ← lift (read_pool_key response)
    modify (λ c. record c { pool_ed25519_public = some pool_key })
    pool_x25519 ← lift (slice response 160 192)
    _motd ← lift (read_motd response)
    modify (start_session e session pool_x25519)

  unfoldable pub perform_handshake : Entropy → M (Unit {0})
  perform_handshake e = do
    keys ← get (λ c. c.local_keys)
    local ← lift (ok_or keys (protocol_error (text "Local keys not generated")))
    let session = generate_keys crypto e.session_signing e.session_secret
    send_hello e local session
    read_hello_response e local session

  -- `connect`; `dial` is `TcpStream::connect`.
  unfoldable pub connect : (Text → Stream ⊎ Text) → Entropy → M (Unit {0})
  connect dial e = do
    url ← get (λ c. c.pool_url)
    stream ← lift (
        map_err (dial (pool_address url))
          (λ x. pool_connection_error (text "Failed to connect: " ++ x)))
    modify (λ c. record c { stream = some stream })
    modify
        (λ c. record c { local_keys = some (generate_keys crypto e.local_signing e.local_secret) })
    perform_handshake e
    modify (λ c. record c { connected = true })
