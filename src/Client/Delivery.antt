-- ===== src/Client/Delivery.antt =====
-- A message from one end to the other.
use blvm_datum.Common.{
  ◌+◌, ◌^◌, ◌<◌, ◌≡◌, refl, sym, ap, ◌∙◌, none, some, ◌++◌, Option, ◌⊎◌, inl, inr, ℕ, length, take,
  drop, append_assoc, take-append-drop, length-take, length-drop, arith,
}
use blvm_datum.Error.{ok, DatumError, Text, map_err}
use blvm_datum.Bytes.{Bytes, from_le_bytes}
use blvm_datum.Crypto.{Crypto, Signs, AppendsTag}
use blvm_datum.Stream.{Stream}
use blvm_datum.Messages.{
  DatumCommand, IsNarrow, narrow_handshake, narrow_fetch_coinbaser, narrow_submit_pow,
  narrow_job_update, to_u8,
}
use blvm_datum.Header.RoundTrip.{packed, packed-IsBytes, length-packed, FitsHeader}
use blvm_datum.Header.Obfuscation.{exchange}
use blvm_datum.Client.{Client, DatumEncryptionKeys, then_result, lift, create_nonce}
use blvm_datum.Client.Transport.{
  message_header, encrypt_with, decrypt_with, send_message, receive_message_internal,
}
use blvm_datum.Client.Frame.{sender, sent_frame, receiver, read_frame, send_frame, receive_frame}

-- The end of a frame, parted behind the first `n` bytes of its body.
seam :
    (out sig body more : Bytes) (n : ℕ)
    → (out ++ (sig ++ body)) ++ more ≡ out ++ (sig ++ (take n body ++ (drop n body ++ more)))
seam out sig body more n =
    append_assoc out (sig ++ body) more
    ∙ ap (◌++◌ out) (
        append_assoc sig body more
        ∙ ap (◌++◌ sig) (
            ap (λ b. b ++ more) (sym (take-append-drop n body))
            ∙ append_assoc (take n body) (drop n body) more))

map_err-eq-ok :
    (r : Bytes ⊎ Text) (f : Text → DatumError) {bytes : Bytes}
    → map_err r f ≡ ok bytes
    → r ≡ inl bytes
map_err-eq-ok (inl b) f e = cc
map_err-eq-ok (inr t) f e = cc

-- What a cipher adds to the message.
abbrev pub tag_size : Option Bytes → ℕ
tag_size none = 0
tag_size (some key) = 16

message_header-FitsHeader :
    (command : DatumCommand) (message : Bytes)
    → length message < 2 ^ 22
    → IsNarrow command
    → FitsHeader (message_header command message)
unfolding message_header to_u8
message_header-FitsHeader _ message small narrow_handshake = omega arith
message_header-FitsHeader _ message small narrow_fetch_coinbaser = omega arith
message_header-FitsHeader _ message small narrow_submit_pow = omega arith
message_header-FitsHeader _ message small narrow_job_update = omega arith

module _ (crypto : Crypto) where
  encrypt_with-length :
      (cipher : Option Bytes) (nonce : ℕ) (message body : Bytes)
      → AppendsTag crypto
      → encrypt_with crypto cipher nonce message ≡ ok body
      → length body ≡ length message + tag_size cipher
  unfolding encrypt_with
  encrypt_with-length none nonce message body tag e =
      ap length {x = body} {y = message} (cc e) ∙ omega arith
  encrypt_with-length (some key) nonce message body tag e =
      tag.tag_length key (create_nonce nonce) message body (map_err-eq-ok _ _ e)

  -- A client with a stream whose writes succeed, with signing keys and a header key below 2 ^
  -- 32, sends a message of fewer than 2 ^ 22 bytes with one of the commands handshake,
  -- fetch_coinbaser, submit_pow and job_update; encryption succeeds, a cipher appends 16 bytes,
  -- and signatures have 64. Then one frame goes out. A peer that holds the same header key, but
  -- not the key of the signatures, decrypts only the first `length message` bytes of the
  -- encrypted body, and the 16 others, or none if there is no cipher, stay in the peer's stream.
  pub send-receive :
      (command : DatumCommand) (message body more : Bytes) (c r : Client) (s t : Stream)
      (keys : DatumEncryptionKeys)
      → Signs crypto
      → AppendsTag crypto
      → IsNarrow command
      → length message < 2 ^ 22
      → c.header_xor_key < 2 ^ 32
      → encrypt_with crypto c.send_cipher c.send_nonce message ≡ ok body
      → (f : Bytes) × (key : ℕ) × (send_message crypto command message (sender c s keys)
          ≡ (ok tt, sent_frame c s keys (message_header command message) f))
        × (length (drop (length message) body) ≡ tag_size c.send_cipher)
        × (receive_message_internal crypto (receiver r t c.header_xor_key (f ++ more))
            ≡ then_result
                (decrypt_with crypto r.recv_cipher r.recv_nonce (take (length message) body))
                (read_frame r t key (drop (length message) body ++ more))
                (λ plain. lift (ok (command, plain))))
  unfolding message_header
  send-receive command message body more c r s t keys signs tag narrow small fits enc =
      let size = encrypt_with-length c.send_cipher c.send_nonce message body tag enc in
      let h = message_header command message in
      let (out, ex) =
        exchange c.header_xor_key (packed h) (packed-IsBytes h) (omega (arith, length-packed h))
          fits in
      let sig = crypto.sign keys.ed25519_signing (packed h ++ body) in
      let front = take (length message) body in
      (
        out ++ (sig ++ body),
        from_le_bytes (take 4 out),
        send_frame crypto command message body out c s keys signs enc ex,
        length-drop (length message) body ∙ omega (arith, size),
        ap (λ b. receive_message_internal crypto (receiver r t c.header_xor_key b))
              {x = (out ++ (sig ++ body)) ++ more}
              {y = out ++ (sig ++ (front ++ (drop (length message) body ++ more)))}
              (seam out sig body more (length message))
            ∙ receive_frame crypto command h out sig front (drop (length message) body ++ more)
                c.header_xor_key r t (message_header-FitsHeader command message small narrow) refl
                refl ex (signs.signature_length keys.ed25519_signing (packed h ++ body))
                (length-take (length message) body (omega (arith, size)) ∙ omega arith),
      )
