-- ===== src/Client/Frame.antt =====
-- One frame: what goes out, and what a peer makes of it.
use blvm_datum.Common.{
  ℕ, ◌+◌, ◌≡◌, refl, sym, ap, ◌∙◌, true, none, some, [], ◌++◌, length, take, append_assoc,
  length-append, take-append, drop-append, arith,
}
use blvm_datum.Error.{ok}
use blvm_datum.Bytes.{Bytes, u64, from_le_bytes}
use blvm_datum.Crypto.{Crypto, Signs}
use blvm_datum.Stream.{Stream, read_exact, write_all, write_next}
use blvm_datum.Messages.{DatumCommand, DatumMessageHeader, to_u8, from_u8-to_u8}
use blvm_datum.Header.RoundTrip.{
  packed, serialize_header-packed, length-packed, take-packed, FitsHeader, truncate_header_lem,
  deserialize_header-packed,
}
use blvm_datum.Header.Obfuscation.{IsExchanged}
use blvm_datum.Client.{Client, DatumEncryptionKeys, then_result, lift, xor_header}
use blvm_datum.Client.Transport.{
  message_header, encrypt_with, decrypt_with, sign_with, send_message, receive_message_internal,
  read_signature, check_signature,
}
use blvm_datum.Client.Send.{header_number}

-- Reading just what stands in front.
read_front :
    (xs ys : Bytes) (t : Stream) (n : ℕ)
    → length xs ≡ n
    → read_exact n (record t { incoming = xs ++ ys }) ≡ (ok xs, record t { incoming = ys })
unfolding read_exact
read_front xs ys t n e =
    ground (arith, take-append xs ys n e, drop-append xs ys n e, length-append xs ys)

-- A client that can send: all its writes succeed.
abbrev pub sender : Client → Stream → DatumEncryptionKeys → Client
sender c s keys = record c {
  connected = true;
  stream = some (record s { writes = [] });
  local_keys = some keys;
}

-- The client when the frame `f` has gone out.
abbrev pub sent_frame : Client → Stream → DatumEncryptionKeys → DatumMessageHeader → Bytes → Client
sent_frame c s keys h f = record (sender c s keys) {
  stream = some (record s { writes = []; sent = s.sent ++ f });
  send_nonce = u64 (c.send_nonce + 1);
  header_xor_key = header_number h;
}

-- A peer that does not know the key of the signatures, with bytes to read.
abbrev pub receiver : Client → Stream → ℕ → Bytes → Client
receiver r t key bytes = record r {
  stream = some (record t { incoming = bytes });
  header_xor_key = key;
  pool_ed25519_public = none;
}

-- The peer when the body has been read.
abbrev pub read_frame : Client → Stream → ℕ → Bytes → Client
read_frame r t key rest = record (receiver r t key rest) { recv_nonce = u64 (r.recv_nonce + 1) }

module _ (crypto : Crypto) where
  pub send_frame :
      (command : DatumCommand) (message body out : Bytes) (c : Client) (s : Stream)
      (keys : DatumEncryptionKeys)
      → Signs crypto
      → encrypt_with crypto c.send_cipher c.send_nonce message ≡ ok body
      → IsExchanged (packed (message_header command message)) c.header_xor_key out
      → send_message crypto command message (sender c s keys) ≡ (
        ok tt,
        sent_frame c s keys (message_header command message) (
            out
            ++ (crypto.sign keys.ed25519_signing (packed (message_header command message) ++ body)
                ++ body)),
      )
  unfolding send_message xor_header header_number sign_with write_all write_next
  send_frame command message body out c s keys signs enc ex =
      let h = message_header command message in
      rw
        (
          serialize_header-packed h,
          ex.hidden,
          take-packed h,
          enc,
          signs.signature_length keys.ed25519_signing (packed h ++ body),
        )
        (ap
          (λ b. (
            ok tt,
            record (sent_frame c s keys h []) {
              stream = some (record s { writes = []; sent = b });
            },
          ))
          {x = s.sent ++ out ++ crypto.sign keys.ed25519_signing (packed h ++ body) ++ body}
          {y = s.sent ++ (out ++ (crypto.sign keys.ed25519_signing (packed h ++ body) ++ body))}
          (simp append_assoc))

  -- A frame whose signature is accepted, in front of what else there is to read.
  pub accept_frame :
      (command : DatumCommand) (h : DatumMessageHeader) (out sig body rest : Bytes) (c : Client)
      (t : Stream)
      → c.stream ≡ some (record t { incoming = out ++ (sig ++ (body ++ rest)) })
      → FitsHeader h
      → h.is_signed ≡ true
      → h.proto_cmd ≡ to_u8 command
      → IsExchanged (packed h) c.header_xor_key out
      → length sig ≡ 64
      → length body ≡ h.cmd_len
      → check_signature crypto (some sig) c.pool_ed25519_public (packed h ++ body) ≡ ok tt
      → receive_message_internal crypto c
        ≡ then_result
            (decrypt_with crypto c.recv_cipher c.recv_nonce body)
            (record c {
              stream = some (record t { incoming = rest });
              recv_nonce = u64 (c.recv_nonce + 1);
              header_xor_key = from_le_bytes (take 4 out);
            })
            (λ message. lift (ok (command, message)))
  unfolding receive_message_internal xor_header read_signature
  accept_frame command h out sig body rest c t has fits signed is_command ex sig64 len accepted =
      rw
        (
          has,
          read_front out (sig ++ (body ++ rest)) t 4 (ex.same_length ∙ length-packed h),
          ex.shown,
          deserialize_header-packed h ∙ ap ok (truncate_header_lem h fits),
          signed,
          read_front sig (body ++ rest) t 64 sig64,
          read_front body rest t h.cmd_len len,
          ap
                (λ b.
                  check_signature crypto (some sig) c.pool_ed25519_public
                    (packed (record h { is_signed = b }) ++ body))
                (sym signed)
              ∙ accepted,
          is_command,
          from_u8-to_u8 command,
        )
        refl

  pub receive_frame :
      (command : DatumCommand) (h : DatumMessageHeader) (out sig body rest : Bytes) (key : ℕ)
      (r : Client) (t : Stream)
      → FitsHeader h
      → h.is_signed ≡ true
      → h.proto_cmd ≡ to_u8 command
      → IsExchanged (packed h) key out
      → length sig ≡ 64
      → length body ≡ h.cmd_len
      → receive_message_internal crypto (receiver r t key (out ++ (sig ++ (body ++ rest))))
        ≡ then_result
            (decrypt_with crypto r.recv_cipher r.recv_nonce body)
            (read_frame r t (from_le_bytes (take 4 out)) rest)
            (λ message. lift (ok (command, message)))
  unfolding check_signature
  receive_frame command h out sig body rest key r t fits signed is_command ex sig64 len =
      accept_frame command h out sig body rest (receiver r t key (out ++ (sig ++ (body ++ rest)))) t
        refl fits signed is_command ex sig64 len refl
