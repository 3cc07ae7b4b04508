-- ===== src/Client/Answer.antt =====
-- A request that the pool answers.
use blvm_datum.Common.{
  ℕ, ◌+◌, ◌^◌, ◌<◌, ◌≡◌, refl, ap, ◌∙◌, true, Option, some, [], ◌++◌, length, take, arith,
}
use blvm_datum.Error.{err, io_error, ok}
use blvm_datum.Bytes.{Bytes, IsBytes, u64, to_le_bytes, from_le_bytes}
use blvm_datum.Crypto.{Crypto, Signs}
use blvm_datum.Stream.{Stream, read_exact}
use blvm_datum.Messages.{
  DatumCommand, DatumMessageHeader, to_u8, fetch_coinbaser, submit_pow, same_command,
}
use blvm_datum.Header.RoundTrip.{packed, packed-IsBytes, length-packed, FitsHeader}
use blvm_datum.Header.Obfuscation.{exchange, IsExchanged}
use blvm_datum.Client.{Client, DatumEncryptionKeys, M, ◌>>=◌, ◌>>◌, then_result, lift}
use blvm_datum.Client.Transport.{
  message_header, encrypt_with, decrypt_with, check_signature, send_message, receive_message,
  receive_message_internal, read_verdict, fetch_coinbaser_request, submit_pow_request,
}
use blvm_datum.Client.Receive.{ReadsBytes}
use blvm_datum.Client.Dispatch.{receive_message-internal}
use blvm_datum.Client.Send.{header_number}
use blvm_datum.Client.Frame.{sender, sent_frame, send_frame, accept_frame}

-- A frame that a client accepts: its header is hidden with the client's key, its signature is
-- accepted under the pool's key, and its body decrypts to the message with the client's nonce.
pub record IsFrame (crypto : Crypto) (cipher pool_key : Option Bytes) (key nonce : ℕ)
    (command : DatumCommand) (message out sig body : Bytes) : Type 0 where
  pub header : DatumMessageHeader
  pub fits : FitsHeader header
  pub signed : header.is_signed ≡ true
  pub is_command : header.proto_cmd ≡ to_u8 command
  pub hidden : IsExchanged (packed header) key out
  pub sig_length : length sig ≡ 64
  pub body_length : length body ≡ header.cmd_len
  pub accepted : check_signature crypto (some sig) pool_key (packed header ++ body) ≡ ok tt
  pub opens : decrypt_with crypto cipher nonce body ≡ ok message

abbrev pub IsFrameFor : Crypto → Client → DatumCommand → Bytes → Bytes → Bytes → Bytes → Type 0
IsFrameFor crypto c =
    IsFrame crypto c.recv_cipher c.pool_ed25519_public c.header_xor_key c.recv_nonce

-- The client behind a frame, with what is left to be read.
abbrev pub after_frame : Client → Stream → Bytes → Bytes → Client
after_frame c t out rest = record c {
  stream = some (record t { incoming = rest });
  recv_nonce = u64 (c.recv_nonce + 1);
  header_xor_key = from_le_bytes (take 4 out);
}

pub nothing_to_read :
    (crypto : Crypto) (c : Client) (t : Stream)
    → c.stream ≡ some (record t { incoming = [] })
    → receive_message crypto c
      ≡ (err (io_error t.read_end), record c { stream = some (record t { incoming = [] }) })
unfolding receive_message receive_message_internal read_exact
nothing_to_read crypto c t has = rw has refl

module _ (crypto : Crypto) where
  pub receive_message-IsFrame :
      (c : Client) (t : Stream) (command : DatumCommand) (message out sig body rest : Bytes)
      → c.stream ≡ some (record t { incoming = out ++ (sig ++ (body ++ rest)) })
      → ReadsBytes c.stream
      → IsFrameFor crypto c command message out sig body
      → receive_message crypto c ≡ (ok (command, message), after_frame c t out rest)
  receive_message-IsFrame c t command message out sig body rest has reads f =
      receive_message-internal crypto c reads
      ∙ accept_frame crypto command f.header out sig body rest c t has f.fits f.signed f.is_command
          f.hidden f.sig_length f.body_length f.accepted
      ∙ ap (λ r. then_result r (after_frame c t out rest) (λ m. lift (ok (command, m)))) f.opens

  -- A request goes out, and the client waits for its answer.
  pub sent_request :
      (command : DatumCommand) (question encrypted : Bytes) (c : Client) (s : Stream)
      (keys : DatumEncryptionKeys)
      → Signs crypto
      → c.header_xor_key < 2 ^ 32
      → encrypt_with crypto c.send_cipher c.send_nonce question ≡ ok encrypted
      → (f : Bytes) × (send_message crypto command question (sender c s keys)
          ≡ (ok tt, sent_frame c s keys (message_header command question) f))
  sent_request command question encrypted c s keys signs fits enc =
      let h = message_header command question in
      let (hidden, ex) =
        exchange c.header_xor_key (packed h) (packed-IsBytes h) (omega (arith, length-packed h))
          fits in
      (
        hidden ++ (crypto.sign keys.ed25519_signing (packed h ++ encrypted) ++ encrypted),
        send_frame crypto command question encrypted hidden c s keys signs enc ex,
      )

  request_answered :
      {A : Type 0} (command : DatumCommand) (question message encrypted : Bytes)
      (out sig body rest : Bytes) (c : Client) (s : Stream) (keys : DatumEncryptionKeys)
      (k : DatumCommand × Bytes → M A)
      → Signs crypto
      → c.header_xor_key < 2 ^ 32
      → encrypt_with crypto c.send_cipher c.send_nonce question ≡ ok encrypted
      → s.incoming ≡ out ++ (sig ++ (body ++ rest))
      → IsBytes s.incoming
      → IsFrame crypto c.recv_cipher c.pool_ed25519_public
          (header_number (message_header command question))
          c.recv_nonce
          command
          message
          out
          sig
          body
      → (d : Client) × ((send_message crypto command question >> (receive_message crypto >>= k))
            (sender c s keys)
          ≡ k (command, message) d)
  request_answered command question message encrypted out sig body rest c s keys k signs fits enc
        has reads f =
      let (sent, e) = sent_request command question encrypted c s keys signs fits enc in
      let t = record s { writes = []; sent = s.sent ++ sent } in
      let d = sent_frame c s keys (message_header command question) sent in
      (
        after_frame d t out rest,
        rw
            (
              e,
              receive_message-IsFrame d t command message out sig body rest
                  (ap (λ b. some (record t { incoming = b })) has) reads f,
            )
            refl,
      )

  -- A fetch whose sends succeed and whose answer comes next returns what the answer decrypts to.
  pub fetch_coinbaser_request-IsFrame :
      (value : ℕ) (message encrypted out sig body rest : Bytes) (c : Client) (s : Stream)
      (keys : DatumEncryptionKeys)
      → Signs crypto
      → c.header_xor_key < 2 ^ 32
      → encrypt_with crypto c.send_cipher c.send_nonce (to_le_bytes 8 value) ≡ ok encrypted
      → s.incoming ≡ out ++ (sig ++ (body ++ rest))
      → IsBytes s.incoming
      → IsFrame crypto c.recv_cipher c.pool_ed25519_public
          (header_number (message_header fetch_coinbaser (to_le_bytes 8 value)))
          c.recv_nonce
          fetch_coinbaser
          message
          out
          sig
          body
      → (d : Client) × (fetch_coinbaser_request crypto value (sender c s keys) ≡ (ok message, d))
  unfolding fetch_coinbaser_request same_command to_u8
  fetch_coinbaser_request-IsFrame value message encrypted out sig body rest c s keys signs fits enc
        has reads f =
      request_answered fetch_coinbaser (to_le_bytes 8 value) message encrypted out sig body rest c s
        keys _ signs fits enc has reads f

  -- The same for a submission, which returns the verdict of the answer.
  pub submit_pow_request-IsFrame :
      (pow_data message encrypted out sig body rest : Bytes) (c : Client) (s : Stream)
      (keys : DatumEncryptionKeys)
      → Signs crypto
      → c.header_xor_key < 2 ^ 32
      → encrypt_with crypto c.send_cipher c.send_nonce pow_data ≡ ok encrypted
      → s.incoming ≡ out ++ (sig ++ (body ++ rest))
      → IsBytes s.incoming
      → IsFrame crypto c.recv_cipher c.pool_ed25519_public
          (header_number (message_header submit_pow pow_data))
          c.recv_nonce
          submit_pow
          message
          out
          sig
          body
      → (d : Client) × (submit_pow_request crypto pow_data (sender c s keys)
          ≡ (read_verdict message, d))
  unfolding submit_pow_request same_command to_u8
  submit_pow_request-IsFrame pow_data message encrypted out sig body rest c s keys signs fits enc
        has reads f =
      request_answered submit_pow pow_data message encrypted out sig body rest c s keys _ signs fits
        enc has reads f
