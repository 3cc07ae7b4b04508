-- ===== src/Client/Overtaking.antt =====
-- A request whose answer another task receives.
use blvm_datum.Common.{◌^◌, ◌<◌, ◌≡◌, refl, ap, ◌∙◌, some, [], ◌++◌}
use blvm_datum.Error.{ok, err, io_error}
use blvm_datum.Bytes.{Bytes, IsBytes}
use blvm_datum.Crypto.{Crypto, Signs}
use blvm_datum.Stream.{Stream}
use blvm_datum.Messages.{DatumCommand}
use blvm_datum.Client.{Client, DatumEncryptionKeys}
use blvm_datum.Client.Transport.{message_header, encrypt_with, send_message, receive_message}
use blvm_datum.Client.Send.{header_number}
use blvm_datum.Client.Frame.{sender, sent_frame}
use blvm_datum.Client.Answer.{
  IsFrame, after_frame, receive_message-IsFrame, nothing_to_read, sent_request,
}

-- The client when the request has gone out, and when a task has received a message since.
abbrev pub requested :
    Crypto → DatumCommand → Bytes → Client → Stream → DatumEncryptionKeys → Client
requested crypto command question c s keys =
    (send_message crypto command question (sender c s keys)).1

abbrev pub overtaken :
    Crypto → DatumCommand → Bytes → Client → Stream → DatumEncryptionKeys → Client
overtaken crypto command question c s keys =
    (receive_message crypto (requested crypto command question c s keys)).1

module _ (crypto : Crypto) where
  -- Let a client have a stream whose writes succeed, signing keys and a header key below 2 ^ 32, let a
  -- question encrypt and signatures have 64 bytes, and let all that is to be read be one frame that
  -- the client accepts as the answer. The question goes out, and the first task that receives gets
  -- the answer. If that task is not the one that asked, but the receive loop, then the receive of
  -- the request itself fails as the stream ends, although its answer came.
  pub receive_message-overtaken :
      (command : DatumCommand) (question message encrypted out sig body : Bytes) (c : Client)
      (s : Stream) (keys : DatumEncryptionKeys)
      → Signs crypto
      → c.header_xor_key < 2 ^ 32
      → encrypt_with crypto c.send_cipher c.send_nonce question ≡ ok encrypted
      → s.incoming ≡ out ++ (sig ++ (body ++ []))
      → IsBytes s.incoming
      → IsFrame crypto c.recv_cipher c.pool_ed25519_public
          (header_number (message_header command question))
          c.recv_nonce
          command
          message
          out
          sig
          body
      → ((send_message crypto command question (sender c s keys)).0 ≡ ok tt)
        × ((receive_message crypto (requested crypto command question c s keys)).0
            ≡ ok (command, message))
        × ((receive_message crypto (overtaken crypto command question c s keys)).0
            ≡ err (io_error s.read_end))
  receive_message-overtaken command question message encrypted out sig body c s keys signs fits enc
        has reads f =
      let (sent, e) = sent_request crypto command question encrypted c s keys signs fits enc in
      let t = record s { writes = []; sent = s.sent ++ sent } in
      let d = sent_frame c s keys (message_header command question) sent in
      let heard =
        receive_message-IsFrame crypto d t command message out sig body []
          (ap (λ b. some (record t { incoming = b })) has) reads f in
      let ended = nothing_to_read crypto (after_frame d t out []) t refl in
      let at_d = ap (λ r. r.1) e in
      let at_end = ap (λ x. (receive_message crypto x).1) at_d ∙ ap (λ r. r.1) heard in
      (
        ap (λ r. r.0) e,
        ap (λ x. (receive_message crypto x).0) at_d ∙ ap (λ r. r.0) heard,
        ap (λ x. (receive_message crypto x).0) at_end ∙ ap (λ r. r.0) ended,
      )
