-- ===== src/Client/Announced.antt =====
-- The length that a message is announced with: `send_message` of src/datum_protocol.rs casts it to
-- `u32`, and the header has 22 bits for it.
use blvm_datum.Common.{
  ℕ, ◌%◌, ◌^◌, ◌<◌, ◌≡◌, sym, ap, ◌∙◌, length, take, drop, ◌++◌, take-append, drop-append,
  length-append, append_assoc, arith,
}
use blvm_datum.Error.{Result, ok, ◌>>=◌}
use blvm_datum.Bytes.{Bytes}
use blvm_datum.Messages.{DatumCommand}
use blvm_datum.Header.{deserialize_header, apply_header_xor}
use blvm_datum.Header.RoundTrip.{packed, packed-IsBytes, length-packed, deserialize_header-packed}
use blvm_datum.Crypto.{Crypto, Signs}
use blvm_datum.Stream.{Stream}
use blvm_datum.Header.Obfuscation.{exchange}
use blvm_datum.Client.{Client, DatumEncryptionKeys}
use blvm_datum.Client.Frame.{sender, sent_frame, send_frame}
use blvm_datum.Client.Transport.{message_header, encrypt_with, send_message}

-- The length that a peer with the header key reads from the front of a frame.
abbrev pub read_length : ℕ → Bytes → Result ℕ
read_length key frame = do
  (header_bytes, next_key) ← apply_header_xor (take 4 frame) key
  header ← deserialize_header header_bytes
  ok header.cmd_len

read_length-packed :
    (command : DatumCommand) (message out rest : Bytes) (key : ℕ) {next : ℕ}
    → length out ≡ 4
    → apply_header_xor out key ≡ ok (packed (message_header command message), next)
    → read_length key (out ++ rest) ≡ ok (length message % 2 ^ 22)
unfolding message_header
read_length-packed command message out rest key four shown =
    rw
      (
        take-append out rest 4 four,
        shown,
        deserialize_header-packed (message_header command message),
      )
      (ap ok (omega arith))

-- A client with a stream whose writes succeed, with signing keys and a header key below 2 ^ 32, sends a
-- message of any length, of which the encryption succeeds; signatures have 64 bytes. The send does not
-- refuse it: one frame goes out, with the header, the signature and the whole encrypted body. The length
-- that a peer with the same header key reads from it is that of the message modulo 2 ^ 22.
pub send_message-announces :
    (crypto : Crypto) (command : DatumCommand) (message body : Bytes) (c : Client) (s : Stream)
    (keys : DatumEncryptionKeys)
    → Signs crypto
    → c.header_xor_key < 2 ^ 32
    → encrypt_with crypto c.send_cipher c.send_nonce message ≡ ok body
    → (f : Bytes) × (send_message crypto command message (sender c s keys)
        ≡ (ok tt, sent_frame c s keys (message_header command message) f))
      × (drop 68 f ≡ body)
      × (read_length c.header_xor_key f ≡ ok (length message % 2 ^ 22))
send_message-announces crypto command message body c s keys signs fits enc =
    let h = message_header command message in
    let (out, ex) =
      exchange c.header_xor_key (packed h) (packed-IsBytes h) (omega (arith, length-packed h))
        fits in
    let sig = crypto.sign keys.ed25519_signing (packed h ++ body) in
    let sig64 = signs.signature_length keys.ed25519_signing (packed h ++ body) in
    (
      out ++ (sig ++ body),
      send_frame crypto command message body out c s keys signs enc ex,
      ap (drop 68) (sym (append_assoc out sig body))
          ∙ drop-append (out ++ sig) body 68
              (length-append out sig ∙ omega (arith, ex.same_length, length-packed h, sig64)),
      read_length-packed command message out (sig ++ body) c.header_xor_key
          (ex.same_length ∙ length-packed h) ex.shown,
    )
