-- ===== src/Client/Received.antt =====
-- What a receive returns is bytes.
use blvm_datum.Common.{◌∙◌, arith, Bool, not, ℕ, Option, none, some, ◌++◌}
use blvm_datum.Error.{Result, ok_or, fail_if}
use blvm_datum.Error.Ensures.{
  Ensures, holds, failed, Ensures-map, map_err-Ensures, ok_or-Ensures, fail_if-Ensures,
}
use blvm_datum.Bytes.{Bytes, IsBytes, to_le_bytes}
use blvm_datum.Crypto.{Crypto, DecryptsBytes}
use blvm_datum.Messages.{DatumCommand, fetch_coinbaser, submit_pow, same_command, from_u8}
use blvm_datum.Header.{deserialize_header}
use blvm_datum.Header.RoundTrip.{deserialize_header-Ensures}
use blvm_datum.Client.{Client, M, ◌>>=◌, ◌>>◌}
use blvm_datum.Client.Interleaving.{IsOnline, Onward, send_message-Onward, receive_message-Onward}
use blvm_datum.Client.Logic.{Meets, returns, fails, Meets-lift, Meets-map, Meets-and, Meets-bind}
use blvm_datum.Client.Transport.{
  fetch_coinbaser_request, submit_pow_request, read_verdict, send_message, decrypt_with,
  check_signature, receive_message, receive_message_internal,
}
use blvm_datum.Client.Receive.{
  ReadsBytes, at, read_one, Meets-read_signature, Meets-require_stream, Meets-xor_header,
}
use blvm_datum.Client.Receive.Steps.{Meets-read_exact, check_signature-Ensures}
use blvm_datum.Client.Requests.{read_verdict-Ensures}
use blvm_datum.Client.Dispatch.{receive_message-internal}

module _ (crypto : Crypto) (decrypts : DecryptsBytes crypto) where
  decrypt_with-IsBytes :
      (cipher : Option Bytes) (nonce : ℕ) (body : Bytes)
      → IsBytes body
      → Ensures IsBytes (decrypt_with crypto cipher nonce body)
  unfolding decrypt_with
  decrypt_with-IsBytes none nonce body h = holds h
  decrypt_with-IsBytes (some key) nonce body h =
      Ensures-map (map_err-Ensures _ _) λ plain e. decrypts key _ body plain h e

  -- A message is bytes.
  receive_message_internal-IsBytes :
      (c : Client)
      → ReadsBytes c.stream
      → Meets
          (λ r d. IsBytes r.1)
          (λ d. Unit {0})
          (receive_message_internal crypto c).0
          (receive_message_internal crypto c).1
  unfolding receive_message_internal
  receive_message_internal-IsBytes c h = Meets-require_stream _ c h tt λ s hs _ _.
      Meets-read_exact 4 _ (at c (some s) c.header_xor_key) hs tt (λ _ _ _. tt)
        λ header s2 hb hs2 _ _.
          Meets-xor_header header c.header_xor_key _ (at c (some s2) c.header_xor_key) hb tt
            λ plain key hp _.
              Meets-lift (deserialize_header plain) _ (at c (some s2) key)
                (deserialize_header-Ensures plain hp) tt
                λ hd _.
                  Meets-read_signature hd.is_signed _ (at c (some s2) key) hs2 tt (λ _ _ _. tt)
                    λ sig o ho _ _.
                      Meets-read_exact hd.cmd_len _ (at c o key) ho tt (λ _ _ _. tt)
                        λ body s3 hbody _ _ _.
                          Meets-lift
                            (check_signature crypto sig c.pool_ed25519_public (plain ++ body)) _
                            (at c (some s3) key) (check_signature-Ensures crypto sig _ _) tt
                            λ _ _.
                              Meets-lift (decrypt_with crypto c.recv_cipher c.recv_nonce body) _
                                (read_one (at c (some s3) key))
                                (decrypt_with-IsBytes c.recv_cipher c.recv_nonce body hbody) tt
                                λ message are_bytes.
                                  Meets-lift (ok_or (from_u8 hd.proto_cmd) _) _
                                    (read_one (at c (some s3) key)) (ok_or-Ensures _ _) tt
                                    λ _ _. returns are_bytes

  pub receive_message-IsBytes :
      (c : Client)
      → ReadsBytes c.stream
      → Meets
          (λ r d. IsBytes r.1)
          (λ d. Unit {0})
          (receive_message crypto c).0
          (receive_message crypto c).1
  receive_message-IsBytes c h =
      rw (receive_message-internal crypto c h) (receive_message_internal-IsBytes c h)

  -- A receive after a send.
  further : (c d f : Client) → Onward c 1 d → Onward d 0 f → Onward c 1 f
  further c d f (_, same, nonce, less) (online, same', nonce', less') =
      (online, same' ∙ same, omega (arith, nonce, nonce'), omega (arith, less, less'))

  -- A request of an online client, of which the rest is fine on an answer of bytes.
  Meets-answered :
      {A : Type 0} {P : A → Type 0} (command : DatumCommand) (message : Bytes)
      (k : DatumCommand × Bytes → M A) (c : Client)
      → IsOnline c
      → ((r : DatumCommand × Bytes) (f : Client)
          → IsBytes r.1
          → Onward c 1 f
          → Meets (λ a d. P a × Onward c 1 d) (Onward c 1) (k r f).0 (k r f).1)
      → Meets
          (λ a d. P a × Onward c 1 d)
          (Onward c 1)
          ((send_message crypto command message >> (receive_message crypto >>= k)) c).0
          ((send_message crypto command message >> (receive_message crypto >>= k)) c).1
  Meets-answered command message k c online rest =
      Meets-bind {P' = λ _ d. Onward c 1 d} (send_message crypto command message) _
        (send_message-Onward crypto command message c online)
        λ _ d here.
          Meets-bind {P' = λ r f. IsBytes r.1 × Onward c 1 f} (receive_message crypto) k
            (Meets-map
              (Meets-and (receive_message-IsBytes d here.0.readable)
                (receive_message-Onward crypto d here.0))
              (λ r f h. (h.0, further c d f here h.1)) (λ f h. further c d f here h.1))
            λ r f h. rest r f h.0 h.1

  pub fetch_coinbaser_request-IsBytes :
      (value : ℕ) (c : Client)
      → IsOnline c
      → Meets
          (λ message d. IsBytes message × Onward c 1 d)
          (Onward c 1)
          (fetch_coinbaser_request crypto value c).0
          (fetch_coinbaser_request crypto value c).1
  unfolding fetch_coinbaser_request
  fetch_coinbaser_request-IsBytes value c online =
      Meets-answered fetch_coinbaser (to_le_bytes 8 value) _ c online
        λ (command, message) f are_bytes on.
          Meets-lift (fail_if (not (same_command command fetch_coinbaser)) _) _ f
            (fail_if-Ensures _ _) on λ _ _. returns (are_bytes, on)

  pub submit_pow_request-IsOnline :
      (pow_data : Bytes) (c : Client)
      → IsOnline c
      → Meets
          (λ _ d. Unit {0} × Onward c 1 d)
          (Onward c 1)
          (submit_pow_request crypto pow_data c).0
          (submit_pow_request crypto pow_data c).1
  unfolding submit_pow_request
  submit_pow_request-IsOnline pow_data c online =
      Meets-answered submit_pow pow_data _ c online λ (command, message) f are_bytes on.
        Meets-lift (fail_if (not (same_command command submit_pow)) _) _ f (fail_if-Ensures _ _) on
          λ _ _. answer (read_verdict message) f (read_verdict-Ensures message) on
    where
      answer :
          (r : Result Bool) (f : Client)
          → Ensures (λ b. Unit {0}) r
          → Onward c 1 f
          → Meets (λ _ d. Unit {0} × Onward c 1 d) (Onward c 1) r f
      answer _ f (holds h) on = returns (tt, on)
      answer _ f failed on = fails on
