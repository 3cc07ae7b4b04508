-- ===== src/Client/Connect.antt =====
-- What `connect` leaves behind, whatever the pool sends.
use blvm_datum.Common.{
  ℕ, ◌≤◌, ◌≡◌, ◌⊎◌, refl, sym, subst, ap, ◌∙◌, true, Option, none, some, length, take, drop, arith,
  inl,
}
use blvm_datum.Error.{ok, text, Text, map_err}
use blvm_datum.Error.Ensures.{Ensures, holds, map_err-Ensures}
use blvm_datum.Bytes.{Bytes, IsBytes, slice}
use blvm_datum.Bytes.Slices.{slice-le}
use blvm_datum.Crypto.{Crypto}
use blvm_datum.Stream.{Stream}
use blvm_datum.Messages.{DatumCommand}
use blvm_datum.Client.{
  derive_key, initialize_session_nonce, Client, DatumEncryptionKeys, generate_keys,
}
use blvm_datum.Client.Logic.{Meets, returns, Meets-map, Meets-bind, Meets-lift, Meets-called}
use blvm_datum.Client.Transport.{receive_message_internal}
use blvm_datum.Client.Receive.{ReadsBytes, is_open, receive_message_internal-Meets}
use blvm_datum.Client.Handshake.{
  Entropy, pool_address, send_hello, check_response, read_pool_key, read_motd, start_session,
  read_hello_response, perform_handshake, connect,
}
use blvm_datum.Client.Session.{
  IsEcho, check_response-Ensures, read_pool_key-Ensures, read_motd-Ensures,
}
use blvm_datum.Client.Hello.{HelloSent, send_hello-Meets}

x25519_of-Ensures :
    (response : Bytes)
    → 192 ≤ length response
    → Ensures (λ px. px ≡ take 32 (drop 160 response)) (slice response 160 192)
x25519_of-Ensures response long = rw (slice-le response 160 192 (omega arith) long) (holds refl)

-- What a failing `connect` leaves as it was.
abbrev pub rest_of : Client → Client
rest_of c = record c {
  stream = none;
  local_keys = none;
  recv_nonce = 0;
  header_xor_key = 0;
  pool_ed25519_public = none;
}

-- The secret that the two ends share, from the pool's session key in the response.
abbrev pub shared_secret : Crypto → DatumEncryptionKeys → Bytes → Bytes
shared_secret crypto session response =
    crypto.diffie_hellman session.x25519_secret (take 32 (drop 160 response))

-- The client with a session, from a response and the pool's key in it: the ciphers' keys are derived
-- from the shared secret under two labels, and both counters start from the header key.
abbrev pub opened :
    Crypto → Entropy → DatumEncryptionKeys → Bytes → Bytes → Client → Option Stream → ℕ → Client
opened crypto e session response key c o header_key = record c {
  stream = o;
  header_xor_key = header_key;
  pool_ed25519_public = some key;
  send_cipher = some (derive_key crypto (shared_secret crypto session response) (text "send"));
  recv_cipher = some (derive_key crypto (shared_secret crypto session response) (text "recv"));
  remote_keys = some (record {
    ed25519_signing = e.dummy_signing;
    x25519_secret = e.dummy_secret;
    x25519_public = take 32 (drop 160 response);
  });
  send_nonce = initialize_session_nonce crypto e.header_key;
  recv_nonce = initialize_session_nonce crypto e.header_key;
}

-- From the client `asking`, which has sent its hello, a response is received that repeats the keys, and
-- it opens the session; the stream is the one that the response leaves.
pub record Answers (crypto : Crypto) (e : Entropy) (local session : DatumEncryptionKeys)
    (asking d : Client) : Type 0 where
  pub answered : Client
  pub command : DatumCommand
  pub response : Bytes
  pub key : Bytes
  pub received : receive_message_internal crypto asking ≡ (ok (command, response), answered)
  pub still_open : is_open answered.stream ≡ is_open asking.stream
  pub readable : ReadsBytes answered.stream
  pub echo : IsEcho crypto local session response
  pub is_key : crypto.read_verifying_key (take 32 (drop 128 response)) ≡ inl key
  pub state :
      d ≡ opened crypto e session response key asking answered.stream answered.header_xor_key

-- The session of `c` was opened: the hello went out, and was answered.
pub record Opens (crypto : Crypto) (e : Entropy) (local session : DatumEncryptionKeys)
    (c d : Client) : Type 0 where
  pub asking : Client
  pub hello_sent : HelloSent c asking
  pub answers : Answers crypto e local session asking d
  pub state :
      d
      ≡ opened crypto e session answers.response answers.key c answers.answered.stream
          answers.answered.header_xor_key

module _ (crypto : Crypto) (e : Entropy) (local session : DatumEncryptionKeys) (c : Client) where
  read_hello_response-Meets :
      ReadsBytes c.stream
      → Meets
          (λ _ d. Answers crypto e local session c d)
          (λ d. rest_of d ≡ rest_of c)
          (read_hello_response crypto e local session c).0
          (read_hello_response crypto e local session c).1
  unfolding read_hello_response start_session
  read_hello_response-Meets h =
      Meets-bind (receive_message_internal crypto) _
        (Meets-called (
          Meets-map (receive_message_internal-Meets crypto c h) (λ _ _ p. p)
            (λ d k. ap rest_of (k.0))))
        λ (command, response) d (p, received).
          Meets-lift (check_response crypto local session command response) _ d
            (check_response-Ensures crypto local session command response) (ap rest_of p.1)
            λ _ echo.
              Meets-lift (read_pool_key crypto response) _ d
                (read_pool_key-Ensures crypto response echo.is_long) (ap rest_of p.1)
                λ key is_key.
                  Meets-lift (slice response 160 192) _
                    (record d { pool_ed25519_public = some key })
                    (x25519_of-Ensures response echo.is_long) (ap rest_of p.1)
                    λ px epx.
                      Meets-lift (read_motd response) _
                        (record d { pool_ed25519_public = some key })
                        (read_motd-Ensures response echo.is_long) (ap rest_of p.1)
                        λ _ _. returns (record {
                          answered = d;
                          command = command;
                          response = response;
                          key = key;
                          received = received;
                          still_open = p.6;
                          readable = p.3;
                          echo = echo;
                          is_key = is_key;
                          state =
                              ap
                                (λ x. record (start_session crypto e session px x) {
                                  stream = d.stream;
                                  header_xor_key = d.header_xor_key;
                                  pool_ed25519_public = some key;
                                })
                                p.1
                              ∙ ap
                                  (λ x. record (start_session crypto e session x c) {
                                    stream = d.stream;
                                    header_xor_key = d.header_xor_key;
                                    pool_ed25519_public = some key;
                                  })
                                  epx;
                        })

module _ (crypto : Crypto) (dial : Text → Stream ⊎ Text) (e : Entropy) where
  abbrev local_of : DatumEncryptionKeys
  local_of = generate_keys crypto e.local_signing e.local_secret

  abbrev session_keys : DatumEncryptionKeys
  session_keys = generate_keys crypto e.session_signing e.session_secret

  -- A dialled client, before the handshake.
  abbrev dialled : Client → Stream → Client
  dialled c s = record c { stream = some s; local_keys = some local_of }

  Opens-from :
      (c asking d : Client)
      → HelloSent c asking
      → Answers crypto e local_of session_keys asking d
      → Opens crypto e local_of session_keys c d
  Opens-from c asking d sent a = record {
    asking = asking;
    hello_sent = sent;
    answers = a;
    state =
        a.state
        ∙ ap
            (λ x.
              opened crypto e session_keys a.response a.key x a.answered.stream
                a.answered.header_xor_key)
            sent.0;
  }

  perform_handshake-Meets :
      (c : Client) (s : Stream)
      → IsBytes s.incoming
      → Meets
          (λ _ d. Opens crypto e local_of session_keys (dialled c s) d)
          (λ d. rest_of d ≡ rest_of c)
          (perform_handshake crypto e (dialled c s)).0
          (perform_handshake crypto e (dialled c s)).1
  unfolding perform_handshake
  perform_handshake-Meets c s h =
      Meets-bind (send_hello crypto e local_of session_keys) _
        (Meets-map (send_hello-Meets crypto e local_of session_keys (dialled c s)) (λ _ _ p. p)
          (λ d k. ap rest_of k))
        λ _ d sent.
          Meets-map
            (read_hello_response-Meets crypto e local_of session_keys d
              (subst ReadsBytes (sym sent.2) (subst IsBytes (sym sent.3) h)))
            (λ _ f a. Opens-from (dialled c s) d f sent a) (λ f k. k ∙ ap rest_of sent.0)

  pub connect-Meets :
      (c : Client)
      → ((address : Text) (s : Stream) → dial address ≡ inl s → IsBytes s.incoming)
      → Meets
          (λ _ d.
            (s : Stream) × (dial (pool_address c.pool_url) ≡ inl s)
            × (f : Client) × Opens crypto e local_of session_keys (dialled c s) f
            × (d ≡ record f { connected = true }))
          (λ d. rest_of d ≡ rest_of c)
          (connect crypto dial e c).0
          (connect crypto dial e c).1
  unfolding connect
  connect-Meets c readable =
      Meets-lift (map_err (dial (pool_address c.pool_url)) _) _ c (map_err-Ensures _ _) refl
        λ s dialled_s.
          Meets-bind (perform_handshake crypto e) _
            (perform_handshake-Meets c s (readable _ s dialled_s))
            λ _ f o. returns (s, dialled_s, f, o, refl)
