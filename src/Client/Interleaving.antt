-- ===== src/Client/Interleaving.antt =====
-- Sends and receives of several tasks on one client. Each of the two calls holds the stream's lock from
-- its start to its end, so that tasks interleave by whole calls: a request is a send and, later, a
-- receive, and the receive loop is receives.
use blvm_datum.Common.{
  ℕ, suc, ◌+◌, ◌/◌, ◌^◌, ◌≤◌, ◌<◌, ◌≡◌, ◌≢◌, ◌⊎◌, inl, inr, refl, sym, subst, subst₂, ap, ◌∙◌, true,
  Option, none, some, length, arith,
}
use blvm_datum.Error.{Result, panic}
use blvm_datum.Bytes.{Bytes, IsBytes, u64}
use blvm_datum.Crypto.{Crypto}
use blvm_datum.Stream.{Stream}
use blvm_datum.Messages.{DatumCommand}
use blvm_datum.Client.{Client}
use blvm_datum.Client.Logic.{Meets, returns, fails, Meets-ne-panic, Meets-map}
use blvm_datum.Client.Transport.{send_message, receive_message, message_header}
use blvm_datum.Client.Receive.{
  ReadsBytes, unread, is_open, session_of, receive_message_internal-Meets,
}
use blvm_datum.Client.Dispatch.{receive_message-internal}
use blvm_datum.Client.Send.{SendOutcome, Sent, send_message_lem, header_number-lt}
use blvm_datum.Client.Requests.{lasting}

-- A client with a session: connected, with an open stream of bytes, and integers in their widths.
pub record IsOnline (c : Client) : Type 0 where
  pub on : c.connected ≡ true
  pub stream_open : is_open c.stream ≡ true
  pub readable : ReadsBytes c.stream
  pub key_fits : c.header_xor_key < 2 ^ 32
  pub send_nonce_fits : c.send_nonce < 2 ^ 64
  pub recv_nonce_fits : c.recv_nonce < 2 ^ 64

-- A run of calls, of any tasks, with the number of the sends among them. A call may fail.
pub data Run (crypto : Crypto) (c : Client) : ℕ → Client → Type 0 where
  no_call : Run crypto c 0 c
  sends :
      {k : ℕ} {d : Client} (command : DatumCommand) (message : Bytes)
      → Run crypto c k d
      → Run crypto c (suc k) (send_message crypto command message d).1
  receives : {k : ℕ} {d : Client} → Run crypto c k d → Run crypto c k (receive_message crypto d).1

-- What a call keeps: the session, and what it cannot give back.
abbrev pub Onward : Client → ℕ → Client → Type 0
Onward c k d =
    IsOnline d
    × (lasting d ≡ lasting c)
    × (d.send_nonce ≡ u64 (c.send_nonce + k))
    × (unread d.stream ≤ unread c.stream)

stream_of : (o : Option Stream) → is_open o ≡ true → (s : Stream) × (o ≡ some s)
stream_of none e = absurd (cc)
stream_of (some s) e = (s, refl)

Sent-Onward :
    (command : DatumCommand) (message : Bytes) (c d : Client) (s : Stream)
    → IsOnline c
    → c.stream ≡ some s
    → Sent command message c s d
    → Onward c 1 d
Sent-Onward command message c d s online has (t, i, e) = rw e (
  record {
    on = online.on;
    stream_open = refl;
    readable =
        subst IsBytes {x = s.incoming} {y = t.incoming} (sym i)
          (subst ReadsBytes has online.readable);
    key_fits = header_number-lt (message_header command message);
    send_nonce_fits = omega arith;
    recv_nonce_fits = online.recv_nonce_fits;
  },
  refl,
  refl,
  omega (arith, ap length i, ap unread has),
)

received-Onward :
    (c d : Client)
    → IsOnline c
    → session_of d ≡ session_of c
    → d.recv_nonce < 2 ^ 64
    → ReadsBytes d.stream
    → unread d.stream ≤ unread c.stream
    → d.header_xor_key / 2 ^ 32 ≡ c.header_xor_key / 2 ^ 32
    → is_open d.stream ≡ is_open c.stream
    → Onward c 0 d
received-Onward c d online same fits reads less high kept_open = (
  record {
    on = ap (λ (x : Client). x.connected) same ∙ online.on;
    stream_open = kept_open ∙ online.stream_open;
    readable = reads;
    key_fits = omega (arith, high, online.key_fits);
    send_nonce_fits = omega (arith, online.send_nonce_fits, nonce);
    recv_nonce_fits = fits;
  },
  ap lasting same,
  omega (arith, online.send_nonce_fits, nonce),
  less,
)
  where
    nonce : d.send_nonce ≡ c.send_nonce
    nonce = ap (λ (x : Client). x.send_nonce) same

module _ (crypto : Crypto) where
  pub send_message-Onward :
      (command : DatumCommand) (message : Bytes) (c : Client)
      → IsOnline c
      → Meets
          (λ _ d. Onward c 1 d)
          (λ d. Onward c 1 d)
          (send_message crypto command message c).0
          (send_message crypto command message c).1
  send_message-Onward command message c online =
      let (s, has) = stream_of c.stream online.stream_open in
      Meets-map
        (subst₂ (λ b o. SendOutcome command message c b o (send_message crypto command message c))
          online.on has (send_message_lem crypto command message c online.key_fits))
        (λ _ d h. Sent-Onward command message c d s online has h)
        (λ d h. Sent-Onward command message c d s online has h)

  pub receive_message-Onward :
      (c : Client)
      → IsOnline c
      → Meets
          (λ _ d. Onward c 0 d)
          (λ d. Onward c 0 d)
          (receive_message crypto c).0
          (receive_message crypto c).1
  receive_message-Onward c online = rw (receive_message-internal crypto c online.readable) (
      Meets-map (receive_message_internal-Meets crypto c online.readable)
        (λ _ d (_, same, step, reads, less, high, kept_open).
          received-Onward c d online same (omega (arith, step)) reads (omega (arith, less)) high
            kept_open)
        (λ d (same, step, reads, less, high, kept_open).
          received-Onward c d online same (in_width c d online step) reads less high kept_open))
    where
      in_width :
          (c d : Client)
          → IsOnline c
          → (d.recv_nonce ≡ c.recv_nonce) ⊎ (d.recv_nonce ≡ u64 (c.recv_nonce + 1))
          → d.recv_nonce < 2 ^ 64
      in_width c d online (inl e) = omega (arith, e, online.recv_nonce_fits)
      in_width c d online (inr e) = omega (arith, e)

  after :
      {A : Type 0} (j k n : ℕ) (b c : Client) {r : Result A} {d : Client}
      → Onward b k c
      → Meets (λ _ d. Onward c j d) (λ d. Onward c j d) r d
      → j + k ≡ n
      → Onward b n d
  after j k n b c (_, same, nonce, less) (returns (online, same', nonce', less')) e =
      (online, same' ∙ same, omega (arith, nonce, nonce'), omega (arith, less, less'))
  after j k n b c (_, same, nonce, less) (fails (online, same', nonce', less')) e =
      (online, same' ∙ same, omega (arith, nonce, nonce'), omega (arith, less, less'))

  pub Run-Onward : {c : Client} {k : ℕ} {d : Client} → IsOnline c → Run crypto c k d → Onward c k d
  Run-Onward online no_call = (online, refl, omega (arith, online.send_nonce_fits), omega arith)
  Run-Onward {c} online (sends {k} {d} command message run) =
      after 1 k (suc k) c d (Run-Onward online run)
        (send_message-Onward command message d (Run-Onward online run).0) (omega arith)
  Run-Onward {c} online (receives {k} {d} run) =
      after 0 k k c d (Run-Onward online run) (receive_message-Onward d (Run-Onward online run).0)
        (omega arith)

  -- From a client with a session on, in every state that whole calls of any tasks can reach in any
  -- order, failing ones among them: the client still has a session, with the same keys and ciphers and
  -- all its integers in their widths; the write counter has taken one step for each send; no more is
  -- left to be read than before; and neither a send nor a receive panics.
  pub Run-ne-panic :
      {c : Client} {k : ℕ} {d : Client} (command : DatumCommand) (message : Bytes)
      → IsOnline c
      → Run crypto c k d
      → Onward c k d
        × ((send_message crypto command message d).0 ≢ panic)
        × ((receive_message crypto d).0 ≢ panic)
  Run-ne-panic {d = d} command message online run =
      let onward = Run-Onward online run in
      (
        onward,
        Meets-ne-panic (send_message-Onward command message d onward.0),
        Meets-ne-panic (receive_message-Onward d onward.0),
      )
