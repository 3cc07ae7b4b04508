-- ===== src/Client/Send.antt =====
-- What sending a message does to the client, on every branch.
use blvm_datum.Common.{
  ◌∙◌, ℕ, ◌+◌, ◌^◌, ◌<◌, ◌≡◌, refl, sym, subst, ap, ap₂, Bool, true, false, Option, none, some,
  List, [], ◌∷◌, ◌++◌, length, arith, ◌==◌, Bool-cases, inl, inr,
}
use blvm_datum.Error.{Result, err, DatumError, pool_connection_error, text}
use blvm_datum.Error.Ensures.{Ensures, holds, Ensures-any, map_err-Ensures}
use blvm_datum.Bytes.{Bytes, u64, from_le_bytes}
use blvm_datum.Bytes.Endian.{from_le_bytes-lt}
use blvm_datum.Crypto.{Crypto}
use blvm_datum.Stream.{Stream, WriteResult, written, broken, write_all, write_next}
use blvm_datum.Messages.{DatumCommand, DatumMessageHeader}
use blvm_datum.Header.RoundTrip.{
  packed, serialize_header-packed, packed-IsBytes, length-packed, take-packed,
}
use blvm_datum.Header.Obfuscation.{exchange}
use blvm_datum.Client.{on_stream, M, ◌>>=◌, then_result, Client, xor_header, no_stream}
use blvm_datum.Client.Transport.{encrypt_with, sign_with, send_message, message_header}
use blvm_datum.Client.Logic.{Meets, returns, fails, Meets-lift, StreamMeets, stream_ok, stream_err}

-- The number that a header's four bytes stand for.
unfoldable pub header_number : DatumMessageHeader → ℕ
header_number h = from_le_bytes (packed h)

pub header_number-lt : (h : DatumMessageHeader) → header_number h < 2 ^ 32
unfolding header_number
header_number-lt h = omega (
  arith,
  from_le_bytes-lt (packed h) (packed-IsBytes h),
  ap (λ (t : ℕ). 256 ^ t) (length-packed h),
)

write_all-Meets :
    (bytes : Bytes) (s : Stream)
    → StreamMeets
        (λ b t. t.incoming ≡ s.incoming)
        (λ t. t.incoming ≡ s.incoming)
        (write_all bytes s).0
        (write_all bytes s).1
unfolding write_all
write_all-Meets bytes s = go s.writes
  where
    go :
        (w : List WriteResult)
        → StreamMeets
            (λ (b : Unit {0}) t. t.incoming ≡ s.incoming)
            (λ t. t.incoming ≡ s.incoming)
            (write_next w bytes s).0
            (write_next w bytes s).1
    go [] = unfold write_next in stream_ok refl
    go (written ∷ later) = unfold write_next in stream_ok refl
    go (broken n e ∷ later) = unfold write_next in stream_err refl

module _ (crypto : Crypto) where
  encrypt_with-Ensures :
      (cipher : Option Bytes) (nonce : ℕ) (message : Bytes)
      → Ensures (λ b. Unit {0}) (encrypt_with crypto cipher nonce message)
  unfolding encrypt_with
  encrypt_with-Ensures none nonce message = holds tt
  encrypt_with-Ensures (some key) nonce message = Ensures-any (map_err-Ensures _ _)

-- The counter has moved by one, the key is that of the header, and else only the stream `s` has
-- changed, but not what can be read from it.
abbrev pub Sent : DatumCommand → Bytes → Client → Stream → Client → Type 0
Sent command message c s d =
    (t : Stream) × (t.incoming ≡ s.incoming)
    × (d ≡ record c {
      stream = some t;
      send_nonce = u64 (c.send_nonce + 1);
      header_xor_key = header_number (message_header command message);
    })

-- The state when the header has been hidden and the counter taken.
abbrev begun : DatumCommand → Bytes → Client → Stream → Client
begun command message c s = record c {
  stream = some s;
  send_nonce = u64 (c.send_nonce + 1);
  header_xor_key = header_number (message_header command message);
}

module _ (command : DatumCommand) (message : Bytes) (c : Client) (s : Stream) where
  -- A write on a stream that can still read what `s` can.
  write_step :
      (bytes : Bytes) (u : Stream) (k : Unit {0} → M (Unit {0}))
      → u.incoming ≡ s.incoming
      → ((t : Stream)
          → t.incoming ≡ s.incoming
          → Meets
              (λ _. Sent command message c s)
              (Sent command message c s)
              (k tt (begun command message c t)).0
              (k tt (begun command message c t)).1)
      → Meets
          (λ _. Sent command message c s)
          (Sent command message c s)
          ((on_stream (write_all bytes) >>= k) (begun command message c u)).0
          ((on_stream (write_all bytes) >>= k) (begun command message c u)).1
  write_step bytes u k h hk =
      go (write_all bytes u).0 (write_all bytes u).1 (write_all-Meets bytes u)
    where
      go :
          (r : Result (Unit {0})) (t : Stream)
          → StreamMeets (λ b t. t.incoming ≡ u.incoming) (λ t. t.incoming ≡ u.incoming) r t
          → Meets
              (λ _. Sent command message c s)
              (Sent command message c s)
              (then_result r (begun command message c t) k).0
              (then_result r (begun command message c t) k).1
      go _ t (stream_ok i) = hk t (i ∙ h)
      go _ t (stream_err i) = fails (t, i ∙ h, refl)

  -- A write at the end.
  last_write :
      (bytes : Bytes) (u : Stream)
      → u.incoming ≡ s.incoming
      → Meets
          (λ _. Sent command message c s)
          (Sent command message c s)
          (on_stream (write_all bytes) (begun command message c u)).0
          (on_stream (write_all bytes) (begun command message c u)).1
  last_write bytes u h = go (write_all bytes u).0 (write_all bytes u).1 (write_all-Meets bytes u)
    where
      go :
          (r : Result (Unit {0})) (t : Stream)
          → StreamMeets (λ b t. t.incoming ≡ u.incoming) (λ t. t.incoming ≡ u.incoming) r t
          → Meets
              (λ _. Sent command message c s)
              (Sent command message c s)
              r
              (begun command message c t)
      go _ t (stream_ok i) = returns (t, i ∙ h, refl)
      go _ t (stream_err i) = fails (t, i ∙ h, refl)

abbrev Sends : Crypto → DatumCommand → Bytes → Client → Stream → Type 0
Sends crypto command message c s =
    Meets (λ _. Sent command message c s) (Sent command message c s)
      (send_message crypto command message c).0 (send_message crypto command message c).1

abbrev ready : Client → Stream → Client
ready c s = record c { stream = some s; connected = true }

send_ready :
    (crypto : Crypto) (command : DatumCommand) (message : Bytes) (c : Client) (s : Stream)
    → c.header_xor_key < 2 ^ 32
    → Sends crypto command message (ready c s) s
unfolding send_message xor_header header_number
send_ready crypto command message c s fits =
    let h = message_header command message in
    let (out, e) =
      exchange c.header_xor_key (packed h) (packed-IsBytes h) (omega (arith, length-packed h))
        fits in
    rw (serialize_header-packed h, e.hidden, take-packed h)
      (Meets-lift (encrypt_with crypto c.send_cipher c.send_nonce message) _
        (begun command message (ready c s) s)
        (encrypt_with-Ensures crypto c.send_cipher c.send_nonce message) (s, refl, refl)
        λ body _.
          let signature = sign_with crypto c.local_keys (packed h ++ body) in
          write_step command message (ready c s) s out s _ refl λ s2 h2.
            elim (Bool-cases (length signature == 0)) [
              | inl unsigned ↦ rw unsigned (last_write command message (ready c s) s body s2 h2)
              | inr signed ↦ rw signed (
                  write_step command message (ready c s) s signature s2 _ h2
                    λ s3 h3. last_write command message (ready c s) s body s3 h3)
            ])

ready_self : (c : Client) (s : Stream) → c.connected ≡ true → c.stream ≡ some s → ready c s ≡ c
ready_self c s on has = ap₂ (λ o b. record c { stream = o; connected = b }) (sym has) (sym on)

abbrev not_connected : DatumError
not_connected = pool_connection_error (text "Not connected to pool")

-- What a send does: a client that is not connected or has no stream refuses it.
abbrev pub SendOutcome :
    DatumCommand → Bytes → Client → Bool → Option Stream → Result (Unit {0}) × Client → Type 0
SendOutcome command message c false o out = out ≡ (err not_connected, c)
SendOutcome command message c true none out = out ≡ (err no_stream, c)
SendOutcome command message c true (some s) out =
    Meets (λ _. Sent command message c s) (Sent command message c s) out.0 out.1

-- With a header key below 2 ^ 32, a send without a connection or a stream is refused and changes
-- nothing. Any other one does not panic and, failing or not, takes one step of the write counter,
-- leaves its own plain header as the key, and changes no other field but the stream, of which what
-- can be read stays.
pub send_message_lem :
    (crypto : Crypto) (command : DatumCommand) (message : Bytes) (c : Client)
    → c.header_xor_key < 2 ^ 32
    → SendOutcome command message c c.connected c.stream (send_message crypto command message c)
send_message_lem crypto command message c fits = go c.connected c.stream refl refl
  where
    go :
        (b : Bool) (o : Option Stream)
        → c.connected ≡ b
        → c.stream ≡ o
        → SendOutcome command message c b o (send_message crypto command message c)
    go false o on has = unfold send_message in rw on refl
    go true none on has = unfold send_message in rw (on, has) refl
    go true (some s) on has =
        subst (λ d. Sends crypto command message d s) (ready_self c s on has)
          (send_ready crypto command message c s fits)
