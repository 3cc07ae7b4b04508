-- ===== src/Client/Receive.antt =====
-- What receiving a message can do, on any bytes that the pool sends.
pub mod Steps
pub use Steps.{ReadsBytes, unread, is_open, session_of, Meets-xor_header, Meets-require_stream}
use Steps.{Meets-read_exact, decrypt_with-Ensures, check_signature-Ensures}
use blvm_datum.Common.{
  ◌∙◌, ℕ, ◌+◌, ◌/◌, ◌^◌, ◌≤◌, ◌≡◌, ◌⊎◌, refl, sym, ap, arith, length-drop, subst, Bool, true, false,
  not, Option, none, some, ◌++◌, length, leb, All-take, All-drop, ◌==◌, Bool-cases, leb→le, inl,
  inr,
}
use blvm_datum.Error.{Result, ok, ok_or, protocol_error, text, decimal}
use blvm_datum.Error.Ensures.{
  Ensures, holds, failed, Ensures-any, Ensures-if, map_err-Ensures, ok_or-Ensures, fail_if-Ensures,
}
use blvm_datum.Bytes.{Bytes, IsByte, IsBytes, u64}
use blvm_datum.Crypto.{Crypto}
use blvm_datum.Stream.{Stream, read_exact}
use blvm_datum.Messages.{DatumCommand, DatumMessageHeader, from_u8, IsNarrow}
use blvm_datum.Header.{apply_header_xor, deserialize_header}
use blvm_datum.Header.Commands.{from_u8-IsNarrow}
use blvm_datum.Header.Obfuscation.{apply_header_xor-Ensures}
use blvm_datum.Header.RoundTrip.{FitsHeader, deserialize_header-Ensures}
use blvm_datum.Client.{
  Client, M, ◌>>=◌, ◌>>◌, on_stream, require_stream, xor_header, store_key, then_result, lift, get,
}
use blvm_datum.Client.Transport.{
  next_recv_nonce, decrypt_with, check_signature, read_signature, receive_message_internal,
}
use blvm_datum.Client.Logic.{
  Meets, returns, fails, Meets-bind, Meets-lift, Meets-on_stream, StreamMeets, stream_ok,
  stream_err,
}

-- What a receive says of the command and of the state, and a failing one of the state.
abbrev pub Received : Client → DatumCommand × Bytes → Client → Type 0
Received c r d =
    IsNarrow r.0
    × (session_of d ≡ session_of c)
    × (d.recv_nonce ≡ u64 (c.recv_nonce + 1))
    × ReadsBytes d.stream
    × (unread d.stream + 4 ≤ unread c.stream)
    × (d.header_xor_key / 2 ^ 32 ≡ c.header_xor_key / 2 ^ 32)
    × (is_open d.stream ≡ is_open c.stream)

abbrev pub Attempted : Client → Client → Type 0
Attempted c d =
    (session_of d ≡ session_of c)
    × ((d.recv_nonce ≡ c.recv_nonce) ⊎ (d.recv_nonce ≡ u64 (c.recv_nonce + 1)))
    × ReadsBytes d.stream
    × (unread d.stream ≤ unread c.stream)
    × (d.header_xor_key / 2 ^ 32 ≡ c.header_xor_key / 2 ^ 32)
    × (is_open d.stream ≡ is_open c.stream)

pub Meets-read_signature :
    {P : DatumCommand × Bytes → Client → Type 0} {Q : Client → Type 0} (signed : Bool)
    (k : Option Bytes → M (DatumCommand × Bytes)) (c : Client)
    → ReadsBytes c.stream
    → Q c
    → ((s : Stream)
        → IsBytes s.incoming
        → length s.incoming ≤ unread c.stream
        → Q (record c { stream = some s }))
    → ((sig : Option Bytes) (o : Option Stream)
        → ReadsBytes o
        → unread o ≤ unread c.stream
        → is_open o ≡ is_open c.stream
        → Meets P Q (k sig (record c { stream = o })).0 (k sig (record c { stream = o })).1)
    → Meets P Q ((read_signature signed >>= k) c).0 ((read_signature signed >>= k) c).1
unfolding read_signature
Meets-read_signature true k c h q qs hk =
    Meets-bind
      {P' = λ sig d.
        (o : Option Stream) × ReadsBytes o
        × (unread o ≤ unread c.stream)
        × (is_open o ≡ is_open c.stream)
        × (d ≡ record c { stream = o })}
      (read_signature true) k
      (Meets-read_exact 64 _ c h q qs
        (λ sig s _ hs left still_open. returns (some s, hs, omega (arith, left), still_open, refl)))
      λ sig d (o, ho, le, still_open, e). rw e (hk sig o ho le still_open)
Meets-read_signature false k c h q qs hk = hk none c.stream h (omega arith) refl

abbrev pub at : Client → Option Stream → ℕ → Client
at c o key = record c { stream = o; header_xor_key = key }

abbrev pub read_one : Client → Client
read_one c = record c { recv_nonce = u64 (c.recv_nonce + 1) }

-- What a receive does when the body has been read.
abbrev finish_receive :
    Crypto → DatumMessageHeader → Option Bytes → Bytes → Bytes → M (DatumCommand × Bytes)
finish_receive crypto header signature plain body = do
  pool_key ← get (λ c. c.pool_ed25519_public)
  lift (check_signature crypto signature pool_key (plain ++ body))
  nonce ← next_recv_nonce
  cipher ← get (λ c. c.recv_cipher)
  message ← lift (decrypt_with crypto cipher nonce body)
  command ← lift (
      ok_or (from_u8 header.proto_cmd)
        (protocol_error (text "Unknown command: " ++ decimal header.proto_cmd)))
  lift (ok (command, message))

module _ (crypto : Crypto) where
  behind_body :
      (c : Client) (hd : DatumMessageHeader) (sig : Option Bytes) (plain body : Bytes) (s : Stream)
      (key : ℕ)
      → FitsHeader hd
      → IsBytes s.incoming
      → length s.incoming + 4 ≤ unread c.stream
      → key / 2 ^ 32 ≡ c.header_xor_key / 2 ^ 32
      → true ≡ is_open c.stream
      → Meets
          (Received c)
          (Attempted c)
          (finish_receive crypto hd sig plain body (at c (some s) key)).0
          (finish_receive crypto hd sig plain body (at c (some s) key)).1
  behind_body c hd sig plain body s key fits h le e p =
      let pool_key = c.pool_ed25519_public in
      Meets-lift (check_signature crypto sig pool_key (plain ++ body)) _ (at c (some s) key)
        (check_signature-Ensures crypto sig pool_key (plain ++ body))
        (refl, inl refl, h, omega (arith, le), e, p)
        λ _ _.
          Meets-lift (decrypt_with crypto c.recv_cipher c.recv_nonce body) _
            (read_one (at c (some s) key))
            (decrypt_with-Ensures crypto c.recv_cipher c.recv_nonce body)
            (refl, inr refl, h, omega (arith, le), e, p)
            λ message _.
              Meets-lift (ok_or (from_u8 hd.proto_cmd) _) _ (read_one (at c (some s) key))
                (ok_or-Ensures _ _) (refl, inr refl, h, omega (arith, le), e, p)
                λ command is_command. returns (
                  from_u8-IsNarrow hd.proto_cmd command fits.proto_cmd_fits is_command,
                  refl,
                  refl,
                  h,
                  le,
                  e,
                  p,
                )

  -- Whatever bytes are to be read, a receive does not panic and changes only the stream, the read
  -- counter and the header's key, which gains no bit above the lowest 32. What is still to be read is
  -- bytes and no more than before, and an open stream stays open. If the call returns, then one of
  -- the commands handshake, fetch_coinbaser, submit_pow and job_update, the read counter has taken
  -- one step, and at least four bytes have been read. If it fails, then the counter has taken one
  -- step or none.
  pub receive_message_internal-Meets :
      (c : Client)
      → ReadsBytes c.stream
      → Meets
          (Received c)
          (Attempted c)
          (receive_message_internal crypto c).0
          (receive_message_internal crypto c).1
  unfolding receive_message_internal
  receive_message_internal-Meets c h =
      Meets-require_stream _ c h (tried c.stream c.header_xor_key h (omega arith) refl refl)
        λ s hs u p.
          Meets-read_exact 4 _ (at c (some s) c.header_xor_key) hs
            (tried (some s) c.header_xor_key hs (omega (arith, u)) refl p)
            (λ t ht l. tried (some t) c.header_xor_key ht (omega (arith, u, l)) refl p)
            λ header s2 hb hs2 u2 _.
              Meets-xor_header header c.header_xor_key _ (at c (some s2) c.header_xor_key) hb
                (tried (some s2) c.header_xor_key hs2 (omega (arith, u, u2)) refl p)
                λ plain key hp e.
                  Meets-lift (deserialize_header plain) _ (at c (some s2) key)
                    (deserialize_header-Ensures plain hp)
                    (tried (some s2) key hs2 (omega (arith, u, u2)) e p)
                    λ hd fits.
                      Meets-read_signature hd.is_signed _ (at c (some s2) key) hs2
                        (tried (some s2) key hs2 (omega (arith, u, u2)) e p)
                        (λ t ht l. tried (some t) key ht (omega (arith, u, u2, l)) e p)
                        λ sig o ho l still_open.
                          Meets-read_exact hd.cmd_len _ (at c o key) ho
                            (tried o key ho (omega (arith, u, u2, l)) e (still_open ∙ p))
                            (λ t ht l3. tried (some t) key ht (omega (arith, u, u2, l, l3)) e p)
                            λ body s3 _ hs3 u3 _.
                              behind_body c hd sig plain body s3 key fits hs3
                                (omega (arith, u, u2, l, u3)) e p
    where
      tried :
          (o : Option Stream) (key : ℕ)
          → ReadsBytes o
          → unread o ≤ unread c.stream
          → key / 2 ^ 32 ≡ c.header_xor_key / 2 ^ 32
          → is_open o ≡ is_open c.stream
          → Attempted c (at c o key)
      tried o key h le e still_open = (refl, inl refl, h, le, e, still_open)
