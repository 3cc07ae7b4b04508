-- ===== src/Client/Receive/Steps.antt =====
-- The steps of receiving a message, on any bytes that the pool sends.
use blvm_datum.Common.{
  ℕ, ◌+◌, ◌/◌, ◌^◌, ◌≤◌, ◌≡◌, refl, sym, ap, arith, length-drop, subst, Bool, true, false, not,
  Option, none, some, length, leb, All-take, All-drop, ◌==◌, Bool-cases, leb→le, inl, inr,
}
use blvm_datum.Error.{Result, ok}
use blvm_datum.Error.Ensures.{
  Ensures, holds, failed, Ensures-any, Ensures-if, map_err-Ensures, fail_if-Ensures,
}
use blvm_datum.Bytes.{Bytes, IsByte, IsBytes}
use blvm_datum.Crypto.{Crypto}
use blvm_datum.Stream.{Stream, read_exact}
use blvm_datum.Header.{apply_header_xor}
use blvm_datum.Header.Obfuscation.{apply_header_xor-Ensures}
use blvm_datum.Client.{
  Client, M, ◌>>=◌, ◌>>◌, on_stream, require_stream, xor_header, store_key, then_result,
}
use blvm_datum.Client.Transport.{decrypt_with, check_signature}
use blvm_datum.Client.Logic.{Meets, fails, Meets-on_stream, StreamMeets, stream_ok, stream_err}

-- What is still to be read is bytes.
abbrev pub ReadsBytes : Option Stream → Type 0
ReadsBytes none = Unit
ReadsBytes (some s) = IsBytes s.incoming

-- How much is still to be read.
abbrev pub unread : Option Stream → ℕ
unread none = 0
unread (some s) = length s.incoming

abbrev pub is_open : Option Stream → Bool
is_open none = false
is_open (some s) = true

-- All of a client but its stream, its read counter and its header key.
abbrev pub session_of : Client → Client
session_of c = record c { stream = none; recv_nonce = 0; header_xor_key = 0 }

ReadsBytes-some : (o : Option Stream) (s : Stream) → ReadsBytes o → o ≡ some s → IsBytes s.incoming
ReadsBytes-some none s h e = cc
ReadsBytes-some (some t) s h e = subst (λ (r : Stream). IsBytes r.incoming) {x = t} {y = s} (cc) h

unread-some : (o : Option Stream) (s : Stream) → o ≡ some s → length s.incoming ≡ unread o
unread-some o s e = ap unread (sym e)

read_exact-Meets :
    (n : ℕ) (s : Stream)
    → IsBytes s.incoming
    → StreamMeets
        (λ b t.
          IsBytes b
          × IsBytes t.incoming
          × (length t.incoming + n ≡ length s.incoming)
          × (true ≡ true))
        (λ t. IsBytes t.incoming × (length t.incoming ≤ length s.incoming))
        (read_exact n s).0
        (read_exact n s).1
unfolding read_exact
read_exact-Meets n s h = elim (Bool-cases (leb n (length s.incoming))) [
  | inl enough ↦ rw enough (
      stream_ok (
        All-take IsByte n s.incoming h,
        All-drop IsByte n s.incoming h,
        omega (arith, length-drop n s.incoming, leb→le n (length s.incoming) enough),
        refl,
      ))
  | inr short ↦ rw short (stream_err (tt, omega arith))
]

module _ (crypto : Crypto) where
  pub decrypt_with-Ensures :
      (cipher : Option Bytes) (nonce : ℕ) (body : Bytes)
      → Ensures (λ b. Unit {0}) (decrypt_with crypto cipher nonce body)
  unfolding decrypt_with
  decrypt_with-Ensures none nonce body = holds tt
  decrypt_with-Ensures (some key) nonce body = Ensures-any (map_err-Ensures _ _)

  pub check_signature-Ensures :
      (sig pool_key : Option Bytes) (message : Bytes)
      → Ensures (λ b. Unit {0}) (check_signature crypto sig pool_key message)
  unfolding check_signature
  check_signature-Ensures none pool_key message = holds tt
  check_signature-Ensures (some sig) none message = holds tt
  check_signature-Ensures (some sig) (some pool_key) message =
      Ensures-if (not (length sig == 64)) (λ _. failed) (λ _. Ensures-any (fail_if-Ensures _ _))

module _ {ℓ κ κ'} {A : Type ℓ} {P : A → Client → Type κ} {Q : Client → Type κ'} where
  pub Meets-xor_header :
      (header : Bytes) (key : ℕ) (k : Bytes → M A) (c : Client)
      → IsBytes header
      → Q c
      → ((b : Bytes) (key' : ℕ)
          → IsBytes b
          → key' / 2 ^ 32 ≡ key / 2 ^ 32
          → Meets P Q
              (k b (record c { header_xor_key = key' })).0
              (k b (record c { header_xor_key = key' })).1)
      → Meets P Q ((xor_header header key >>= k) c).0 ((xor_header header key >>= k) c).1
  unfolding xor_header
  Meets-xor_header header key k c h q hk =
      go (apply_header_xor header key) (apply_header_xor-Ensures header key h)
    where
      go :
          (r : Result (Bytes × ℕ))
          → Ensures (λ (p : Bytes × ℕ). IsBytes p.0 × (p.1 / 2 ^ 32 ≡ key / 2 ^ 32)) r
          → Meets P Q
              (then_result (store_key r c).0 (store_key r c).1 k).0
              (then_result (store_key r c).0 (store_key r c).1 k).1
      go _ (holds {a} p) = hk a.0 a.1 p.0 p.1
      go _ failed = fails q

  pub Meets-read_exact :
      (n : ℕ) (k : Bytes → M A) (c : Client)
      → ReadsBytes c.stream
      → Q c
      → ((s : Stream)
          → IsBytes s.incoming
          → length s.incoming ≤ unread c.stream
          → Q (record c { stream = some s }))
      → ((b : Bytes) (s : Stream)
          → IsBytes b
          → IsBytes s.incoming
          → length s.incoming + n ≡ unread c.stream
          → true ≡ is_open c.stream
          → Meets P Q (k b (record c { stream = some s })).0 (k b (record c { stream = some s })).1)
      → Meets P Q ((on_stream (read_exact n) >>= k) c).0 ((on_stream (read_exact n) >>= k) c).1
  Meets-read_exact n k c h q qs hk =
      Meets-on_stream
        {R = λ b t.
          IsBytes b
          × IsBytes t.incoming
          × (length t.incoming + n ≡ unread c.stream)
          × (true ≡ is_open c.stream)}
        {S = λ t. IsBytes t.incoming × (length t.incoming ≤ unread c.stream)} (read_exact n) k c
        (λ s e.
          subst
            (λ o.
              StreamMeets
                (λ b t.
                  IsBytes b
                  × IsBytes t.incoming
                  × (length t.incoming + n ≡ unread o)
                  × (true ≡ is_open o))
                (λ t. IsBytes t.incoming × (length t.incoming ≤ unread o)) (read_exact n s).0
                (read_exact n s).1)
            (sym e) (read_exact-Meets n s (ReadsBytes-some c.stream s h e)))
        q (λ s r. qs s r.0 r.1) (λ b s r. hk b s r.0 r.1 r.2 r.3)

  pub Meets-require_stream :
      (k : M A) (c : Client)
      → ReadsBytes c.stream
      → Q c
      → ((s : Stream)
          → IsBytes s.incoming
          → length s.incoming ≡ unread c.stream
          → true ≡ is_open c.stream
          → Meets P Q (k (record c { stream = some s })).0 (k (record c { stream = some s })).1)
      → Meets P Q ((require_stream >> k) c).0 ((require_stream >> k) c).1
  Meets-require_stream k c h q hk =
      Meets-on_stream
        {R = λ _ t.
          IsBytes t.incoming × (length t.incoming ≡ unread c.stream) × (true ≡ is_open c.stream)}
        {S = λ s. ⊥} (λ s. (ok tt, s)) (λ _. k) c
        (λ s e.
          stream_ok (ReadsBytes-some c.stream s h e, unread-some c.stream s e, ap is_open (sym e)))
        q (λ s r. absurd r) (λ _ s r. hk s r.0 r.1 r.2)
