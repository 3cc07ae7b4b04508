-- ===== src/Client/Session.antt =====
-- The handshake: what `connect` leaves behind.
use blvm_datum.Common.{
  ℕ, suc, ◌+◌, ◌-◌, ◌≤◌, ◌≡◌, refl, ap₂, Bool, true, false, not, Bool-cases, Option, none, some, [],
  ◌∷◌, length, take, drop, length-drop, arith, ltb, ltb→ge, ◌==◌, ==→eq, inl, inr,
}
use mathlib.Core.Option
use blvm_datum.Error.{DatumError, protocol_error, text}
use blvm_datum.Error.Ensures.{
  Ensures, holds, Ensures-fail_if, Ensures-value, Ensures-bind, Ensures-map, map_err-Ensures,
  fail_if-Ensures,
}
use blvm_datum.Bytes.{Bytes}
use blvm_datum.Bytes.Slices.{slice-le, slice_from-le}
use blvm_datum.Messages.{DatumCommand, handshake, same_command}
use blvm_datum.Crypto.{Crypto}
use blvm_datum.Client.{DatumEncryptionKeys, ed25519_public}
use blvm_datum.Client.Handshake.{
  bytes_eq, position_zero, read_motd, check_echo, check_response, read_pool_key,
}

bytes_eq-eq : (xs ys : Bytes) → bytes_eq xs ys ≡ true → xs ≡ ys
unfolding bytes_eq
bytes_eq-eq [] [] e = refl
bytes_eq-eq (x ∷ xs) (y ∷ ys) e = elim (Bool-cases (x == y)) [
  | inl same ↦ ap₂ ◌∷◌ (==→eq x y same) (bytes_eq-eq xs ys (rw same at e))
  | inr differ ↦ absurd (cc (rw differ at e))
]
bytes_eq-eq [] (y ∷ ys) e = cc
bytes_eq-eq (x ∷ xs) [] e = cc

get_or-suc :
    (o : Option ℕ) (d : ℕ)
    → Option.get_or o d ≤ d
    → Option.get_or (Option.map suc o) (suc d) ≤ suc d
get_or-suc none d h = omega arith
get_or-suc (some i) d h = omega arith

position_zero-le : (bs : Bytes) → Option.get_or (position_zero bs) (length bs) ≤ length bs
unfolding position_zero
position_zero-le [] = omega arith
position_zero-le (b ∷ bs) = elim (Bool-cases (b == 0)) [
  | inl at_zero ↦ rw at_zero (omega arith)
  | inr later ↦ rw later (get_or-suc (position_zero bs) (length bs) (position_zero-le bs))
]

pub read_motd-Ensures :
    (response : Bytes) → 192 ≤ length response → Ensures (λ t. Unit {0}) (read_motd response)
unfolding read_motd
read_motd-Ensures response long =
    let rest = drop 192 response in
    let le = position_zero-le rest in
    let size = length-drop 192 response in
    let within = rw size at le in
    Ensures-value _ rest (slice_from-le response 192 long) (
      Ensures-value _ _
        (slice-le response 192 (192 + Option.get_or (position_zero rest) (length response - 192))
          (omega arith) (omega (arith, within)))
        (holds tt))

-- The client's keys that the pool repeats in its answer.
pub record IsEcho (crypto : Crypto) (local session : DatumEncryptionKeys) (response : Bytes)
    : Type 0 where
  pub is_long : 192 ≤ length response
  pub local_ed25519 : take 32 response ≡ ed25519_public crypto local
  pub local_x25519 : take 32 (drop 32 response) ≡ local.x25519_public
  pub session_ed25519 : take 32 (drop 64 response) ≡ ed25519_public crypto session
  pub session_x25519 : take 32 (drop 96 response) ≡ session.x25519_public

module _ (crypto : Crypto) where
  check_echo-Ensures :
      (response : Bytes) (offset : ℕ) (key : Bytes) (e : DatumError)
      → offset + 32 ≤ length response
      → Ensures
          (λ _. take 32 (drop offset response) ≡ key)
          (check_echo crypto response offset key e)
  unfolding check_echo
  check_echo-Ensures response offset key e fits =
      Ensures-value _ _ (slice-le response offset (offset + 32) (omega arith) fits) (
        rw size-32 (
          Ensures-map (fail_if-Ensures (not (bytes_eq (take 32 (drop offset response)) key)) e)
            λ _ h. bytes_eq-eq (take 32 (drop offset response)) key (not-false h)))
    where
      size-32 : offset + 32 - offset ≡ 32
      size-32 = omega arith

      not-false : {b : Bool} → not b ≡ false → b ≡ true
      not-false {b} h = elim (Bool-cases b) [ inl e ↦ e | inr e ↦ absurd (cc (e, h)) ]

  -- The checks of a response do not panic, and one that passes them has at least 192 bytes and
  -- repeats the four keys that the client sent, each at its offset.
  pub check_response-Ensures :
      (local session : DatumEncryptionKeys) (command : DatumCommand) (response : Bytes)
      → Ensures
          (λ _. IsEcho crypto local session response)
          (check_response crypto local session command response)
  unfolding check_response
  check_response-Ensures local session command response =
      Ensures-fail_if (not (same_command command handshake))
        (protocol_error (text "Expected handshake response"))
        λ _.
          Ensures-fail_if (ltb (length response) 192)
            (protocol_error (text "Handshake response too short"))
            λ long.
              let le = ltb→ge (length response) 192 long in
              Ensures-bind
                (check_echo-Ensures response 0 _
                  (protocol_error (text "Echoed Ed25519 key mismatch")) (omega arith))
                λ _ e1.
                  Ensures-bind
                    (check_echo-Ensures response 32 _
                      (protocol_error (text "Echoed X25519 key mismatch")) (omega arith))
                    λ _ e2.
                      Ensures-bind
                        (check_echo-Ensures response 64 _
                          (protocol_error (text "Echoed session Ed25519 key mismatch"))
                          (omega arith))
                        λ _ e3.
                          Ensures-map
                            (check_echo-Ensures response 96 _
                              (protocol_error (text "Echoed session X25519 key mismatch"))
                              (omega arith))
                            λ _ e4. record {
                              is_long = le;
                              local_ed25519 = e1;
                              local_x25519 = e2;
                              session_ed25519 = e3;
                              session_x25519 = e4;
                            }

  pub read_pool_key-Ensures :
      (response : Bytes)
      → 192 ≤ length response
      → Ensures
          (λ k. crypto.read_verifying_key (take 32 (drop 128 response)) ≡ inl k)
          (read_pool_key crypto response)
  unfolding read_pool_key
  read_pool_key-Ensures response long =
      Ensures-value _ _ (slice-le response 128 160 (omega arith) (omega arith))
        (map_err-Ensures _ _)
