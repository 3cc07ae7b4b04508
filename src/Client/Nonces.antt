-- ===== src/Client/Nonces.antt =====
-- The nonces that the sends of a session use.
use blvm_datum.Common.{ℕ, ◌^◌, ◌<◌, ◌≡◌, ◌≢◌, sym, ap, ◌∙◌, take, arith}
use blvm_datum.Bytes.{to_le_bytes, from_le_bytes}
use blvm_datum.Bytes.Endian.{from_le_bytes-to_le_bytes}
use blvm_datum.Crypto.{Crypto}
use blvm_datum.Client.{Client, create_nonce}
use blvm_datum.Client.Interleaving.{IsOnline, Run, Run-Onward}

create_nonce_injective :
    (n m : ℕ) → n < 2 ^ 64 → m < 2 ^ 64 → create_nonce n ≡ create_nonce m → n ≡ m
unfolding create_nonce
create_nonce_injective n m hn hm e =
    sym (from_le_bytes-to_le_bytes 8 n hn)
    ∙ ap from_le_bytes {x = to_le_bytes 8 n} {y = to_le_bytes 8 m} (ap (take 8) e)
    ∙ from_le_bytes-to_le_bytes 8 m hm

-- From a client with a session on, whole calls of any tasks, sends and receives in any order, have
-- made at least one send and fewer than 2 ^ 64: the nonce of the next send is not the one that the
-- first send had.
pub nonces_differ :
    (crypto : Crypto) {c : Client} {k : ℕ} {d : Client}
    → IsOnline c
    → 0 < k
    → k < 2 ^ 64
    → Run crypto c k d
    → create_nonce c.send_nonce ≢ create_nonce d.send_nonce
nonces_differ crypto {c} {k} {d} online some_sends few run e =
    let onward = Run-Onward crypto online run in
    let same =
      create_nonce_injective c.send_nonce d.send_nonce online.send_nonce_fits
        onward.0.send_nonce_fits e in
    omega (arith, onward.2, online.send_nonce_fits)
