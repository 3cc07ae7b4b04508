-- ===== src/Module/Commands.antt =====
-- What the commands of the module print.
use blvm_datum.Common.{ℕ, zero, suc, ◌≡◌, ◌⊎◌, inl, inr, refl, ap, Bool, true, false, ◌∷◌, ◌++◌}
use blvm_datum.Error.{Result, Text, codes}
use blvm_datum.Bytes.{IsBytes}
use blvm_datum.Crypto.{Crypto}
use blvm_datum.Stream.{Stream}
use blvm_datum.Client.Handshake.{Entropy}
use blvm_datum.Pool.Operations.{has_settings}
use blvm_datum.Server.{Server, get_status}
use blvm_datum.Server.Events.{
  ServerReconnects, reconnected, without_client, as_it_was, reconnect_pool-ServerReconnects,
}
use blvm_datum.Module.{
  Outcome, done, rejected_with, panicked, ModuleParts, trim_0x, status_text, status_command,
  reconnected_text, reconnect_command, submit_decoded, submit_pow_command,
}

-- `n` times `0x`, and then the text.
abbrev pub prefixed : ℕ → Text → Text
prefixed zero payload = payload
prefixed (suc n) payload = 48 ∷ 120 ∷ prefixed n payload

trim_0x-prefixed : (n : ℕ) (payload : Text) → trim_0x (prefixed n payload) ≡ trim_0x payload
unfolding trim_0x
trim_0x-prefixed zero payload = refl
trim_0x-prefixed (suc n) payload = trim_0x-prefixed n payload

-- The three lines of the status.
abbrev pub status_lines : Text → Text → Text
status_lines running connected =
    codes "DATUM Gateway module" ++ (10 ∷ (running ++ (10 ∷ connected)))

abbrev pub shown : Bool → Text
shown true = codes "Running: true"
shown false = codes "Running: false"

abbrev connection : Bool → Text
connection true = codes "Pool connected: true"
connection false = codes "Pool connected: false"

status_text-lines :
    (running connected : Bool)
    → status_text (record { running = running; pool_connected = connected })
      ≡ status_lines (shown running) (connection connected)
unfolding status_text
status_text-lines true true = refl
status_text-lines true false = refl
status_text-lines false true = refl
status_text-lines false false = refl

module _ {Header Tx : Type 0} where
  -- What the status command prints of the connection after a reconnect command.
  abbrev pub StatusAfter : Server Header Tx → Outcome Text → Server Header Tx → Type 0
  StatusAfter s (done t) d =
      status_command d ≡ done (status_lines (shown s.running) (codes "Pool connected: true"))
  StatusAfter s (rejected_with t) d =
      ((has_settings s.pool ≡ true)
        × (status_command d
            ≡ done (status_lines (shown s.running) (codes "Pool connected: false"))))
      ⊎ ((has_settings s.pool ≡ false) × (d ≡ s))
  StatusAfter s panicked d = ⊥

module _ {Header Tx : Type 0} (parts : ModuleParts) where
  -- Any number of `0x` in front of the payload changes nothing.
  pub submit_pow_command-prefixed :
      (crypto : Crypto) (n : ℕ) (payload : Text) (s : Server Header Tx)
      → submit_pow_command parts crypto (prefixed n payload) s
        ≡ submit_pow_command parts crypto payload s
  unfolding submit_pow_command
  submit_pow_command-prefixed crypto n payload s =
      ap (λ t. submit_decoded parts crypto (parts.decode_hex t) s) (trim_0x-prefixed n payload)

  -- If what every dialled stream can read is bytes: after a reconnect command that prints, the status
  -- command prints whether the server runs and that the pool is connected; after one that fails, that
  -- it is not if the settings of a pool are known, and else nothing has changed. The command does not
  -- panic.
  pub reconnect_command-StatusAfter :
      (crypto : Crypto) (dial : Text → Stream ⊎ Text) (e : Entropy) (s : Server Header Tx)
      → ((address : Text) (t : Stream) → dial address ≡ inl t → IsBytes t.incoming)
      → StatusAfter s
          (reconnect_command parts crypto dial e s).0
          (reconnect_command parts crypto dial e s).1
  unfolding reconnect_command
  reconnect_command-StatusAfter crypto dial e s readable =
      go (reconnect_pool-ServerReconnects crypto dial e s readable)
    where
      go :
          {out : Result Text × Server Header Tx}
          → ServerReconnects s out
          → StatusAfter s (reconnected_text parts out.0) out.1
      go (reconnected t c known on h) =
          rw h (unfold status_command get_status in ap done (status_text-lines s.running true))
      go (without_client known h) = rw h (
          inl (
            known,
            unfold status_command get_status in ap done (status_text-lines s.running false),
          ))
      go (as_it_was lacks h) = rw h (inr (lacks, refl))
