-- ===== src/Setup.antt =====
-- src/main.rs: the closure that sets the module up. What the SDK makes of the data directory (the
-- context and its configuration) is a parameter, as are the display of errors and hex.
pub mod Branches
pub mod Attendance
use blvm_datum.Common.{Option, none, some, ◌⊎◌, ◌++◌}
use blvm_datum.Error.{Result, ok, err, panic, DatumError, Text, text}
use blvm_datum.Bytes.{Bytes}
use blvm_datum.Crypto.{Crypto}
use blvm_datum.Stream.{Stream}
use blvm_datum.Client.Handshake.{Entropy}
use blvm_datum.Server.{Server, NodeApi, new_server, start_server}
use blvm_datum.Module.{ModuleParts, Outcome, done, rejected_with, panicked}

-- `DatumModule`
pub record DatumModule (Header Tx : Type 0) : Type 0 where
  pub server : Server Header Tx
  pub data_dir : Text

module _ {Header Tx : Type 0} (parts : ModuleParts) where
  -- The module, once for the node and once for the command line.
  abbrev pub after_start :
      Text
      → Result (Unit {0}) × Server Header Tx
      → Outcome (DatumModule Header Tx × DatumModule Header Tx)
  after_start data_dir (ok v, s) =
      let the_module : DatumModule Header Tx = record { server = s; data_dir = data_dir } in
      done (the_module, the_module)
  after_start data_dir (err e, s) =
      rejected_with (text "Server startup failed: " ++ parts.display e)
  after_start data_dir (panic, s) = panicked

  abbrev pub after_new :
      Text → Result (Server Header Tx) → Outcome (DatumModule Header Tx × DatumModule Header Tx)
  after_new data_dir (ok s) = after_start data_dir (start_server s)
  after_new data_dir (err e) = rejected_with (text "Failed to create server: " ++ parts.display e)
  after_new data_dir panic = panicked

-- `to_bytes` of a decoded key.
abbrev pub key_bytes : Bytes ⊎ Text → Option Bytes
key_bytes r = elim r [ ◌⊎◌.inl bytes ↦ some bytes | ◌⊎◌.inr e ↦ none ]

module _ {Header Tx : Type 0} (crypto : Crypto) (dial : Text → Stream ⊎ Text) (e : Entropy)
    (parts : ModuleParts) (context : Text → Text → Option Text) where
  -- `setup`
  unfoldable pub setup :
      NodeApi Header Tx → Text → Outcome (DatumModule Header Tx × DatumModule Header Tx)
  setup node data_dir =
      after_new parts data_dir
        (new_server crypto dial e (λ hex. key_bytes (parts.decode_hex hex)) node (context data_dir))
