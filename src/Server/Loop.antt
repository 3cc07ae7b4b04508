-- ===== src/Server/Loop.antt =====
-- The receive loop that src/server.rs spawns when it has started and after a reconnect.
pub mod Termination
pub mod Hearing
use blvm_datum.Common.{ℕ, zero, suc, ◌+◌, Option, none, some, List, [], ◌∷◌, length}
use blvm_datum.Error.{Result, ok, err, panic, DatumError}
use blvm_datum.Bytes.{Bytes}
use blvm_datum.Crypto.{Crypto}
use blvm_datum.Stream.{Stream}
use blvm_datum.Messages.{DatumCommand}
use blvm_datum.Client.{Client}
use blvm_datum.Client.Transport.{receive_message}
use blvm_datum.Client.Receive.{unread}

-- Where a loop is: it has left by the `break`, its task has panicked, or it goes on.
pub data LoopEnd : Type 0 where
  stopped : DatumError → LoopEnd
  crashed : LoopEnd
  going : LoopEnd

-- The commands that it has logged, first to last, and the client that it leaves.
pub record Listened : Type 0 where
  pub heard : List DatumCommand
  pub end : LoopEnd
  pub client : Client

abbrev pub next_round : Result (DatumCommand × Bytes) → Client → (Client → Listened) → Listened
next_round (ok (command, message)) d go = record (go d) { heard = command ∷ (go d).heard }
next_round (err e) d go = record { heard = []; end = stopped e; client = d }
next_round panic d go = record { heard = []; end = crashed; client = d }

module _ (crypto : Crypto) where
  -- `fuel` rounds of `loop { match client.receive_message().await { .. } }`
  unfoldable pub receive_rounds : ℕ → Client → Listened
  receive_rounds zero c = record { heard = []; end = going; client = c }
  receive_rounds (suc fuel) c =
      next_round (receive_message crypto c).0 (receive_message crypto c).1 (receive_rounds fuel)

  -- The loop, with a round for each byte that is still to be read and one more.
  unfoldable pub receive_loop : Client → Listened
  unfolding receive_rounds
  receive_loop c = receive_rounds (suc (unread c.stream)) c
