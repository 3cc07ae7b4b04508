-- ===== src/Setup/Attendance.antt =====
-- What holds of the module's server for as long as it works.
use blvm_datum.Common.{◌+◌, refl, ◌≡◌, ◌⊎◌, inl, sym, subst, Bool, true, false, Option, List, arith}
use blvm_datum.Error.{Text}
use blvm_datum.Bytes.{IsBytes}
use blvm_datum.Crypto.{Crypto}
use blvm_datum.Stream.{Stream}
use blvm_datum.Client.Handshake.{Entropy}
use blvm_datum.Pool.{Int64}
use blvm_datum.Server.{Server, NodeApi}
use blvm_datum.Server.Status.{status_of, one_if, reconnects, IsAttended, Follows-IsAttended}
use blvm_datum.Server.Status.Refinement.{Serves, changes_of, Serves-Follows}
use blvm_datum.Module.{ModuleParts, done}
use blvm_datum.Setup.{DatumModule, setup}
use blvm_datum.Setup.Branches.{started, is_configured, SetUp-done, setup-SetUp}

started-IsAttended : (connected : Bool) → IsAttended (one_if connected) (started connected)
started-IsAttended true = record { on = refl; attended = omega arith }
started-IsAttended false = record { on = refl; attended = omega arith }

module _ {Header Tx : Type 0} (crypto : Crypto) (dial : Text → Stream ⊎ Text) (e : Entropy)
    (parts : ModuleParts) (context : Text → Text → Option Text) (values : Tx → List Int64) where
  -- If what every dialled stream can read is bytes and a set-up returns: whatever starts, events,
  -- reconnects and submissions the module's server performs from then on, returning or not, it is
  -- still running, and it has spawned a receive loop for the connection of the set-up, if the context
  -- names a pool, a user and a password, and one for each reconnect that returned.
  pub setup-IsAttended :
      ((address : Text) (t : Stream) → dial address ≡ inl t → IsBytes t.incoming)
      → (node : NodeApi Header Tx) (data_dir : Text) (m cli : DatumModule Header Tx)
        (t : Server Header Tx)
      → setup crypto dial e parts context node data_dir ≡ done (m, cli)
      → (run : Serves crypto dial values m.server t)
      → IsAttended
          (one_if (is_configured (context data_dir))
            + reconnects (changes_of crypto dial values run))
          (status_of t)
  setup-IsAttended readable node data_dir m cli t returned run =
      Follows-IsAttended (one_if (is_configured (context data_dir)))
        (subst (IsAttended _) (sym first) (started-IsAttended (is_configured (context data_dir))))
        (Serves-Follows crypto dial values readable run)
    where
      first : status_of m.server ≡ started (is_configured (context data_dir))
      first =
          (SetUp-done parts data_dir _ _ m cli
            (setup-SetUp crypto dial e parts context readable node data_dir) returned).1
