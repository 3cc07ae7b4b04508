-- ===== src/Entry.antt =====
-- src/main.rs: `main`. What it uses of the SDK (the bootstrap, the data base, the context with the
-- configuration, and the macro that runs a module) is a parameter.
pub mod Startup
use blvm_datum.Common.{Option, ◌⊎◌, inl, inr, List}
use blvm_datum.Error.{Text, codes}
use blvm_datum.Crypto.{Crypto}
use blvm_datum.Stream.{Stream}
use blvm_datum.Client.Handshake.{Entropy}
use blvm_datum.Config.{DatumConfig}
use blvm_datum.Server.{NodeApi, EventType}
use blvm_datum.Module.{ModuleParts, Outcome, rejected_with, event_types}
use blvm_datum.Setup.{DatumModule, setup}

-- What a set-up is given and what it returns.
abbrev pub SetupCall : (Header Tx Database : Type 0) → Type 0
SetupCall Header Tx Database =
    NodeApi Header Tx → Database → Text → Outcome (DatumModule Header Tx × DatumModule Header Tx)

pub record Sdk (Header Tx Bootstrap Database : Type 0) : Type 0 where
  pub init_module : Text → Bootstrap
  pub data_dir : Bootstrap → Text
  pub open_db : Text → Database ⊎ Text
  pub context_with_config : Bootstrap → Text → (Text → Option Text) × DatumConfig
  pub run_module :
      Bootstrap
      → Text
      → Database
      → SetupCall Header Tx Database
      → List EventType
      → Outcome (Unit {0})

abbrev pub module_name : Text
module_name = codes "blvm-datum"

module _ {Header Tx Bootstrap Database : Type 0} (crypto : Crypto) (dial : Text → Stream ⊎ Text)
    (e : Entropy) (parts : ModuleParts) (sdk : Sdk Header Tx Bootstrap Database) where
  -- The closure that `main` hands to the SDK.
  abbrev pub setup_call : Bootstrap → SetupCall Header Tx Database
  setup_call bootstrap node db data_dir =
      setup crypto dial e parts (λ dir. (sdk.context_with_config bootstrap dir).0) node data_dir

  abbrev pub after_open : Bootstrap → Database ⊎ Text → Outcome (Unit {0})
  after_open bootstrap (inl db) =
      sdk.run_module bootstrap module_name db (setup_call bootstrap) event_types
  after_open bootstrap (inr problem) = rejected_with problem

  unfoldable pub main : Outcome (Unit {0})
  main =
      let bootstrap = sdk.init_module module_name in
      after_open bootstrap (sdk.open_db (sdk.data_dir bootstrap))
