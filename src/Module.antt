-- ===== src/Module.antt =====
-- src/module.rs: the commands and the event handler of the module. `run_async` of the SDK and hex are
-- parameters; a path is the text that it is displayed with.
pub mod Commands
use blvm_datum.Common.{
  ℕ, zero, suc, ◌+◌, Option, none, some, ◌≡◌, ◌⊎◌, inl, inr, refl, ap, ◌∙◌, Bool, true, false, ◌&&◌,
  List, [], ◌∷◌, ◌++◌, ◌==◌, if◌then◌else◌,
}
use blvm_datum.Error.{Result, ok, err, panic, DatumError, IoError, Text, text, codes, decimal}
use blvm_datum.Bytes.{Bytes, IsBytes}
use blvm_datum.Crypto.{Crypto}
use blvm_datum.Stream.{Stream}
use blvm_datum.Client.Handshake.{Entropy}
use blvm_datum.Pool.{Int64, DatumPoolInfo, pool_info, submit_to_pool}
use blvm_datum.Server.{
  Server, NodeApi, EventType, block_mined, block_template_updated, mining_difficulty_changed,
  new_block, chain_reorg, share_submitted, event, handle_event, DatumStatus, get_status,
  reconnect_pool, submit_to_server, get_pool_info,
}
use blvm_datum.Server.Events.{
  ServerReconnects, reconnected, without_client, as_it_was, reconnect_pool-ServerReconnects,
}

-- What a call returns, such as the text that a command prints, or the text of its error.
pub data Outcome (A : Type 0) : Type 0 where
  done : A → Outcome A
  rejected_with : Text → Outcome A
  panicked : Outcome A

abbrev concat : List Text → Text
concat [] = []
concat (t ∷ ts) = t ++ concat ts

abbrev newline : Text
newline = 10 ∷ []

-- `hex::decode`, the text of a `DatumError`, and what `run_async` makes of an error's text.
pub record ModuleParts : Type 0 where
  pub decode_hex : Text → Bytes ⊎ Text
  pub display : DatumError → Text
  pub run_error : Text → Text

abbrev pub show_bool : Bool → Text
show_bool true = codes "true"
show_bool false = codes "false"

-- `trim_start_matches("0x")`
unfoldable pub trim_0x : Text → Text
trim_0x [] = []
trim_0x (a ∷ []) = a ∷ []
trim_0x (a ∷ b ∷ rest) =
    let trimmed = trim_0x rest in if (a == 48) && (b == 120) then trimmed else a ∷ b ∷ rest

unfoldable pub status_text : DatumStatus → Text
status_text status = concat (
    codes "DATUM Gateway module"
    ∷ newline
    ∷ codes "Running: "
    ∷ show_bool status.running
    ∷ newline
    ∷ codes "Pool connected: "
    ∷ show_bool status.pool_connected
    ∷ [])

-- `PathBuf::join` of a relative path, on Unix.
unfoldable pub join_path : Text → Text → Text
join_path [] name = name
join_path (c ∷ []) name = if c == 47 then c ∷ name else c ∷ 47 ∷ name
join_path (c ∷ d ∷ rest) name = c ∷ join_path (d ∷ rest) name

-- `config_path`
unfoldable pub config_path_command : Text → Outcome Text
config_path_command data_dir = done (join_path data_dir (codes "config.toml"))

-- `event_types`: those that the attribute `on_event` names.
abbrev pub event_types : List EventType
event_types =
    block_mined ∷ block_template_updated ∷ mining_difficulty_changed ∷ new_block ∷ chain_reorg
    ∷ share_submitted ∷ []

module _ (parts : ModuleParts) where
  abbrev pub reconnected_text : Result Text → Outcome Text
  reconnected_text (ok t) = done t
  reconnected_text (err e) =
      rejected_with (parts.run_error (text "Reconnect failed: " ++ parts.display e))
  reconnected_text panic = panicked

  abbrev pub submitted_text : Result Bool → Outcome Text
  submitted_text (ok true) = done (codes "Submitted: accepted" ++ (10 ∷ []))
  submitted_text (ok false) = done (codes "Submitted: rejected" ++ (10 ∷ []))
  submitted_text (err e) =
      rejected_with (parts.run_error (text "submit-pow failed: " ++ parts.display e))
  submitted_text panic = panicked

  abbrev pub handled : Result (Unit {0}) → Outcome (Unit {0})
  handled (ok v) = done tt
  handled (err e) = rejected_with (parts.display e)
  handled panic = panicked

module _ {Header Tx : Type 0} where
  unfoldable pub status_command : Server Header Tx → Outcome Text
  status_command s = done (status_text (get_status s))

  unfoldable pub datum_info_command : Server Header Tx → Outcome Text
  datum_info_command s =
      let info = get_pool_info s in
      done (
        concat (
          codes "DATUM pool info"
          ∷ newline
          ∷ codes "Pool URL: "
          ∷ info.pool_url
          ∷ newline
          ∷ codes "Pool connected: "
          ∷ show_bool info.pool_connected
          ∷ newline
          ∷ codes "Has coinbase: "
          ∷ show_bool info.has_coinbase
          ∷ newline
          ∷ codes "Active jobs: "
          ∷ decimal info.job_count
          ∷ newline
          ∷ codes "Has template: "
          ∷ show_bool info.has_template
          ∷ []))

  unfoldable pub pool_status_command : Server Header Tx → Outcome Text
  pool_status_command s =
      let info = get_pool_info s in
      done (
        concat (
          codes "Pool: "
          ∷ info.pool_url
          ∷ codes " | Connected: "
          ∷ show_bool info.pool_connected
          ∷ codes " | Jobs: "
          ∷ decimal info.job_count
          ∷ codes " | Template: "
          ∷ show_bool info.has_template
          ∷ []))

  module _ (parts : ModuleParts) where
    unfoldable pub reconnect_command :
        Crypto
        → (Text → Stream ⊎ Text)
        → Entropy
        → Server Header Tx
        → Outcome Text × Server Header Tx
    reconnect_command crypto dial e s =
        let run = reconnect_pool crypto dial e s in (reconnected_text parts run.0, run.1)

    abbrev pub submit_decoded :
        Crypto → Bytes ⊎ Text → Server Header Tx → Outcome Text × Server Header Tx
    submit_decoded crypto (inl pow_data) s =
        let run = submit_to_server crypto pow_data s in (submitted_text parts run.0, run.1)
    submit_decoded crypto (inr e) s = (rejected_with e, s)

    unfoldable pub submit_pow_command :
        Crypto → Text → Server Header Tx → Outcome Text × Server Header Tx
    submit_pow_command crypto payload s =
        submit_decoded crypto (parts.decode_hex (trim_0x payload)) s

    -- Without a node's interface in the context, `expect` panics.
    unfoldable pub on_mining_event :
        Crypto
        → (Tx → List Int64)
        → Option (NodeApi Header Tx)
        → EventType
        → Server Header Tx
        → Outcome (Unit {0}) × Server Header Tx
    on_mining_event crypto values none kind s = (panicked, s)
    on_mining_event crypto values (some node) kind s =
        let run = handle_event crypto values node (event kind) s in (handled parts run.0, run.1)
