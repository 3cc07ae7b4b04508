-- ===== src/Api.antt =====
-- src/api.rs: the requests of other modules. JSON values and their text are serde_json's, and hex
-- is the hex crate's: parameters.
pub mod Methods
use blvm_datum.Common.{
  ℕ, ◌≡◌, refl, Bool, true, false, inl, inr, Option, none, some, List, [], ◌∷◌, ◌++◌, ◌⊎◌, map,
  length, All, if◌then◌else◌,
}
use blvm_datum.Error.{
  Result, ok, err, panic, DatumError, protocol_error, template_error, pool_connection_error,
  stratum_error, encryption_error, config_error, node_api_error, io_error, serialization_error,
  IoError, Text, text, codes,
}
use blvm_datum.Bytes.{Bytes}
use blvm_datum.Crypto.{Crypto}
use blvm_datum.Coinbase.{CoinbaseOutput, CoinbasePayout}
use blvm_datum.Client.{Client}
use blvm_datum.Client.Transport.{submit_pow_request}
use blvm_datum.Client.Handshake.{bytes_eq}
use blvm_datum.Pool.{Pool, DatumPoolInfo, pool_info, submit_to_pool, on_client}
use blvm_datum.Server.{Block}

-- `serde_json::Value` by its constructors, `to_vec`, and `hex::encode`; the fields that the program
-- reads of a block's header, and the text of an `std::io::Error`.
pub record ApiParts (Json Header : Type 0) : Type 0 where
  pub json_null : Json
  pub json_bool : Bool → Json
  pub json_number : ℕ → Json
  pub json_string : Text → Json
  pub json_array : List Json → Json
  pub json_object : List (Text × Json) → Json
  pub to_vec : Json → Bytes ⊎ Text
  pub encode_hex : Bytes → Text
  pub prev_block_hash : Header → Bytes
  pub merkle_root : Header → Bytes
  pub timestamp : Header → ℕ
  pub bits : Header → ℕ
  pub display_io : IoError → Text

-- A result with `ModuleError::OperationError` as its error.
pub data ApiResult : Type 0 where
  answer : Bytes → ApiResult
  operation_error : Text → ApiResult
  api_panic : ApiResult

unfoldable pub list_methods : List Text
list_methods =
    codes "get_coinbase_payout"
    ∷ codes "submit_pow"
    ∷ codes "get_pool_status"
    ∷ codes "get_last_block"
    ∷ []

unfoldable pub api_version : ℕ
api_version = 1

abbrev pub written : Bytes ⊎ Text → ApiResult
written (inl bytes) = answer bytes
written (inr e) = operation_error (text "Serialization error: " ++ e)

module _ {Json Header : Type 0} (parts : ApiParts Json Header) where
  -- `impl Display for DatumError`
  unfoldable pub display : DatumError → Text
  display (protocol_error e) = text "Protocol error: " ++ e
  display (template_error e) = text "Template error: " ++ e
  display (pool_connection_error e) = text "Pool connection error: " ++ e
  display (stratum_error e) = text "Stratum error: " ++ e
  display (encryption_error e) = text "Encryption error: " ++ e
  display (config_error e) = text "Configuration error: " ++ e
  display (node_api_error e) = text "Node API error: " ++ e
  display (io_error e) = text "IO error: " ++ parts.display_io e
  display (serialization_error e) = text "Serialization error: " ++ e

  abbrev pub serialize : Json → ApiResult
  serialize j = written (parts.to_vec j)

  abbrev pub output_json : CoinbaseOutput → Json
  output_json o = parts.json_object (
      (codes "script", parts.json_string (parts.encode_hex o.script))
      ∷ (codes "value", parts.json_number o.value)
      ∷ [])

  abbrev pub payout_json : Option CoinbasePayout → Json
  payout_json none = parts.json_null
  payout_json (some p) = parts.json_object (
      (codes "outputs", parts.json_array (map output_json p.outputs))
      ∷ (codes "primary_tag", parts.json_string p.primary_tag)
      ∷ (codes "unique_id", parts.json_string p.unique_id)
      ∷ [])

  abbrev pub submission : Result Bool → ApiResult
  submission (ok accepted) =
      serialize (parts.json_object ((codes "accepted", parts.json_bool accepted) ∷ []))
  submission (err e) = operation_error (text "submit_pow failed: " ++ display e)
  submission panic = api_panic

  -- `#[derive(Serialize)]` of `DatumPoolInfo`
  abbrev pub info_json : DatumPoolInfo → Json
  info_json i = parts.json_object (
      (codes "pool_url", parts.json_string i.pool_url)
      ∷ (codes "pool_connected", parts.json_bool i.pool_connected)
      ∷ (codes "has_coinbase", parts.json_bool i.has_coinbase)
      ∷ (codes "job_count", parts.json_number i.job_count)
      ∷ (codes "has_template", parts.json_bool i.has_template)
      ∷ [])

module _ {Json Header Tx : Type 0} (parts : ApiParts Json Header) where
  abbrev pub block_json : Option (Block Header Tx) → Json
  block_json none = parts.json_null
  block_json (some b) = parts.json_object (
      (codes "prev_hash", parts.json_string (parts.encode_hex (parts.prev_block_hash b.header)))
      ∷ (codes "merkle_root", parts.json_string (parts.encode_hex (parts.merkle_root b.header)))
      ∷ (codes "timestamp", parts.json_number (parts.timestamp b.header))
      ∷ (codes "bits", parts.json_number (parts.bits b.header))
      ∷ (codes "tx_count", parts.json_number (length b.transactions))
      ∷ [])

  unfoldable pub handle_request :
      Crypto → Text → Bytes → Pool (Block Header Tx) → ApiResult × Pool (Block Header Tx)
  handle_request crypto method params p =
      if bytes_eq method (codes "get_coinbase_payout")
      then (serialize parts (payout_json parts p.current_coinbase), p)
      else if bytes_eq method (codes "submit_pow")
      then (let run = submit_to_pool crypto params p in (submission parts run.0, run.1))
      else if bytes_eq method (codes "get_pool_status")
      then (serialize parts (info_json parts (pool_info p)), p)
      else if bytes_eq method (codes "get_last_block")
      then (
        serialize parts (parts.json_object ((codes "block", block_json p.current_template) ∷ [])),
        p,
      )
      else (operation_error (text "Unknown method: " ++ method), p)

  -- A method that is not listed is refused by its name, and the pool stays as it is.
  pub handle_request-unlisted :
      (crypto : Crypto) (method : Text) (params : Bytes) (p : Pool (Block Header Tx))
      → All (λ name. bytes_eq method name ≡ false) list_methods
      → handle_request crypto method params p
        ≡ (operation_error (text "Unknown method: " ++ method), p)
  unfolding handle_request list_methods
  handle_request-unlisted crypto method params p h = rw (h.0, h.1.0, h.1.1.0, h.1.1.1.0) refl

abbrev pub without_client : {Block : Type 0} → Pool Block → Pool Block
without_client p = record p { protocol_client = none }

if_either :
    {Block : Type 0} {q : Pool Block} (b : Bool) (x y : ApiResult × Pool Block)
    → without_client x.1 ≡ q
    → without_client y.1 ≡ q
    → without_client (if b then x else y).1 ≡ q
if_either true x y hx hy = hx
if_either false x y hx hy = hy

submit_to_pool-without_client :
    {Block : Type 0} (crypto : Crypto) (pow_data : Bytes) (p : Pool Block)
    → without_client (submit_to_pool crypto pow_data p).1 ≡ without_client p
unfolding submit_to_pool
submit_to_pool-without_client crypto pow_data p = go p.protocol_client
  where
    go :
        (o : Option Client)
        → without_client (on_client o (submit_pow_request crypto pow_data) p).1 ≡ without_client p
    go none = refl
    go (some c) = refl

module _ {Json Header Tx : Type 0} (parts : ApiParts Json Header) where
  -- No request, of whatever method, changes the pool but for its client.
  pub handle_request-without_client :
      (crypto : Crypto) (method : Text) (params : Bytes) (p : Pool (Block Header Tx))
      → without_client (handle_request parts crypto method params p).1 ≡ without_client p
  unfolding handle_request
  handle_request-without_client crypto method params p =
      if_either (bytes_eq method (codes "get_coinbase_payout")) _ _ refl (
        if_either (bytes_eq method (codes "submit_pow")) _ _
          (submit_to_pool-without_client crypto params p)
          (if_either (bytes_eq method (codes "get_pool_status")) _ _ refl
            (if_either (bytes_eq method (codes "get_last_block")) _ _ refl refl)))
