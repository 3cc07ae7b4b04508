-- ===== src/Tests/ApiRuns.antt =====
-- Requests of other modules: src/api.rs with JSON that is only counted.
use blvm_datum.Common.{◌↔◌, All, false, ℕ, ◌≡◌, inl, [], length}
use blvm_datum.Error.{codes}
use blvm_datum.Pool.{Pool, new_pool}
use blvm_datum.Server.{Block}
use blvm_datum.Client.Handshake.{bytes_eq}
use blvm_datum.Api.{
  list_methods, ApiParts, handle_request, without_client, handle_request-without_client,
}
use blvm_datum.Api.Methods.{unknown, handle_request-unknown_iff}
use blvm_datum.Tests.Toy.{toy}

abbrev parts : ApiParts ℕ ℕ
parts = record {
  json_null = 0;
  json_bool = λ b. 1;
  json_number = λ n. 1;
  json_string = λ t. 1;
  json_array = λ js. length js;
  json_object = λ fields. length fields;
  to_vec = λ j. inl [];
  encode_hex = λ bytes. bytes;
  prev_block_hash = λ header. [];
  merkle_root = λ header. [];
  timestamp = λ header. header;
  bits = λ header. header;
  display_io = λ e. [];
}

abbrev fresh : Pool (Block ℕ ℕ)
fresh = new_pool

handle_request-unknown_iff_example :
    ((handle_request parts toy (codes "get_block") [] fresh).0 ≡ unknown (codes "get_block"))
    ↔ All (λ name. bytes_eq (codes "get_block") name ≡ false) list_methods
handle_request-unknown_iff_example =
    handle_request-unknown_iff parts toy (codes "get_block") [] fresh

handle_request-without_client_example :
    without_client (handle_request parts toy (codes "submit_pow") [] fresh).1 ≡ without_client fresh
handle_request-without_client_example =
    handle_request-without_client parts toy (codes "submit_pow") [] fresh
