-- ===== src/Tests/CommandRuns.antt =====
-- The commands of the module: src/module.rs.
use blvm_datum.Common.{ℕ, inl, some, true}
use blvm_datum.Error.{codes}
use blvm_datum.Pool.{new_pool}
use blvm_datum.Server.{Server, Block}
use blvm_datum.Module.{ModuleParts, reconnect_command}
use blvm_datum.Module.Commands.{StatusAfter, reconnect_command-StatusAfter}
use blvm_datum.Tests.Toy.{toy, dial, dial-IsBytes, entropy}

abbrev parts : ModuleParts
parts = record { decode_hex = λ t. inl t; display = λ e. codes "error"; run_error = λ t. t }

abbrev server : Server ℕ ℕ
server = record {
  pool = record (new_pool {Block = Block ℕ ℕ}) {
    pool_url = some (codes "tcp://pool:23334");
    pool_username = some (codes "user");
    pool_password = some (codes "password");
  };
  running = true;
  receive_loops = 1;
}

reconnect_command-StatusAfter_example :
    StatusAfter server
      (reconnect_command parts toy dial entropy server).0
      (reconnect_command parts toy dial entropy server).1
reconnect_command-StatusAfter_example =
    reconnect_command-StatusAfter parts toy dial entropy server dial-IsBytes
