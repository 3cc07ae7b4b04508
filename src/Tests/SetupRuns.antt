-- ===== src/Tests/SetupRuns.antt =====
-- The set-up of the module, and what its server does then: src/main.rs and src/server.rs.
use blvm_datum.Common.{ℕ, ◌≡◌, refl, Option, none, some, inl, inr, [], ◌∷◌, true}
use blvm_datum.Error.{Text, codes}
use blvm_datum.Config.{DatumConfig, default_config, to_context_map, lookup}
use blvm_datum.Pool.{new_pool}
use blvm_datum.Server.{Server, event, chain_reorg, new_server, start_server}
use blvm_datum.Server.Status.{status_of, IsAttended}
use blvm_datum.Server.Status.Refinement.{handle, reconnect, submit, apply, idle, and_then}
use blvm_datum.Module.{ModuleParts, Outcome, done, rejected_with, panicked}
use blvm_datum.Entry.{Sdk, setup_call, main}
use blvm_datum.Entry.Startup.{IsStarted, main-IsStarted}
use blvm_datum.Setup.{DatumModule, setup}
use blvm_datum.Setup.Branches.{is_configured, SetUp, setup-SetUp}
use blvm_datum.Setup.Attendance.{setup-IsAttended}
use blvm_datum.Tests.Toy.{toy, dial, dial-IsBytes, entropy}
use blvm_datum.Tests.ServerRuns.{node, values, server}

abbrev busy : Server ℕ ℕ
busy = apply toy dial values (submit (5 ∷ [])) (
    apply toy dial values (handle node (event chain_reorg))
      (apply toy dial values (reconnect entropy) server))

abbrev parts : ModuleParts
parts = record {
  decode_hex = λ t. inr (codes "odd length");
  display = λ e. codes "error";
  run_error = λ t. t;
}

-- The SDK's context, which holds the configuration of the file.
abbrev context : DatumConfig → Text → Text → Option Text
context config data_dir key = lookup key (to_context_map config)

abbrev config : DatumConfig
config = record {
  pool_url = some (codes "tcp://pool:23334");
  pool_username = some (codes "user");
  pool_password = some (codes "password");
  pool_public_key = none;
  reconnect_interval = 30;
  min_difficulty = none;
}

setup-SetUp_example :
    SetUp parts
      (codes "/data")
      (is_configured (context config (codes "/data")))
      (setup toy dial entropy parts (context config) node (codes "/data"))
setup-SetUp_example =
    setup-SetUp toy dial entropy parts (context config) dial-IsBytes node (codes "/data")

-- A module that runs without a pool.
abbrev solo : DatumModule ℕ ℕ
solo = record {
  server = (start_server (record { pool = new_pool; running = true; receive_loops = 0 })).1;
  data_dir = codes "/data";
}

setup-solo :
    setup toy dial entropy parts (λ data_dir key. none) node (codes "/data") ≡ done (solo, solo)
unfolding setup new_server start_server new_pool
setup-solo = refl

setup-IsAttended_example :
    IsAttended 0 (status_of (apply toy dial values (handle node (event chain_reorg)) solo.server))
setup-IsAttended_example =
    setup-IsAttended toy dial entropy parts (λ data_dir key. none) values dial-IsBytes node
      (codes "/data") solo solo
      (apply toy dial values (handle node (event chain_reorg)) solo.server) setup-solo
      (and_then (handle node (event chain_reorg)) idle)

abbrev outcome_of : Outcome (DatumModule ℕ ℕ × DatumModule ℕ ℕ) → Outcome (Unit {0})
outcome_of (done modules) = done tt
outcome_of (rejected_with problem) = rejected_with problem
outcome_of panicked = panicked

outcome_of-done :
    (r : Outcome (DatumModule ℕ ℕ × DatumModule ℕ ℕ))
    → outcome_of r ≡ done tt
    → (m : DatumModule ℕ ℕ) × (cli : DatumModule ℕ ℕ) × (r ≡ done (m, cli))
outcome_of-done (done (m, cli)) h = (m, cli, refl)
outcome_of-done (rejected_with problem) h = cc
outcome_of-done panicked h = cc

-- An SDK that runs the set-up and ends as it does, over the configuration of no pool.
abbrev sdk : Sdk ℕ ℕ Text (Unit {0})
sdk = record {
  init_module = λ name. codes "/data";
  data_dir = λ bootstrap. bootstrap;
  open_db = λ dir. inl tt;
  context_with_config = λ bootstrap dir. (context default_config dir, default_config);
  run_module = λ bootstrap name db call kinds. outcome_of (call node db bootstrap);
}

sdk-main : main toy dial entropy parts sdk ≡ done tt
sdk-main =
    unfold main setup new_server start_server new_pool lookup to_context_map default_config in refl

main-IsStarted_example :
    (m : DatumModule ℕ ℕ) × IsStarted sdk
      (setup_call toy dial entropy parts sdk (codes "/data"))
      (codes "/data")
      m
main-IsStarted_example =
    main-IsStarted sdk toy dial entropy parts dial-IsBytes (λ bootstrap dir name. refl)
      (λ bootstrap name db call kinds ends.
        let (m, cli, made) = outcome_of-done (call node db bootstrap) ends in
        (node, bootstrap, m, cli, made))
      sdk-main
