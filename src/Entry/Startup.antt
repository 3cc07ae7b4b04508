-- ===== src/Entry/Startup.antt =====
-- What a run of the program that ends well has done.
use blvm_datum.Common.{◌≡◌, ◌⊎◌, inl, inr, refl, sym, subst, ap, ◌∙◌, Bool, ◌&&◌, List}
use blvm_datum.Error.{Text, codes}
use blvm_datum.Bytes.{IsBytes}
use blvm_datum.Crypto.{Crypto}
use blvm_datum.Stream.{Stream}
use blvm_datum.Client.Handshake.{Entropy}
use blvm_datum.Config.{DatumConfig, lookup, to_context_map, lookup-to_context_map}
use blvm_datum.Pool.{is_some}
use blvm_datum.Server.{NodeApi, EventType}
use blvm_datum.Server.Status.{status_of}
use blvm_datum.Module.{ModuleParts, done, event_types}
use blvm_datum.Setup.{DatumModule}
use blvm_datum.Setup.Branches.{is_configured, started, SetUp-done, setup-SetUp}
use blvm_datum.Entry.{Sdk, SetupCall, module_name, setup_call, after_open, main}

-- The configuration names a pool, a user and a password.
abbrev pub names_pool : DatumConfig → Bool
names_pool c = is_some c.pool_url && is_some c.pool_username && is_some c.pool_password

module _ {Header Tx Bootstrap Database : Type 0} (sdk : Sdk Header Tx Bootstrap Database) where
  -- The context's map is that of the configuration that comes with it.
  abbrev pub CarriesConfig : Type 0
  CarriesConfig =
      (bootstrap : Bootstrap) (data_dir name : Text)
      → (sdk.context_with_config bootstrap data_dir).0 name
        ≡ lookup name (to_context_map (sdk.context_with_config bootstrap data_dir).1)

  -- A run of a module returns only after the set-up has returned a module.
  abbrev pub RunsSetup : Type 0
  RunsSetup =
      (bootstrap : Bootstrap) (name : Text) (db : Database) (call : SetupCall Header Tx Database)
      (kinds : List EventType)
      → sdk.run_module bootstrap name db call kinds ≡ done tt
      → (node : NodeApi Header Tx) × (data_dir : Text) × (m : DatumModule Header Tx)
        × (cli : DatumModule Header Tx) × (call node db data_dir ≡ done (m, cli))

  -- The module that the set-up has made of an open data base, for some node and data directory, of which the
  -- server has been started.
  pub record IsStarted (call : SetupCall Header Tx Database) (bootstrap : Bootstrap)
      (m : DatumModule Header Tx) : Type 0 where
    pub db : Database
    pub node : NodeApi Header Tx
    pub cli : DatumModule Header Tx
    pub made : call node db m.data_dir ≡ done (m, cli)
    pub opened : sdk.open_db (sdk.data_dir bootstrap) ≡ inl db
    pub status :
        status_of m.server ≡ started (names_pool (sdk.context_with_config bootstrap m.data_dir).1)

  configured :
      CarriesConfig
      → (bootstrap : Bootstrap) (data_dir : Text)
      → is_configured (sdk.context_with_config bootstrap data_dir).0
        ≡ names_pool (sdk.context_with_config bootstrap data_dir).1
  configured carries bootstrap data_dir =
      let (url, username, password, key) =
        lookup-to_context_map (sdk.context_with_config bootstrap data_dir).1 in
      rw
        (
          carries bootstrap data_dir (codes "pool_url") ∙ url,
          carries bootstrap data_dir (codes "pool_username") ∙ username,
          carries bootstrap data_dir (codes "pool_password") ∙ password,
        )
        refl

  made-IsStarted :
      CarriesConfig
      → (call : SetupCall Header Tx Database) (bootstrap : Bootstrap) (db : Database)
        (node : NodeApi Header Tx) (data_dir : Text) (m cli : DatumModule Header Tx)
      → sdk.open_db (sdk.data_dir bootstrap) ≡ inl db
      → call node db data_dir ≡ done (m, cli)
      → m.data_dir ≡ data_dir
      → status_of m.server ≡ started (is_configured (sdk.context_with_config bootstrap data_dir).0)
      → IsStarted call bootstrap m
  made-IsStarted carries call bootstrap db node data_dir m cli found makes here h = record {
    db = db;
    node = node;
    cli = cli;
    made = subst (λ dir. call node db dir ≡ done (m, cli)) (sym here) makes;
    opened = found;
    status =
        subst
          (λ dir.
            status_of m.server ≡ started (names_pool (sdk.context_with_config bootstrap dir).1))
          (sym here) (h ∙ ap started (configured carries bootstrap data_dir));
  }

  module _ (crypto : Crypto) (dial : Text → Stream ⊎ Text) (e : Entropy) (parts : ModuleParts) where
    -- Let what every dialled stream can read be bytes, let the SDK's context carry the configuration,
    -- and let the SDK run the set-up. If the program ends well, then it has opened its data base, and the
    -- set-up that it hands to the SDK has returned a module over that data base: its server was running,
    -- with a connection and one receive loop if the configuration names a pool, a user and a password,
    -- and with neither if not.
    pub main-IsStarted :
        ((address : Text) (t : Stream) → dial address ≡ inl t → IsBytes t.incoming)
        → CarriesConfig
        → RunsSetup
        → main crypto dial e parts sdk ≡ done tt
        → (m : DatumModule Header Tx) × IsStarted
            (setup_call crypto dial e parts sdk (sdk.init_module module_name))
            (sdk.init_module module_name)
            m
    unfolding main
    main-IsStarted readable carries runs returned =
        opened (sdk.open_db (sdk.data_dir bootstrap)) refl returned
      where
        bootstrap : Bootstrap
        bootstrap = sdk.init_module module_name

        opened :
            (o : Database ⊎ Text)
            → sdk.open_db (sdk.data_dir bootstrap) ≡ o
            → after_open crypto dial e parts sdk bootstrap o ≡ done tt
            → (m : DatumModule Header Tx) × IsStarted
                (setup_call crypto dial e parts sdk bootstrap)
                bootstrap
                m
        opened (inr problem) found ends = cc
        opened (inl db) found ends =
            let (node, data_dir, m, cli, returns) =
              runs bootstrap module_name db (setup_call crypto dial e parts sdk bootstrap)
                event_types ends in
            let (here, status) =
              SetUp-done parts data_dir _ _ m cli
                (setup-SetUp crypto dial e parts (λ dir. (sdk.context_with_config bootstrap dir).0)
                  readable node data_dir)
                returns in
            (
              m,
              made-IsStarted carries (setup_call crypto dial e parts sdk bootstrap) bootstrap db
                  node data_dir m cli found returns here status,
            )
