-- ===== src/Setup/Branches.antt =====
-- How the set-up of the module ends, on every branch.
use blvm_datum.Common.{
  subst, ◌+◌, ◌≡◌, ◌⊎◌, inl, refl, ap, ap₂, ◌∙◌, Bool, true, false, ◌&&◌, Option, none, some, ◌++◌,
  arith,
}
use blvm_datum.Error.{Result, ok, DatumError, Text, text, codes, ◌>>=◌}
use blvm_datum.Error.Ensures.{Ensures, holds, failed, Ensures-bind, map_err-Ensures}
use blvm_datum.Bytes.{Bytes, IsBytes}
use blvm_datum.Crypto.{Crypto}
use blvm_datum.Stream.{Stream}
use blvm_datum.Client.{Client}
use blvm_datum.Client.Logic.{Meets, returns, fails, Meets-map}
use blvm_datum.Client.Handshake.{Entropy}
use blvm_datum.Client.Connect.{connect-Meets}
use blvm_datum.Pool.{Pool, is_some, new_pool, set_key, connect_pool, keep_client, make_client}
use blvm_datum.Pool.Operations.{has_settings}
use blvm_datum.Server.{
  Server, NodeApi, with_key, first_connect, new_server, start_server, spawn_loop, get_status,
}
use blvm_datum.Server.Status.{Status, status_of, one_if}
use blvm_datum.Module.{ModuleParts, Outcome, done, rejected_with}
use blvm_datum.Setup.{DatumModule, after_new, key_bytes, setup}

-- Whether the context names a pool, a user and a password.
abbrev pub is_configured : (Text → Option Text) → Bool
is_configured config =
    is_some (config (codes "pool_url"))
    && is_some (config (codes "pool_username"))
    && is_some (config (codes "pool_password"))

-- A server that has been made, and one that has been started.
abbrev pub fresh : Bool → Status
fresh connected = record {
  running = false;
  configured = connected;
  connected = connected;
  has_template = false;
  loops = 0;
}

abbrev pub started : Bool → Status
started connected = record {
  running = true;
  configured = connected;
  connected = connected;
  has_template = false;
  loops = one_if connected;
}

-- A pool with or without settings and a client, and without a template.
abbrev Outlook : {Block : Type 0} → Bool → Pool Block → Type 0
Outlook connected p =
    (is_some p.protocol_client ≡ connected)
    × (is_some p.current_template ≡ false)
    × (has_settings p ≡ connected)

with_key-template :
    (Header Tx : Type 0) (key : Option Bytes)
    → is_some (with_key {Header = Header} {Tx = Tx} key new_pool).current_template ≡ false
unfolding new_pool set_key
with_key-template Header Tx none = refl
with_key-template Header Tx (some key) = refl

module _ (crypto : Crypto) (dial : Text → Stream ⊎ Text) (e : Entropy)
    (readable : (address : Text) (t : Stream) → dial address ≡ inl t → IsBytes t.incoming) where
  connect_pool-Outlook :
      {Block : Type 0} (url username password : Text) (p : Pool Block)
      → is_some p.current_template ≡ false
      → Ensures (Outlook true) (
          (connect_pool crypto dial e url username password p).0 >>= λ _.
          ok (connect_pool crypto dial e url username password p).1)
  unfolding connect_pool
  connect_pool-Outlook {Block} url username password p h = go _ _ (
      Meets-map {P' = λ _ _. Unit {0}} {Q' = λ _. Unit {0}}
        (connect-Meets crypto dial e (make_client p.pool_public_key url) readable) (λ _ _ _. tt)
        (λ _ _. tt))
    where
      q : Pool Block
      q = record p {
        pool_url = some url;
        pool_username = some username;
        pool_password = some password;
      }

      go :
          (r : Result (Unit {0})) (c : Client)
          → Meets (λ _ _. Unit {0}) (λ _. Unit {0}) r c
          → Ensures (Outlook true) ((keep_client r c q).0 >>= λ _. ok (keep_client r c q).1)
      go _ c (returns _) = holds (refl, h, refl)
      go _ c (fails _) = failed

  first_connect-Outlook :
      {Header Tx : Type 0} (url username password : Option Text) (key : Option Bytes)
      → Ensures
          (Outlook (is_some url && is_some username && is_some password))
          (first_connect {Header = Header} {Tx = Tx} crypto dial e url username password key)
  unfolding new_pool
  first_connect-Outlook (some url) (some username) (some password) key =
      connect_pool-Outlook url username password (with_key key new_pool) (with_key-template _ _ key)
  first_connect-Outlook (some url) (some username) none key = holds (refl, refl, refl)
  first_connect-Outlook (some url) none _ key = holds (refl, refl, refl)
  first_connect-Outlook none _ _ key = holds (refl, refl, refl)

  new_server-fresh :
      {Header Tx : Type 0} (decode_hex : Text → Option Bytes) (node : NodeApi Header Tx)
      (config : Text → Option Text)
      → Ensures
          (λ s. status_of s ≡ fresh (is_configured config))
          (new_server crypto dial e decode_hex node config)
  unfolding new_server get_status
  new_server-fresh decode_hex node config =
      Ensures-bind (first_connect-Outlook _ _ _ _) λ p (has_client, no_template, settings).
        Ensures-bind (map_err-Ensures node.register_module_api _) λ _ _. holds (
          ap₂ (λ c t. record (fresh c) { configured = has_settings p; has_template = t }) has_client
            no_template
          ∙ ap (λ k. record (fresh (is_configured config)) { configured = k }) settings)

start_server-started :
    {Header Tx : Type 0} (s : Server Header Tx) (connected : Bool)
    → status_of s ≡ fresh connected
    → status_of (start_server s).1 ≡ started connected
unfolding start_server get_status
start_server-started s connected h =
    go connected (ap (λ (v : Status). v.connected) h) (ap (λ (v : Status). v.has_template) h)
      (ap (λ (v : Status). v.loops) h) (ap (λ (v : Status). v.configured) h)
  where
    go :
        (b : Bool)
        → is_some s.pool.protocol_client ≡ b
        → is_some s.pool.current_template ≡ false
        → s.receive_loops ≡ 0
        → has_settings s.pool ≡ b
        → status_of (spawn_loop (record s { running = true })) ≡ started b
    go true e t n known =
        rw (e, e)
          (ap₂
              (λ h k. record (started true) {
                configured = has_settings s.pool;
                has_template = h;
                loops = k;
              })
              t (ap (λ k. k + 1) n ∙ omega arith)
            ∙ ap (λ k. record (started true) { configured = k }) known)
    go false e t n known =
        rw (e, e)
          (ap₂
              (λ h k. record (started false) {
                configured = has_settings s.pool;
                has_template = h;
                loops = k;
              })
              t n
            ∙ ap (λ k. record (started false) { configured = k }) known)

-- How a set-up can end.
pub data SetUp {Header Tx : Type 0} (parts : ModuleParts) (data_dir : Text) (connected : Bool)
    : Outcome (DatumModule Header Tx × DatumModule Header Tx) → Type 0 where
  set_up :
      (m : DatumModule Header Tx)
      → m.data_dir ≡ data_dir
      → status_of m.server ≡ started connected
      → SetUp parts data_dir connected (done (m, m))
  not_created :
      (x : DatumError)
      → SetUp parts data_dir connected
          (rejected_with (text "Failed to create server: " ++ parts.display x))

-- What a set-up that returns has made.
pub SetUp-done :
    {Header Tx : Type 0} (parts : ModuleParts) (data_dir : Text) (connected : Bool)
    (out : Outcome (DatumModule Header Tx × DatumModule Header Tx)) (m : DatumModule Header Tx)
    (cli : DatumModule Header Tx)
    → SetUp parts data_dir connected out
    → out ≡ done (m, cli)
    → (m.data_dir ≡ data_dir) × (status_of m.server ≡ started connected)
SetUp-done {Header} {Tx} parts data_dir connected _ m cli (set_up n here h) e =
    subst
      (λ (k : DatumModule Header Tx).
        (k.data_dir ≡ data_dir) × (status_of k.server ≡ started connected))
      {x = n} {y = m}
      (ap (λ (p : DatumModule Header Tx × DatumModule Header Tx). p.0) {x = (n, n)} {y = (m, cli)}
        (cc e))
      (here, h)
SetUp-done parts data_dir connected _ m cli (not_created x) e = cc

module _ {Header Tx : Type 0} (crypto : Crypto) (dial : Text → Stream ⊎ Text) (e : Entropy)
    (parts : ModuleParts) (context : Text → Text → Option Text) where
  -- If what every dialled stream can read is bytes, a set-up does not panic. If it returns, it gives
  -- the same module twice, with the data directory that it was given and a server that runs, has no
  -- template, and is connected exactly if the context names a pool, a user and a password, in which
  -- case one receive loop has been spawned, and else none. If it fails, it says that the server could
  -- not be created, with the text of the error behind it.
  pub setup-SetUp :
      ((address : Text) (t : Stream) → dial address ≡ inl t → IsBytes t.incoming)
      → (node : NodeApi Header Tx) (data_dir : Text)
      → SetUp parts data_dir
          (is_configured (context data_dir))
          (setup crypto dial e parts context node data_dir)
  unfolding setup
  setup-SetUp readable node data_dir = go _ (
      new_server-fresh crypto dial e readable (λ hex. key_bytes (parts.decode_hex hex)) node
        (context data_dir))
    where
      b : Bool
      b = is_configured (context data_dir)

      go :
          (r : Result (Server Header Tx))
          → Ensures (λ s. status_of s ≡ fresh b) r
          → SetUp parts data_dir b (after_new parts data_dir r)
      go _ (holds {a} h) = unfold start_server in set_up _ refl (start_server-started a b h)
      go _ failed = not_created _
