-- ===== src/Config.antt =====
-- src/config.rs: the configuration, and the map of it that the server reads.
use blvm_datum.Common.{
  ℕ, true, false, Option, none, some, List, [], ◌∷◌, ◌≡◌, refl, ◌∙◌, if◌then◌else◌,
}
use blvm_datum.Error.{Text, codes}
use blvm_datum.Client.Handshake.{bytes_eq}

pub record DatumConfig : Type 0 where
  pub pool_url : Option Text
  pub pool_username : Option Text
  pub pool_password : Option Text
  pub pool_public_key : Option Text
  pub reconnect_interval : ℕ
  pub min_difficulty : Option ℕ

-- The interval of a file that does not name one.
unfoldable pub default_reconnect_interval : ℕ
default_reconnect_interval = 30

-- `DatumConfig::default()`, which is derived.
unfoldable pub default_config : DatumConfig
default_config = record {
  pool_url = none;
  pool_username = none;
  pool_password = none;
  pool_public_key = none;
  reconnect_interval = 0;
  min_difficulty = none;
}

-- A map from texts to texts: what was inserted last stands first.
abbrev pub TextMap : Type 0
TextMap = List (Text × Text)

unfoldable pub lookup : Text → TextMap → Option Text
lookup key [] = none
lookup key ((name, value) ∷ rest) = if bytes_eq key name then some value else lookup key rest

-- `if let Some(v) = field { m.insert(name, v) }`
abbrev pub insert_some : Text → Option Text → TextMap → TextMap
insert_some name none m = m
insert_some name (some value) m = (name, value) ∷ m

unfoldable pub to_context_map : DatumConfig → TextMap
to_context_map c = insert_some (codes "pool_public_key") c.pool_public_key (
    insert_some (codes "pool_password") c.pool_password (
      insert_some (codes "pool_username") c.pool_username
        (insert_some (codes "pool_url") c.pool_url [])))

skipped :
    (key name : Text) (o : Option Text) (m : TextMap)
    → bytes_eq key name ≡ false
    → lookup key (insert_some name o m) ≡ lookup key m
unfolding lookup
skipped key name none m e = refl
skipped key name (some value) m e = rw e refl

found :
    (key name : Text) (o : Option Text) (m : TextMap)
    → bytes_eq key name ≡ true
    → lookup key m ≡ none
    → lookup key (insert_some name o m) ≡ o
unfolding lookup
found key name none m e missing = missing
found key name (some value) m e missing = rw e refl

-- The map holds the four texts of the configuration under their names.
pub lookup-to_context_map :
    (c : DatumConfig)
    → (lookup (codes "pool_url") (to_context_map c) ≡ c.pool_url)
      × (lookup (codes "pool_username") (to_context_map c) ≡ c.pool_username)
      × (lookup (codes "pool_password") (to_context_map c) ≡ c.pool_password)
      × (lookup (codes "pool_public_key") (to_context_map c) ≡ c.pool_public_key)
unfolding to_context_map bytes_eq lookup
lookup-to_context_map c = (
  skipped url key_name c.pool_public_key _ refl
      ∙ skipped url password c.pool_password _ refl
      ∙ skipped url username c.pool_username _ refl
      ∙ found url url c.pool_url [] refl refl,
  skipped username key_name c.pool_public_key _ refl
      ∙ skipped username password c.pool_password _ refl
      ∙ found username username c.pool_username _ refl (skipped username url c.pool_url [] refl),
  skipped password key_name c.pool_public_key _ refl
      ∙ found password password c.pool_password _ refl (
          skipped password username c.pool_username _ refl
          ∙ skipped password url c.pool_url [] refl),
  found key_name key_name c.pool_public_key _ refl (
      skipped key_name password c.pool_password _ refl
      ∙ skipped key_name username c.pool_username _ refl
      ∙ skipped key_name url c.pool_url [] refl),
)
  where
    url : Text
    url = codes "pool_url"

    username : Text
    username = codes "pool_username"

    password : Text
    password = codes "pool_password"

    key_name : Text
    key_name = codes "pool_public_key"
