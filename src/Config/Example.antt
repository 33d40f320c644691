-- ===== src/Config/Example.antt =====
-- Concrete documents and a concrete store, at which theorems about src/config/mod.rs are applied: a
-- table is its strings and its Booleans, a document its tables.
use central_ssh.Prelude.{◌≡◌, refl, arith, Bool, true, false, none, some, List, [], ◌∷◌, ok}
use central_ssh.Prelude.Text.{Text, codes, text_eq, text_eq_class}
use central_ssh.Prelude.Assoc.{Map, lookup, insert, lookup-insert, lookup-insert_self}
use central_ssh.Abuse.Example.{platform}
use central_ssh.Config.Types.{UserRecord, SettingsConfig, no_policy}
use central_ssh.Kex.Policy.{default_kex_policy}
use central_ssh.Config.Policy.{Overrides, resolve_paths}
use central_ssh.Config.Store.{Toml, ConfigStore}

pub record Table : Type 0 where
  pub strings : Map Text Text
  pub booleans : Map Text Bool

pub set_ne :
    (k j v : Text) (m : Map Text Text) → text_eq j k ≡ false → lookup k (insert j v m) ≡ lookup k m
set_ne k j v m ne = ground (arith, lookup-insert j k v m, ne)

abbrev table_of : Text → Table
table_of name = record { strings = (codes "name", name) ∷ []; booleans = [] }

abbrev pub toml : Toml
toml = record {
  DocumentMut = List Table;
  Table = Table;
  parse = λ t. some (table_of (codes "bob") ∷ table_of (codes "carol") ∷ []);
  to_text = λ d. [];
  users = λ d. some d;
  set_users = λ ts d. ts;
  get_str = λ k t. lookup k (Table.strings t);
  set_str = λ k v t. record t { strings = insert k v (Table.strings t) };
  get_bool = λ k t. lookup k (Table.booleans t);
  set_bool = λ k b t. record t { booleans = insert k b (Table.booleans t) };
  users-set_users = λ ts d. refl;
  get_str-set_str = λ k v t. lookup-insert_self k v (Table.strings t);
  get_str-set_str_ne = λ k j v t ne. set_ne k j v (Table.strings t) ne;
  get_str-set_bool_ne = λ k j b t ne. refl;
  get_bool-set_bool = λ k b t. lookup-insert_self k b (Table.booleans t);
}

abbrev pub bob : UserRecord
bob = record {
  name = codes "bob";
  password = codes "$argon2id$hunter2";
  totp_secret = some (codes "JBSWY3DP");
  must_change_password = false;
  allowed_servers = codes "git" ∷ [];
  authorization = no_policy;
}

-- A user who logs in for the first time.
abbrev pub carol : UserRecord
carol = record {
  name = codes "carol";
  password = codes "BootstrapPass123!";
  totp_secret = none;
  must_change_password = true;
  allowed_servers = codes "git" ∷ [];
  authorization = no_policy;
}

abbrev pub no_overrides : Overrides
no_overrides = record {
  config_path = none;
  servers_path = none;
  known_hosts_path = none;
  user_key_root = none;
  audit_log_path = none;
  whitelist_path = none;
  per_user_per_server = none;
  drop_to_menu = none;
  hide_proxy_ip = none;
}

abbrev no_settings : SettingsConfig
no_settings = record {
  user_key_root = none;
  known_hosts_path = none;
  audit_log_path = none;
  whitelist_path = none;
  per_user_per_server = none;
  drop_to_menu = none;
  hide_proxy_ip = none;
  enforce_password_policy = none;
  min_password_policy = some 12;
}

abbrev pub store : ConfigStore toml platform
store = record {
  paths = resolve_paths no_overrides none;
  config = record {
    users = bob ∷ carol ∷ [];
    settings = no_settings;
    kex_policy = default_kex_policy;
    fail2ban = none;
    server_user_policies = [];
  };
  servers = (codes "git", codes "git.example.org") ∷ [];
  loaded_at = 0;
  file = ok [];
}
