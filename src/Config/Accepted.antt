-- ===== src/Config/Accepted.antt =====
-- A configuration that `validate_semantics` of src/config/mod.rs accepts, as a whole.
use central_ssh.Prelude.{
  ◌≤◌, ◌<◌, ◌≡◌, ◌≢◌, ◌↔◌, true, false, List, [], ◌∷◌, Result, ok, is_empty, all, any, All, arith,
  unwrap_or,
}
use central_ssh.Prelude.Text.{Text, text_eq_class, len}
use central_ssh.Error.{Error}
use central_ssh.Abuse.Types.{Platform}
use central_ssh.Kex.Policy.{Russh, validate_kex_policy}
use central_ssh.Auth.Crypto.{Crypto}
use central_ssh.Config.Types.{has_explicit_entries, UserRecord, Servers, ConfigFile}
use central_ssh.Config.Validate.{
  is_component_char, is_valid_username, check_servers, check_users, validate_authorization_policy,
  validate_semantics,
}
use central_ssh.Config.Semantics.{
  AreValidUsers, AreValidServers, PoliciesAllowed, users_sound, users_complete, servers_sound,
  policies_sound,
}

module _ (P : Platform) (C : Crypto) (R : Russh) (read : Text → Result Error Text) where
  -- The checks of `validate_semantics`, one by one.
  record Checks (config : ConfigFile P) (servers : Servers) : Type 0 where
    kex : validate_kex_policy R config.kex_policy ≡ ok tt
    least : unwrap_or config.settings.min_password_policy 0 ≤ 256
    some_user : is_empty config.users ≡ false
    some_server : is_empty servers ≡ false
    hosts : check_servers P [] servers ≡ ok tt
    users : check_users C servers [] config.users ≡ ok tt
    policies : validate_authorization_policy P config servers ≡ ok tt

  checks :
      (config : ConfigFile P) (servers : Servers)
      → validate_semantics P C R read config servers ≡ ok tt
      → Checks config servers
  unfolding validate_semantics
  checks config servers h = record {
    kex = ground arith;
    least = ground arith;
    some_user = ground arith;
    some_server = ground arith;
    hosts = ground arith;
    users = ground arith;
    policies = ground arith;
  }

  -- An accepted configuration has a user and a server; every server has a well-formed name of its
  -- own and a well-formed host; every user has a well-formed name of its own, a usable password,
  -- a usable one-time secret if any, and at least one server, all of them configured; and the
  -- least password length is at most 256.
  pub validate_semantics_sound :
      (config : ConfigFile P) (servers : Servers)
      → validate_semantics P C R read config servers ≡ ok tt
      → AreValidUsers C servers [] config.users
        × AreValidServers P [] servers
        × (is_empty config.users ≡ false)
        × (is_empty servers ≡ false)
        × (unwrap_or config.settings.min_password_policy 0 ≤ 256)
  validate_semantics_sound config servers h =
      let c = checks config servers h in
      (
        users_sound C servers [] config.users c.users,
        servers_sound P [] servers c.hosts,
        c.some_user,
        c.some_server,
        c.least,
      )

  -- Under the mode per user and server, an accepted configuration has no policy fields in user
  -- records, and its policy tables name only configured servers and, for each, configured users
  -- that may reach it.
  pub accepted_policies :
      (config : ConfigFile P) (servers : Servers)
      → validate_semantics P C R read config servers ≡ ok tt
      → unwrap_or config.settings.per_user_per_server true ≡ true
      → (any (λ u. has_explicit_entries u.authorization) config.users ≡ false)
        × PoliciesAllowed config.users servers config.server_user_policies
  unfolding validate_authorization_policy
  accepted_policies config servers h mode =
      let p = (checks config servers h).policies in
      (
        ground (arith, p),
        policies_sound config.users servers config.server_user_policies (ground (arith, p)),
      )

-- The loop over the users accepts a list exactly when every user in it is valid and no two have
-- the same name.
pub check_users_iff :
    (C : Crypto) (servers : Servers) (users : List UserRecord)
    → (check_users C servers [] users ≡ ok tt) ↔ AreValidUsers C servers [] users
check_users_iff C servers users =
    (users_sound C servers [] users, users_complete C servers [] users)

component_chars :
    (name : Text)
    → all is_component_char name ≡ true
    → All (λ c. (c < 128) × (c ≢ b'/') × (c ≢ 0)) name
unfolding is_component_char
component_chars [] h = tt
component_chars (c ∷ name) h =
    ((ground arith, λ e. ground arith, λ e. ground arith), component_chars name (ground arith))

-- An accepted user name is not empty, at most 64 bytes long, all ASCII, and has neither a slash
-- nor a zero byte.
pub is_valid_username_sound :
    (name : Text)
    → is_valid_username name ≡ true
    → (name ≢ []) × (len name ≤ 64) × All (λ c. (c < 128) × (c ≢ b'/') × (c ≢ 0)) name
unfolding is_valid_username
is_valid_username_sound name h =
    (λ e. ground arith, ground arith, component_chars name (ground arith))
