-- ===== src/Config/Policy.antt =====
-- The authorization policy that a session gets, and the precedence of the command line over the
-- settings (`resolve_effective_authorization_policy`, `resolve_paths`, `apply_runtime_overrides`
-- of src/config/mod.rs).
use central_ssh.Prelude.{
  Bool, true, false, ◌≡◌, Option, some, Result, ok, ◌>>=◌, ok_or, and_then, or_else, unwrap_or,
  if◌then◌else◌, arith,
}
use central_ssh.Prelude.Text.{Text, codes, text_eq_class}
use central_ssh.Prelude.Assoc.{lookup}
use central_ssh.Error.{Error, invalid_config, lookup_unknown_user}
use central_ssh.Abuse.Types.{Platform}
use central_ssh.Config.Types.{
  SettingsConfig, AuthorizationPolicyConfig, EffectiveAuthorizationPolicy, no_policy, resolve,
  ConfigFile,
}
use central_ssh.Config.Validate.{find_user}

pub record EffectivePaths : Type 0 where
  pub config_path : Text
  pub servers_path : Text
  pub known_hosts_path : Text
  pub user_key_root : Text
  pub audit_log_path : Text
  pub whitelist_path : Option Text
  pub per_user_per_server : Bool
  pub drop_to_menu : Bool
  pub hide_proxy_ip : Bool

-- The options that the command line may set.
pub record Overrides : Type 0 where
  pub config_path : Option Text
  pub servers_path : Option Text
  pub known_hosts_path : Option Text
  pub user_key_root : Option Text
  pub audit_log_path : Option Text
  pub whitelist_path : Option Text
  pub per_user_per_server : Option Bool
  pub drop_to_menu : Option Bool
  pub hide_proxy_ip : Option Bool

unfoldable pub resolve_paths : Overrides → Option SettingsConfig → EffectivePaths
resolve_paths o settings = record {
  config_path = unwrap_or o.config_path (codes "/etc/centralssh/config.toml");
  servers_path = unwrap_or o.servers_path (codes "/etc/centralssh/servers.toml");
  known_hosts_path =
      unwrap_or
        (or_else o.known_hosts_path
          (and_then settings (λ (c : SettingsConfig). c.known_hosts_path)))
        (codes "/etc/centralssh/known_hosts");
  user_key_root =
      unwrap_or
        (or_else o.user_key_root (and_then settings (λ (c : SettingsConfig). c.user_key_root)))
        (codes "/var/lib/centralssh/keys");
  audit_log_path =
      unwrap_or
        (or_else o.audit_log_path (and_then settings (λ (c : SettingsConfig). c.audit_log_path)))
        (codes "/var/log/centralssh/audit.jsonl");
  whitelist_path =
      or_else o.whitelist_path (and_then settings (λ (c : SettingsConfig). c.whitelist_path));
  per_user_per_server =
      unwrap_or
        (or_else o.per_user_per_server
          (and_then settings (λ (c : SettingsConfig). c.per_user_per_server)))
        true;
  drop_to_menu =
      unwrap_or
        (or_else o.drop_to_menu (and_then settings (λ (c : SettingsConfig). c.drop_to_menu))) false;
  hide_proxy_ip =
      unwrap_or
        (or_else o.hide_proxy_ip (and_then settings (λ (c : SettingsConfig). c.hide_proxy_ip)))
        false;
}

module _ (P : Platform) where
  unfoldable pub apply_runtime_overrides : ConfigFile P → EffectivePaths → ConfigFile P
  apply_runtime_overrides config paths =
      let settings : SettingsConfig = config.settings in
      record config {
        settings = record settings {
          whitelist_path = paths.whitelist_path;
          per_user_per_server = some paths.per_user_per_server;
          drop_to_menu = some paths.drop_to_menu;
          hide_proxy_ip = some paths.hide_proxy_ip;
        };
      }

  unfoldable pub resolve_effective_authorization_policy :
      ConfigFile P → Text → Text → Bool → Result Error EffectiveAuthorizationPolicy
  resolve_effective_authorization_policy config username target per_user_per_server = do
    user ← ok_or (find_user config.users username) (invalid_config lookup_unknown_user)
    let policy : AuthorizationPolicyConfig =
        if per_user_per_server
        then unwrap_or
            (and_then (lookup target config.server_user_policies) (λ m. lookup username m))
            no_policy
        else user.authorization
    ok (resolve policy)

  -- A flag of the command line wins over the settings; the overridden configuration then holds
  -- the flags that are in force, so that resolving its settings again changes none of them.
  pub overrides_stable :
      (config : ConfigFile P) (o : Overrides)
      → let paths = resolve_paths o (some config.settings) in
        let again = resolve_paths o (some (apply_runtime_overrides config paths).settings) in
        (again.per_user_per_server ≡ paths.per_user_per_server)
        × (again.drop_to_menu ≡ paths.drop_to_menu)
        × (again.hide_proxy_ip ≡ paths.hide_proxy_ip)
        × (again.whitelist_path ≡ paths.whitelist_path)
        × (again.known_hosts_path ≡ paths.known_hosts_path)
  unfolding resolve_paths apply_runtime_overrides
  overrides_stable config o = ground arith
