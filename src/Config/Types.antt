-- ===== src/Config/Types.antt =====
-- The data of src/config/mod.rs.
use central_ssh.Prelude.{ℕ, Bool, true, false, ◌||◌, Option, none, List, is_some, unwrap_or}
use central_ssh.Prelude.Text.{Text}
use central_ssh.Prelude.Assoc.{Map}
use central_ssh.Abuse.Types.{Platform}
use central_ssh.Abuse.Settings.{Fail2banConfig}
use central_ssh.Kex.Policy.{KexPolicyConfig}

pub record SettingsConfig : Type 0 where
  pub user_key_root : Option Text
  pub known_hosts_path : Option Text
  pub audit_log_path : Option Text
  pub whitelist_path : Option Text
  pub per_user_per_server : Option Bool
  pub drop_to_menu : Option Bool
  pub hide_proxy_ip : Option Bool
  pub enforce_password_policy : Option Bool
  pub min_password_policy : Option ℕ

pub record AuthorizationPolicyConfig : Type 0 where
  pub allow_local_forwarding : Option Bool
  pub allow_remote_forwarding : Option Bool
  pub allow_sftp : Option Bool
  pub allow_scp : Option Bool

pub record EffectiveAuthorizationPolicy : Type 0 where
  pub allow_local_forwarding : Bool
  pub allow_remote_forwarding : Bool
  pub allow_sftp : Bool
  pub allow_scp : Bool

-- `AuthorizationPolicyConfig::default()`.
abbrev pub no_policy : AuthorizationPolicyConfig
no_policy = record {
  allow_local_forwarding = none;
  allow_remote_forwarding = none;
  allow_sftp = none;
  allow_scp = none;
}

unfoldable pub has_explicit_entries : AuthorizationPolicyConfig → Bool
has_explicit_entries p =
    is_some p.allow_local_forwarding
    || is_some p.allow_remote_forwarding
    || is_some p.allow_sftp
    || is_some p.allow_scp

unfoldable pub resolve : AuthorizationPolicyConfig → EffectiveAuthorizationPolicy
resolve p = record {
  allow_local_forwarding = unwrap_or p.allow_local_forwarding false;
  allow_remote_forwarding = unwrap_or p.allow_remote_forwarding false;
  allow_sftp = unwrap_or p.allow_sftp true;
  allow_scp = unwrap_or p.allow_scp true;
}

pub record UserRecord : Type 0 where
  pub name : Text
  pub password : Text
  pub totp_secret : Option Text
  pub must_change_password : Bool
  pub allowed_servers : List Text
  pub authorization : AuthorizationPolicyConfig

-- `ServersFile`: its one field, from a server's name to its host.
abbrev pub Servers : Type 0
Servers = Map Text Text

pub record ConfigFile (P : Platform) : Type 0 where
  pub users : List UserRecord
  pub settings : SettingsConfig
  pub kex_policy : KexPolicyConfig
  pub fail2ban : Option (Fail2banConfig P)
  pub server_user_policies : Map Text (Map Text AuthorizationPolicyConfig)
