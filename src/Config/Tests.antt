-- ===== src/Config/Tests.antt =====
-- The theorems about src/config/mod.rs and src/crypto_policy.rs at a concrete configuration.
use central_ssh.Prelude.{
  ◌≤◌, ◌≡◌, refl, true, false, not, none, some, [], ◌∷◌, Result, ok, err, all, any, keep, is_empty,
}
use central_ssh.Prelude.Text.{Text, codes, text_eq, text_eq_class, len, starts_with, trim}
use central_ssh.Prelude.Assoc.{lookup, contains_key}
use central_ssh.Error.{Error, io}
use central_ssh.Abuse.Example.{platform}
use central_ssh.Auth.Example.{crypto}
use central_ssh.Kex.Policy.{
  Russh, KexPolicySummary, default_kex_policy, default_preferred, mlkem_name, curve25519_name,
  curve25519_libssh_name, is_post_quantum_kex_name, policy_summary, configurable_kex,
  validate_kex_policy, frontend_kex_policy_summary, backend_kex_policy_summary,
}
use central_ssh.Kex.Laws.{
  dedup, is_supported, may_offer, policy_summary_report, no_classical_fallback,
}
use central_ssh.Config.Types.{
  SettingsConfig, EffectiveAuthorizationPolicy, no_policy, resolve, UserRecord, Servers, ConfigFile,
  has_explicit_entries,
}
use central_ssh.Config.Validate.{
  check_users, check_user, check_servers, is_valid_username, is_valid_server_identifier,
  validate_semantics, is_valid_host_or_ip, validate_password_field, check_totp, check_allowed,
  is_hash_format, is_rejected_bootstrap_placeholder, validate_authorization_policy, find_user,
}
use central_ssh.Config.Semantics.{AreValidUsers, AreValidServers, PoliciesAllowed}
use central_ssh.Config.Accepted.{validate_semantics_sound, accepted_policies}
use central_ssh.Config.Policy.{resolve_effective_authorization_policy}

-- An algorithm value is the name under which it is offered.
abbrev russh : Russh
russh = record {
  Name = Text;
  as_ref = λ n. n;
  mlkem768x25519_sha256 = mlkem_name;
  curve25519 = curve25519_name;
  curve25519_pre_rfc_8731 = curve25519_libssh_name;
  extensions = [];
  as_ref_mlkem = refl;
  as_ref_curve25519 = refl;
  as_ref_curve25519_pre = refl;
}

abbrev quantum_summary : KexPolicySummary
quantum_summary = record {
  offered_algorithms = mlkem_name ∷ [];
  require_post_quantum = true;
  classical_fallback = false;
}

quantum_only : policy_summary russh default_preferred true ≡ ok quantum_summary
unfolding policy_summary configurable_kex text_eq
quantum_only = refl

policy_summary_report_example :
    (quantum_summary.offered_algorithms ≡ dedup [] (keep (may_offer true) default_preferred))
    × (all is_supported default_preferred ≡ true)
    × (is_empty quantum_summary.offered_algorithms ≡ false)
    × (quantum_summary.require_post_quantum ≡ true)
    × (quantum_summary.classical_fallback
        ≡ any
            (λ n. not (is_post_quantum_kex_name n))
            (dedup [] (keep (may_offer true) default_preferred)))
policy_summary_report_example =
    policy_summary_report russh default_preferred true quantum_summary quantum_only

no_classical_fallback_example :
    (quantum_summary.classical_fallback ≡ false)
    × (all is_post_quantum_kex_name quantum_summary.offered_algorithms ≡ true)
no_classical_fallback_example =
    no_classical_fallback russh default_preferred quantum_summary quantum_only

abbrev alice : UserRecord
alice = record {
  name = codes "alice";
  password = codes "BootstrapPass123!";
  totp_secret = none;
  must_change_password = true;
  allowed_servers = codes "git" ∷ [];
  authorization = no_policy;
}

abbrev servers : Servers
servers = (codes "git", codes "git.example.org") ∷ []

abbrev no_settings : SettingsConfig
no_settings = record {
  user_key_root = none;
  known_hosts_path = none;
  audit_log_path = none;
  whitelist_path = none;
  per_user_per_server = none;
  drop_to_menu = none;
  hide_proxy_ip = none;
  enforce_password_policy = none;
  min_password_policy = some 12;
}

abbrev config : ConfigFile platform
config = record {
  users = alice ∷ [];
  settings = no_settings;
  kex_policy = default_kex_policy;
  fail2ban = none;
  server_user_policies =
      (codes "git", (codes "alice", record no_policy { allow_local_forwarding = some true }) ∷ [])
      ∷ [];
}

abbrev no_file : Text → Result Error Text
no_file path = err io

config_accepted : validate_semantics platform crypto russh no_file config servers ≡ ok tt
unfolding validate_semantics validate_kex_policy frontend_kex_policy_summary policy_summary text_eq
    backend_kex_policy_summary check_servers is_valid_server_identifier len is_valid_host_or_ip
    starts_with check_users is_valid_username check_user validate_password_field is_hash_format trim
    is_rejected_bootstrap_placeholder check_totp check_allowed validate_authorization_policy
    contains_key lookup has_explicit_entries
config_accepted = refl

validate_semantics_sound_example :
    AreValidUsers crypto servers [] (alice ∷ [])
    × AreValidServers platform [] servers
    × (is_empty (alice ∷ []) ≡ false)
    × (is_empty servers ≡ false)
    × (12 ≤ 256)
validate_semantics_sound_example =
    validate_semantics_sound platform crypto russh no_file config servers config_accepted

accepted_policies_example :
    (any (λ u. has_explicit_entries u.authorization) (alice ∷ []) ≡ false)
    × PoliciesAllowed (alice ∷ []) servers config.server_user_policies
accepted_policies_example =
    accepted_policies platform crypto russh no_file config servers config_accepted refl

alice_valid : is_valid_username (codes "alice") ≡ true
unfolding is_valid_username len
alice_valid = refl

abbrev alice_on_git : EffectiveAuthorizationPolicy
alice_on_git = record {
  allow_local_forwarding = true;
  allow_remote_forwarding = false;
  allow_sftp = true;
  allow_scp = true;
}

alice_policy :
    resolve_effective_authorization_policy platform config (codes "alice") (codes "git") true
    ≡ ok alice_on_git
unfolding resolve_effective_authorization_policy find_user text_eq lookup resolve
alice_policy = refl
