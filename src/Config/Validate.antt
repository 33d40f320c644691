-- ===== src/Config/Validate.antt =====
-- `validate_semantics` of src/config/mod.rs and its parts. What reading a file gives is an argument.
use central_ssh.Prelude.{
  ℕ, Bool, true, false, not, ◌&&◌, ◌||◌, Option, none, some, List, [], ◌∷◌, Result, ok, ◌>>=◌, ◌>>◌,
  fail_if, ok_or, ltb, leb, ◌==◌, if◌then◌else◌, is_some, unwrap_or, is_empty, all, contains, find,
  any,
}
use central_ssh.Prelude.Text.{
  Text, codes, text_eq, text_eq_class, len, is_ascii_alphanumeric, ends_with_char, starts_with,
  split, trim,
}
use central_ssh.Prelude.Assoc.{Map, contains_key}
use central_ssh.Error.{
  Error, invalid_config, large_min_password, no_users, no_servers, bad_server_name,
  duplicate_server, bad_host, bad_user_name, duplicate_user, bad_password_hash, empty_bootstrap,
  placeholder_bootstrap, long_bootstrap, unforced_bootstrap, no_allowed_servers,
  unknown_allowed_server, user_policy_fields, policy_unknown_server, policy_bad_server,
  policy_bad_user, policy_unknown_user, policy_denied_server, policy_tables_disabled,
}
use central_ssh.Abuse.Types.{Platform}
use central_ssh.Abuse.Settings.{effective}
use central_ssh.Kex.Policy.{Russh, validate_kex_policy}
use central_ssh.Auth.Crypto.{Crypto, build_totp_from_secret}
use central_ssh.Config.Types.{
  AuthorizationPolicyConfig, has_explicit_entries, UserRecord, Servers, ConfigFile,
}

-- The characters of `is_valid_component`.
unfoldable pub is_component_char : ℕ → Bool
is_component_char c = is_ascii_alphanumeric c || c == b'.' || c == b'_' || c == b'-'

unfoldable pub is_valid_component : Text → ℕ → Bool
unfolding is_component_char
is_valid_component name max_len =
    if is_empty name || ltb max_len (len name) then false else all is_component_char name

unfoldable pub is_valid_username : Text → Bool
unfolding is_valid_component
is_valid_username name = is_valid_component name 64

unfoldable pub is_valid_server_identifier : Text → Bool
unfolding is_valid_component
is_valid_server_identifier name = is_valid_component name 64

unfoldable pub is_host_label : Text → Bool
unfolding ends_with_char
is_host_label label =
    not (is_empty label)
    && leb (len label) 63
    && not (starts_with label (codes "-"))
    && not (ends_with_char b'-' label)
    && all (λ c. is_ascii_alphanumeric c || c == b'-') label

unfoldable pub is_valid_host_or_ip : Platform → Text → Bool
unfolding is_host_label split
is_valid_host_or_ip P value =
    if is_some (Platform.parse_ip P value)
    then true
    else if is_empty value || ltb 253 (len value)
    then false
    else all is_host_label (split b'.' value)

unfoldable pub is_rejected_bootstrap_placeholder : Text → Bool
is_rejected_bootstrap_placeholder password =
    text_eq password (codes "TemporaryPassword123!")
    || text_eq password (codes "AnotherTempPass123!")
    || text_eq password (codes "REPLACE_WITH_UNIQUE_TEMPORARY_PASSWORD")
    || text_eq password (codes "CHANGE_ME_BEFORE_STARTING")

-- `AuthEngine::is_hash_format` of src/auth/mod.rs, and the test of `validate_password_field`.
unfoldable pub is_hash_format : Text → Bool
is_hash_format value = starts_with value (codes "$argon2id$")

unfoldable pub validate_password_field : Crypto → UserRecord → Result Error (Unit {0})
validate_password_field C user =
    if is_hash_format user.password
    then fail_if (not (is_some (Crypto.parse_hash C user.password)))
        (invalid_config bad_password_hash)
    else do
      fail_if (is_empty (trim user.password)) (invalid_config empty_bootstrap)
      fail_if (is_rejected_bootstrap_placeholder user.password)
          (invalid_config placeholder_bootstrap)
      fail_if (ltb 256 (len user.password)) (invalid_config long_bootstrap)
      fail_if (not user.must_change_password) (invalid_config unforced_bootstrap)

unfoldable pub validate_totp_secret : Crypto → Text → Result Error (Unit {0})
validate_totp_secret C secret = do _ ← build_totp_from_secret C secret; ok tt

-- The loop over `servers.toml`.
unfoldable pub check_servers : Platform → List Text → Servers → Result Error (Unit {0})
check_servers P seen [] = ok tt
check_servers P seen ((name, host) ∷ servers) = do
  fail_if (not (is_valid_server_identifier name)) (invalid_config bad_server_name)
  fail_if (contains seen name) (invalid_config duplicate_server)
  fail_if (not (is_valid_host_or_ip P host)) (invalid_config bad_host)
  check_servers P (name ∷ seen) servers

-- The loop over the servers of a user.
unfoldable pub check_allowed : Servers → List Text → Result Error (Unit {0})
check_allowed servers [] = ok tt
check_allowed servers (name ∷ names) = do
  fail_if (not (contains_key name servers)) (invalid_config unknown_allowed_server)
  check_allowed servers names

unfoldable pub check_totp : Crypto → Option Text → Result Error (Unit {0})
unfolding validate_totp_secret
check_totp C none = ok tt
check_totp C (some secret) = validate_totp_secret C secret

-- The body of the loop over the users, below the test for duplicates.
unfoldable pub check_user : Crypto → Servers → UserRecord → Result Error (Unit {0})
check_user C servers user = do
  validate_password_field C user
  check_totp C user.totp_secret
  fail_if (is_empty user.allowed_servers) (invalid_config no_allowed_servers)
  check_allowed servers user.allowed_servers

unfoldable pub check_users :
    Crypto → Servers → List Text → List UserRecord → Result Error (Unit {0})
check_users C servers seen [] = ok tt
check_users C servers seen (user ∷ users) = do
  fail_if (not (is_valid_username user.name)) (invalid_config bad_user_name)
  fail_if (contains seen user.name) (invalid_config duplicate_user)
  check_user C servers user
  check_users C servers (user.name ∷ seen) users

-- `users.iter().find(|candidate| candidate.name == username)`.
unfoldable pub find_user : List UserRecord → Text → Option UserRecord
find_user users username = find (λ u. text_eq u.name username) users

unfoldable pub check_policy_users :
    List UserRecord → Text → Map Text AuthorizationPolicyConfig → Result Error (Unit {0})
unfolding find_user
check_policy_users users server [] = ok tt
check_policy_users users server ((username, policy) ∷ rest) = do
  fail_if (not (is_valid_username username)) (invalid_config policy_bad_user)
  user ← ok_or (find_user users username) (invalid_config policy_unknown_user)
  fail_if (not (contains user.allowed_servers server)) (invalid_config policy_denied_server)
  check_policy_users users server rest

unfoldable pub check_policy_servers :
    List UserRecord
    → Servers
    → Map Text (Map Text AuthorizationPolicyConfig)
    → Result Error (Unit {0})
unfolding check_policy_users
check_policy_servers users servers [] = ok tt
check_policy_servers users servers ((server, policies) ∷ rest) = do
  fail_if (not (contains_key server servers)) (invalid_config policy_unknown_server)
  fail_if (not (is_valid_server_identifier server)) (invalid_config policy_bad_server)
  check_policy_users users server policies
  check_policy_servers users servers rest

module _ (P : Platform) where
  unfoldable pub validate_authorization_policy : ConfigFile P → Servers → Result Error (Unit {0})
  unfolding check_policy_servers
  validate_authorization_policy config servers =
      if unwrap_or config.settings.per_user_per_server true
      then (fail_if (any (λ u. has_explicit_entries u.authorization) config.users)
            (invalid_config user_policy_fields)
          >> check_policy_servers config.users servers config.server_user_policies)
      else fail_if (not (is_empty config.server_user_policies))
          (invalid_config policy_tables_disabled)

  -- `read` is `fs::read_to_string`, which the tracker's settings use on the whitelist file.
  unfoldable pub validate_semantics :
      Crypto → Russh → (Text → Result Error Text) → ConfigFile P → Servers → Result Error (Unit {0})
  validate_semantics C R read config servers = do
    elim config.fail2ban [
      | none ↦ ok tt
      | some fail2ban ↦ do
        _ ←
            effective P fail2ban
              (elim config.settings.whitelist_path [ none ↦ none | some p ↦ some (read p) ])
        ok tt
    ]
    validate_kex_policy R config.kex_policy
    elim config.settings.min_password_policy [
      | none ↦ ok tt
      | some least ↦ fail_if (ltb 256 least) (invalid_config large_min_password)
    ]
    fail_if (is_empty config.users) (invalid_config no_users)
    fail_if (is_empty servers) (invalid_config no_servers)
    check_servers P [] servers
    check_users C servers [] config.users
    validate_authorization_policy config servers
