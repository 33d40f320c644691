-- ===== src/Error.antt =====
-- `CentralSshError` of src/error.rs. A message text is the reason for which it is made: one
-- constructor for each `InvalidConfig` site that is modelled.
pub data Reason : Type 0 where
  -- src/abuse.rs
  bad_duration bad_whitelist_entry bad_whitelist_ip zero_max_failures zero_find_time zero_ban_time :
      Reason
  short_max_ban_time small_multiplier zero_delay_time : Reason
  -- src/config/mod.rs
  large_min_password no_users no_servers bad_server_name duplicate_server bad_host bad_user_name :
      Reason
  duplicate_user bad_password_hash empty_bootstrap placeholder_bootstrap long_bootstrap : Reason
  unforced_bootstrap no_allowed_servers unknown_allowed_server user_policy_fields : Reason
  policy_unknown_server policy_bad_server policy_bad_user policy_unknown_user policy_denied_server :
      Reason
  policy_tables_disabled lookup_unknown_user user_not_found document_without_users : Reason
  user_not_in_document bad_document : Reason
  -- src/auth/mod.rs
  bad_argon2_params bad_totp_secret short_password long_password same_password : Reason
  -- src/crypto_policy.rs
  empty_kex sntrup_kex unsupported_kex no_post_quantum_kex no_supported_kex : Reason

pub data Error : Type 0 where
  io serde toml_de password_hash security_policy authentication_failed authorization_denied : Error
  rate_limit_exceeded totp_invalid ssh : Error
  invalid_config : Reason → Error
