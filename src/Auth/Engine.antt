-- ===== src/Auth/Engine.antt =====
-- The checks of `AuthEngine` (src/auth/mod.rs) on passwords and one-time codes.
use central_ssh.Prelude.{
  ℕ, Bool, false, not, ◌&&◌, Option, none, some, List, [], ◌∷◌, Result, ok, err, ◌>>=◌, ◌>>◌,
  fail_if, ok_or, ltb, ◌==◌, if◌then◌else◌, is_some, min,
}
use central_ssh.Prelude.Text.{Text, codes, len}
use central_ssh.Error.{
  Error, invalid_config, authentication_failed, totp_invalid, password_hash, bad_argon2_params,
  short_password, long_password, same_password, bad_totp_secret,
}
use central_ssh.Config.Types.{UserRecord}
use central_ssh.Auth.Crypto.{Crypto, build_totp_from_secret}

module _ (C : Crypto) where
  open C use {parse_hash, verify_password, constant_time_eq}

  unfoldable pub secure_username_match : Text → Text → Bool
  secure_username_match left right =
      if not (len left == len right)
      then constant_time_eq left left && constant_time_eq right right && false
      else constant_time_eq left right

  -- `AuthEngine::hash_password`, at a random salt.
  unfoldable pub hash_password : ℕ → Text → Result Error Text
  hash_password salt password = ok_or (Crypto.hash_password C salt password) password_hash

  -- The `dummy_hash` of `AuthEngine::new`.
  unfoldable pub new_dummy_hash : ℕ → Result Error Text
  unfolding hash_password
  new_dummy_hash salt = do
    fail_if (not C.argon2_params) (invalid_config bad_argon2_params)
    hash_password salt (codes "centralssh-dummy-password")

  -- The loop that sets `matched_user`: the last user that matches.
  unfoldable pub matched_user : List UserRecord → Text → Option UserRecord → Option UserRecord
  unfolding secure_username_match
  matched_user [] requested found = found
  matched_user (user ∷ users) requested found =
      matched_user users requested
        (if secure_username_match user.name requested then some user else found)

  -- `AuthEngine::verify_password_constant_time`, of an engine with this dummy hash.
  unfoldable pub verify_password_constant_time :
      Text → List UserRecord → Text → Text → Result Error UserRecord
  unfolding matched_user
  verify_password_constant_time dummy_hash users requested_username requested_password = do
    let matched = matched_user users requested_username none
    let target_hash : Text = elim matched [ none ↦ dummy_hash | some u ↦ u.password ]
    parsed_hash ← ok_or (parse_hash target_hash) password_hash
    let verification = verify_password requested_password parsed_hash
    if verification && is_some matched
        then elim matched [ none ↦ err authentication_failed | some user ↦ ok user ]
        else err authentication_failed

  -- `AuthEngine::verify_totp_code` at an instant.
  unfoldable pub verify_totp_code : Text → Text → ℕ → Result Error (Unit {0})
  verify_totp_code base32_secret code now = do
    totp ← build_totp_from_secret C base32_secret
    fail_if (not (C.check_at totp now code)) totp_invalid

  unfoldable pub verify_password_and_optional_totp_constant_time :
      Text → List UserRecord → Text → Text → Text → ℕ → Result Error UserRecord
  unfolding verify_password_constant_time verify_totp_code
  verify_password_and_optional_totp_constant_time dummy_hash users username password totp now = do
    user ← verify_password_constant_time dummy_hash users username password
    elim user.totp_secret [ none ↦ ok tt | some secret ↦ verify_totp_code secret totp now ]
    ok user

  unfoldable pub enforce_password_policy : Text → Text → ℕ → Result Error (Unit {0})
  enforce_password_policy new_password old_hash min_length = do
    fail_if (ltb (len new_password) (min min_length 256)) (invalid_config short_password)
    fail_if (ltb 256 (len new_password)) (invalid_config long_password)
    old ← ok_or (parse_hash old_hash) password_hash
    fail_if (verify_password new_password old) (invalid_config same_password)

  -- `AuthEngine::generate_totp_secret`, from 32 random bytes.
  unfoldable pub generate_totp_secret : List ℕ → Text
  generate_totp_secret bytes = C.encode_secret bytes

  -- `AuthEngine::otpauth_url`.
  unfoldable pub otpauth_url : Text → Text → Text → Result Error Text
  otpauth_url issuer account secret = do
    bytes ← ok_or (C.secret_to_bytes secret) (invalid_config bad_totp_secret)
    ok_or (C.new_account_totp issuer account bytes) (invalid_config bad_totp_secret)
