-- ===== src/Auth/Crypto.antt =====
-- What src/auth/mod.rs takes from the crates argon2, totp_rs and base32, and the constructions on
-- them that the configuration uses too.
use central_ssh.Prelude.{
  and_then, is_some, length, some, ℕ, Bool, Option, List, Result, ◌>>=◌, ok_or, ◌≡◌, ◌↔◌, true,
}
use central_ssh.Prelude.Text.{Text, codes, starts_with}
use central_ssh.Error.{Error, invalid_config, bad_totp_secret}

pub record Crypto : Type 1 where
  -- `constant_time_eq::constant_time_eq`, on the bytes of two texts.
  pub constant_time_eq : Text → Text → Bool
  pub constant_time_eq_iff : (s t : Text) → (constant_time_eq s t ≡ true) ↔ (s ≡ t)
  -- `argon2::PasswordHash` and the Argon2id engine; hashing takes the random salt. Whether
  -- `Params::new` accepts the constants of the source is `argon2_params`.
  pub argon2_params : Bool
  pub Hash : Type 0
  pub parse_hash : Text → Option Hash
  pub verify_password : Text → Hash → Bool
  pub hash_password : ℕ → Text → Option Text
  -- `totp_rs`: `Secret::to_bytes`, `TOTP::new` with the constants of the source, `check_current`
  -- at an instant (false also for its error) and the text of the `otpauth` address.
  pub Totp : Type 0
  pub secret_to_bytes : Text → Option (List ℕ)
  pub new_totp : List ℕ → Option Totp
  pub check_at : Totp → ℕ → Text → Bool
  pub new_account_totp : Text → Text → List ℕ → Option Text
  -- `base32::encode` of 32 random bytes.
  pub encode_secret : List ℕ → Text
  -- A hash is printed as Argon2id and parses; the encoding of 32 bytes decodes to a usable secret.
  pub hash_password_format :
      (salt : ℕ) (password : Text) {h : Text}
      → hash_password salt password ≡ some h
      → (starts_with h (codes "$argon2id$") ≡ true) × (is_some (parse_hash h) ≡ true)
  pub encode_secret_builds :
      (bytes : List ℕ)
      → length bytes ≡ 32
      → is_some (and_then (secret_to_bytes (encode_secret bytes)) new_totp) ≡ true

module _ (C : Crypto) where
  open C use {Totp, secret_to_bytes, new_totp}

  unfoldable pub build_totp_from_secret : Text → Result Error Totp
  build_totp_from_secret secret = do
    bytes ← ok_or (secret_to_bytes secret) (invalid_config bad_totp_secret)
    ok_or (new_totp bytes) (invalid_config bad_totp_secret)
