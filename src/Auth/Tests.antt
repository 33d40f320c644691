-- ===== src/Auth/Tests.antt =====
-- The theorems about src/auth/mod.rs at concrete users and tables.
use central_ssh.Prelude.{
  ◌-◌, ◌≡◌, ◌≢◌, ◌↔◌, refl, true, false, none, some, [], ◌∷◌, ok, err, leb, arith, unwrap_or,
  is_some,
}
use central_ssh.Prelude.Text.{Text, codes, text_eq, len, starts_with}
use central_ssh.Prelude.Assoc.{retain, contains_key, lookup}
use central_ssh.Error.{authentication_failed}
use central_ssh.Abuse.Types.{IpAddr, v4, ip_eq_class}
use central_ssh.Config.Types.{UserRecord, Servers, no_policy}
use central_ssh.Config.Validate.{
  find_user, check_users, is_valid_username, check_user, validate_password_field, is_hash_format,
  check_totp, check_allowed,
}
use central_ssh.Auth.Crypto.{build_totp_from_secret}
use central_ssh.Auth.Engine.{
  matched_user, verify_password_constant_time, verify_totp_code,
  verify_password_and_optional_totp_constant_time,
}
use central_ssh.Auth.Passwords.{
  is_password_of, passes_totp, verify_password_iff, unknown_user_error, login_factors,
  verify_totp_code_iff,
}
use central_ssh.Auth.Buckets.{
  RateLimitKey, key_eq_class, to_ascii_lowercase, Readings, new_bucket, refill, prune_buckets,
  Limits, consume_rate_limit_token,
}
use central_ssh.Auth.Limits.{
  IsValidLimits, consume_rate_limit_token-IsValidLimits, consume_rate_limit_token_spends,
}
use central_ssh.Auth.Example.{crypto, floats}

abbrev bob : UserRecord
bob = record {
  name = codes "bob";
  password = codes "$argon2id$hunter2";
  totp_secret = some (codes "JBSWY3DP");
  must_change_password = false;
  allowed_servers = codes "git" ∷ [];
  authorization = no_policy;
}

abbrev servers : Servers
servers = (codes "git", codes "git.example.org") ∷ []

abbrev dummy : Text
dummy = codes "$argon2id$dummy"

bob_accepted : check_users crypto servers [] (bob ∷ []) ≡ ok tt
unfolding check_users is_valid_username len check_user validate_password_field is_hash_format
    starts_with check_totp build_totp_from_secret check_allowed contains_key lookup text_eq
bob_accepted = refl

verify_password_iff_example :
    (verify_password_constant_time crypto dummy (bob ∷ []) (codes "bob") (codes "hunter2") ≡ ok bob)
    ↔ ((find_user (bob ∷ []) (codes "bob") ≡ some bob)
        × (is_password_of crypto (codes "hunter2") bob.password ≡ true))
verify_password_iff_example =
    verify_password_iff crypto servers dummy (bob ∷ []) (codes "bob") (codes "hunter2") bob
      bob_accepted

no_eve : find_user (bob ∷ []) (codes "eve") ≡ none
unfolding find_user text_eq
no_eve = refl

dummy_parses : is_some (crypto.parse_hash dummy) ≡ true
unfolding starts_with
dummy_parses = refl

unknown_user_error_example :
    verify_password_constant_time crypto dummy (bob ∷ []) (codes "eve") (codes "dummy")
    ≡ err authentication_failed
unknown_user_error_example =
    unknown_user_error crypto dummy (bob ∷ []) (codes "eve") (codes "dummy") dummy_parses no_eve

bob_login :
    verify_password_and_optional_totp_constant_time crypto dummy
      (bob ∷ [])
      (codes "bob")
      (codes "hunter2")
      (codes "JBSWY3DP")
      7
    ≡ ok bob
unfolding verify_password_and_optional_totp_constant_time verify_password_constant_time matched_user
    starts_with len text_eq build_totp_from_secret
bob_login = refl

login_factors_example :
    (find_user (bob ∷ []) (codes "bob") ≡ some bob)
    × (is_password_of crypto (codes "hunter2") bob.password ≡ true)
    × (passes_totp crypto bob.totp_secret (codes "JBSWY3DP") 7 ≡ true)
login_factors_example =
    login_factors crypto servers dummy (bob ∷ []) (codes "bob") (codes "hunter2") (codes "JBSWY3DP")
      7 bob bob_accepted bob_login

verify_totp_code_iff_example :
    (verify_totp_code crypto (codes "JBSWY3DP") (codes "123456") 7 ≡ ok tt) ↔ (
      (t : crypto.Totp) × (build_totp_from_secret crypto (codes "JBSWY3DP") ≡ ok t)
      × (crypto.check_at t 7 (codes "123456") ≡ true))
verify_totp_code_iff_example = verify_totp_code_iff crypto (codes "JBSWY3DP") (codes "123456") 7

abbrev no_limits : Limits floats
no_limits = record { rate_limits = []; ip_rate_limits = [] }

abbrev clock : Readings
clock = record { now = 5; created = 6; elapsed = 7; refilled = 8 }

abbrev host : IpAddr
host = v4 1

abbrev after_login : Limits floats
after_login = (consume_rate_limit_token floats host (codes "Bob") clock clock no_limits).1

consume_rate_limit_token-IsValidLimits_example : IsValidLimits floats after_login
consume_rate_limit_token-IsValidLimits_example =
    consume_rate_limit_token-IsValidLimits floats host (codes "Bob") clock clock no_limits (record {
      users = record { keys = tt; few = omega arith; buckets = tt };
      addresses = record { keys = tt; few = omega arith; buckets = tt };
    })

first_login : (consume_rate_limit_token floats host (codes "Bob") clock clock no_limits).0 ≡ ok tt
unfolding consume_rate_limit_token contains_key lookup retain
first_login = refl

consume_rate_limit_token_spends_example :
    let key : RateLimitKey = record { ip = host; username = to_ascii_lowercase (codes "Bob") } in
    let of_ip = refill floats clock (
      unwrap_or
        (lookup ⦃e = ip_eq_class⦄ host (prune_buckets floats 5 no_limits.ip_rate_limits))
        (new_bucket floats 900 30 6)) in
    let of_user = refill floats clock (
      unwrap_or
        (lookup ⦃e = key_eq_class⦄ key (prune_buckets floats 5 no_limits.rate_limits))
        (new_bucket floats 300 1 6)) in
    (leb 30 of_ip.tokens ≡ true)
    × (lookup ⦃e = ip_eq_class⦄ host after_login.ip_rate_limits
        ≡ some (record of_ip { tokens = of_ip.tokens - 30 }))
    × (leb 30 of_user.tokens ≡ true)
    × (lookup ⦃e = key_eq_class⦄ key after_login.rate_limits
        ≡ some (record of_user { tokens = of_user.tokens - 30 }))
consume_rate_limit_token_spends_example =
    consume_rate_limit_token_spends floats host (codes "Bob") clock clock no_limits first_login

other_host : v4 2 ≢ host
other_host e = ground arith
