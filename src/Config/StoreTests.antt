-- ===== src/Config/StoreTests.antt =====
-- The theorems about the updates of src/config/mod.rs at a concrete store.
use central_ssh.Prelude.Assoc.{contains_key, lookup}
use central_ssh.Auth.Crypto.{build_totp_from_secret}
use central_ssh.Prelude.{
  ◌≡◌, ◌≢◌, refl, inl, arith, true, false, none, some, [], ◌∷◌, ok, length, keep, is_some,
}
use mathlib.Core.Path.{subst}
use central_ssh.Prelude.Text.{trim, len, text_eq, starts_with, Text, codes}
use central_ssh.Abuse.Tracker.{failed, written}
use central_ssh.Abuse.Example.{platform}
use central_ssh.Auth.Example.{crypto}
use central_ssh.Config.Validate.{
  check_user, is_rejected_bootstrap_placeholder, check_allowed, is_valid_username, is_hash_format,
  check_totp, validate_password_field, find_user, check_users,
}
use central_ssh.Config.Store.{set_credentials, update_user_credentials, migrate_bootstrap_passwords}
use central_ssh.Config.Credentials.{
  IsIssued, update_user_credentials_memory, update_user_credentials_accepted,
}
use central_ssh.Config.Migration.{
  AreMigrated, is_bootstrap, migrate_bootstrap_passwords-AreMigrated,
}
use central_ssh.Config.Example.{toml, store, bob, carol}

abbrev hash : Text
hash = codes "$argon2id$swordfish"

carol_exists : find_user (bob ∷ carol ∷ []) (codes "carol") ≡ some carol
unfolding find_user text_eq
carol_exists = refl

bob_is_another : codes "bob" ≢ codes "carol"
bob_is_another e = ground arith

-- The file cannot be written.
update_user_credentials_memory_example :
    let store' =
      (update_user_credentials toml platform failed
        (codes "carol")
        (some hash)
        none
        (some false)
        store).1 in
    (find_user store'.config.users (codes "carol")
      ≡ some (set_credentials (some hash) none (some false) carol))
    × (find_user store'.config.users (codes "bob") ≡ find_user store.config.users (codes "bob"))
update_user_credentials_memory_example =
    update_user_credentials_memory toml platform failed (codes "carol") (codes "bob") (some hash)
      none (some false) store carol carol_exists bob_is_another

store_accepted : check_users crypto store.servers [] store.config.users ≡ ok tt
unfolding check_users is_valid_username len check_user validate_password_field is_hash_format
    starts_with check_totp build_totp_from_secret check_allowed contains_key lookup text_eq trim
    is_rejected_bootstrap_placeholder
store_accepted = refl

hash_hashed :
    (h : Text)
    → some hash ≡ some h
    → (is_hash_format h ≡ true) × (is_some (crypto.parse_hash h) ≡ true)
unfolding is_hash_format starts_with
hash_hashed h e =
    let same : hash ≡ h = ground arith in
    subst (λ t. (is_hash_format t ≡ true) × (is_some (crypto.parse_hash t) ≡ true)) same
      (refl, refl)

issued : IsIssued crypto (some hash) none
issued = record { hashed = hash_hashed; usable = λ t e. absurd (ground arith) }

update_user_credentials_accepted_example :
    let store' =
      (update_user_credentials toml platform written
        (codes "carol")
        (some hash)
        none
        (some false)
        store).1 in
    check_users crypto store'.servers [] store'.config.users ≡ ok tt
update_user_credentials_accepted_example =
    update_user_credentials_accepted toml platform crypto written (codes "carol") (some hash) none
      store carol store_accepted carol_exists issued (inl refl)

carol_written :
    (update_user_credentials toml platform written
      (codes "carol")
      (some hash)
      none
      (some false)
      store).0
    ≡ ok tt
unfolding update_user_credentials text_eq lookup
carol_written = refl

one_migrated : (migrate_bootstrap_passwords toml platform crypto (λ i. i) written store).0 ≡ ok 1
unfolding migrate_bootstrap_passwords starts_with lookup text_eq
one_migrated = refl

migrate_bootstrap_passwords-AreMigrated_example :
    AreMigrated crypto
      (λ i. i)
      (bob ∷ carol ∷ [])
      (migrate_bootstrap_passwords toml platform crypto (λ i. i) written store).1.config.users
    × (1 ≡ length (keep is_bootstrap (bob ∷ carol ∷ [])))
migrate_bootstrap_passwords-AreMigrated_example =
    migrate_bootstrap_passwords-AreMigrated toml platform crypto (λ i. i) written store 1
      one_migrated
