-- ===== src/Config/Semantics.antt =====
-- What a configuration that passes `validate_semantics` of src/config/mod.rs guarantees.
use central_ssh.Prelude.{
  ◌≤◌, ◌≡◌, ◌⊎◌, refl, inl, inr, true, false, Option, none, some, List, [], ◌∷◌, ok, Bool-cases,
  Option-cases, is_some, is_ok, is_empty, contains, All, arith,
}
use central_ssh.Prelude.Text.{Text, text_eq_class, len, trim}
use central_ssh.Prelude.Assoc.{Map, contains_key}
use central_ssh.Abuse.Types.{Platform}
use central_ssh.Auth.Crypto.{Crypto, build_totp_from_secret}
use central_ssh.Config.Types.{AuthorizationPolicyConfig, UserRecord, Servers}
use central_ssh.Config.Validate.{
  is_valid_username, is_valid_server_identifier, is_valid_host_or_ip, is_hash_format,
  is_rejected_bootstrap_placeholder, validate_password_field, check_totp, check_servers,
  check_allowed, check_user, check_users, find_user, check_policy_users, check_policy_servers,
}

-- A password is a parsable Argon2id hash, or a bootstrap password that must be changed.
abbrev pub IsUsable : Crypto → UserRecord → Type 0
IsUsable C u =
    ((is_hash_format u.password ≡ true) × (is_some (Crypto.parse_hash C u.password) ≡ true))
    ⊎ ((is_hash_format u.password ≡ false)
        × (is_empty (trim u.password) ≡ false)
        × (is_rejected_bootstrap_placeholder u.password ≡ false)
        × (len u.password ≤ 256)
        × (u.must_change_password ≡ true))

abbrev pub TotpBuilds : Crypto → Option Text → Type 0
TotpBuilds C none = Unit
TotpBuilds C (some secret) = is_ok (build_totp_from_secret C secret) ≡ true

-- What is required of one user, the names of the others aside.
pub record IsValidUser (C : Crypto) (servers : Servers) (u : UserRecord) : Type 0 where
  pub named : is_valid_username u.name ≡ true
  pub usable : IsUsable C u
  pub totp : TotpBuilds C u.totp_secret
  pub somewhere : is_empty u.allowed_servers ≡ false
  pub known : All (λ n. contains_key n servers ≡ true) u.allowed_servers

-- Every user is valid, and no two have the same name, nor one of the names seen before.
abbrev pub AreValidUsers : Crypto → Servers → List Text → List UserRecord → Type 0
AreValidUsers C servers seen [] = Unit
AreValidUsers C servers seen (u ∷ us) =
    IsValidUser C servers u
    × (contains seen u.name ≡ false)
    × AreValidUsers C servers (u.name ∷ seen) us

password_sound : (C : Crypto) (u : UserRecord) → validate_password_field C u ≡ ok tt → IsUsable C u
unfolding validate_password_field
password_sound C u h = elim (Bool-cases (is_hash_format u.password)) [
  | inl hashed ↦ inl (hashed, ground arith)
  | inr plain ↦ inr (plain, ground arith, ground arith, ground arith, ground arith)
]

password_complete :
    (C : Crypto) (u : UserRecord) → IsUsable C u → validate_password_field C u ≡ ok tt
unfolding validate_password_field
password_complete C u (inl h) = ground arith
password_complete C u (inr h) = ground arith

allowed_sound :
    (servers : Servers) (names : List Text)
    → check_allowed servers names ≡ ok tt
    → All (λ n. contains_key n servers ≡ true) names
unfolding check_allowed
allowed_sound servers [] h = tt
allowed_sound servers (n ∷ ns) h = (ground arith, allowed_sound servers ns (ground arith))

allowed_complete :
    (servers : Servers) (names : List Text)
    → All (λ n. contains_key n servers ≡ true) names
    → check_allowed servers names ≡ ok tt
unfolding check_allowed
allowed_complete servers [] h = refl
allowed_complete servers (n ∷ ns) h = ground (arith, allowed_complete servers ns h.1)

totp_sound : (C : Crypto) (o : Option Text) → check_totp C o ≡ ok tt → TotpBuilds C o
unfolding check_totp
totp_sound C none h = tt
totp_sound C (some s) h = ground arith

totp_complete : (C : Crypto) (o : Option Text) → TotpBuilds C o → check_totp C o ≡ ok tt
unfolding check_totp
totp_complete C none h = refl
totp_complete C (some s) h = ground arith

module _ (C : Crypto) (servers : Servers) where
  check_user_parts :
      (u : UserRecord)
      → check_user C servers u ≡ ok tt
      → (validate_password_field C u ≡ ok tt)
        × (check_totp C u.totp_secret ≡ ok tt)
        × (is_empty u.allowed_servers ≡ false)
        × (check_allowed servers u.allowed_servers ≡ ok tt)
  unfolding check_user
  check_user_parts u h = ground arith

  user_sound :
      (u : UserRecord)
      → is_valid_username u.name ≡ true
      → check_user C servers u ≡ ok tt
      → IsValidUser C servers u
  user_sound u named h =
      let (password, totp, somewhere, allowed) = check_user_parts u h in
      record {
        named = named;
        usable = password_sound C u password;
        totp = totp_sound C u.totp_secret totp;
        somewhere = somewhere;
        known = allowed_sound servers u.allowed_servers allowed;
      }

  user_complete : (u : UserRecord) → IsValidUser C servers u → check_user C servers u ≡ ok tt
  unfolding check_user
  user_complete u v =
      rw (password_complete C u v.usable, totp_complete C u.totp_secret v.totp, v.somewhere)
        (allowed_complete servers u.allowed_servers v.known)

  check_users_parts :
      (seen : List Text) (u : UserRecord) (us : List UserRecord)
      → check_users C servers seen (u ∷ us) ≡ ok tt
      → (is_valid_username u.name ≡ true)
        × (contains seen u.name ≡ false)
        × (check_user C servers u ≡ ok tt)
        × (check_users C servers (u.name ∷ seen) us ≡ ok tt)
  unfolding check_users
  check_users_parts seen u us h = ground arith

  pub users_sound :
      (seen : List Text) (us : List UserRecord)
      → check_users C servers seen us ≡ ok tt
      → AreValidUsers C servers seen us
  users_sound seen [] h = tt
  users_sound seen (u ∷ us) h =
      let (named, fresh, valid, rest) = check_users_parts seen u us h in
      (user_sound u named valid, fresh, users_sound (u.name ∷ seen) us rest)

  pub users_complete :
      (seen : List Text) (us : List UserRecord)
      → AreValidUsers C servers seen us
      → check_users C servers seen us ≡ ok tt
  unfolding check_users
  users_complete seen [] v = refl
  users_complete seen (u ∷ us) v =
      rw (v.0.named, v.1, user_complete u v.0) (users_complete (u.name ∷ seen) us v.2)

-- Every name and host of `servers.toml` is well formed, and no name occurs twice.
abbrev pub AreValidServers : Platform → List Text → Servers → Type 0
AreValidServers P seen [] = Unit
AreValidServers P seen ((name, host) ∷ servers) =
    (is_valid_server_identifier name ≡ true)
    × (contains seen name ≡ false)
    × (is_valid_host_or_ip P host ≡ true)
    × AreValidServers P (name ∷ seen) servers

pub servers_sound :
    (P : Platform) (seen : List Text) (servers : Servers)
    → check_servers P seen servers ≡ ok tt
    → AreValidServers P seen servers
unfolding check_servers
servers_sound P seen [] h = tt
servers_sound P seen ((name, host) ∷ servers) h =
    (ground arith, ground arith, ground arith, servers_sound P (name ∷ seen) servers (ground arith))

-- A policy table of a server names only users that are configured and may reach that server.
abbrev pub PolicyUsersAllowed : List UserRecord → Text → Map Text AuthorizationPolicyConfig → Type 0
PolicyUsersAllowed users server [] = Unit
PolicyUsersAllowed users server ((username, policy) ∷ rest) =
    ((u : UserRecord) × (find_user users username ≡ some u)
      × (contains u.allowed_servers server ≡ true))
    × PolicyUsersAllowed users server rest

abbrev pub PoliciesAllowed :
    List UserRecord → Servers → Map Text (Map Text AuthorizationPolicyConfig) → Type 0
PoliciesAllowed users servers [] = Unit
PoliciesAllowed users servers ((server, policies) ∷ rest) =
    (contains_key server servers ≡ true)
    × PolicyUsersAllowed users server policies
    × PoliciesAllowed users servers rest

policy_users_sound :
    (users : List UserRecord) (server : Text) (m : Map Text AuthorizationPolicyConfig)
    → check_policy_users users server m ≡ ok tt
    → PolicyUsersAllowed users server m
unfolding check_policy_users
policy_users_sound users server [] h = tt
policy_users_sound users server ((username, policy) ∷ rest) h =
    elim (Option-cases (find_user users username)) [
      | inl unknown ↦ absurd (ground arith)
      | inr (u, found) ↦
          ((u, found, ground arith), policy_users_sound users server rest (ground arith))
    ]

pub policies_sound :
    (users : List UserRecord) (servers : Servers)
    (m : Map Text (Map Text AuthorizationPolicyConfig))
    → check_policy_servers users servers m ≡ ok tt
    → PoliciesAllowed users servers m
unfolding check_policy_servers
policies_sound users servers [] h = tt
policies_sound users servers ((server, policies) ∷ rest) h = (
  ground arith,
  policy_users_sound users server policies (ground arith),
  policies_sound users servers rest (ground arith),
)
