-- ===== src/Kex/Policy.antt =====
-- How the configured key exchange names are resolved (src/crypto_policy.rs). The algorithm values
-- of the crate russh are parameters, each with the name under which russh offers it.
use central_ssh.Prelude.{
  Bool, true, false, not, ◌&&◌, ◌||◌, List, [], ◌∷◌, ◌++◌, ◌≡◌, Result, ok, err, ◌>>=◌, ◌>>◌,
  fail_if, ok_or, any, find, is_empty, contains, map, if◌then◌else◌,
}
use central_ssh.Prelude.Text.{Text, codes, text_eq, text_eq_class}
use central_ssh.Error.{
  Error, invalid_config, empty_kex, sntrup_kex, unsupported_kex, no_post_quantum_kex,
  no_supported_kex,
}

-- `russh::kex::Name`, `AsRef<str>` on it, and the constants that the policy uses.
pub record Russh : Type 1 where
  pub Name : Type 0
  pub as_ref : Name → Text
  pub mlkem768x25519_sha256 : Name
  pub curve25519 : Name
  pub curve25519_pre_rfc_8731 : Name
  pub extensions : List Name
  pub as_ref_mlkem : as_ref mlkem768x25519_sha256 ≡ codes "mlkem768x25519-sha256"
  pub as_ref_curve25519 : as_ref curve25519 ≡ codes "curve25519-sha256"
  pub as_ref_curve25519_pre : as_ref curve25519_pre_rfc_8731 ≡ codes "curve25519-sha256@libssh.org"

abbrev pub mlkem_name : Text
mlkem_name = codes "mlkem768x25519-sha256"

abbrev pub sntrup_name : Text
sntrup_name = codes "sntrup761x25519-sha512"

abbrev pub curve25519_name : Text
curve25519_name = codes "curve25519-sha256"

abbrev pub curve25519_libssh_name : Text
curve25519_libssh_name = codes "curve25519-sha256@libssh.org"

-- `KexPolicyConfig` of src/config/mod.rs.
pub record KexPolicyConfig : Type 0 where
  pub frontend_preferred : List Text
  pub frontend_require_post_quantum : Bool
  pub backend_preferred : List Text
  pub backend_require_post_quantum : Bool

abbrev pub default_preferred : List Text
default_preferred = mlkem_name ∷ curve25519_name ∷ curve25519_libssh_name ∷ []

-- `KexPolicyConfig::default()`.
abbrev pub default_kex_policy : KexPolicyConfig
default_kex_policy = record {
  frontend_preferred = default_preferred;
  frontend_require_post_quantum = false;
  backend_preferred = default_preferred;
  backend_require_post_quantum = false;
}

pub record KexPolicySummary : Type 0 where
  pub offered_algorithms : List Text
  pub require_post_quantum : Bool
  pub classical_fallback : Bool

unfoldable pub is_post_quantum_kex_name : Text → Bool
is_post_quantum_kex_name name = text_eq name mlkem_name || text_eq name sntrup_name

module _ (R : Russh) where
  open R use {Name, as_ref}

  pub record SupportedKex : Type 0 where
    pub name : Text
    pub algorithm : Name
    pub post_quantum : Bool

  -- `CONFIGURABLE_FRONTEND_KEX`.
  unfoldable pub configurable_kex : List SupportedKex
  configurable_kex =
      record { name = mlkem_name; algorithm = R.mlkem768x25519_sha256; post_quantum = true }
      ∷ record { name = curve25519_name; algorithm = R.curve25519; post_quantum = false }
      ∷ record {
        name = curve25519_libssh_name;
        algorithm = R.curve25519_pre_rfc_8731;
        post_quantum = false;
      }
      ∷ []

  unfoldable pub resolve_supported_kex : Text → Result Error SupportedKex
  unfolding configurable_kex
  resolve_supported_kex name =
      if text_eq name sntrup_name
      then err (invalid_config sntrup_kex)
      else ok_or (find (λ k. text_eq k.name name) configurable_kex) (invalid_config unsupported_kex)

  -- The loop of `resolve_preferred_kex`, with the set of names seen so far.
  unfoldable pub resolve_loop : List Text → Bool → List Text → Result Error (List Name)
  resolve_loop [] require seen = ok []
  resolve_loop (configured ∷ rest) require seen = elim (resolve_supported_kex configured) [
    | err e ↦ err e
    | ok k ↦ elim (require && not k.post_quantum) [
      | true ↦ resolve_loop rest require seen
      | false ↦ elim (contains seen k.name) [
        | true ↦ resolve_loop rest require seen
        | false ↦ resolve_loop rest require (k.name ∷ seen) >>= λ names. ok (k.algorithm ∷ names)
      ]
    ]
  ]

  unfoldable pub resolve_preferred_kex : List Text → Bool → Result Error (List Name)
  unfolding resolve_loop resolve_supported_kex
  resolve_preferred_kex preferred require = do
    fail_if (is_empty preferred) (invalid_config empty_kex)
    resolved ← resolve_loop preferred require []
    fail_if (is_empty resolved)
        (invalid_config (if require then no_post_quantum_kex else no_supported_kex))
    ok resolved

  unfoldable pub policy_summary : List Text → Bool → Result Error KexPolicySummary
  unfolding is_post_quantum_kex_name resolve_preferred_kex
  policy_summary preferred require = do
    names ← resolve_preferred_kex preferred require
    let offered = map as_ref names
    ok (record {
      offered_algorithms = offered;
      require_post_quantum = require;
      classical_fallback = any (λ n. not (is_post_quantum_kex_name n)) offered;
    })

  unfoldable pub frontend_kex_policy_summary : KexPolicyConfig → Result Error KexPolicySummary
  frontend_kex_policy_summary p =
      policy_summary p.frontend_preferred p.frontend_require_post_quantum

  unfoldable pub backend_kex_policy_summary : KexPolicyConfig → Result Error KexPolicySummary
  backend_kex_policy_summary p = policy_summary p.backend_preferred p.backend_require_post_quantum

  unfoldable pub validate_kex_policy : KexPolicyConfig → Result Error (Unit {0})
  validate_kex_policy p = do
    _ ← frontend_kex_policy_summary p
    _ ← backend_kex_policy_summary p
    ok tt

  -- The `kex` field of `frontend_server_preferred`.
  unfoldable pub frontend_server_preferred : KexPolicyConfig → Result Error (List Name)
  frontend_server_preferred p =
      resolve_preferred_kex p.frontend_preferred p.frontend_require_post_quantum >>= λ names.
      ok (names ++ R.extensions)

  -- The `kex` field of `backend_client_preferred`.
  unfoldable pub backend_client_preferred : KexPolicyConfig → Result Error (List Name)
  backend_client_preferred p =
      resolve_preferred_kex p.backend_preferred p.backend_require_post_quantum >>= λ names.
      ok (names ++ R.extensions)
