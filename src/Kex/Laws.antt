-- ===== src/Kex/Laws.antt =====
-- What an accepted key exchange policy offers (src/crypto_policy.rs).
use central_ssh.Prelude.{
  Bool, true, false, not, ◌&&◌, ◌||◌, List, [], ◌∷◌, ◌≡◌, refl, ap, inl, inr, ok, Result-cases,
  is_ok, Bool-cases, arith, any, all, keep, is_empty, contains, map, if◌then◌else◌,
}
use mathlib.Core.Path.{subst}
use central_ssh.Prelude.Text.{Text, text_eq, text_eq_iff, text_eq_comm, text_eq_class}
use central_ssh.Kex.Policy.{
  Russh, KexPolicySummary, mlkem_name, sntrup_name, curve25519_name, curve25519_libssh_name,
  is_post_quantum_kex_name, SupportedKex, configurable_kex, resolve_supported_kex, resolve_loop,
  resolve_preferred_kex, policy_summary,
}

-- The first occurrence of each text, none of those seen before.
unfoldable pub dedup : List Text → List Text → List Text
dedup seen [] = []
dedup seen (t ∷ ts) = if contains seen t then dedup seen ts else t ∷ dedup (t ∷ seen) ts

abbrev pub is_supported : Text → Bool
is_supported name =
    text_eq name mlkem_name || text_eq name curve25519_name || text_eq name curve25519_libssh_name

-- The names that a policy may offer, whatever it prefers.
abbrev pub may_offer : Bool → Text → Bool
may_offer require name = not require || is_post_quantum_kex_name name

is_empty-map {ℓ κ} :
    {A : Type ℓ} {B : Type κ} (f : A → B) (xs : List A) → is_empty (map f xs) ≡ is_empty xs
is_empty-map f [] = refl
is_empty-map f (x ∷ xs) = refl

any-not : (p : Text → Bool) (ts : List Text) → any (λ t. not (p t)) ts ≡ not (all p ts)
any-not p [] = refl
any-not p (t ∷ ts) = ground (arith, any-not p ts)

all-dedup : (p : Text → Bool) (seen ts : List Text) → all p ts ≡ true → all p (dedup seen ts) ≡ true
unfolding dedup
all-dedup p seen [] h = refl
all-dedup p seen (t ∷ ts) h = ground (arith, all-dedup p seen ts, all-dedup p (t ∷ seen) ts)

all-keep : (ts : List Text) → all is_post_quantum_kex_name (keep (may_offer true) ts) ≡ true
all-keep [] = refl
all-keep (t ∷ ts) = ground (arith, all-keep ts)

module _ (R : Russh) where
  open R use {Name, as_ref}

  -- What is known of a name that resolves to a table row.
  abbrev Resolves : Text → SupportedKex R → Type 0
  Resolves name k =
      (k.name ≡ name)
      × (as_ref k.algorithm ≡ name)
      × (k.post_quantum ≡ is_post_quantum_kex_name name)
      × (is_supported name ≡ true)

  abbrev mlkem_kex : SupportedKex R
  mlkem_kex = record { name = mlkem_name; algorithm = R.mlkem768x25519_sha256; post_quantum = true }

  abbrev curve_kex : SupportedKex R
  curve_kex = record { name = curve25519_name; algorithm = R.curve25519; post_quantum = false }

  abbrev libssh_kex : SupportedKex R
  libssh_kex = record {
    name = curve25519_libssh_name;
    algorithm = R.curve25519_pre_rfc_8731;
    post_quantum = false;
  }

  table_rows :
      Resolves mlkem_name mlkem_kex
      × Resolves curve25519_name curve_kex
      × Resolves curve25519_libssh_name libssh_kex
  unfolding is_post_quantum_kex_name text_eq
  table_rows = (
    (refl, R.as_ref_mlkem, refl, refl),
    (refl, R.as_ref_curve25519, refl, refl),
    (refl, R.as_ref_curve25519_pre, refl, refl),
  )

  resolved_kex :
      (name : Text) (k : SupportedKex R) → resolve_supported_kex R name ≡ ok k → Resolves name k
  unfolding resolve_supported_kex configurable_kex
  resolved_kex name k h = elim (Bool-cases (text_eq name sntrup_name)) [
    | inl bad ↦ absurd (ground arith)
    | inr fine ↦ elim (Bool-cases (text_eq mlkem_name name)) [
      | inl first ↦
          subst (Resolves name) (ground arith)
            (subst (λ n. Resolves n mlkem_kex) ((text_eq_iff mlkem_name name).0 first) table_rows.0)
      | inr other ↦ elim (Bool-cases (text_eq curve25519_name name)) [
        | inl second ↦ subst (Resolves name) (ground arith) (
            subst (λ n. Resolves n curve_kex) ((text_eq_iff curve25519_name name).0 second)
              table_rows.1)
        | inr rest ↦ elim (Bool-cases (text_eq curve25519_libssh_name name)) [
          | inl third ↦ subst (Resolves name) (ground arith) (
              subst (λ n. Resolves n libssh_kex) ((text_eq_iff curve25519_libssh_name name).0 third)
                table_rows.2)
          | inr none_left ↦ absurd (ground arith)
        ]
      ]
    ]
  ]

  sntrup_unsupported : is_supported sntrup_name ≡ false
  unfolding text_eq
  sntrup_unsupported = refl

  -- A name resolves exactly when it is one of the three of the table.
  supported_kex : (name : Text) → is_ok (resolve_supported_kex R name) ≡ is_supported name
  unfolding resolve_supported_kex configurable_kex
  supported_kex name = elim (Bool-cases (text_eq name sntrup_name)) [
    | inl bad ↦
        ground (arith, ap is_supported ((text_eq_iff name sntrup_name).0 bad), sntrup_unsupported)
    | inr fine ↦ ground (
      arith,
      text_eq_comm name mlkem_name,
      text_eq_comm name curve25519_name,
      text_eq_comm name curve25519_libssh_name,
    )
  ]

  resolve_loop_report :
      (preferred : List Text) (require : Bool) (seen : List Text) (names : List Name)
      → resolve_loop R preferred require seen ≡ ok names
      → (map as_ref names ≡ dedup seen (keep (may_offer require) preferred))
        × (all is_supported preferred ≡ true)
  unfolding resolve_loop dedup
  resolve_loop_report [] require seen names h = (ground arith, refl)
  resolve_loop_report (p ∷ ps) require seen names h =
      elim (Result-cases (resolve_supported_kex R p)) [
        | inr (e, bad) ↦ absurd (ground arith)
        | inl (k, found) ↦
            let (named, offered, quantum, known) = resolved_kex p k found in
            elim (Bool-cases (require && not k.post_quantum)) [
              | inl skip ↦ ground (arith, resolve_loop_report ps require seen names, known, quantum)
              | inr take ↦ elim (Bool-cases (contains seen k.name)) [
                | inl old ↦ ground (
                  arith,
                  resolve_loop_report ps require seen names,
                  known,
                  quantum,
                  ap (contains seen) named,
                )
                | inr new ↦ elim (Result-cases (resolve_loop R ps require (k.name ∷ seen))) [
                  | inr (e, failed) ↦ absurd (ground arith)
                  | inl (rest, done) ↦ ground (
                    arith,
                    resolve_loop_report ps require (k.name ∷ seen) rest done,
                    ap (λ n. dedup (n ∷ seen) (keep (may_offer require) ps)) named,
                    known,
                    quantum,
                    offered,
                    ap (contains seen) named,
                  )
                ]
              ]
            ]
      ]

  -- An accepted policy offers, in the order of preference and each once, the names of its list;
  -- if it requires post-quantum exchanges, then only those that are post-quantum. All names of the
  -- list are supported ones, at least one is offered, and the fallback flag tells whether one that
  -- is not post-quantum is among them.
  pub policy_summary_report :
      (preferred : List Text) (require : Bool) (summary : KexPolicySummary)
      → policy_summary R preferred require ≡ ok summary
      → (summary.offered_algorithms ≡ dedup [] (keep (may_offer require) preferred))
        × (all is_supported preferred ≡ true)
        × (is_empty summary.offered_algorithms ≡ false)
        × (summary.require_post_quantum ≡ require)
        × (summary.classical_fallback
            ≡ any
                (λ n. not (is_post_quantum_kex_name n))
                (dedup [] (keep (may_offer require) preferred)))
  unfolding policy_summary resolve_preferred_kex
  policy_summary_report preferred require summary h =
      elim (Result-cases (resolve_loop R preferred require [])) [
        | inr (e, failed) ↦ absurd (ground arith)
        | inl (names, resolved) ↦
            let (listed, known) = resolve_loop_report preferred require [] names resolved in
            ground (
              arith,
              listed,
              known,
              is_empty-map as_ref names,
              ap (any (λ n. not (is_post_quantum_kex_name n))) listed,
            )
      ]

  -- Every algorithm that an accepted policy under the requirement offers is post-quantum, and its
  -- fallback flag is off.
  pub no_classical_fallback :
      (preferred : List Text) (summary : KexPolicySummary)
      → policy_summary R preferred true ≡ ok summary
      → (summary.classical_fallback ≡ false)
        × (all is_post_quantum_kex_name summary.offered_algorithms ≡ true)
  no_classical_fallback preferred summary h =
      let (listed, known, some_left, required, falls) =
        policy_summary_report preferred true summary h in
      let quantum =
        all-dedup is_post_quantum_kex_name [] (keep (may_offer true) preferred)
          (all-keep preferred) in
      ground (
        arith,
        listed,
        falls,
        quantum,
        any-not is_post_quantum_kex_name (dedup [] (keep (may_offer true) preferred)),
        ap (all is_post_quantum_kex_name) listed,
      )
