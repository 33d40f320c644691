-- ===== src/Auth/Passwords.antt =====
-- What the password and one-time code checks of src/auth/mod.rs establish.
use central_ssh.Prelude.{
  ℕ, ◌≡◌, ◌↔◌, refl, inl, inr, Bool, true, false, Option, none, some, List, [], ◌∷◌, ok, err,
  Result-cases, Bool-cases, Option-cases, contains, is_some, arith, if◌then◌else◌, ap,
}
use central_ssh.Prelude.Text.{Text, text_eq, text_eq_iff, text_eq_class, len}
use central_ssh.Error.{authentication_failed}
use central_ssh.Config.Types.{UserRecord, Servers}
use central_ssh.Config.Validate.{find_user, check_users}
use central_ssh.Auth.Crypto.{Crypto, build_totp_from_secret}
use central_ssh.Auth.Engine.{
  secure_username_match, matched_user, verify_password_constant_time, verify_totp_code,
  verify_password_and_optional_totp_constant_time,
}

-- No two users have the same name, nor one of those seen before.
abbrev pub DistinctNames : List Text → List UserRecord → Type 0
DistinctNames seen [] = Unit
DistinctNames seen (u ∷ us) = (contains seen u.name ≡ false) × DistinctNames (u.name ∷ seen) us

module _ (C : Crypto) where
  pub secure_username_match_lem :
      (left right : Text) → secure_username_match C left right ≡ text_eq left right
  unfolding secure_username_match
  secure_username_match_lem left right =
      ground (arith, C.constant_time_eq_iff left right, text_eq_iff left right, ap len)

  known_absent :
      (seen : List Text) (users : List UserRecord) (name : Text)
      → DistinctNames seen users
      → contains seen name ≡ true
      → find_user users name ≡ none
  unfolding find_user
  known_absent seen [] name d h = refl
  known_absent seen (u ∷ us) name d h =
      let later = known_absent (u.name ∷ seen) us name d.1 in
      ground (arith, later, text_eq_iff u.name name, ap (contains seen))

  matched_absent :
      (users : List UserRecord) (name : Text) (found : Option UserRecord)
      → find_user users name ≡ none
      → matched_user C users name found ≡ found
  unfolding matched_user find_user
  matched_absent [] name found h = refl
  matched_absent (u ∷ us) name found h = ground (
    arith,
    secure_username_match_lem u.name name,
    matched_absent us name (if secure_username_match C u.name name then some u else found),
  )

  -- The loop over all users finds what a search that stops at the first match finds.
  matched_user_lem :
      (seen : List Text) (users : List UserRecord) (name : Text)
      → DistinctNames seen users
      → matched_user C users name none ≡ find_user users name
  unfolding matched_user find_user
  matched_user_lem seen [] name d = refl
  matched_user_lem seen (u ∷ us) name d = elim (Bool-cases (text_eq u.name name)) [
    | inl same ↦ ground (
      arith,
      secure_username_match_lem u.name name,
      matched_absent us name (some u),
      known_absent (u.name ∷ seen) us name d.1,
    )
    | inr other ↦
        ground (
          arith,
          secure_username_match_lem u.name name,
          matched_user_lem (u.name ∷ seen) us name d.1,
        )
  ]

  distinct :
      (servers : Servers) (seen : List Text) (users : List UserRecord)
      → check_users C servers seen users ≡ ok tt
      → DistinctNames seen users
  unfolding check_users
  distinct servers seen [] h = tt
  distinct servers seen (u ∷ us) h =
      (ground arith, distinct servers (u.name ∷ seen) us (ground arith))

  -- Whether a password is the one of a hash.
  abbrev pub is_password_of : Text → Text → Bool
  is_password_of password hash = elim (C.parse_hash hash) [
    | none ↦ false
    | some h ↦ C.verify_password password h
  ]

  -- With the users of an accepted configuration, a login succeeds exactly as the user who has the
  -- requested name, and with the password of that user's hash.
  pub verify_password_iff :
      (servers : Servers) (dummy_hash : Text) (users : List UserRecord) (name password : Text)
      (u : UserRecord)
      → check_users C servers [] users ≡ ok tt
      → (verify_password_constant_time C dummy_hash users name password ≡ ok u)
        ↔ ((find_user users name ≡ some u) × (is_password_of password u.password ≡ true))
  unfolding verify_password_constant_time
  verify_password_iff servers dummy_hash users name password u h =
      let same = matched_user_lem [] users name (distinct servers [] users h) in
      elim (Option-cases (find_user users name)) [
        | inl unknown ↦ ground (arith, same, unknown)
        | inr (v, known) ↦ elim (Option-cases (C.parse_hash v.password)) [
          | inl bad ↦
              ground (
                arith,
                same,
                known,
                bad,
                ap (λ (w : UserRecord). is_password_of password w.password),
              )
          | inr (p, good) ↦ elim (Bool-cases (C.verify_password password p)) [
            | inl right ↦ ground (arith, same, known, good, right)
            | inr wrong ↦ ground (arith, same, known, good, wrong)
          ]
        ]
      ]

  -- Under a name that no user has, no password logs in, not even that of the dummy hash, if this
  -- one parses: the error is that authentication failed.
  pub unknown_user_error :
      (dummy_hash : Text) (users : List UserRecord) (name password : Text)
      → is_some (C.parse_hash dummy_hash) ≡ true
      → find_user users name ≡ none
      → verify_password_constant_time C dummy_hash users name password ≡ err authentication_failed
  unfolding verify_password_constant_time
  unknown_user_error dummy_hash users name password h unknown =
      elim (Option-cases (C.parse_hash dummy_hash)) [
        | inl bad ↦ absurd (ground arith)
        | inr (p, good) ↦ elim (Bool-cases (C.verify_password password p)) [
          | inl right ↦ ground (arith, matched_absent users name none unknown, good, right)
          | inr wrong ↦ ground (arith, matched_absent users name none unknown, good, wrong)
        ]
      ]

  -- A one-time code is accepted exactly when the secret is usable and the code checks at this
  -- instant.
  pub verify_totp_code_iff :
      (secret code : Text) (now : ℕ)
      → (verify_totp_code C secret code now ≡ ok tt)
        ↔ ((t : C.Totp) × (build_totp_from_secret C secret ≡ ok t) × (C.check_at t now code ≡ true))
  unfolding verify_totp_code
  verify_totp_code_iff secret code now = elim (Result-cases (build_totp_from_secret C secret)) [
    | inr (e, bad) ↦ ((λ h. absurd (ground arith)), λ h. absurd (ground (arith, h.1)))
    | inl (t, good) ↦ ((λ h. (t, good, ground arith)), λ h. ground (arith, h.1, h.2))
  ]

  -- Whether a one-time code is one of a secret at an instant.
  abbrev pub is_code_of : Text → Text → ℕ → Bool
  is_code_of code secret now = elim (build_totp_from_secret C secret) [
    | ok t ↦ C.check_at t now code
    | err _ ↦ false
  ]

  -- No secret, or a code of it.
  abbrev pub passes_totp : Option Text → Text → ℕ → Bool
  passes_totp none code now = true
  passes_totp (some secret) code now = is_code_of code secret now

  pub second_factor :
      (secret code : Text) (now : ℕ)
      → verify_totp_code C secret code now ≡ ok tt
      → is_code_of code secret now ≡ true
  unfolding verify_totp_code
  second_factor secret code now h = ground arith

  -- A login with a password and a one-time code succeeds only with the user's password and, if the
  -- user has a one-time secret, with a code that checks for it at this instant.
  pub login_factors :
      (servers : Servers) (dummy_hash : Text) (users : List UserRecord) (name password totp : Text)
      (now : ℕ) (u : UserRecord)
      → check_users C servers [] users ≡ ok tt
      → verify_password_and_optional_totp_constant_time C dummy_hash users name password totp now
        ≡ ok u
      → (find_user users name ≡ some u)
        × (is_password_of password u.password ≡ true)
        × (passes_totp u.totp_secret totp now ≡ true)
  unfolding verify_password_and_optional_totp_constant_time
  login_factors servers dummy_hash users name password totp now u h login =
      elim (Result-cases (verify_password_constant_time C dummy_hash users name password)) [
        | inr (e, bad) ↦ absurd (ground arith)
        | inl (v, good) ↦
            let same : v ≡ u = ground arith in
            let facts =
              (verify_password_iff servers dummy_hash users name password u h).0 (ground arith) in
            (
              facts.0,
              facts.1,
              elim (Option-cases u.totp_secret) [
                | inl without ↦ rw without refl
                | inr (secret, has) ↦
                    rw has (
                      second_factor secret totp now
                        (ground (arith, ap UserRecord.totp_secret same)))
              ],
            )
      ]
