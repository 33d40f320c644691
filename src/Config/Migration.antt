-- ===== src/Config/Migration.antt =====
-- What `migrate_bootstrap_passwords` of src/config/mod.rs leaves in memory.
use central_ssh.Prelude.{
  ℕ, ◌+◌, ◌≡◌, refl, inl, inr, Bool, true, false, not, none, some, List, [], ◌∷◌, ok, Result-cases,
  Bool-cases, Option-cases, ltb, arith, length, keep,
}
use central_ssh.Prelude.Text.{Text}
use central_ssh.Abuse.Types.{Platform}
use central_ssh.Abuse.Tracker.{Write}
use central_ssh.Auth.Crypto.{Crypto}
use central_ssh.Auth.Engine.{hash_password}
use central_ssh.Config.Types.{UserRecord}
use central_ssh.Config.Validate.{is_hash_format}
use central_ssh.Config.Store.{
  Toml, update_user_record_in_document, load_config_document, ConfigStore, migrate_users,
  migrate_bootstrap_passwords,
}

-- A user whose password is still in the clear.
abbrev pub is_bootstrap : UserRecord → Bool
is_bootstrap u = not (is_hash_format u.password)

module _ (C : Crypto) (salt : ℕ → ℕ) where
  -- What the migration makes of a user: one with a hash is left as it is, and one with a password in
  -- the clear has a hash of that password, and must change it; the rest of the record is kept.
  abbrev pub IsMigrated : UserRecord → UserRecord → Type 0
  IsMigrated u v =
      (is_hash_format v.password ≡ true)
      × (is_bootstrap u ≡ false → v ≡ u)
      × (is_bootstrap u ≡ true
          → (i : ℕ) × (h : Text) × (hash_password C (salt i) u.password ≡ ok h)
            × (v ≡ record u { password = h; must_change_password = true }))

  abbrev pub AreMigrated : List UserRecord → List UserRecord → Type 0
  AreMigrated [] [] = Unit
  AreMigrated [] (v ∷ vs) = ⊥
  AreMigrated (u ∷ us) [] = ⊥
  AreMigrated (u ∷ us) (v ∷ vs) = IsMigrated u v × AreMigrated us vs

module _ (T : Toml) (P : Platform) (C : Crypto) (salt : ℕ → ℕ) where
  hash_password-is_hash_format :
      (i : ℕ) (password h : Text) → hash_password C i password ≡ ok h → is_hash_format h ≡ true
  unfolding hash_password is_hash_format
  hash_password-is_hash_format i password h e = elim (Option-cases (C.hash_password i password)) [
    | inl none_made ↦ absurd (ground (arith, none_made))
    | inr (g, made) ↦ ground (arith, made, C.hash_password_format i password made)
  ]

  migrate_users-AreMigrated :
      (i : ℕ) (users : List UserRecord) (document d : T.DocumentMut) (n : ℕ)
      → (migrate_users T P C salt i users document).0 ≡ ok (d, n)
      → AreMigrated C salt users (migrate_users T P C salt i users document).1
        × (n ≡ length (keep is_bootstrap users))
  unfolding migrate_users
  migrate_users-AreMigrated i [] document d n h = (tt, ground arith)
  migrate_users-AreMigrated i (u ∷ us) document d n h =
      elim (Bool-cases (is_hash_format u.password)) [
        | inl hashed ↦
            let r = migrate_users-AreMigrated i us document d n (ground (arith, hashed)) in
            rw (hashed, migrate_users)
              (((hashed, λ _. refl, λ clear. absurd (ground (arith, clear, hashed))), r.0), r.1)
        | inr clear ↦ elim (Result-cases (hash_password C (salt i) u.password)) [
          | inr (e, bad) ↦ absurd (ground (arith, clear, bad))
          | inl (hash, made) ↦
              elim (Result-cases
                (update_user_record_in_document T document u.name (some hash) none (some true))) [
                  | inr (e, bad) ↦ absurd (ground (arith, clear, made, bad))
                  | inl (document', updated) ↦
                      elim (Result-cases (migrate_users T P C salt (i + 1) us document').0) [
                        | inr (e, bad) ↦ absurd (ground (arith, clear, made, updated, bad))
                        | inl ((d', m), rest) ↦
                            let (migrated, counted) =
                              migrate_users-AreMigrated (i + 1) us document' d' m rest in
                            rw (clear, made, updated, migrate_users)
                              (
                                (
                                  (
                                    hash_password-is_hash_format (salt i) u.password hash made,
                                    λ hashed. absurd (ground (arith, clear, hashed)),
                                    λ _. (i, hash, made, refl),
                                  ),
                                  migrated,
                                ),
                                ground (arith, clear, made, updated, rest, counted),
                              )
                      ]
                ]
        ]
      ]

  -- A migration that succeeds leaves in memory, in their order, the users as they were if they had a
  -- hash; each that had a password in the clear now has a hash of that very password, with some salt
  -- of the generator, and must change it, with the rest of the record as it was. What is returned is
  -- the number of these.
  pub migrate_bootstrap_passwords-AreMigrated :
      (write : Write) (store : ConfigStore T P) (n : ℕ)
      → (migrate_bootstrap_passwords T P C salt write store).0 ≡ ok n
      → AreMigrated C salt store.config.users
          (migrate_bootstrap_passwords T P C salt write store).1.config.users
        × (n ≡ length (keep is_bootstrap store.config.users))
  unfolding migrate_bootstrap_passwords
  migrate_bootstrap_passwords-AreMigrated write store n h =
      elim (Result-cases (load_config_document T store.file)) [
        | inr (e, bad) ↦ absurd (ground (arith, bad))
        | inl (document, loaded) ↦
            elim (Result-cases (migrate_users T P C salt 0 store.config.users document).0) [
              | inr (e, bad) ↦ absurd (ground (arith, loaded, bad))
              | inl ((d, m), migrated) ↦
                  let r = migrate_users-AreMigrated 0 store.config.users document d m migrated in
                  elim (Bool-cases (ltb 0 m)) [
                    | inr unchanged ↦
                        rw (loaded, migrated, unchanged, migrate_bootstrap_passwords)
                          (r.0, ground (arith, loaded, migrated, unchanged, r.1))
                    | inl changed ↦
                        rw (loaded, migrated, changed, migrate_bootstrap_passwords)
                          (r.0, ground (arith, loaded, migrated, changed, r.1))
                  ]
            ]
      ]
