-- ===== src/Config/Store.antt =====
-- `ConfigStore` of src/config/mod.rs: the configuration in memory and its file, and the two
-- operations that change a user in both. The crate toml_edit is a parameter.
use central_ssh.Prelude.{
  ℕ, ◌+◌, ◌≡◌, Bool, true, false, Option, none, some, or_else, unwrap_or, List, [], ◌∷◌, Result, ok,
  err, ok_or, ◌>>=◌, if◌then◌else◌, ltb, any,
}
use central_ssh.Prelude.Text.{Text, codes, text_eq}
use central_ssh.Error.{
  Error, io, invalid_config, user_not_found, document_without_users, user_not_in_document,
  bad_document,
}
use central_ssh.Abuse.Types.{Platform}
use central_ssh.Abuse.Tracker.{Write, failed, renamed, written}
use central_ssh.Auth.Crypto.{Crypto}
use central_ssh.Auth.Engine.{hash_password}
use central_ssh.Config.Types.{UserRecord, Servers, ConfigFile}
use central_ssh.Config.Policy.{EffectivePaths}
use central_ssh.Config.Validate.{find_user, is_hash_format}

-- `toml_edit`: a document, the tables of its array `users`, and their entries.
pub record Toml : Type 1 where
  pub DocumentMut : Type 0
  pub Table : Type 0
  pub parse : Text → Option DocumentMut
  pub to_text : DocumentMut → Text
  pub users : DocumentMut → Option (List Table)
  pub set_users : List Table → DocumentMut → DocumentMut
  pub get_str : Text → Table → Option Text
  pub set_str : Text → Text → Table → Table
  pub get_bool : Text → Table → Option Bool
  pub set_bool : Text → Bool → Table → Table
  pub users-set_users : (ts : List Table) (d : DocumentMut) → users (set_users ts d) ≡ some ts
  pub get_str-set_str : (k v : Text) (t : Table) → get_str k (set_str k v t) ≡ some v
  pub get_str-set_str_ne :
      (k j v : Text) (t : Table) → text_eq j k ≡ false → get_str k (set_str j v t) ≡ get_str k t
  pub get_str-set_bool_ne :
      (k j : Text) (b : Bool) (t : Table)
      → text_eq j k ≡ false
      → get_str k (set_bool j b t) ≡ get_str k t
  pub get_bool-set_bool : (k : Text) (b : Bool) (t : Table) → get_bool k (set_bool k b t) ≡ some b

-- Changes the first element that passes a test, which `iter_mut().find` borrows.
unfoldable pub update_first {ℓ} : {A : Type ℓ} → (A → Bool) → (A → A) → List A → List A
update_first p f [] = []
update_first p f (x ∷ xs) = if p x then f x ∷ xs else x ∷ update_first p f xs

-- What the operation sets in a user.
unfoldable pub set_credentials : Option Text → Option Text → Option Bool → UserRecord → UserRecord
set_credentials hash secret flag user = record user {
  password = unwrap_or hash user.password;
  totp_secret = or_else secret user.totp_secret;
  must_change_password = unwrap_or flag user.must_change_password;
}

module _ (T : Toml) where
  open T use {DocumentMut, Table, get_str, set_str, set_bool}

  abbrev pub set_str_if : Text → Option Text → Table → Table
  set_str_if key none table = table
  set_str_if key (some v) table = set_str key v table

  abbrev pub set_bool_if : Text → Option Bool → Table → Table
  set_bool_if key none table = table
  set_bool_if key (some b) table = set_bool key b table

  -- Whether a table has this name.
  abbrev pub is_named : Text → Table → Bool
  is_named username table = elim (get_str (codes "name") table) [
    | none ↦ false
    | some n ↦ text_eq n username
  ]

  -- What the operation sets in a table.
  unfoldable pub set_in_table : Option Text → Option Text → Option Bool → Table → Table
  set_in_table hash secret flag table =
      set_bool_if (codes "must_change_password") flag
        (set_str_if (codes "totp_secret") secret (set_str_if (codes "password") hash table))

  unfoldable pub update_user_record_in_document :
      DocumentMut → Text → Option Text → Option Text → Option Bool → Result Error DocumentMut
  unfolding update_first set_in_table
  update_user_record_in_document document username hash secret flag = do
    users ← ok_or (T.users document) (invalid_config document_without_users)
    if any (is_named username) users
        then ok (
            T.set_users (update_first (is_named username) (set_in_table hash secret flag) users)
              document)
        else err (invalid_config user_not_in_document)

  -- `load_config_document`, on what reading the file gives.
  unfoldable pub load_config_document : Result Error Text → Result Error DocumentMut
  load_config_document file = do
    content ← file
    ok_or (T.parse content) (invalid_config bad_document)

  -- `atomic_write_document` with its outcome: what reading the file gives behind it, and the result.
  unfoldable pub atomic_write_document :
      Write → DocumentMut → Result Error Text → Result Error (Unit {0}) × Result Error Text
  atomic_write_document failed document file = (err io, file)
  atomic_write_document renamed document file = (err io, ok (T.to_text document))
  atomic_write_document written document file = (ok tt, ok (T.to_text document))

  module _ (P : Platform) where
    -- The `RuntimeState` and the paths; `file` is what reading `config_path` gives.
    pub record ConfigStore : Type 0 where
      pub paths : EffectivePaths
      pub config : ConfigFile P
      pub servers : Servers
      pub loaded_at : ℕ
      pub file : Result Error Text

    -- The users in memory.
    abbrev pub set_users_of : List UserRecord → ConfigStore → ConfigStore
    set_users_of users store =
        let config : ConfigFile P = store.config in
        record store { config = record config { users = users } }

    -- The part of `update_user_credentials` on the document and its file.
    unfoldable pub update_file :
        Write
        → Text
        → Option Text
        → Option Text
        → Option Bool
        → Result Error Text
        → Result Error (Unit {0}) × Result Error Text
    unfolding load_config_document update_user_record_in_document atomic_write_document
    update_file write username hash secret flag file =
        elim (load_config_document file >>= λ document.
        update_user_record_in_document document username hash secret flag) [
          | err e ↦ (err e, file)
          | ok document ↦ atomic_write_document write document file
        ]

    unfoldable pub update_user_credentials :
        Write
        → Text
        → Option Text
        → Option Text
        → Option Bool
        → ConfigStore
        → Result Error (Unit {0}) × ConfigStore
    unfolding update_file set_credentials update_first find_user
    update_user_credentials write username hash secret flag store =
        elim (find_user store.config.users username) [
          | none ↦ (err (invalid_config user_not_found), store)
          | some _ ↦
              let users =
                update_first (λ (u : UserRecord). text_eq u.name username)
                  (set_credentials hash secret flag) store.config.users in
              let (result, file) = update_file write username hash secret flag store.file in
              (result, record (set_users_of users store) { file = file })
        ]

    -- The loop of `migrate_bootstrap_passwords`, with the salts it draws: the users that it has
    -- changed stay changed when it fails.
    unfoldable pub migrate_users :
        Crypto
        → (ℕ → ℕ)
        → ℕ
        → List UserRecord
        → DocumentMut
        → Result Error (DocumentMut × ℕ) × List UserRecord
    unfolding update_user_record_in_document hash_password is_hash_format
    migrate_users C salt i [] document = (ok (document, 0), [])
    migrate_users C salt i (user ∷ users) document = elim (is_hash_format user.password) [
      | true ↦ let (rest, users') = migrate_users C salt i users document in (rest, user ∷ users')
      | false ↦ elim (hash_password C (salt i) user.password) [
        | err e ↦ (err e, user ∷ users)
        | ok hash ↦
            elim (update_user_record_in_document document user.name (some hash) none (some true)) [
              | err e ↦ (err e, user ∷ users)
              | ok document' ↦
                  let (rest, users') = migrate_users C salt (i + 1) users document' in
                  (
                    elim rest [ err e ↦ err e | ok (d, n) ↦ ok (d, n + 1) ],
                    record user { password = hash; must_change_password = true } ∷ users',
                  )
            ]
      ]
    ]

    unfoldable pub migrate_bootstrap_passwords :
        Crypto → (ℕ → ℕ) → Write → ConfigStore → Result Error ℕ × ConfigStore
    unfolding migrate_users load_config_document atomic_write_document
    migrate_bootstrap_passwords C salt write store = elim (load_config_document store.file) [
      | err e ↦ (err e, store)
      | ok document ↦
          let (migrated, users) = migrate_users C salt 0 store.config.users document in
          let store' = set_users_of users store in
          elim migrated [
            | err e ↦ (err e, store')
            | ok (document', changed) ↦
                if ltb 0 changed
                then (let (result, file) = atomic_write_document write document' store.file in
                    (
                      elim result [ err e ↦ err e | ok _ ↦ ok changed ],
                      record store' { file = file },
                    ))
                else (ok changed, store')
          ]
    ]
