-- ===== src/Config/Credentials.antt =====
-- What the updates of users in src/config/mod.rs do to the configuration in memory.
use central_ssh.Prelude.{
  ◌≡◌, ◌≢◌, ◌⊎◌, refl, ap, ◌∙◌, inl, inr, Bool, true, false, Option, none, some, or_else, List, [],
  ◌∷◌, Result, ok, Result-cases, Bool-cases, Option-cases, any, arith, contains, is_some, find,
  is_ok,
}
use mathlib.Core.Path.{sym, subst}
use central_ssh.Prelude.Text.{Text, codes, text_eq, text_eq_iff, text_eq_class}
use central_ssh.Error.{Error}
use central_ssh.Abuse.Types.{Platform}
use central_ssh.Abuse.Tracker.{Write, failed, renamed, written}
use central_ssh.Auth.Crypto.{Crypto, build_totp_from_secret}
use central_ssh.Config.Types.{UserRecord, Servers}
use central_ssh.Config.Validate.{find_user, is_hash_format, check_users}
use central_ssh.Config.Semantics.{
  IsUsable, TotpBuilds, IsValidUser, AreValidUsers, users_sound, users_complete,
}
use central_ssh.Config.Store.{
  Toml, update_first, set_credentials, update_user_record_in_document, update_file, ConfigStore,
  update_user_credentials, load_config_document, is_named, set_in_table, set_str_if, set_bool_if,
  atomic_write_document,
}

-- Whether a user has a name, as the searches of the source ask.
abbrev pub has_name : Text → UserRecord → Bool
has_name username u = text_eq u.name username

module _ (f : UserRecord → UserRecord) (same_name : (u : UserRecord) → (f u).name ≡ u.name) where
  pub find_user-update_first :
      (users : List UserRecord) (username : Text) (u : UserRecord)
      → find_user users username ≡ some u
      → find_user (update_first (has_name username) f users) username ≡ some (f u)
  unfolding update_first find_user
  find_user-update_first [] username u h = cc
  find_user-update_first (v ∷ vs) username u h = ground (
    arith,
    find_user-update_first vs username u,
    same_name v,
    ap (λ n. text_eq n username) (same_name v),
  )

  find_user-update_first_ne :
      (users : List UserRecord) (username other : Text)
      → other ≢ username
      → find_user (update_first (has_name username) f users) other ≡ find_user users other
  unfolding update_first find_user
  find_user-update_first_ne [] username other ne = refl
  find_user-update_first_ne (v ∷ vs) username other ne = ground (
    arith,
    find_user-update_first_ne vs username other ne,
    ap (λ n. text_eq n other) (same_name v),
    text_eq_iff v.name username,
    text_eq_iff v.name other,
  )

  update_first-AreValidUsers :
      (C : Crypto) (servers : Servers) (username : Text) (seen : List Text)
      (users : List UserRecord)
      → ((u : UserRecord)
          → find_user users username ≡ some u
          → IsValidUser C servers u
          → IsValidUser C servers (f u))
      → AreValidUsers C servers seen users
      → AreValidUsers C servers seen (update_first (has_name username) f users)
  unfolding update_first find_user
  update_first-AreValidUsers C servers username seen [] keeps v = tt
  update_first-AreValidUsers C servers username seen (u ∷ us) keeps v =
      elim (Bool-cases (text_eq u.name username)) [
        | inl here ↦
            rw (here, update_first)
              (
                keeps u (ground (arith, here)) v.0,
                subst (λ n. contains seen n ≡ false) (sym (same_name u)) v.1,
                subst (λ n. AreValidUsers C servers (n ∷ seen) us) (sym (same_name u)) v.2,
              )
        | inr there ↦
            rw (there, update_first)
              (
                v.0,
                v.1,
                update_first-AreValidUsers C servers username (u.name ∷ seen) us
                    (λ w found. keeps w (ground (arith, there, found))) v.2,
              )
      ]

pub set_credentials_name :
    (hash secret : Option Text) (flag : Option Bool) (u : UserRecord)
    → (set_credentials hash secret flag u).name ≡ u.name
unfolding set_credentials
set_credentials_name hash secret flag u = refl

-- A password that the program hashed, and a one-time secret that it can use.
pub record IsIssued (C : Crypto) (hash secret : Option Text) : Type 0 where
  pub hashed :
      (h : Text) → hash ≡ some h → (is_hash_format h ≡ true) × (is_some (C.parse_hash h) ≡ true)
  pub usable : (t : Text) → secret ≡ some t → is_ok (build_totp_from_secret C t) ≡ true

module _ (C : Crypto) where
  set_credentials-IsUsable :
      (hash secret : Option Text) (u : UserRecord)
      → IsIssued C hash secret
      → (is_some hash ≡ true) ⊎ (is_hash_format u.password ≡ true)
      → IsUsable C u
      → IsUsable C (set_credentials hash secret (some false) u)
  unfolding set_credentials
  set_credentials-IsUsable (some h) secret u i now v = inl (i.hashed h refl)
  set_credentials-IsUsable none secret u i (inl impossible) v = absurd (ground arith)
  set_credentials-IsUsable none secret u i (inr hashed) (inl v) = inl v
  set_credentials-IsUsable none secret u i (inr hashed) (inr v) =
      absurd (ground (arith, hashed, v.0))

  or_else-TotpBuilds :
      (hash secret o : Option Text)
      → IsIssued C hash secret
      → TotpBuilds C o
      → TotpBuilds C (or_else secret o)
  or_else-TotpBuilds hash none o i v = v
  or_else-TotpBuilds hash (some t) o i v = i.usable t refl

  set_credentials-IsValidUser :
      (servers : Servers) (hash secret : Option Text) (u : UserRecord)
      → IsIssued C hash secret
      → (is_some hash ≡ true) ⊎ (is_hash_format u.password ≡ true)
      → IsValidUser C servers u
      → IsValidUser C servers (set_credentials hash secret (some false) u)
  unfolding set_credentials
  set_credentials-IsValidUser servers hash secret u i now v = record {
    named = v.named;
    usable = set_credentials-IsUsable hash secret u i now v.usable;
    totp = or_else-TotpBuilds hash secret u.totp_secret i v.totp;
    somewhere = v.somewhere;
    known = v.known;
  }

module _ (T : Toml) (P : Platform) where
  -- An update that succeeds leaves the user with the secret.
  pub update_user_credentials_secret :
      (write : Write) (username : Text) (hash : Option Text) (secret : Text) (flag : Option Bool)
      (store : ConfigStore T P)
      → (update_user_credentials T P write username hash (some secret) flag store).0 ≡ ok tt
      → (u : UserRecord) × (find_user
            (update_user_credentials T P write username hash
              (some secret)
              flag
              store).1.config.users
            username
          ≡ some u)
        × (u.totp_secret ≡ some secret)
  unfolding update_user_credentials set_credentials
  update_user_credentials_secret write username hash secret flag store done =
      elim (Option-cases (find_user store.config.users username)) [
        | inl missing ↦ absurd (ground (arith, missing, done))
        | inr (u, found) ↦
            let f = set_credentials hash (some secret) flag in
            rw (found, update_user_credentials)
              (
                f u,
                find_user-update_first f (set_credentials_name hash (some secret) flag)
                    store.config.users username u found,
                refl,
              )
      ]

  -- Whatever becomes of the file, an update of a user that exists is in force in memory when the
  -- call returns, also when it returns an error; no other user is changed.
  pub update_user_credentials_memory :
      (write : Write) (username other : Text) (hash secret : Option Text) (flag : Option Bool)
      (store : ConfigStore T P) (u : UserRecord)
      → find_user store.config.users username ≡ some u
      → other ≢ username
      → let store' = (update_user_credentials T P write username hash secret flag store).1 in
        (find_user store'.config.users username ≡ some (set_credentials hash secret flag u))
        × (find_user store'.config.users other ≡ find_user store.config.users other)
  unfolding update_user_credentials
  update_user_credentials_memory write username other hash secret flag store u found ne =
      rw (found, update_user_credentials)
        (
          find_user-update_first (set_credentials hash secret flag)
              (set_credentials_name hash secret flag) store.config.users username u found,
          find_user-update_first_ne (set_credentials hash secret flag)
              (set_credentials_name hash secret flag) store.config.users username other ne,
        )

  -- Users that validation accepts stay so when a user is given an issued hash or has one, and an
  -- issued one-time secret if any, and need not change the password any more.
  pub update_user_credentials_accepted :
      (C : Crypto) (write : Write) (username : Text) (hash secret : Option Text)
      (store : ConfigStore T P) (u : UserRecord)
      → check_users C store.servers [] store.config.users ≡ ok tt
      → find_user store.config.users username ≡ some u
      → IsIssued C hash secret
      → (is_some hash ≡ true) ⊎ (is_hash_format u.password ≡ true)
      → let store' =
          (update_user_credentials T P write username hash secret (some false) store).1 in
        check_users C store'.servers [] store'.config.users ≡ ok tt
  unfolding update_user_credentials
  update_user_credentials_accepted C write username hash secret store u accepted found i now =
      let found_same : (w : UserRecord) → find_user store.config.users username ≡ some w → u ≡ w =
        λ w same. ground (arith, found, same) in
      rw (found, update_user_credentials)
        (users_complete C store.servers []
          (update_first (has_name username) (set_credentials hash secret (some false))
            store.config.users)
          (update_first-AreValidUsers (set_credentials hash secret (some false))
            (set_credentials_name hash secret (some false)) C store.servers username []
            store.config.users
            (λ w same. set_credentials-IsValidUser C store.servers hash secret w i (
              subst (λ (x : UserRecord). (is_some hash ≡ true) ⊎ (is_hash_format x.password ≡ true))
                (found_same w same) now))
            (users_sound C store.servers [] store.config.users accepted)))

  any-find {ℓ} :
      {A : Type ℓ} (p : A → Bool) (xs : List A) → any p xs ≡ true → (x : A) × (find p xs ≡ some x)
  any-find p [] h = absurd (ground arith)
  any-find p (x ∷ xs) h = elim (Bool-cases (p x)) [
    | inl here ↦ (x, rw here refl)
    | inr there ↦ let (y, e) = any-find p xs (ground (arith, there)) in (y, rw there e)
  ]

  get_str-set_str_if :
      (key other : Text) (o : Option Text) (t : T.Table)
      → text_eq other key ≡ false
      → T.get_str key (set_str_if T other o t) ≡ T.get_str key t
  get_str-set_str_if key other none t ne = refl
  get_str-set_str_if key other (some v) t ne = T.get_str-set_str_ne key other v t ne

  get_str-set_bool_if :
      (key other : Text) (o : Option Bool) (t : T.Table)
      → text_eq other key ≡ false
      → T.get_str key (set_bool_if T other o t) ≡ T.get_str key t
  get_str-set_bool_if key other none t ne = refl
  get_str-set_bool_if key other (some v) t ne = T.get_str-set_bool_ne key other v t ne

  -- The new hash is the password of the changed table.
  set_in_table_password :
      (h : Text) (secret : Option Text) (flag : Option Bool) (t : T.Table)
      → T.get_str (codes "password") (set_in_table T (some h) secret flag t) ≡ some h
  unfolding set_in_table text_eq
  set_in_table_password h secret flag t =
      let key = codes "password" in
      let with_hash = T.set_str key h t in
      get_str-set_bool_if key (codes "must_change_password") flag
        (set_str_if T (codes "totp_secret") secret with_hash) refl
      ∙ (get_str-set_str_if key (codes "totp_secret") secret with_hash refl
          ∙ T.get_str-set_str key h t)

  password_of :
      (hash secret : Option Text) (flag : Option Bool) (t : T.Table) (h : Text)
      → hash ≡ some h
      → T.get_str (codes "password") (set_in_table T hash secret flag t) ≡ some h
  password_of none secret flag t h e = absurd (ground arith)
  password_of (some g) secret flag t h e = set_in_table_password g secret flag t ∙ e

  -- What an update of the file that succeeds found in it, and wrote to it.
  pub record Written (username : Text) (hash secret : Option Text) (flag : Option Bool)
      (before after : Result Error Text) : Type 0 where
    pub document : T.DocumentMut
    pub tables : List T.Table
    pub table : T.Table
    pub loaded : load_config_document T before ≡ ok document
    pub listed : T.users document ≡ some tables
    pub found : find (is_named T username) tables ≡ some table
    pub stored :
        after
        ≡ ok (
            T.to_text (
              T.set_users
                (update_first (is_named T username) (set_in_table T hash secret flag) tables)
                document))
    pub holds :
        (h : Text)
        → hash ≡ some h
        → T.get_str (codes "password") (set_in_table T hash secret flag table) ≡ some h

  atomic_write_document_ok :
      (write : Write) (d : T.DocumentMut) (file : Result Error Text)
      → (atomic_write_document T write d file).0 ≡ ok tt
      → (atomic_write_document T write d file).1 ≡ ok (T.to_text d)
  unfolding atomic_write_document
  atomic_write_document_ok failed d file h = absurd (ground arith)
  atomic_write_document_ok renamed d file h = absurd (ground arith)
  atomic_write_document_ok written d file h = refl

  update_file-Written :
      (write : Write) (username : Text) (hash secret : Option Text) (flag : Option Bool)
      (file : Result Error Text)
      → (update_file T P write username hash secret flag file).0 ≡ ok tt
      → Written username hash secret flag file
          (update_file T P write username hash secret flag file).1
  unfolding update_file update_user_record_in_document
  update_file-Written write username hash secret flag file done =
      elim (Result-cases (load_config_document T file)) [
        | inr (e, bad) ↦ absurd (ground (arith, bad))
        | inl (d, loaded) ↦ elim (Option-cases (T.users d)) [
          | inl missing ↦ absurd (ground (arith, loaded, missing))
          | inr (ts, listed) ↦ elim (Bool-cases (any (is_named T username) ts)) [
            | inr unknown ↦ absurd (ground (arith, loaded, listed, unknown))
            | inl known ↦
                let (t, found) = any-find (is_named T username) ts known in
                let d' =
                  T.set_users
                    (update_first (is_named T username) (set_in_table T hash secret flag) ts) d in
                record {
                  document = d;
                  tables = ts;
                  table = t;
                  loaded = loaded;
                  listed = listed;
                  found = found;
                  stored =
                      ground (arith, loaded, listed, known, atomic_write_document_ok write d' file);
                  holds = password_of hash secret flag t;
                }
          ]
        ]
      ]

  -- An update that returns success read a document whose array of users has a table of that name,
  -- and replaced the file by that document with the first such table changed; a new hash is the
  -- password of the changed table.
  pub update_user_credentials-Written :
      (write : Write) (username : Text) (hash secret : Option Text) (flag : Option Bool)
      (store : ConfigStore T P)
      → (update_user_credentials T P write username hash secret flag store).0 ≡ ok tt
      → Written username hash secret flag store.file
          (update_user_credentials T P write username hash secret flag store).1.file
  unfolding update_user_credentials
  update_user_credentials-Written write username hash secret flag store done =
      elim (Option-cases (find_user store.config.users username)) [
        | inl unknown ↦ absurd (ground (arith, unknown))
        | inr (u, found) ↦
            rw (found, update_user_credentials)
              (update_file-Written write username hash secret flag store.file
                (ground (arith, found)))
      ]
