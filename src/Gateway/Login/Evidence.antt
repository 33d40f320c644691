-- ===== src/Gateway/Login/Evidence.antt =====
-- What a call that reads a password or a one-time code of src/ssh/mod.rs with success shows.
use central_ssh.Prelude.{
  ℕ, ◌≡◌, refl, ap, inl, inr, true, false, some, List, [], ◌∷◌, Option-cases, arith, is_some,
}
use mathlib.Core.Path.{sym, subst}
use mathlib.Core.List.{Memᴰ}
use central_ssh.Prelude.Text.{Text, trim, text_eq_iff}
use central_ssh.Abuse.Types.{Platform}
use central_ssh.Auth.Crypto.{Crypto}
use central_ssh.Auth.Buckets.{Floats}
use central_ssh.Auth.Passwords.{is_password_of, is_code_of, passes_totp}
use central_ssh.Config.Types.{UserRecord}
use central_ssh.Config.Validate.{find_user}
use central_ssh.Config.Store.{Toml, ConfigStore}
use central_ssh.Gateway.Login.State.{GatewayHandler, Moment, AppState}
use central_ssh.Gateway.Login.Responses.{should_prompt_existing_totp}
use central_ssh.Gateway.Login.History.{
  Call, HasAcceptedUsers, user_at, PasswordGiven, had, CodeGiven,
}
use central_ssh.Gateway.Login.Progress.{IsBacked}

module _ (P : Platform) (C : Crypto) (T : Toml) (F : Floats) where
  abbrev Calls : Type 0
  Calls = List (Call P C T F)

  find_user_name :
      (users : List UserRecord) (name : Text) {u : UserRecord}
      → find_user users name ≡ some u
      → u.name ≡ name
  unfolding find_user
  find_user_name [] name {u} found = absurd (ground arith)
  find_user_name (v ∷ users) name {u} found =
      ground (arith, find_user_name users name {u = u}, text_eq_iff v.name name, ap UserRecord.name)

  module _ (m : Moment) (text : Text) (app : AppState P T F) (after : ConfigStore T P)
      (past : Calls) (h : GatewayHandler) where
    abbrev pub now : Call P C T F
    now = record { response = some (text, m.code_time); store = app.store; after = after }

    abbrev pub so_far : Calls
    so_far = now ∷ past

    module _ (accepted : HasAcceptedUsers P C T F app.store)
        (b : IsBacked P C T F so_far h.keyboard_auth_state) where
      -- A user who is not asked for a code first has no secret, or has to change the password.
      pub no_secret :
          (username : Text) (user : UserRecord)
          → should_prompt_existing_totp (find_user app.store.config.users username) ≡ false
          → find_user app.store.config.users username ≡ some user
          → user.must_change_password ≡ false
          → is_some user.totp_secret ≡ true
          → ⊥
      unfolding should_prompt_existing_totp
      no_secret username user without found keep has = ground arith

      found_name :
          (username : Text) (user : UserRecord)
          → find_user app.store.config.users username ≡ some user
          → user_at P C T F now user.name ≡ some user
      found_name username user found =
          subst (λ n. find_user app.store.config.users n ≡ some user)
            (sym (find_user_name app.store.config.users username found)) found

      pub password_given :
          (typed : Call P C T F) (password : Text) (at : ℕ) (username : Text) (user : UserRecord)
          → Memᴰ typed so_far
          → typed.response ≡ some (password, at)
          → find_user app.store.config.users username ≡ some user
          → is_password_of C password user.password ≡ true
          → PasswordGiven P C T F so_far user.name
      password_given typed password at username user i response found right = record {
        typed = typed;
        typed_in = i;
        password = password;
        at = at;
        response = response;
        checked = now;
        checked_in = Memᴰ.head refl;
        user = user;
        found = found_name username user found;
        right = right;
      }

      secret_given :
          (username : Text) (user : UserRecord) (secret : Text)
          → find_user app.store.config.users username ≡ some user
          → user.totp_secret ≡ some secret
          → is_code_of C (trim text) secret m.code_time ≡ true
          → CodeGiven P C T F so_far user.name
      secret_given username user secret found has right = record {
        typed = now;
        typed_in = Memᴰ.head refl;
        code = text;
        at = m.code_time;
        response = refl;
        secret = secret;
        right = right;
        origin = had now (Memᴰ.head refl) user (found_name username user found) has;
      }

      pub code_given :
          (username : Text) (user : UserRecord)
          → find_user app.store.config.users username ≡ some user
          → passes_totp C user.totp_secret (trim text) m.code_time ≡ true
          → is_some user.totp_secret ≡ true
          → CodeGiven P C T F so_far user.name
      code_given username user found passes has = elim (Option-cases user.totp_secret) [
        | inl none_ ↦ absurd (ground (arith, none_, has))
        | inr (secret, e) ↦
            secret_given username user secret found e
              (subst (λ o. passes_totp C o (trim text) m.code_time ≡ true) e passes)
      ]
