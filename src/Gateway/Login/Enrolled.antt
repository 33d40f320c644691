-- ===== src/Gateway/Login/Enrolled.antt =====
-- What an enrollment of src/ssh/mod.rs that the code confirms leaves in the configuration.
use central_ssh.Prelude.{
  by_result, by_option, ◌≡◌, ◌≢◌, refl, sym, unwrap_or, ap, ◌∙◌, false, Option, none, some, Result,
  ok, arith,
}
use mathlib.Core.Path.{subst}
use central_ssh.Prelude.Text.{Text, trim}
use central_ssh.Abuse.Types.{Platform}
use central_ssh.Auth.Crypto.{Crypto}
use central_ssh.Auth.Buckets.{Floats}
use central_ssh.Auth.Engine.{verify_totp_code}
use central_ssh.Config.Types.{UserRecord}
use central_ssh.Config.Validate.{find_user}
use central_ssh.Config.Store.{Toml, ConfigStore, set_credentials, update_user_credentials}
use central_ssh.Config.Credentials.{update_user_credentials_memory}
use central_ssh.Gateway.Login.State.{
  PendingAuthContext, GatewayHandler, Moment, AppState, Reply, SshError, Notice, success,
  keyboard_interactive, auth_totp,
}
use central_ssh.Gateway.Login.Audit.{log_event, record_login_success}
use central_ssh.Gateway.Login.Entries.{prompt_selection, allowed_server_entries}
use central_ssh.Gateway.Login.Enrollment.{
  commit_pending_updates, finish_enrollment, handle_enrollment_response,
}

module _ (P : Platform) (C : Crypto) (T : Toml) (F : Floats) where
  module _ (m : Moment) (context : PendingAuthContext) (secret : Text) (app : AppState P T F) where
    -- The configuration behind the commit of a context.
    abbrev updated : ConfigStore T P
    updated =
        (update_user_credentials T P m.config_write context.user.name context.new_password_hash
          (some secret) (some false) app.store).1

    pub commit_store :
        (app' : AppState P T F)
        → app'.store ≡ app.store
        → (commit_pending_updates P C T F m context secret app').1.store ≡ updated
    unfolding commit_pending_updates
    commit_store app' same =
        let renewed =
          ap
            (λ s.
              (update_user_credentials T P m.config_write context.user.name
                context.new_password_hash (some secret) (some false) s).1)
            same in
        by_result (λ (r : Result SshError PendingAuthContext × AppState P T F). r.1.store ≡ updated)
          (update_user_credentials T P m.config_write context.user.name context.new_password_hash
            (some secret) (some false) app'.store).0
          (λ e _. renewed)
          (λ _ _.
            by_option (λ (a : AppState P T F). a.store ≡ updated) context.new_password_hash
              (λ _. renewed) (λ h _. renewed))

    pub prompt_store :
        (name : Text) (notice : Option Notice) (h : GatewayHandler) (app' : AppState P T F)
        → (prompt_selection P C T F name notice h app').app.store ≡ app'.store
    unfolding prompt_selection
    prompt_store name notice h app' =
        by_result (λ (r : Reply P T F). r.app.store ≡ app'.store)
          (allowed_server_entries P C T F app' name) (λ _ _. refl) (λ _ _. refl)

    finish_store :
        (h : GatewayHandler)
        → (finish_enrollment P C T F m context secret h app).app.store ≡ updated
    unfolding finish_enrollment
    finish_store h =
        let app' : AppState P T F = record_login_success P T F m h (
          log_event P T F auth_totp (some context.user.name) none (some keyboard_interactive)
            success app) in
        by_result (λ (r : Reply P T F). r.app.store ≡ updated)
          (commit_pending_updates P C T F m context secret app').0 (λ e _. commit_store app' refl)
          (λ changed _. prompt_store context.user.name none _ _ ∙ commit_store app' refl)

  -- A code that confirms an enrollment puts the new one-time secret in force for the user, with the
  -- new hash if the password was changed, and the user need not change the password any more; no
  -- other user is changed. This holds for a context without a staged password, and a user that the
  -- configuration has, also when the file cannot be written.
  pub enrollment_stores :
      (m : Moment) (context : PendingAuthContext) (secret code : Text) (h : GatewayHandler)
      (app : AppState P T F) (user : UserRecord) (other : Text)
      → verify_totp_code C secret (trim code) m.code_time ≡ ok tt
      → context.login_password ≡ none
      → find_user app.store.config.users context.user.name ≡ some user
      → other ≢ context.user.name
      → let users =
          (handle_enrollment_response P C T F m context secret code h app).app.store.config.users in
        (find_user users context.user.name
          ≡ some (record user {
            password = unwrap_or context.new_password_hash user.password;
            totp_secret = some secret;
            must_change_password = false;
          }))
        × (find_user users other ≡ find_user app.store.config.users other)
  unfolding handle_enrollment_response set_credentials
  enrollment_stores m context secret code h app user other right plain found ne =
      let taken : PendingAuthContext = record context { login_password = none } in
      let Stored : Reply P T F → Type 0 = λ r. r.app.store ≡ updated m taken secret app in
      let stored =
        by_result Stored (verify_totp_code C secret (trim code) m.code_time)
          (λ e wrong. absurd (ground (arith, wrong, right)))
          (λ _ _.
            by_option Stored context.login_password (λ _. finish_store m taken secret app h)
              (λ p staged. absurd (ground (arith, staged, plain)))) in
      let memory =
        update_user_credentials_memory T P m.config_write context.user.name other
          context.new_password_hash (some secret) (some false) app.store user found ne in
      subst
        (λ (s : ConfigStore T P).
          (find_user s.config.users context.user.name
            ≡ some (record user {
              password = unwrap_or context.new_password_hash user.password;
              totp_secret = some secret;
              must_change_password = false;
            }))
          × (find_user s.config.users other ≡ find_user app.store.config.users other))
        (sym stored) memory
