-- ===== src/Gateway/Login/Enrollment.antt =====
-- The change of a password and the enrollment of a one-time secret (src/ssh/mod.rs).
use central_ssh.Prelude.{
  false, not, Option, none, some, List, Result, ok, err, if◌then◌else◌, is_empty,
}
use central_ssh.Prelude.Text.{Text, codes, text_eq, text_eq_class, trim}
use central_ssh.Abuse.Types.{Platform}
use central_ssh.Auth.Crypto.{Crypto}
use central_ssh.Auth.Engine.{
  verify_password_constant_time, verify_totp_code, enforce_password_policy, hash_password,
  otpauth_url,
}
use central_ssh.Auth.Buckets.{Floats}
use central_ssh.Config.Types.{UserRecord}
use central_ssh.Config.Store.{Toml, update_user_credentials}
use central_ssh.Gateway.Login.State.{
  PendingAuthContext, PasswordPolicyConfig, await_new_password, await_confirm_password,
  await_enrollment_totp, await_selection, Notice, passwords_do_not_match, empty_password,
  invalid_totp_code, refused, confirm_password_prompt, new_password_prompt, enrollment_prompt,
  SshError, io, auth_failure, auth_totp, auth_success, password_change, totp_enrollment, success,
  failure, denied, keyboard_interactive, GatewayHandler, Moment, AppState, Reply,
}
use central_ssh.Gateway.Login.Audit.{log_event, note_login_failure, record_login_success}
use central_ssh.Gateway.Login.Entries.{prompt_selection}
use central_ssh.Gateway.Login.Responses.{go_on, start_enrollment, take_login_token, refuse_login}

module _ (P : Platform) (C : Crypto) (T : Toml) (F : Floats) where
  abbrev App : Type 0
  App = AppState P T F

  abbrev users_of : App → List UserRecord
  users_of app = app.store.config.users

  unfoldable pub handle_new_password_response :
      PendingAuthContext → PasswordPolicyConfig → Text → GatewayHandler → App → Reply P T F
  handle_new_password_response context policy new_password handler app =
      go_on P C T F (await_confirm_password context policy new_password) confirm_password_prompt
        handler app

  -- The test of a new password under a policy: what is wrong with it.
  unfoldable pub password_notice : PasswordPolicyConfig → UserRecord → Text → Option Notice
  password_notice policy user new_password =
      if policy.enforce
      then elim (enforce_password_policy C new_password user.password policy.min_length) [
        | err e ↦ some (refused e)
        | ok _ ↦ none
      ]
      else if is_empty new_password
      then some empty_password
      else none

  unfoldable pub handle_confirm_password_response :
      Moment
      → PendingAuthContext
      → PasswordPolicyConfig
      → Text
      → Text
      → GatewayHandler
      → App
      → Reply P T F
  unfolding password_notice start_enrollment
  handle_confirm_password_response m context policy candidate confirmation handler app =
      let again : Notice → Reply P T F = λ notice.
        go_on P C T F (await_new_password context policy) (new_password_prompt (some notice))
          handler app in
      if not (text_eq candidate confirmation)
      then again passwords_do_not_match
      else elim (password_notice policy context.user candidate) [
        | some notice ↦ again notice
        | none ↦ elim (hash_password C m.salt candidate) [
          | err _ ↦ record { result = err io; app = app; handler = handler }
          | ok hash ↦
              start_enrollment P C T F m (record context { new_password_hash = some hash }) handler
                app
        ]
      ]

  -- `commit_pending_updates` with a new one-time secret: what it returns, and the changed context.
  unfoldable pub commit_pending_updates :
      Moment → PendingAuthContext → Text → App → Result SshError PendingAuthContext × App
  unfolding log_event
  commit_pending_updates m context secret app =
      let user : UserRecord = context.user in
      let hash = context.new_password_hash in
      let (result, store) =
        update_user_credentials T P m.config_write user.name hash (some secret) (some false)
          app.store in
      let app1 : App = record app { store = store } in
      elim result [
        | err _ ↦ (err io, app1)
        | ok _ ↦
            let app2 : App = elim hash [
              | none ↦ app1
              | some _ ↦
                  log_event P T F password_change (some user.name) none (some keyboard_interactive)
                    success app1
            ] in
            let user1 : UserRecord = elim hash [
              | none ↦ user
              | some h ↦ record user { password = h; must_change_password = false }
            ] in
            (
              ok (record context { user = record user1 { totp_secret = some secret } }),
              log_event P T F totp_enrollment (some user.name) none (some keyboard_interactive)
                  success app2,
            )
      ]

  -- The part of `handle_enrollment_response` behind its checks.
  unfoldable pub finish_enrollment :
      Moment → PendingAuthContext → Text → GatewayHandler → App → Reply P T F
  unfolding commit_pending_updates prompt_selection record_login_success
  finish_enrollment m context secret handler app =
      let username = context.user.name in
      let app1 =
        record_login_success P T F m handler (
          log_event P T F auth_totp (some username) none (some keyboard_interactive) success app) in
      let (committed, app2) = commit_pending_updates m context secret app1 in
      elim committed [
        | err e ↦ record { result = err e; app = app2; handler = handler }
        | ok context' ↦
            prompt_selection P C T F username none
              (record handler { keyboard_auth_state = some (await_selection context') }) app2
      ]

  -- The prompt for another code of the same secret.
  unfoldable pub repeat_enrollment : PendingAuthContext → Text → GatewayHandler → App → Reply P T F
  repeat_enrollment context secret handler app =
      elim (otpauth_url C (codes "CentralSSH") context.user.name secret) [
        | err _ ↦ record { result = err io; app = app; handler = handler }
        | ok url ↦
            go_on P C T F (await_enrollment_totp context secret)
              (enrollment_prompt secret url (some invalid_totp_code)) handler app
      ]

  unfoldable pub handle_enrollment_response :
      Moment → PendingAuthContext → Text → Text → GatewayHandler → App → Reply P T F
  unfolding finish_enrollment take_login_token refuse_login note_login_failure repeat_enrollment
  handle_enrollment_response m context secret code handler app =
      let username = context.user.name in
      let taken : PendingAuthContext = record context { login_password = none } in
      elim (verify_totp_code C secret (trim code) m.code_time) [
        | err _ ↦
            note_login_failure P T F m (some username) handler
              (repeat_enrollment context secret handler)
              (log_event P T F auth_failure (some username) none (some keyboard_interactive) failure
                app)
        | ok _ ↦ elim context.login_password [
          | none ↦ finish_enrollment m taken secret handler app
          | some login_password ↦
              let (token, app1) = take_login_token P C T F m handler username app in
              elim token [
                | err _ ↦ refuse_login P C T F m denied username handler app1
                | ok _ ↦
                    elim (verify_password_constant_time C app.dummy_hash (users_of app) username
                      login_password) [
                        | err _ ↦ refuse_login P C T F m failure username handler app1
                        | ok _ ↦ finish_enrollment m taken secret handler (
                            log_event P T F auth_success (some username) none
                              (some keyboard_interactive) success app1)
                      ]
              ]
        ]
      ]
