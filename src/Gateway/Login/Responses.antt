-- ===== src/Gateway/Login/Responses.antt =====
-- The handlers of the responses that hold the password and the one-time code (src/ssh/mod.rs). Each
-- takes the moment, the response, and the states of the application and of the connection.
use central_ssh.Prelude.{
  Bool, true, false, not, ◌&&◌, Option, none, some, unwrap_or, is_some, List, Result, ok, err,
  if◌then◌else◌, any,
}
use central_ssh.Prelude.Text.{Text, codes, text_eq, text_eq_class, trim}
use central_ssh.Error.{Error, totp_invalid}
use central_ssh.Abuse.Types.{Platform}
use central_ssh.Auth.Crypto.{Crypto}
use central_ssh.Auth.Engine.{
  verify_password_constant_time, verify_password_and_optional_totp_constant_time,
  generate_totp_secret, otpauth_url,
}
use central_ssh.Auth.Buckets.{Floats, consume_rate_limit_token}
use central_ssh.Config.Types.{SettingsConfig, UserRecord}
use central_ssh.Config.Validate.{find_user}
use central_ssh.Config.Store.{Toml}
use central_ssh.Gateway.Login.State.{
  PendingAuthContext, PasswordPolicyConfig, KeyboardAuthState, await_existing_totp,
  await_new_password, await_enrollment_totp, await_selection, Prompt, new_password_prompt,
  totp_prompt, enrollment_prompt, partial, io, auth_attempt, auth_failure, auth_password, auth_totp,
  auth_success, unknown_username_attempt, AuditResult, success, failure, denied,
  keyboard_interactive, GatewayHandler, Moment, AppState, Reply,
}
use central_ssh.Gateway.Login.Audit.{log_event, reject_login, record_login_success}
use central_ssh.Gateway.Login.Entries.{prompt_selection}

unfoldable pub should_prompt_existing_totp : Option UserRecord → Bool
should_prompt_existing_totp none = true
should_prompt_existing_totp (some user) = not user.must_change_password && is_some user.totp_secret

unfoldable pub build_pending_context : UserRecord → Option Text → PendingAuthContext
build_pending_context user login_password = record {
  user = user;
  new_password_hash = none;
  login_password = login_password;
}

-- The match on the error of a login: a wrong one-time code is the only one that it tells apart.
unfoldable pub is_totp_invalid : Error → Bool
is_totp_invalid totp_invalid = true
is_totp_invalid _ = false

module _ (P : Platform) (C : Crypto) (T : Toml) (F : Floats) where
  abbrev App : Type 0
  App = AppState P T F

  abbrev users_of : App → List UserRecord
  users_of app = app.store.config.users

  -- `PasswordPolicyConfig` of the configuration in force.
  abbrev pub policy_of : App → PasswordPolicyConfig
  policy_of app =
      let settings : SettingsConfig = app.store.config.settings in
      record {
        enforce = unwrap_or settings.enforce_password_policy true;
        min_length = unwrap_or settings.min_password_policy 12;
      }

  -- A state of the dialogue and the prompt that goes with it.
  abbrev pub go_on : KeyboardAuthState → Prompt → GatewayHandler → App → Reply P T F
  go_on state prompt handler app = record {
    result = ok (partial prompt);
    app = app;
    handler = record handler { keyboard_auth_state = some state };
  }

  -- A new one-time secret and its enrollment.
  unfoldable pub start_enrollment : Moment → PendingAuthContext → GatewayHandler → App → Reply P T F
  start_enrollment m context handler app =
      let secret = generate_totp_secret C m.secret_bytes in
      elim (otpauth_url C (codes "CentralSSH") context.user.name secret) [
        | err _ ↦ record { result = err io; app = app; handler = handler }
        | ok url ↦
            go_on (await_enrollment_totp context secret) (enrollment_prompt secret url none) handler
              app
      ]

  unfoldable pub advance_after_initial_auth :
      Moment → PendingAuthContext → PasswordPolicyConfig → GatewayHandler → App → Reply P T F
  unfolding prompt_selection start_enrollment
  advance_after_initial_auth m context policy handler app =
      if context.user.must_change_password
      then go_on (await_new_password context policy) (new_password_prompt none) handler app
      else if is_some context.user.totp_secret
      then prompt_selection P C T F context.user.name none
          (record handler { keyboard_auth_state = some (await_selection context) }) app
      else start_enrollment m context handler app

  -- `consume_rate_limit_token`, on the application.
  unfoldable pub take_login_token :
      Moment → GatewayHandler → Text → App → Result Error (Unit {0}) × App
  take_login_token m handler username app =
      let (result, limits) =
        consume_rate_limit_token F handler.peer_ip username m.address_readings m.user_readings
          app.limits in
      (result, record app { limits = limits })

  -- A refusal that is logged, counted and ends in a rejection.
  unfoldable pub refuse_login : Moment → AuditResult → Text → GatewayHandler → App → Reply P T F
  unfolding reject_login log_event
  refuse_login m result username handler app =
      reject_login P T F m (some username) handler
        (log_event P T F auth_failure (some username) none (some keyboard_interactive) result app)

  unfoldable pub handle_password_response :
      Moment → Text → Text → GatewayHandler → App → Reply P T F
  unfolding should_prompt_existing_totp take_login_token refuse_login advance_after_initial_auth
      build_pending_context
  handle_password_response m username password handler app =
      let matched = find_user (users_of app) username in
      if should_prompt_existing_totp matched
      then go_on (await_existing_totp username password) (totp_prompt none) handler app
      else elim matched [
        | none ↦ record { result = ok (partial (totp_prompt none)); app = app; handler = handler }
        | some _ ↦
            let app1 =
              log_event P T F auth_attempt (some username) none (some keyboard_interactive) success
                app in
            let (token, app2) = take_login_token m handler username app1 in
            elim token [
              | err _ ↦ refuse_login m denied username handler app2
              | ok _ ↦
                  elim (verify_password_constant_time C app.dummy_hash (users_of app) username
                    password) [
                      | err _ ↦ refuse_login m failure username handler app2
                      | ok user ↦
                          advance_after_initial_auth m (build_pending_context user none)
                            (policy_of app) handler
                            (log_event P T F auth_password (some username) none
                              (some keyboard_interactive) success app2)
                    ]
            ]
      ]

  unfoldable pub handle_existing_totp_response :
      Moment → Text → Text → Text → GatewayHandler → App → Reply P T F
  unfolding take_login_token refuse_login advance_after_initial_auth build_pending_context
      is_totp_invalid
  handle_existing_totp_response m username password code handler app =
      let app1 =
        log_event P T F auth_attempt (some username) none (some keyboard_interactive) success app in
      let (token, app2) = take_login_token m handler username app1 in
      elim token [
        | err _ ↦ refuse_login m denied username handler app2
        | ok _ ↦
            elim (verify_password_and_optional_totp_constant_time C app.dummy_hash (users_of app)
              username password (trim code) m.code_time) [
                | ok user ↦
                    let app3 = record_login_success P T F m handler (
                      log_event P T F auth_success (some username) none (some keyboard_interactive)
                        success app2) in
                    let app4 =
                      if is_some user.totp_secret
                      then log_event P T F auth_totp (some username) none
                          (some keyboard_interactive) success app3
                      else app3 in
                    advance_after_initial_auth m (build_pending_context user none) (policy_of app)
                      handler app4
                | err e ↦
                    let app3 =
                      log_event P T F auth_failure (some username) none (some keyboard_interactive)
                        failure app2 in
                    let unknown =
                      not (any (λ u. text_eq (UserRecord.name u) username) (users_of app)) in
                    reject_login P T F m (some username) handler (
                      if not (is_totp_invalid e) && unknown
                      then log_event P T F unknown_username_attempt (some username) none
                          (some keyboard_interactive) failure app3
                      else app3)
              ]
      ]
