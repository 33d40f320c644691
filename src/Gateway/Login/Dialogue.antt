-- ===== src/Gateway/Login/Dialogue.antt =====
-- The authentication handlers of a connection (src/ssh/mod.rs): the methods that are refused, the
-- dispatch of the login dialogue, and the connection to the chosen server.
use central_ssh.Prelude.{
  Bool, true, false, not, ◌&&◌, Option, none, some, unwrap_or, is_none_or, is_some, [], Result, ok,
  err, if◌then◌else◌, is_empty,
}
use central_ssh.Prelude.Text.{Text, trim}
use central_ssh.Error.{Error}
use central_ssh.Abuse.Types.{Platform}
use central_ssh.Auth.Crypto.{Crypto}
use central_ssh.Auth.Buckets.{Floats}
use central_ssh.Config.Policy.{resolve_effective_authorization_policy}
use central_ssh.Config.Store.{Toml}
use central_ssh.Gateway.Login.State.{
  KeyboardAuthState, await_password, await_existing_totp, await_new_password,
  await_confirm_password, await_enrollment_totp, await_selection, SelectedTarget, password_prompt,
  accept, reject, partial, SshError, io, protocol_error, server_selected, proxy_start, success,
  failure, denied, Method, keyboard_interactive, GatewayHandler, Moment, AppState, Reply,
}
use central_ssh.Gateway.Login.Audit.{log_event, reject_login, enforce_pre_auth_policy}
use central_ssh.Gateway.Login.Entries.{handle_selection_response}
use central_ssh.Gateway.Login.Responses.{handle_password_response, handle_existing_totp_response}
use central_ssh.Gateway.Login.Enrollment.{
  handle_new_password_response, handle_confirm_password_response, handle_enrollment_response,
}

module _ (P : Platform) (C : Crypto) (T : Toml) (F : Floats) where
  -- `auth_none`, `auth_publickey` and `auth_password`, by the method that they name.
  unfoldable pub auth_refused : Method → Moment → GatewayHandler → AppState P T F → Reply P T F
  unfolding enforce_pre_auth_policy log_event
  auth_refused method m handler app =
      let (decision, (app', handler')) = enforce_pre_auth_policy P T F m method (app, handler) in
      elim decision [
        | some auth ↦ record { result = ok auth; app = app'; handler = handler' }
        | none ↦ record {
          result = ok reject;
          app = log_event P T F protocol_error none none (some method) denied app';
          handler = handler';
        }
      ]

  -- The match on the state of the dialogue, which is taken out of the connection.
  unfoldable pub respond :
      KeyboardAuthState → Moment → Text → GatewayHandler → AppState P T F → Reply P T F
  unfolding handle_password_response handle_existing_totp_response handle_new_password_response
      handle_confirm_password_response handle_enrollment_response handle_selection_response
  respond (await_password username) m text handler app =
      handle_password_response P C T F m username text handler app
  respond (await_existing_totp username password) m text handler app =
      handle_existing_totp_response P C T F m username password text handler app
  respond (await_new_password context policy) m text handler app =
      handle_new_password_response P C T F context policy text handler app
  respond (await_confirm_password context policy candidate) m text handler app =
      handle_confirm_password_response P C T F m context policy candidate text handler app
  respond (await_enrollment_totp context secret) m text handler app =
      handle_enrollment_response P C T F m context secret text handler app
  respond (await_selection context) m text handler app =
      handle_selection_response P C T F context text handler app

  -- The part of `auth_keyboard_interactive` for a user that is named: the response is none, or the
  -- first of its texts if it has one.
  unfoldable pub continue_dialogue :
      Moment → Text → Option (Option Text) → GatewayHandler → AppState P T F → Reply P T F
  unfolding respond
  continue_dialogue m username response handler app =
      let ask : Reply P T F = record {
        result = ok (partial password_prompt);
        app = app;
        handler = record handler { keyboard_auth_state = some (await_password username) };
      } in
      elim response [
        | none ↦ ask
        | some first ↦
            if not (is_some handler.keyboard_auth_state) && is_none_or first is_empty
            then ask
            else respond (unwrap_or handler.keyboard_auth_state (await_password username)) m
                (unwrap_or first []) (record handler { keyboard_auth_state = none }) app
      ]

  unfoldable pub auth_keyboard_interactive :
      Moment → Text → Option (Option Text) → GatewayHandler → AppState P T F → Reply P T F
  unfolding enforce_pre_auth_policy continue_dialogue reject_login log_event
  auth_keyboard_interactive m user response handler app =
      let (decision, (app', handler')) =
        enforce_pre_auth_policy P T F m keyboard_interactive (app, handler) in
      elim decision [
        | some auth ↦ record { result = ok auth; app = app'; handler = handler' }
        | none ↦
            if is_some handler'.authenticated_username && is_some handler'.proxy_session
            then record { result = ok accept; app = app'; handler = handler' }
            else if is_empty (trim user)
            then reject_login P T F m none handler'
                (log_event P T F protocol_error none none (some keyboard_interactive) denied app')
            else continue_dialogue m (trim user) response handler' app'
      ]

  -- What `auth_succeeded` does: what it returns, whether it disconnects the session, and the states.
  pub record Connected : Type 0 where
    pub result : Result SshError (Unit {0})
    pub disconnected : Bool
    pub app : AppState P T F
    pub handler : GatewayHandler

  -- `connect` stands for the outcome of `ProxySession::connect`.
  unfoldable pub connect_selected_target :
      Result Error (Unit {0}) → Text → SelectedTarget → GatewayHandler → AppState P T F → Connected
  unfolding log_event
  connect_selected_target connect username target handler app =
      let app1 =
        log_event P T F server_selected (some username) (some target.name) none success app in
      elim (resolve_effective_authorization_policy P app.store.config username target.name
        app.store.paths.per_user_per_server) [
          | err _ ↦ record { result = err io; disconnected = false; app = app1; handler = handler }
          | ok policy ↦ elim connect [
            | ok _ ↦ record {
              result = ok tt;
              disconnected = false;
              app =
                  log_event P T F proxy_start (some username) (some target.name) none success app1;
              handler = record handler { active_policy = some policy; proxy_session = some target };
            }
            | err _ ↦ record {
              result = ok tt;
              disconnected = true;
              app =
                  log_event P T F proxy_start (some username) (some target.name) none failure app1;
              handler = record handler { active_policy = none };
            }
          ]
        ]

  unfoldable pub auth_succeeded :
      Result Error (Unit {0}) → GatewayHandler → AppState P T F → Connected
  unfolding connect_selected_target
  auth_succeeded connect handler app =
      let stop : Connected = record {
        result = ok tt;
        disconnected = true;
        app = app;
        handler = handler;
      } in
      elim handler.authenticated_username [
        | none ↦ stop
        | some username ↦ elim handler.pending_target [
          | none ↦ stop
          | some target ↦ connect_selected_target connect username target handler app
        ]
      ]
