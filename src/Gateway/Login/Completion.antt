-- ===== src/Gateway/Login/Completion.antt =====
-- A login of src/ssh/mod.rs with right credentials, from its first response to its last.
use central_ssh.Prelude.{◌≡◌, none, some, List, map, if◌then◌else◌, ok, is_some}
use central_ssh.Prelude.Text.{Text}
use central_ssh.Abuse.Types.{Platform}
use central_ssh.Auth.Crypto.{Crypto}
use central_ssh.Auth.Buckets.{Floats}
use central_ssh.Config.Types.{UserRecord}
use central_ssh.Config.Store.{Toml}
use central_ssh.Gateway.Login.State.{
  await_selection, partial, Prompt, selection_prompt, keyboard_interactive, GatewayHandler, Moment,
  AppState, Reply, auth_success, auth_totp, success,
}
use central_ssh.Gateway.Login.Audit.{record_login_success, log_event}
use central_ssh.Gateway.Login.Responses.{build_pending_context, take_login_token}
use central_ssh.Gateway.Login.Outcomes.{attempted}

module _ (P : Platform) (C : Crypto) (T : Toml) (F : Floats) where
  -- The menu as the dialogue shows it.
  abbrev pub menu_of : AppState P T F → List (Text × Text) → Prompt
  menu_of app entries =
      selection_prompt
        (map (λ (e : Text × Text). (e.0, if app.store.paths.hide_proxy_ip then none else some e.1))
          entries)
        none

  -- A reply that waits for the selection of an entry.
  record IsWaiting (user : UserRecord) (menu : Prompt) (h : GatewayHandler) (r : Reply P T F)
      : Type 0 where
    result : r.result ≡ ok (partial menu)
    handler : r.handler ≡ record h {
      keyboard_auth_state = some (await_selection (build_pending_context user none));
    }

  -- The application behind a code that checks.
  abbrev logged_in : Moment → Text → UserRecord → GatewayHandler → AppState P T F → AppState P T F
  logged_in m username user h app =
      let app3 = record_login_success P T F m h (
        log_event P T F auth_success (some username) none (some keyboard_interactive) success
          (take_login_token P C T F m h username (attempted P C T F username app)).1) in
      if is_some user.totp_secret
      then log_event P T F auth_totp (some username) none (some keyboard_interactive) success app3
      else app3
