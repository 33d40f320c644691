-- ===== src/Gateway/Login/Entries.antt =====
-- The servers of a user, their menu and the selection from it (src/ssh/mod.rs).
use central_ssh.Prelude.{
  ℕ, ◌+◌, ◌-◌, ◌*◌, ◌^◌, Bool, ◌&&◌, Option, none, some, and_then, List, [], ◌∷◌, Result, ok, err,
  ltb, leb, ◌==◌, if◌then◌else◌, length, get_elem?, is_empty, map,
}
use central_ssh.Prelude.Text.{Text, codes, text_eq, text_eq_class, trim, is_ascii_digit}
use central_ssh.Prelude.Assoc.{lookup}
use central_ssh.Error.{Error, authorization_denied}
use central_ssh.Abuse.Types.{Platform}
use central_ssh.Auth.Crypto.{Crypto}
use central_ssh.Auth.Buckets.{Floats, to_ascii_lowercase}
use central_ssh.Config.Types.{UserRecord, Servers}
use central_ssh.Config.Validate.{find_user}
use central_ssh.Config.Store.{Toml}
use central_ssh.Gateway.Login.State.{
  PendingAuthContext, PasswordPolicyConfig, KeyboardAuthState, await_existing_totp,
  await_new_password, await_confirm_password, await_enrollment_totp, await_selection,
  SelectedTarget, Notice, passwords_do_not_match, empty_password, invalid_totp_code,
  invalid_selection, refused, Prompt, confirm_password_prompt, new_password_prompt, totp_prompt,
  enrollment_prompt, selection_prompt, Auth, accept, reject, partial, SshError, io, disconnect,
  auth_attempt, auth_failure, auth_password, auth_totp, auth_success, unknown_username_attempt,
  password_change, totp_enrollment, AuditResult, success, failure, denied, keyboard_interactive,
  no_method, GatewayHandler, Moment, AppState, Reply,
}
use central_ssh.Gateway.Login.State
use central_ssh.Gateway.Login.Audit.{log_event}

-- The digits of `str::parse::<usize>`, behind what was read: none for another character, or if
-- the number leaves 64 bits.
unfoldable pub parse_digits : ℕ → Text → Option ℕ
parse_digits n [] = some n
parse_digits n (c ∷ s) =
    if is_ascii_digit c && ltb (n * 10 + (c - b'0')) (2 ^ 64)
    then parse_digits (n * 10 + (c - b'0')) s
    else none

-- `str::parse::<usize>`.
unfoldable pub parse_usize : Text → Option ℕ
unfolding parse_digits
parse_usize [] = none
parse_usize (c ∷ []) = if c == b'+' then none else parse_digits 0 (c ∷ [])
parse_usize (c ∷ d ∷ s) = if c == b'+' then parse_digits 0 (d ∷ s) else parse_digits 0 (c ∷ d ∷ s)

-- `filter_map` over the names of the servers that a user may reach.
unfoldable pub server_entries : Servers → List Text → List (Text × Text)
server_entries servers [] = []
server_entries servers (name ∷ names) =
    let rest = server_entries servers names in
    elim (lookup name servers) [ none ↦ rest | some host ↦ (name, host) ∷ rest ]

-- The test of a selection: the index of the entry that it chooses, if it is a number in range.
unfoldable pub selected_index : Text → ℕ → Option ℕ
unfolding parse_usize
selected_index selection count =
    and_then (parse_usize (trim selection))
      λ value. if ltb 0 value && leb value count then some (value - 1) else none

-- Whether a selection leaves the menu.
unfoldable pub is_quit : Text → Bool
is_quit selection = text_eq (to_ascii_lowercase (trim selection)) (codes "q")

module _ (P : Platform) (C : Crypto) (T : Toml) (F : Floats) where
  abbrev App : Type 0
  App = AppState P T F

  abbrev users_of : App → List UserRecord
  users_of app = app.store.config.users

  unfoldable pub allowed_server_entries : App → Text → Result Error (List (Text × Text))
  unfolding server_entries find_user
  allowed_server_entries app username = elim (find_user (users_of app) username) [
    | none ↦ err authorization_denied
    | some user ↦
        let entries = server_entries app.store.servers user.allowed_servers in
        if is_empty entries then err authorization_denied else ok entries
  ]

  -- `selection_prompt`, as it ends a handler.
  unfoldable pub prompt_selection : Text → Option Notice → GatewayHandler → App → Reply P T F
  unfolding allowed_server_entries log_event
  prompt_selection username notice handler app = elim (allowed_server_entries app username) [
    | err _ ↦ record {
      result = err io;
      app = log_event P T F State.authorization_denied (some username) none none denied app;
      handler = handler;
    }
    | ok entries ↦
        let hide = app.store.paths.hide_proxy_ip in
        record {
          result = ok (
              partial (
                selection_prompt
                  (map (λ (e : Text × Text). (e.0, if hide then none else some e.1)) entries)
                  notice));
          app = app;
          handler = handler;
        }
  ]

  unfoldable pub handle_selection_response :
      PendingAuthContext → Text → GatewayHandler → App → Reply P T F
  unfolding is_quit selected_index prompt_selection allowed_server_entries
  handle_selection_response context selection handler app =
      let username = context.user.name in
      if is_quit selection
      then record {
        result = err disconnect;
        app = app;
        handler = record handler {
          keyboard_auth_state = none;
          authenticated_username = none;
          pending_target = none;
          active_policy = none;
        };
      }
      else elim (allowed_server_entries app username) [
        | err _ ↦ record { result = err io; app = app; handler = handler }
        | ok entries ↦
            elim (and_then (selected_index selection (length entries)) (λ i. get_elem? entries i)) [
              | none ↦
                  prompt_selection username (some invalid_selection)
                    (record handler { keyboard_auth_state = some (await_selection context) }) app
              | some (name, host) ↦ record {
                result = ok accept;
                app = app;
                handler = record handler {
                  pending_target = some (record { name = name; host = host });
                  authenticated_username = some username;
                  keyboard_auth_state = none;
                };
              }
            ]
      ]
