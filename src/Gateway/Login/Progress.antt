-- ===== src/Gateway/Login/Progress.antt =====
-- The state that a handler of the login dialogue (src/ssh/mod.rs) leaves, against the calls so far: the
-- parts that the handlers share.
use central_ssh.Prelude.{
  ℕ, by_result, by_option, by_test, ◌≡◌, refl, Bool, true, false, Option, none, some, List, Result,
  ok, is_some,
}
use mathlib.Core.List.{Memᴰ}
use central_ssh.Prelude.Text.{Text, codes}
use central_ssh.Abuse.Types.{Platform}
use central_ssh.Auth.Crypto.{Crypto}
use central_ssh.Auth.Buckets.{Floats}
use central_ssh.Auth.Engine.{generate_totp_secret, otpauth_url}
use central_ssh.Config.Store.{Toml}
use central_ssh.Gateway.Login.State.{
  PendingAuthContext, PasswordPolicyConfig, KeyboardAuthState, await_password, await_existing_totp,
  await_new_password, await_confirm_password, await_enrollment_totp, await_selection, accept,
  reject, partial, Auth, Prompt, SshError, Notice, GatewayHandler, Moment, AppState, Reply,
  AuditResult,
}
use central_ssh.Gateway.Login.Audit.{note_login_failure, reject_login, record_login_failure}
use central_ssh.Gateway.Login.Entries.{prompt_selection, allowed_server_entries}
use central_ssh.Gateway.Login.Responses.{start_enrollment, advance_after_initial_auth, refuse_login}
use central_ssh.Gateway.Login.History.{Call, PasswordGiven, CodeGiven, Authenticated}

-- Whether a handler accepts the session.
abbrev pub is_accept : Result SshError Auth → Bool
is_accept (ok accept) = true
is_accept _ = false

-- Whether a state waits for the selection of a server.
abbrev pub is_selection : KeyboardAuthState → Bool
is_selection (await_selection _) = true
is_selection _ = false

module _ (P : Platform) (C : Crypto) (T : Toml) (F : Floats) where
  abbrev Calls : Type 0
  Calls = List (Call P C T F)

  -- What the calls show of a state of the dialogue.
  abbrev pub IsBacked : Calls → Option KeyboardAuthState → Type 0
  IsBacked calls none = Unit
  IsBacked calls (some (await_password username)) = Unit
  IsBacked calls (some (await_existing_totp username password)) =
      (call : Call P C T F) × (at : ℕ) × Memᴰ call calls × (call.response ≡ some (password, at))
  IsBacked calls (some (await_new_password context policy)) =
      PasswordGiven P C T F calls context.user.name
  IsBacked calls (some (await_confirm_password context policy candidate)) =
      PasswordGiven P C T F calls context.user.name
  IsBacked calls (some (await_enrollment_totp context secret)) =
      PasswordGiven P C T F calls context.user.name
  IsBacked calls (some (await_selection context)) = Authenticated P C T F calls context.user.name

  -- A reply that does not accept, sets a backed state, and leaves the rest of the connection.
  pub record GoesOn (calls : Calls) (h : GatewayHandler) (r : Reply P T F) : Type 0 where
    pub backed : IsBacked calls r.handler.keyboard_auth_state
    pub username : r.handler.authenticated_username ≡ h.authenticated_username
    pub target : r.handler.pending_target ≡ h.pending_target
    pub proxy : r.handler.proxy_session ≡ h.proxy_session
    pub going : is_accept r.result ≡ false

  module _ {calls : Calls} {h : GatewayHandler} where
    pub stays :
        {result : Result SshError Auth} {app : AppState P T F}
        → is_accept result ≡ false
        → IsBacked calls h.keyboard_auth_state
        → GoesOn calls h (record { result = result; app = app; handler = h })
    stays going b = record {
      backed = b;
      username = refl;
      target = refl;
      proxy = refl;
      going = going;
    }

    pub moves :
        {p : Prompt} {app : AppState P T F} (s : KeyboardAuthState)
        → IsBacked calls (some s)
        → GoesOn calls h (record {
          result = ok (partial p);
          app = app;
          handler = record h { keyboard_auth_state = some s };
        })
    moves s b = record { backed = b; username = refl; target = refl; proxy = refl; going = refl }

    pub prompt_selection_goes :
        (name : Text) (notice : Option Notice) (app : AppState P T F) (s : KeyboardAuthState)
        → IsBacked calls (some s)
        → GoesOn calls h
            (prompt_selection P C T F name notice (record h { keyboard_auth_state = some s }) app)
    unfolding prompt_selection
    prompt_selection_goes name notice app s b =
        by_result (GoesOn _ _) (allowed_server_entries P C T F app name)
          (λ e bad. record {
            backed = b;
            username = refl;
            target = refl;
            proxy = refl;
            going = refl;
          })
          (λ entries good. moves s b)

    pub start_enrollment_goes :
        (m : Moment) (context : PendingAuthContext) (app : AppState P T F)
        → IsBacked calls h.keyboard_auth_state
        → PasswordGiven P C T F calls context.user.name
        → GoesOn calls h (start_enrollment P C T F m context h app)
    unfolding start_enrollment
    start_enrollment_goes m context app b given =
        by_result (GoesOn _ _)
          (otpauth_url C (codes "CentralSSH") context.user.name
            (generate_totp_secret C m.secret_bytes))
          (λ e bad. stays refl b) (λ url good. moves (await_enrollment_totp context _) given)

    pub note_login_failure_goes :
        (m : Moment) (username : Option Text) (next : AppState P T F → Reply P T F)
        (app : AppState P T F)
        → IsBacked calls h.keyboard_auth_state
        → ((app' : AppState P T F) → GoesOn calls h (next app'))
        → GoesOn calls h (note_login_failure P T F m username h next app)
    unfolding note_login_failure
    note_login_failure_goes m username next app b goes =
        by_option (GoesOn _ _) (record_login_failure P T F m h username app).0 (λ bad. stays refl b)
          (λ o good. goes _)

    pub reject_login_goes :
        (m : Moment) (username : Option Text) (app : AppState P T F)
        → IsBacked calls h.keyboard_auth_state
        → GoesOn calls h (reject_login P T F m username h app)
    unfolding reject_login
    reject_login_goes m username app b =
        note_login_failure_goes m username
          (λ app'. record { result = ok reject; app = app'; handler = h }) app b
          (λ app'. stays {result = ok reject} {app = app'} refl b)

    pub refuse_login_goes :
        (m : Moment) (result : AuditResult) (username : Text) (app : AppState P T F)
        → IsBacked calls h.keyboard_auth_state
        → GoesOn calls h (refuse_login P C T F m result username h app)
    unfolding refuse_login
    refuse_login_goes m result username app b = reject_login_goes m (some username) _ b

    pub advance_goes :
        (m : Moment) (context : PendingAuthContext) (policy : PasswordPolicyConfig)
        (app : AppState P T F)
        → IsBacked calls h.keyboard_auth_state
        → PasswordGiven P C T F calls context.user.name
        → (context.user.must_change_password ≡ false
            → is_some context.user.totp_secret ≡ true
            → CodeGiven P C T F calls context.user.name)
        → GoesOn calls h (advance_after_initial_auth P C T F m context policy h app)
    unfolding advance_after_initial_auth
    advance_goes m context policy app b given code =
        by_test (GoesOn _ _) context.user.must_change_password
          (λ change. moves (await_new_password context policy) given)
          (λ keep.
            by_test (GoesOn _ _) (is_some context.user.totp_secret)
              (λ has.
                prompt_selection_goes context.user.name none app (await_selection context)
                  (record { password = given; code = code keep has }))
              (λ without. start_enrollment_goes m context app b given))
