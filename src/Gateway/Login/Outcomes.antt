-- ===== src/Gateway/Login/Outcomes.antt =====
-- What the login dialogue of src/ssh/mod.rs does with a banned address and with wrong credentials.
use central_ssh.Prelude.{
  by_option, ◌≡◌, refl, true, false, Option, none, some, [], Result, ok, err, arith,
}
use central_ssh.Prelude.Text.{Text, trim}
use central_ssh.Error.{Error}
use central_ssh.Abuse.Types.{Platform, FailureOutcome}
use central_ssh.Abuse.Tracker.{Tracker, tracker_check_ip, tracker_record_failure}
use central_ssh.Auth.Crypto.{Crypto}
use central_ssh.Auth.Buckets.{Floats}
use central_ssh.Auth.Engine.{
  verify_password_constant_time, verify_password_and_optional_totp_constant_time,
}
use central_ssh.Config.Validate.{find_user}
use central_ssh.Config.Store.{Toml, ConfigStore}
use central_ssh.Gateway.Login.State.{
  KeyboardAuthState, await_password, await_existing_totp, reject, Auth, keyboard_interactive,
  Method, GatewayHandler, Moment, AppState, Reply, SshError, panicked, auth_attempt, success,
}
use central_ssh.Gateway.Login.Audit.{log_event, enforce_pre_auth_policy}
use central_ssh.Gateway.Login.Responses.{should_prompt_existing_totp}
use central_ssh.Gateway.Login.Checks.{pre_auth-Checked, pre_auth_banned}
use central_ssh.Gateway.Login.Dialogue.{auth_refused, auth_keyboard_interactive}

module _ (P : Platform) (C : Crypto) (T : Toml) (F : Floats) where
  -- An address that the tracker finds banned is rejected before anything of its response is read:
  -- the state of the dialogue, the identity, the configuration and the rate limits stay as they are.
  pub auth_keyboard_interactive_banned :
      (m : Moment) (user : Text) (response : Option (Option Text)) (h : GatewayHandler)
      (app : AppState P T F)
      → (tracker_check_ip P h.peer_ip m.checked m.check_saved m.check_write app.abuse).0.banned
        ≡ true
      → let r = auth_keyboard_interactive P C T F m user response h app in
        (r.result ≡ ok reject)
        × (r.handler.keyboard_auth_state ≡ h.keyboard_auth_state)
        × (r.handler.authenticated_username ≡ h.authenticated_username)
        × (r.app.store ≡ app.store)
        × (r.app.limits ≡ app.limits)
  unfolding auth_keyboard_interactive
  auth_keyboard_interactive_banned m user response h app is_banned =
      let c = pre_auth-Checked P C T F m keyboard_interactive app h in
      let rejected = pre_auth_banned P C T F m keyboard_interactive app h is_banned in
      by_option
        (λ (r : Reply P T F).
          (r.result ≡ ok reject)
          × (r.handler.keyboard_auth_state ≡ h.keyboard_auth_state)
          × (r.handler.authenticated_username ≡ h.authenticated_username)
          × (r.app.store ≡ app.store)
          × (r.app.limits ≡ app.limits))
        (enforce_pre_auth_policy P T F m keyboard_interactive (app, h)).0
        (λ passed. absurd (ground (arith, passed, rejected)))
        (λ auth decided.
          (ground (arith, decided, rejected), c.state, c.username, c.store, c.limits))

  -- Of the other methods none accepts, whatever the state: the answer is the rejection that names
  -- keyboard-interactive.
  pub auth_refused_rejects :
      (kind : Method) (m : Moment) (h : GatewayHandler) (app : AppState P T F)
      → (auth_refused P C T F kind m h app).result ≡ ok reject
  unfolding auth_refused
  auth_refused_rejects kind m h app =
      let c = pre_auth-Checked P C T F m kind app h in
      by_option (λ (r : Reply P T F). r.result ≡ ok reject)
        (enforce_pre_auth_policy P T F m kind (app, h)).0 (λ _. refl)
        (λ auth decided. ground (arith, decided, c.decided))

  abbrev pub attempted : Text → AppState P T F → AppState P T F
  attempted username app =
      log_event P T F auth_attempt (some username) none (some keyboard_interactive) success app

  -- What a login that fails returns by the outcome of the tracker, which has none if it panics.
  abbrev pub verdict : Option FailureOutcome → Result SshError Auth
  verdict none = err panicked
  verdict (some _) = ok reject

  -- A failure is counted: the tracker is told the name, and the connection and the configuration
  -- stay as they are.
  pub record Counted (m : Moment) (username : Text) (h : GatewayHandler) (before : Tracker P)
      (store : ConfigStore T P) (r : Reply P T F) : Type 0 where
    pub abuse :
        r.app.abuse
        ≡ (tracker_record_failure P h.peer_ip
            (some username)
            none
            m.noted
            m.note_saved
            m.note_write
            before).1
    pub result :
        r.result
        ≡ verdict
            (tracker_record_failure P h.peer_ip
              (some username)
              none
              m.noted
              m.note_saved
              m.note_write
              before).0
    pub handler : r.handler ≡ h
    pub kept : r.app.store ≡ store

  -- The user that a response is for, if it is a password or a one-time code of a login.
  abbrev pub login_name : KeyboardAuthState → Text
  login_name (await_password username) = username
  login_name (await_existing_totp username password) = username
  login_name _ = []

  -- The response of a login has wrong credentials: the password of a user who is not asked for a
  -- code, or a code with the password before it.
  abbrev pub IsWrong : Moment → Text → AppState P T F → Error → KeyboardAuthState → Type 0
  IsWrong m text app e (await_password username) =
      (should_prompt_existing_totp (find_user app.store.config.users username) ≡ false)
      × (verify_password_constant_time C app.dummy_hash app.store.config.users username text
          ≡ err e)
  IsWrong m text app e (await_existing_totp username password) =
      verify_password_and_optional_totp_constant_time C app.dummy_hash app.store.config.users
        username password (trim text) m.code_time
      ≡ err e
  IsWrong m text app e _ = ⊥
