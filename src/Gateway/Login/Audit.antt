-- ===== src/Gateway/Login/Audit.antt =====
-- The parts of the login that write the audit log and tell the tracker (src/ssh/mod.rs).
use central_ssh.Prelude.{true, ◌&&◌, Option, none, some, [], ◌∷◌, ◌++◌, ok, err, if◌then◌else◌}
use central_ssh.Prelude.Text.{Text}
use central_ssh.Abuse.Types.{Platform, BanEvent, created, extended, PreAuthCheck, FailureOutcome}
use central_ssh.Abuse.Tracker.{tracker_check_ip, tracker_record_failure, tracker_record_success}
use central_ssh.Auth.Buckets.{Floats}
use central_ssh.Config.Store.{Toml}
use central_ssh.Gateway.Login.State.{
  EventType, connection_opened, ban_created, ban_extended, ban_expired, connection_rejected_banned,
  whitelist_bypass, rate_limit_delay_applied, AuditResult, success, banned, delayed, Method,
  keyboard_interactive, reject, Auth, panicked, GatewayHandler, Moment, AppState, Reply,
}

module _ (P : Platform) (T : Toml) (F : Floats) where
  -- `log_event`.
  unfoldable pub log_event :
      EventType
      → Option Text
      → Option Text
      → Option Method
      → AuditResult
      → AppState P T F
      → AppState P T F
  log_event event_type username target method result app = record app {
    audit =
        app.audit
        ++ record {
          event_type = event_type;
          username = username;
          target_server = target;
          auth_method = method;
          result = result;
        }
          ∷ [];
  }

  unfoldable pub log_connection_opened_once :
      AppState P T F × GatewayHandler → AppState P T F × GatewayHandler
  unfolding log_event
  log_connection_opened_once (app, handler) =
      if handler.connection_logged then (app, handler) else (
        log_event connection_opened none none none success app,
        record handler { connection_logged = true },
      )

  unfoldable pub log_ban_event : BanEvent → AppState P T F → AppState P T F
  unfolding log_event
  log_ban_event event app =
      log_event (elim event.kind [ created ↦ ban_created | extended ↦ ban_extended ]) none none none
        banned app

  -- The delay itself is not modelled.
  unfoldable pub apply_failure_outcome :
      FailureOutcome → Option Text → Option Text → Option Method → AppState P T F → AppState P T F
  unfolding log_ban_event
  apply_failure_outcome outcome username target method app =
      if outcome.whitelisted
      then log_event whitelist_bypass username target method success app
      else let app' : AppState P T F = elim outcome.delay [
        | none ↦ app
        | some _ ↦ log_event rate_limit_delay_applied username target method delayed app
      ] in
        elim outcome.ban_event [ none ↦ app' | some event ↦ log_ban_event event app' ]

  -- The calls of the tracker, on the application.
  unfoldable pub record_login_failure :
      Moment
      → GatewayHandler
      → Option Text
      → AppState P T F
      → Option FailureOutcome × AppState P T F
  record_login_failure m handler username app =
      let (outcome, abuse) =
        tracker_record_failure P handler.peer_ip username none m.noted m.note_saved m.note_write
          app.abuse in
      (outcome, record app { abuse = abuse })

  unfoldable pub record_login_success : Moment → GatewayHandler → AppState P T F → AppState P T F
  record_login_success m handler app = record app {
    abuse = tracker_record_success P handler.peer_ip m.noted m.note_saved m.note_write app.abuse;
  }

  -- `record_failure` and `apply_failure_outcome`, one behind the other, and then what follows.
  unfoldable pub note_login_failure :
      Moment
      → Option Text
      → GatewayHandler
      → (AppState P T F → Reply P T F)
      → AppState P T F
      → Reply P T F
  unfolding record_login_failure apply_failure_outcome
  note_login_failure m username handler next app =
      let (outcome, app') = record_login_failure m handler username app in
      elim outcome [
        | none ↦ record { result = err panicked; app = app'; handler = handler }
        | some o ↦ next (apply_failure_outcome o username none (some keyboard_interactive) app')
      ]

  -- The same, ended by `reject_to_keyboard_interactive`.
  unfoldable pub reject_login : Moment → Option Text → GatewayHandler → AppState P T F → Reply P T F
  unfolding note_login_failure
  reject_login m username handler app =
      note_login_failure m username handler
        (λ app'. record { result = ok reject; app = app'; handler = handler }) app

  unfoldable pub handle_pre_auth_check :
      Method → PreAuthCheck → AppState P T F → Option Auth × AppState P T F
  unfolding log_event
  handle_pre_auth_check method check app =
      let app1 =
        if check.expired_ban
        then log_event ban_expired none none (some method) success app
        else app in
      let app2 =
        if check.whitelisted && check.had_state
        then log_event whitelist_bypass none none (some method) success app1
        else app1 in
      if check.banned
      then (some reject, log_event connection_rejected_banned none none (some method) banned app2)
      else (none, app2)

  unfoldable pub enforce_pre_auth_policy :
      Moment
      → Method
      → AppState P T F × GatewayHandler
      → Option Auth × (AppState P T F × GatewayHandler)
  unfolding handle_pre_auth_check log_connection_opened_once
  enforce_pre_auth_policy m method start =
      let (app, handler) = log_connection_opened_once start in
      let (check, abuse) =
        tracker_check_ip P handler.peer_ip m.checked m.check_saved m.check_write app.abuse in
      let (decision, app') = handle_pre_auth_check method check (record app { abuse = abuse }) in
      (decision, (app', handler))
