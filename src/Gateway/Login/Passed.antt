-- ===== src/Gateway/Login/Passed.antt =====
-- A call of the login dialogue of src/ssh/mod.rs from an address that is not banned, on a connection
-- that nobody is logged in on.
use central_ssh.Prelude.{
  by_option, by_test, ◌≡◌, refl, ap, ◌∙◌, Bool, false, ◌&&◌, Option, none, some, List, arith,
  is_some, unwrap_or, not, is_empty, if◌then◌else◌,
}
use mathlib.Core.Path.{sym, subst}
use central_ssh.Prelude.Text.{Text, trim}
use central_ssh.Abuse.Types.{Platform, PreAuthCheck}
use central_ssh.Abuse.Tracker.{Tracker, tracker_check_ip}
use central_ssh.Auth.Crypto.{Crypto}
use central_ssh.Auth.Buckets.{Floats}
use central_ssh.Config.Store.{Toml}
use central_ssh.Gateway.Login.State.{
  await_password, whitelist_bypass, ban_expired, connection_rejected_banned, banned, success, Auth,
  keyboard_interactive, Method, AuditEvent, GatewayHandler, Moment, AppState, Reply,
}
use central_ssh.Gateway.Login.Audit.{
  log_event, log_connection_opened_once, handle_pre_auth_check, enforce_pre_auth_policy,
}
use central_ssh.Gateway.Login.Dialogue.{respond, continue_dialogue, auth_keyboard_interactive}

module _ (P : Platform) (C : Crypto) (T : Toml) (F : Floats) where
  check_passes :
      (method : Method) (check : PreAuthCheck) (app : AppState P T F)
      → let r = handle_pre_auth_check P T F method check app in
        (r.1 ≡ record app { audit = r.1.audit }) × (check.banned ≡ false → r.0 ≡ none)
  unfolding handle_pre_auth_check log_event
  check_passes kind check app =
      let IsLogged : AppState P T F → Type 0 = λ a. a ≡ record app { audit = a.audit } in
      let behind : AppState P T F =
        if check.expired_ban
        then log_event P T F ban_expired none none (some kind) success app
        else app in
      let first = by_test IsLogged check.expired_ban (λ _. refl) (λ _. refl) in
      let logged =
        by_test IsLogged (check.whitelisted && check.had_state)
          {f = log_event P T F whitelist_bypass none none (some kind) success behind} {g = behind}
          (λ _.
            ap
              (λ (a : AppState P T F).
                log_event P T F whitelist_bypass none none (some kind) success a)
              first)
          (λ _. first) in
      by_test
        (λ (r : Option Auth × AppState P T F).
          (r.1 ≡ record app { audit = r.1.audit }) × (check.banned ≡ false → r.0 ≡ none))
        check.banned
        (λ is_banned. (
          ap
              (λ (a : AppState P T F).
                log_event P T F connection_rejected_banned none none (some kind) banned a)
              logged,
          λ free. absurd (ground (arith, is_banned, free)),
        ))
        (λ _. (logged, λ _. refl))

  -- What the check before each call changes, and when it decides nothing.
  pre_auth_passes :
      (m : Moment) (method : Method) (app : AppState P T F) (h : GatewayHandler)
      → let r = enforce_pre_auth_policy P T F m method (app, h) in
        (r.1.0 ≡ record app { abuse = r.1.0.abuse; audit = r.1.0.audit })
        × (r.1.1 ≡ record h { connection_logged = r.1.1.connection_logged })
        × ((tracker_check_ip P h.peer_ip m.checked m.check_saved m.check_write app.abuse).0.banned
              ≡ false
            → r.0 ≡ none)
  unfolding enforce_pre_auth_policy log_connection_opened_once log_event
  pre_auth_passes m kind app h =
      let (check, abuse) =
        tracker_check_ip P h.peer_ip m.checked m.check_saved m.check_write app.abuse in
      by_test
        (λ (start : AppState P T F × GatewayHandler).
          let (check', abuse') =
            tracker_check_ip P start.1.peer_ip m.checked m.check_saved m.check_write
              start.0.abuse in
          let r = handle_pre_auth_check P T F kind check' (record start.0 { abuse = abuse' }) in
          (r.1 ≡ record app { abuse = r.1.abuse; audit = r.1.audit })
          × (start.1 ≡ record h { connection_logged = start.1.connection_logged })
          × (check.banned ≡ false → r.0 ≡ none))
        h.connection_logged
        (λ _.
          let (logged, passes) = check_passes kind check (record app { abuse = abuse }) in
          (
            logged
                ∙ ap (λ (a : AppState P T F). record app { abuse = a.abuse; audit = a.audit })
                    (sym logged),
            refl,
            passes,
          ))
        (λ _.
          let start =
            log_connection_opened_once P T F (app, record h { connection_logged = false }) in
          let (logged, passes) = check_passes kind check (record start.0 { abuse = abuse }) in
          (
            logged
                ∙ ap (λ (a : AppState P T F). record app { abuse = a.abuse; audit = a.audit })
                    (sym logged),
            refl,
            passes,
          ))

  -- Such a call with a response, in a state that waits for one or with a response that is not empty,
  -- answers the state, whatever the check before it did to the tracker, the log and the connection.
  pub answered_by :
      (IsReply : Reply P T F → Type 0) (m : Moment) (user text : Text) (h : GatewayHandler)
      (app : AppState P T F)
      → (tracker_check_ip P h.peer_ip m.checked m.check_saved m.check_write app.abuse).0.banned
        ≡ false
      → h.authenticated_username ≡ none
      → is_empty (trim user) ≡ false
      → (not (is_some h.keyboard_auth_state) && is_empty text) ≡ false
      → ((abuse : Tracker P) (audit : List AuditEvent) (logged : Bool)
          → IsReply (
              respond P C T F
                (unwrap_or h.keyboard_auth_state (await_password (trim user)))
                m
                text
                (record h { keyboard_auth_state = none; connection_logged = logged })
                (record app { abuse = abuse; audit = audit })))
      → IsReply (auth_keyboard_interactive P C T F m user (some (some text)) h app)
  unfolding auth_keyboard_interactive continue_dialogue
  answered_by IsReply m user text h app free nobody named answered replies =
      let r = enforce_pre_auth_policy P T F m keyboard_interactive (app, h) in
      let (same_app, same_handler, passes) = pre_auth_passes m keyboard_interactive app h in
      let state = ap GatewayHandler.keyboard_auth_state same_handler in
      let name = ap GatewayHandler.authenticated_username same_handler in
      by_option IsReply r.0
        (λ _.
          by_test IsReply (is_some r.1.1.authenticated_username && is_some r.1.1.proxy_session)
            (λ both. absurd (ground (arith, both, name, nobody)))
            (λ _.
              by_test IsReply (is_empty (trim user)) (λ bad. absurd (ground (arith, bad, named)))
                (λ _.
                  by_test IsReply (not (is_some r.1.1.keyboard_auth_state) && is_empty text)
                    (λ bad. absurd (ground (arith, bad, answered, state)))
                    (λ _.
                      subst
                        (λ (h' : GatewayHandler). IsReply (
                          respond P C T F
                            (unwrap_or h'.keyboard_auth_state (await_password (trim user))) m text
                            (record h' { keyboard_auth_state = none }) r.1.0))
                        (sym same_handler)
                        (subst
                          (λ (a : AppState P T F). IsReply (
                            respond P C T F
                              (unwrap_or h.keyboard_auth_state (await_password (trim user))) m text
                              (record h {
                                keyboard_auth_state = none;
                                connection_logged = r.1.1.connection_logged;
                              })
                              a))
                          (sym same_app)
                          (replies r.1.0.abuse r.1.0.audit r.1.1.connection_logged))))))
        (λ auth decided. absurd (ground (arith, decided, passes free)))
