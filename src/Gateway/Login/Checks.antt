-- ===== src/Gateway/Login/Checks.antt =====
-- The check before each call, and the calls without a response (src/ssh/mod.rs), on a sound
-- connection.
use central_ssh.Prelude.{
  by_result, by_option, by_test, ◌≡◌, ◌⊎◌, refl, ap, ◌∙◌, inl, inr, true, ◌&&◌, Option, none, some,
  List, Result, Bool-cases, arith, if◌then◌else◌,
}
use mathlib.Core.Path.{sym, subst}
use central_ssh.Prelude.Text.{Text, text_eq_class}
use central_ssh.Error.{Error}
use central_ssh.Abuse.Types.{Platform, PreAuthCheck}
use central_ssh.Abuse.Tracker.{tracker_check_ip}
use central_ssh.Auth.Crypto.{Crypto}
use central_ssh.Auth.Buckets.{Floats}
use central_ssh.Config.Policy.{resolve_effective_authorization_policy}
use central_ssh.Config.Store.{Toml}
use central_ssh.Gateway.Login.State.{
  SelectedTarget, reject, Auth, whitelist_bypass, ban_expired, success, Method, GatewayHandler,
  Moment, AppState, Reply,
}
use central_ssh.Gateway.Login.Audit.{
  log_event, enforce_pre_auth_policy, handle_pre_auth_check, log_connection_opened_once,
}
use central_ssh.Gateway.Login.Dialogue.{
  auth_refused, Connected, connect_selected_target, auth_succeeded,
}
use central_ssh.Gateway.Login.History.{Call, Allowed, Authenticated}
use central_ssh.Gateway.Login.Sound.{IsIdentified, IsProxied, IsSound, identified_by}
use central_ssh.Gateway.Login.Progress.{IsBacked}

module _ (P : Platform) (C : Crypto) (T : Toml) (F : Floats) where
  abbrev Calls : Type 0
  Calls = List (Call P C T F)

  -- What the check before each call leaves alone.
  pub record Checked (app : AppState P T F) (h : GatewayHandler)
      (r : Option Auth × (AppState P T F × GatewayHandler)) : Type 0 where
    pub decided : (r.0 ≡ none) ⊎ (r.0 ≡ some reject)
    pub store : r.1.0.store ≡ app.store
    pub limits : r.1.0.limits ≡ app.limits
    pub state : r.1.1.keyboard_auth_state ≡ h.keyboard_auth_state
    pub username : r.1.1.authenticated_username ≡ h.authenticated_username
    pub target : r.1.1.pending_target ≡ h.pending_target
    pub proxy : r.1.1.proxy_session ≡ h.proxy_session

  logged_same :
      (app : AppState P T F) (h : GatewayHandler)
      → let r = log_connection_opened_once P T F (app, h) in
        (r.0.store ≡ app.store)
        × (r.0.limits ≡ app.limits)
        × (r.0.abuse ≡ app.abuse)
        × (r.1.peer_ip ≡ h.peer_ip)
        × (r.1.keyboard_auth_state ≡ h.keyboard_auth_state)
        × (r.1.authenticated_username ≡ h.authenticated_username)
        × (r.1.pending_target ≡ h.pending_target)
        × (r.1.proxy_session ≡ h.proxy_session)
  unfolding log_connection_opened_once log_event
  logged_same app h = elim (Bool-cases h.connection_logged) [
    | inl before ↦
        rw (before, log_connection_opened_once) (refl, refl, refl, refl, refl, refl, refl, refl)
    | inr first ↦
        rw (first, log_connection_opened_once) (refl, refl, refl, refl, refl, refl, refl, refl)
  ]

  abbrev behind_expiry : Method → PreAuthCheck → AppState P T F → AppState P T F
  behind_expiry kind check app =
      if check.expired_ban
      then log_event P T F ban_expired none none (some kind) success app
      else app

  decided_same :
      (method : Method) (check : PreAuthCheck) (app : AppState P T F)
      → let r = handle_pre_auth_check P T F method check app in
        (r.1.store ≡ app.store)
        × (r.1.limits ≡ app.limits)
        × ((r.0 ≡ none) ⊎ (r.0 ≡ some reject))
        × (check.banned ≡ true → r.0 ≡ some reject)
  unfolding handle_pre_auth_check log_event
  decided_same kind check app =
      let KeepsStore : AppState P T F → Type 0 =
        λ a. (a.store ≡ app.store) × (a.limits ≡ app.limits) in
      let stored =
        by_test KeepsStore (check.whitelisted && check.had_state)
          {f = log_event P T F whitelist_bypass none none (some kind) success
            (behind_expiry kind check app)}
          {g = behind_expiry kind check app}
          (λ _. by_test KeepsStore check.expired_ban (λ _. (refl, refl)) (λ _. (refl, refl)))
          (λ _. by_test KeepsStore check.expired_ban (λ _. (refl, refl)) (λ _. (refl, refl))) in
      by_test
        (λ (r : Option Auth × AppState P T F).
          (r.1.store ≡ app.store)
          × (r.1.limits ≡ app.limits)
          × ((r.0 ≡ none) ⊎ (r.0 ≡ some reject))
          × (check.banned ≡ true → r.0 ≡ some reject))
        check.banned (λ _. (stored.0, stored.1, inr refl, λ _. refl))
        (λ free. (stored.0, stored.1, inl refl, λ b. absurd (ground (arith, free, b))))

  pub pre_auth-Checked :
      (m : Moment) (method : Method) (app : AppState P T F) (h : GatewayHandler)
      → Checked app h (enforce_pre_auth_policy P T F m method (app, h))
  unfolding enforce_pre_auth_policy
  pre_auth-Checked m kind app h =
      let start = log_connection_opened_once P T F (app, h) in
      let (check, abuse) =
        tracker_check_ip P start.1.peer_ip m.checked m.check_saved m.check_write start.0.abuse in
      let (store, limits, abuse', ip, state, username, target, proxy) = logged_same app h in
      let (same, same_limits, decided, _) =
        decided_same kind check (record start.0 { abuse = abuse }) in
      record {
        decided = decided;
        store = same ∙ store;
        limits = same_limits ∙ limits;
        state = state;
        username = username;
        target = target;
        proxy = proxy;
      }

  -- A banned address is rejected by the check.
  pub pre_auth_banned :
      (m : Moment) (method : Method) (app : AppState P T F) (h : GatewayHandler)
      → (tracker_check_ip P h.peer_ip m.checked m.check_saved m.check_write app.abuse).0.banned
        ≡ true
      → (enforce_pre_auth_policy P T F m method (app, h)).0 ≡ some reject
  unfolding enforce_pre_auth_policy
  pre_auth_banned m kind app h banned =
      let start = log_connection_opened_once P T F (app, h) in
      let (check, abuse) =
        tracker_check_ip P start.1.peer_ip m.checked m.check_saved m.check_write start.0.abuse in
      let (_, _, same, ip, _, _, _, _) = logged_same app h in
      (decided_same kind check (record start.0 { abuse = abuse })).3 (
        ap
          (λ i. (tracker_check_ip P i m.checked m.check_saved m.check_write start.0.abuse).0.banned)
          ip
        ∙ (ap (λ a. (tracker_check_ip P h.peer_ip m.checked m.check_saved m.check_write a).0.banned)
              same
            ∙ banned))

  module _ (calls : Calls) {h : GatewayHandler} (s : IsSound P C T F calls h) where
    -- The check and a refusal keep a connection sound.
    pub Checked-IsSound :
        {app : AppState P T F} {r : Option Auth × (AppState P T F × GatewayHandler)}
        → Checked app h r
        → IsSound P C T F calls r.1.1
    Checked-IsSound {app} {r} c = record {
      backed = subst (IsBacked P C T F calls) (sym c.state) s.backed;
      identified =
          subst (λ u. IsIdentified P C T F calls u r.1.1.pending_target) (sym c.username)
            (subst (λ t. IsIdentified P C T F calls h.authenticated_username t) (sym c.target)
              s.identified);
      proxied = subst (IsProxied P C T F calls) (sym c.proxy) s.proxied;
    }

    pub refused-IsSound :
        (m : Moment) (method : Method) (app : AppState P T F)
        → IsSound P C T F calls (auth_refused P C T F method m h app).handler
    unfolding auth_refused
    refused-IsSound m kind app =
        by_option (λ (r : Reply P T F). IsSound P C T F calls r.handler)
          (enforce_pre_auth_policy P T F m kind (app, h)).0
          (λ _. Checked-IsSound (pre_auth-Checked m kind app h))
          (λ auth _. Checked-IsSound (pre_auth-Checked m kind app h))

    pub connected-IsSound :
        (connect : Result Error (Unit {0})) (name : Text) (target : SelectedTarget)
        (app : AppState P T F)
        → Authenticated P C T F calls name
        → Allowed P C T F calls name target
        → IsSound P C T F calls (connect_selected_target P C T F connect name target h app).handler
    unfolding connect_selected_target
    connected-IsSound connect name target app both allowed =
        let SoundBehind : Connected P C T F → Type 0 = λ r. IsSound P C T F calls r.handler in
        by_result SoundBehind
          (resolve_effective_authorization_policy P app.store.config name target.name
            app.store.paths.per_user_per_server)
          (λ _ _. s)
          (λ policy _.
            by_result SoundBehind connect
              (λ _ _. record { backed = s.backed; identified = s.identified; proxied = s.proxied })
              (λ _ _. record {
                backed = s.backed;
                identified = s.identified;
                proxied = (name, both, allowed);
              }))

    pub succeeded-IsSound :
        (connect : Result Error (Unit {0})) (app : AppState P T F)
        → IsSound P C T F calls (auth_succeeded P C T F connect h app).handler
    unfolding auth_succeeded
    succeeded-IsSound connect app =
        let SoundBehind : Connected P C T F → Type 0 = λ r. IsSound P C T F calls r.handler in
        by_option SoundBehind h.authenticated_username (λ _. s)
          (λ name named.
            by_option SoundBehind h.pending_target (λ _. s)
              (λ target chosen.
                let (both, allowed) = identified_by P C T F calls s named chosen in
                connected-IsSound connect name target app both allowed))
