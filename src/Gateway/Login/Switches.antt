-- ===== src/Gateway/Login/Switches.antt =====
-- The input of the menu of a channel (`handle_menu_channel_input` of src/ssh/mod.rs) on a sound
-- connection.
use central_ssh.Prelude.{
  by_result, by_option, by_test, ℕ, ◌≡◌, refl, inl, inr, none, some, and_then, List, [], ◌∷◌,
  if◌then◌else◌, Result, Option-cases, arith, not, length, get_elem?,
}
use mathlib.Core.Path.{sym, subst}
use central_ssh.Prelude.Text.{Text, text_eq_class}
use central_ssh.Prelude.Assoc.{lookup, insert}
use central_ssh.Error.{Error}
use central_ssh.Abuse.Types.{Platform}
use central_ssh.Auth.Crypto.{Crypto}
use central_ssh.Auth.Buckets.{Floats}
use central_ssh.Config.Store.{Toml}
use central_ssh.Gateway.Menu.{menu_bytes}
use central_ssh.Gateway.Login.State.{SelectedTarget, GatewayHandler, AppState, invalid_selection}
use central_ssh.Gateway.Login.Entries.{
  is_quit, selected_index, allowed_server_entries, prompt_selection,
}
use central_ssh.Gateway.Login.Dialogue.{Connected, connect_selected_target}
use central_ssh.Gateway.Login.History.{Call, menu_call, gateway_of, Allowed, Authenticated}
use central_ssh.Gateway.Login.Sound.{IsIdentified, IsSound, identified_by}
use central_ssh.Gateway.Login.Selection.{Allowed-entry}
use central_ssh.Gateway.Login.Checks.{connected-IsSound}
use central_ssh.Gateway.Requests.Session.{
  channel_eq_class, SessionChannelState, Gateway, send, disconnected, terminal,
}
use central_ssh.Gateway.Requests.Input.{
  Replays, MenuReply, leave_menu, after_connect, switch_target, select_from_menu,
  handle_menu_channel_input,
}
use central_ssh.Gateway.Requests.Switch.{replay_channel-handler}

module _ (P : Platform) (C : Crypto) (T : Toml) (F : Floats) where
  abbrev Calls : Type 0
  Calls = List (Call P C T F)

  module _ (app : AppState P T F) (past : Calls) where
    abbrev so_far : Calls
    so_far = menu_call P C T F app ∷ past

    abbrev IsSoundReply : MenuReply P C T F → Type 0
    IsSoundReply r = IsSound P C T F so_far r.gateway.handler

    after_connect-IsSound :
        (channel : ℕ) (replays : Replays) (g : Gateway) (c : Connected P C T F)
        → IsSound P C T F so_far c.handler
        → IsSoundReply (after_connect P C T F channel replays g c)
    unfolding after_connect send
    after_connect-IsSound channel replays g c s =
        let connected : Gateway = record g { handler = c.handler } in
        let told : Gateway = if c.disconnected then send disconnected connected else connected in
        let same : told.handler ≡ c.handler =
          by_test (λ (g' : Gateway). g'.handler ≡ c.handler) c.disconnected (λ _. refl)
            (λ _. refl) in
        let sound : IsSound P C T F so_far told.handler =
          subst (IsSound P C T F so_far) (sym same) s in
        by_result IsSoundReply c.result (λ _ _. sound)
          (λ _ _.
            by_option IsSoundReply c.handler.proxy_session (λ _. sound)
              (λ session _.
                subst (IsSound P C T F so_far)
                  (sym (replay_channel-handler channel session replays told)) sound))

    module _ (g : Gateway) (s : IsSound P C T F so_far g.handler) (username : Text)
        (named : g.handler.authenticated_username ≡ some username) where
      both : Authenticated P C T F so_far username
      both = elim (Option-cases g.handler.pending_target) [
        | inl nowhere ↦ absurd (
            subst (λ u. IsIdentified P C T F so_far u none) named
              (subst (λ t. IsIdentified P C T F so_far g.handler.authenticated_username t) nowhere
                s.identified))
        | inr (target, chosen) ↦ (identified_by P C T F so_far s named chosen).0
      ]

      select_from_menu-IsSound :
          (channel : ℕ) (selection : Text) (connect : Result Error (Unit {0})) (replays : Replays)
          → IsSoundReply (select_from_menu P C T F channel username selection connect replays app g)
      unfolding select_from_menu switch_target leave_menu send
      select_from_menu-IsSound channel selection connect replays =
          by_test IsSoundReply (is_quit selection) (λ _. s)
            (λ _.
              by_result IsSoundReply (allowed_server_entries P C T F app username) (λ _ _. s)
                (λ entries listed.
                  by_option IsSoundReply
                    (and_then (selected_index selection (length entries))
                      (λ i. get_elem? entries i))
                    (λ _.
                      by_result IsSoundReply
                        (prompt_selection P C T F username (some invalid_selection) g.handler
                          app).result
                        (λ _ _. s) (λ _ _. s))
                    (λ entry chosen.
                      let target : SelectedTarget = record { name = entry.0; host = entry.1 } in
                      let allowed : Allowed P C T F so_far username target =
                        elim (Option-cases (selected_index selection (length entries))) [
                          | inl out ↦ absurd (ground (arith, out, chosen))
                          | inr (i, within) ↦
                              Allowed-entry P C T F none app app.store past username entries i
                                {target = entry.0} {host = entry.1} listed
                                (ground (arith, within, chosen))
                        ] in
                      after_connect-IsSound channel replays (leave_menu channel g)
                        (connect_selected_target P C T F connect username target g.handler app)
                        (connected-IsSound P C T F so_far s connect username target app both
                          allowed))))

    pub menu_input-IsSound :
        (channel : ℕ) (bytes : List ℕ) (connect : Result Error (Unit {0})) (replays : Replays)
        (channels : List (ℕ × SessionChannelState)) (h : GatewayHandler)
        → IsSound P C T F so_far h
        → IsSoundReply (
            handle_menu_channel_input P C T F channel bytes connect replays app
              (gateway_of P C T F h channels))
    unfolding handle_menu_channel_input send
    menu_input-IsSound channel bytes connect replays channels h s =
        by_option IsSoundReply h.authenticated_username (λ _. s)
          (λ username named.
            by_option IsSoundReply (lookup channel channels) (λ _. s)
              (λ state _.
                by_test IsSoundReply (not state.menu_active) (λ _. s)
                  (λ _.
                    let read = menu_bytes bytes (record {
                      menu_escape_state = state.menu_escape_state;
                      input_buffer = state.input_buffer;
                      terminal = [];
                    }) in
                    let typed : SessionChannelState = record state {
                      menu_escape_state = read.1.menu_escape_state;
                      input_buffer = read.1.input_buffer;
                    } in
                    let echoed : Gateway =
                      send (terminal channel read.1.terminal)
                        (gateway_of P C T F h (insert channel typed channels)) in
                    by_option IsSoundReply read.0 (λ _. s)
                      (λ selection _.
                        select_from_menu-IsSound echoed s username named channel selection connect
                          replays))))
