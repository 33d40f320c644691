-- ===== src/Gateway/Requests/Policy.antt =====
-- The requests of a session (src/ssh/mod.rs) against its policy.
use central_ssh.Prelude.{
  by_result, by_option, by_test, ℕ, ◌≡◌, refl, ap, ◌∙◌, Bool, true, false, not, Option, none, some,
  List, [], ◌∷◌, Result, is_ok, all, arith,
}
use mathlib.Core.Path.{sym, subst}
use central_ssh.Prelude.Text.{Text}
use central_ssh.Prelude.Assoc.{lookup}
use central_ssh.Error.{Error}
use central_ssh.Config.Types.{EffectiveAuthorizationPolicy}
use central_ssh.Gateway.Exec.{
  local_forwarding_permitted, remote_forwarding_permitted, subsystem_request_permitted,
  validate_exec_request,
}
use central_ssh.Gateway.Login.State.{GatewayHandler}
use central_ssh.Gateway.Requests.Session.{
  channel_eq_class, ChannelPtyState, ProxyCall, open_direct_tcpip_channel, request_exec,
  request_subsystem, set_env, signal, relay_extended_data, channel_eof, channel_close,
  tcpip_forward, cancel_tcpip_forward, shell, exec, subsystem, Gateway, change_channel,
}
use central_ssh.Gateway.Requests.Handlers.{
  channel_open_session, channel_open_direct_tcpip, pty_request, x11_request, shell_request,
  exec_request, subsystem_request, answered_request, window_change_request, relayed_request,
  handle_channel_close, forget_channel, forward_request,
}
use central_ssh.Gateway.Requests.Step.{
  Request, ask_session, ask_shell, ask_x11, ask_signal, ask_eof, ask_close, ask_direct_tcpip,
  ask_pty, ask_exec, ask_subsystem, ask_env, ask_window_change, ask_extended_data, ask_forward,
  ask_cancel_forward, handle_request, handle_requests, permits, is_permitted, is_relayable,
}
use central_ssh.Gateway.Requests.Clean.{
  IsClean, send-IsClean, change-IsClean, denial-IsClean, deny-IsClean, relay-IsClean, fail-IsClean,
  abort-IsClean, pass-IsClean,
}

not-false : {b : Bool} → not b ≡ false → b ≡ true
not-false {b} h = ground arith

module _ (g : Gateway) (c : IsClean g.handler g) where
  session-IsClean :
      (channel : ℕ) (outcome : Result Error ℕ)
      → IsClean g.handler (channel_open_session channel outcome g).1
  unfolding channel_open_session change_channel
  session-IsClean channel outcome =
      let c' : IsClean g.handler (change_channel channel (λ s. s) g) =
        change-IsClean channel (λ s. s) g c in
      by_option (λ (r : Bool × Gateway). IsClean g.handler r.1) g.handler.proxy_session (λ _. c')
        (λ target reached. relay-IsClean target reached _ _ refl c')

  direct-IsClean :
      (channel : ℕ) (host : Text) (port : ℕ) (outcome : Result Error ℕ)
      → IsClean g.handler (channel_open_direct_tcpip channel host port outcome g).1
  unfolding channel_open_direct_tcpip
  direct-IsClean channel host port outcome =
      let Q : Bool × Gateway → Type 0 = λ r. IsClean g.handler r.1 in
      by_option Q g.handler.proxy_session (λ _. c)
        (λ target reached.
          by_option Q g.handler.active_policy (λ _. c)
            (λ policy active.
              by_test Q (not (local_forwarding_permitted policy)) (λ _. denial-IsClean _ g c)
                (λ allowed.
                  relay-IsClean target reached (open_direct_tcpip_channel channel host port) g
                    (ap (λ o. permits o local_forwarding_permitted) active ∙ not-false allowed) c)))

  x11-IsClean : (channel : ℕ) → IsClean g.handler (x11_request channel g)
  unfolding x11_request
  x11-IsClean channel = send-IsClean _ g c

  pty-IsClean :
      (channel : ℕ) (pty : ChannelPtyState) (outcome : Result Error ℕ)
      → IsClean g.handler (pty_request channel pty outcome g)
  unfolding pty_request
  pty-IsClean channel pty outcome =
      by_option (IsClean g.handler) g.handler.proxy_session (λ _. send-IsClean _ g c)
        (λ target reached.
          abort-IsClean target reached channel _ outcome _ refl
            (change-IsClean channel (λ s. record s { pty = some pty }) g c))

  shell-IsClean :
      (channel : ℕ) (outcome : Result Error ℕ) → IsClean g.handler (shell_request channel outcome g)
  unfolding shell_request change_channel
  shell-IsClean channel outcome =
      let c' = change-IsClean channel (λ s. record s { request = shell }) g c in
      by_option (IsClean g.handler) g.handler.proxy_session (λ _. send-IsClean _ _ c')
        (λ target reached. fail-IsClean target reached channel _ outcome _ refl c')

  exec-IsClean :
      (channel : ℕ) (command : Option Text) (outcome : Result Error ℕ)
      → IsClean g.handler (exec_request channel command outcome g)
  unfolding exec_request change_channel
  exec-IsClean channel command outcome =
      let c' = change-IsClean channel (λ s. record s { request = exec command }) g c in
      let Q = IsClean g.handler in
      by_option Q g.handler.proxy_session (λ _. send-IsClean _ g c)
        (λ target reached.
          by_option Q g.handler.active_policy (λ _. send-IsClean _ _ c')
            (λ policy active.
              by_result Q (validate_exec_request policy command)
                (λ mode refused. deny-IsClean channel _ _ (denial-IsClean _ _ c'))
                (λ _ allowed.
                  fail-IsClean target reached channel (request_exec channel command) outcome _
                    (ap (λ o. permits o (λ p. is_ok (validate_exec_request p command))) active
                      ∙ ap is_ok allowed)
                    c')))

  subsystem-IsClean :
      (channel : ℕ) (name : Text) (outcome : Result Error ℕ)
      → IsClean g.handler (subsystem_request channel name outcome g)
  unfolding subsystem_request change_channel
  subsystem-IsClean channel name outcome =
      let c' = change-IsClean channel (λ s. record s { request = subsystem name }) g c in
      let Q = IsClean g.handler in
      by_option Q g.handler.proxy_session (λ _. send-IsClean _ g c)
        (λ target reached.
          by_option Q g.handler.active_policy (λ _. send-IsClean _ _ c')
            (λ policy active.
              by_test Q (not (subsystem_request_permitted policy name))
                (λ refused. deny-IsClean channel _ _ (denial-IsClean _ _ c'))
                (λ allowed.
                  fail-IsClean target reached channel (request_subsystem channel name) outcome _
                    (ap (λ o. permits o (λ p. subsystem_request_permitted p name)) active
                      ∙ not-false allowed)
                    c')))

  answered-IsClean :
      (channel : ℕ) (call : ProxyCall) (outcome : Result Error ℕ)
      → is_permitted g.handler.active_policy call ≡ true
      → IsClean g.handler (answered_request channel call outcome g)
  unfolding answered_request
  answered-IsClean channel call outcome permitted =
      by_option (IsClean g.handler) g.handler.proxy_session (λ _. send-IsClean _ g c)
        (λ target reached. abort-IsClean target reached channel call outcome g permitted c)

  window-IsClean :
      (channel w h pw ph : ℕ) → IsClean g.handler (window_change_request channel w h pw ph g)
  unfolding window_change_request
  window-IsClean channel w h pw ph =
      by_option (IsClean g.handler) g.handler.proxy_session (λ _. c)
        (λ target reached. relay-IsClean target reached _ g refl c)

  relayed-IsClean :
      (call : ProxyCall) (outcome : Result Error ℕ)
      → is_permitted g.handler.active_policy call ≡ true
      → IsClean g.handler (relayed_request call outcome g)
  unfolding relayed_request
  relayed-IsClean call outcome permitted =
      by_option (IsClean g.handler) g.handler.proxy_session (λ _. c)
        (λ target reached. pass-IsClean target reached call outcome g permitted c)

  forward-IsClean :
      (call : ProxyCall) (outcome : Result Error ℕ)
      → ((policy : EffectiveAuthorizationPolicy)
          → g.handler.active_policy ≡ some policy
          → remote_forwarding_permitted policy ≡ true
          → is_permitted g.handler.active_policy call ≡ true)
      → IsClean g.handler (forward_request call outcome g).1
  unfolding forward_request
  forward-IsClean call outcome permitted =
      let Q : Option ℕ × Gateway → Type 0 = λ r. IsClean g.handler r.1 in
      by_option Q g.handler.proxy_session (λ _. c)
        (λ target reached.
          by_option Q g.handler.active_policy (λ _. c)
            (λ policy active.
              by_test Q (not (remote_forwarding_permitted policy)) (λ _. denial-IsClean _ g c)
                (λ allowed.
                  relay-IsClean target reached call g (permitted policy active (not-false allowed))
                    c)))

forget-IsClean :
    (g : Gateway) (channel : ℕ) → IsClean g.handler g → IsClean g.handler (forget_channel channel g)
unfolding forget_channel
forget-IsClean g channel c =
    by_test (IsClean g.handler)
      (not
        (elim (lookup channel g.channels) as (λ _. Bool) [ none ↦ false | some s ↦ s.menu_active ]))
      (λ _. record { same = c.same; clean = c.clean }) (λ _. c)

close-IsClean :
    (g : Gateway) (channel : ℕ) (outcome : Result Error ℕ)
    → IsClean g.handler g
    → IsClean g.handler (handle_channel_close channel outcome g)
unfolding handle_channel_close
close-IsClean g channel outcome c =
    let f = forget-IsClean g channel c in
    subst
      (λ k. IsClean k (relayed_request (channel_close channel) outcome (forget_channel channel g)))
      f.same
      (relayed-IsClean (forget_channel channel g)
        (subst (λ k. IsClean k (forget_channel channel g)) (sym f.same) f) (channel_close channel)
        outcome refl)

request-IsClean :
    (request : Request) (outcome : Result Error ℕ) (g : Gateway)
    → IsClean g.handler g
    → IsClean g.handler (handle_request request outcome g)
unfolding handle_request
request-IsClean (ask_session n) outcome g c = session-IsClean g c n outcome
request-IsClean (ask_shell n) outcome g c = shell-IsClean g c n outcome
request-IsClean (ask_x11 n) outcome g c = x11-IsClean g c n
request-IsClean (ask_signal n) outcome g c = answered-IsClean g c n (signal n) outcome refl
request-IsClean (ask_eof n) outcome g c = relayed-IsClean g c (channel_eof n) outcome refl
request-IsClean (ask_close n) outcome g c = close-IsClean g n outcome c
request-IsClean (ask_direct_tcpip n host port) outcome g c = direct-IsClean g c n host port outcome
request-IsClean (ask_pty n pty) outcome g c = pty-IsClean g c n pty outcome
request-IsClean (ask_exec n command) outcome g c = exec-IsClean g c n command outcome
request-IsClean (ask_subsystem n name) outcome g c = subsystem-IsClean g c n name outcome
request-IsClean (ask_env n name value) outcome g c =
    answered-IsClean g c n (set_env n name value) outcome refl
request-IsClean (ask_window_change n w h pw ph) outcome g c = window-IsClean g c n w h pw ph
request-IsClean (ask_extended_data n code bytes) outcome g c =
    relayed-IsClean g c (relay_extended_data n code bytes) outcome refl
request-IsClean (ask_forward address port) outcome g c =
    forward-IsClean g c (tcpip_forward address port) outcome
      (λ policy active allowed. ap (λ o. permits o remote_forwarding_permitted) active ∙ allowed)
request-IsClean (ask_cancel_forward address port) outcome g c =
    forward-IsClean g c (cancel_tcpip_forward address port) outcome
      (λ policy active allowed. ap (λ o. permits o remote_forwarding_permitted) active ∙ allowed)

requests-IsClean :
    (h : GatewayHandler) (requests : List (Request × Result Error ℕ)) (g : Gateway)
    → IsClean h g
    → IsClean h (handle_requests requests g)
unfolding handle_requests
requests-IsClean h [] g c = c
requests-IsClean h ((request, outcome) ∷ rest) g c =
    requests-IsClean h rest (handle_request request outcome g) (
      subst (λ k. IsClean k (handle_request request outcome g)) c.same
        (request-IsClean request outcome g (subst (λ k. IsClean k g) (sym c.same) c)))

-- Whatever requests a client makes on a connection, in whatever order and whatever the target
-- answers, all that is relayed goes to the server of the connection, and only as the policy of the
-- connection permits: a direct channel with local forwarding, a forward with remote forwarding, a
-- subsystem unless it is a refused sftp, a command unless it is a refused scp, and none of these
-- without a policy. Nothing is relayed without a proxy session. The requests change neither the
-- policy nor the server. Data that the menu may take is not among them.
pub handle_requests-IsClean :
    (requests : List (Request × Result Error ℕ)) (g : Gateway)
    → g.relayed ≡ []
    → ((handle_requests requests g).handler ≡ g.handler)
      × (all (is_relayable g.handler) (handle_requests requests g).relayed ≡ true)
handle_requests-IsClean requests g start =
    let c =
      requests-IsClean g.handler requests g
        (record { same = refl; clean = ap (all (is_relayable g.handler)) start }) in
    (c.same, c.clean)
