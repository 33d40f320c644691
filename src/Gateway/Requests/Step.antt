-- ===== src/Gateway/Requests/Step.antt =====
-- The requests of a session (src/ssh/mod.rs) as steps, and what a policy says of the calls that they
-- relay.
use central_ssh.Prelude.{
  ℕ, Bool, true, false, Option, none, some, List, [], ◌∷◌, Result, is_ok, ◌&&◌,
}
use central_ssh.Prelude.Text.{Text, text_eq}
use central_ssh.Error.{Error}
use central_ssh.Config.Types.{EffectiveAuthorizationPolicy}
use central_ssh.Gateway.Exec.{
  local_forwarding_permitted, remote_forwarding_permitted, subsystem_request_permitted,
  validate_exec_request,
}
use central_ssh.Gateway.Login.State.{SelectedTarget, GatewayHandler}
use central_ssh.Gateway.Requests.Session.{
  channel_eq_class, ChannelPtyState, ProxyCall, open_direct_tcpip_channel, request_exec,
  request_subsystem, set_env, signal, relay_extended_data, channel_eof, tcpip_forward,
  cancel_tcpip_forward, Gateway,
}
use central_ssh.Gateway.Requests.Handlers.{
  channel_open_session, channel_open_direct_tcpip, pty_request, x11_request, shell_request,
  exec_request, subsystem_request, answered_request, window_change_request, relayed_request,
  handle_channel_close, forward_request,
}

-- A request, but for data, which the menu may take.
pub data Request : Type 0 where
  ask_session ask_shell ask_x11 ask_signal ask_eof ask_close : (channel : ℕ) → Request
  ask_direct_tcpip : (channel : ℕ) (host : Text) (port : ℕ) → Request
  ask_pty : (channel : ℕ) → ChannelPtyState → Request
  ask_exec : (channel : ℕ) → Option Text → Request
  ask_subsystem : (channel : ℕ) → Text → Request
  ask_env : (channel : ℕ) (name value : Text) → Request
  ask_window_change : (channel col_width row_height pix_width pix_height : ℕ) → Request
  ask_extended_data : (channel code : ℕ) → List ℕ → Request
  ask_forward ask_cancel_forward : (address : Text) (port : ℕ) → Request

-- The handler of a request, with what the proxy session returns.
unfoldable pub handle_request : Request → Result Error ℕ → Gateway → Gateway
unfolding channel_open_session channel_open_direct_tcpip pty_request x11_request shell_request
    exec_request subsystem_request answered_request window_change_request relayed_request
    handle_channel_close forward_request
handle_request (ask_session c) outcome g = (channel_open_session c outcome g).1
handle_request (ask_shell c) outcome g = shell_request c outcome g
handle_request (ask_x11 c) outcome g = x11_request c g
handle_request (ask_signal c) outcome g = answered_request c (signal c) outcome g
handle_request (ask_eof c) outcome g = relayed_request (channel_eof c) outcome g
handle_request (ask_close c) outcome g = handle_channel_close c outcome g
handle_request (ask_direct_tcpip c host port) outcome g =
    (channel_open_direct_tcpip c host port outcome g).1
handle_request (ask_pty c pty) outcome g = pty_request c pty outcome g
handle_request (ask_exec c command) outcome g = exec_request c command outcome g
handle_request (ask_subsystem c name) outcome g = subsystem_request c name outcome g
handle_request (ask_env c name value) outcome g =
    answered_request c (set_env c name value) outcome g
handle_request (ask_window_change c w h pw ph) outcome g = window_change_request c w h pw ph g
handle_request (ask_extended_data c code bytes) outcome g =
    relayed_request (relay_extended_data c code bytes) outcome g
handle_request (ask_forward address port) outcome g =
    (forward_request (tcpip_forward address port) outcome g).1
handle_request (ask_cancel_forward address port) outcome g =
    (forward_request (cancel_tcpip_forward address port) outcome g).1

-- A permission of a policy, if there is one.
abbrev pub permits :
    Option EffectiveAuthorizationPolicy → (EffectiveAuthorizationPolicy → Bool) → Bool
permits none f = false
permits (some policy) f = f policy

-- What a policy says of a call.
abbrev pub is_permitted : Option EffectiveAuthorizationPolicy → ProxyCall → Bool
is_permitted policy (open_direct_tcpip_channel _ _ _) = permits policy local_forwarding_permitted
is_permitted policy (request_exec _ command) =
    permits policy (λ p. is_ok (validate_exec_request p command))
is_permitted policy (request_subsystem _ name) =
    permits policy (λ p. subsystem_request_permitted p name)
is_permitted policy (tcpip_forward _ _) = permits policy remote_forwarding_permitted
is_permitted policy (cancel_tcpip_forward _ _) = permits policy remote_forwarding_permitted
is_permitted policy _ = true

-- Whether a call may be relayed on a connection: to its server, and as its policy permits.
abbrev pub is_relayable : GatewayHandler → SelectedTarget × ProxyCall → Bool
is_relayable h (target, call) = elim h.proxy_session [
  | none ↦ false
  | some t ↦
      text_eq target.name t.name && text_eq target.host t.host && is_permitted h.active_policy call
]

-- The requests of a session, the first one first, each with what the proxy session returns.
unfoldable pub handle_requests : List (Request × Result Error ℕ) → Gateway → Gateway
unfolding handle_request
handle_requests [] g = g
handle_requests ((request, outcome) ∷ rest) g =
    handle_requests rest (handle_request request outcome g)
