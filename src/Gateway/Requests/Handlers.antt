-- ===== src/Gateway/Requests/Handlers.antt =====
-- The handlers of the requests on the channels of a session (src/ssh/mod.rs).
use central_ssh.Prelude.{
  keep, ◌==◌, ℕ, Bool, true, false, not, Option, none, some, Result, ok, err, if◌then◌else◌,
}
use central_ssh.Prelude.Text.{Text, codes}
use central_ssh.Prelude.Assoc.{lookup}
use central_ssh.Error.{Error}
use central_ssh.Gateway.Exec.{
  local_forwarding_permitted, remote_forwarding_permitted, subsystem_request_permitted,
  validate_exec_request,
}
use central_ssh.Gateway.Requests.Session.{
  channel_eq_class, send, relay, change_channel, log_policy_denial, deny_protocol_and_disconnect,
  answer_or_fail, answer_or_abort, relay_or_abort, ChannelPtyState, ProxyCall, Gateway,
  denied_local_forward, denied_remote_forward, denied_scp, denied_sftp, shell, exec, subsystem,
  open_session_channel, request_shell, channel_close, open_direct_tcpip_channel, request_pty,
  request_exec, request_subsystem, window_change, channel_failure,
}

unfoldable pub channel_open_session : ℕ → Result Error ℕ → Gateway → Bool × Gateway
unfolding change_channel relay
channel_open_session channel outcome g =
    let g' = change_channel channel (λ s. s) g in
    elim g'.handler.proxy_session [
      | none ↦ (false, g')
      | some target ↦ (
        elim outcome [ ok _ ↦ true | err _ ↦ false ],
        relay target (open_session_channel channel) g',
      )
    ]

unfoldable pub channel_open_direct_tcpip : ℕ → Text → ℕ → Result Error ℕ → Gateway → Bool × Gateway
unfolding relay log_policy_denial local_forwarding_permitted
channel_open_direct_tcpip channel host port outcome g = elim g.handler.proxy_session [
  | none ↦ (false, g)
  | some target ↦ elim g.handler.active_policy [
    | none ↦ (false, g)
    | some policy ↦
        if not (local_forwarding_permitted policy)
        then (false, log_policy_denial denied_local_forward g)
        else (
          elim outcome [ ok _ ↦ true | err _ ↦ false ],
          relay target (open_direct_tcpip_channel channel host port) g,
        )
  ]
]

unfoldable pub pty_request : ℕ → ChannelPtyState → Result Error ℕ → Gateway → Gateway
unfolding change_channel answer_or_abort send
pty_request channel pty outcome g = elim g.handler.proxy_session [
  | none ↦ send (channel_failure channel) g
  | some target ↦
      answer_or_abort channel target (request_pty channel pty) outcome
        (change_channel channel (λ s. record s { pty = some pty }) g)
]

unfoldable pub x11_request : ℕ → Gateway → Gateway
unfolding send
x11_request channel g = send (channel_failure channel) g

unfoldable pub shell_request : ℕ → Result Error ℕ → Gateway → Gateway
unfolding change_channel answer_or_fail send
shell_request channel outcome g =
    let g' = change_channel channel (λ s. record s { request = shell }) g in
    elim g'.handler.proxy_session [
      | none ↦ send (channel_failure channel) g'
      | some target ↦ answer_or_fail channel target (request_shell channel) outcome g'
    ]

unfoldable pub exec_request : ℕ → Option Text → Result Error ℕ → Gateway → Gateway
unfolding change_channel answer_or_fail send log_policy_denial deny_protocol_and_disconnect
    validate_exec_request
exec_request channel command outcome g = elim g.handler.proxy_session [
  | none ↦ send (channel_failure channel) g
  | some target ↦
      let g' = change_channel channel (λ s. record s { request = exec command }) g in
      elim g'.handler.active_policy [
        | none ↦ send (channel_failure channel) g'
        | some policy ↦ elim (validate_exec_request policy command) [
          | err _ ↦
              deny_protocol_and_disconnect channel (codes "scp") (log_policy_denial denied_scp g')
          | ok _ ↦ answer_or_fail channel target (request_exec channel command) outcome g'
        ]
      ]
]

unfoldable pub subsystem_request : ℕ → Text → Result Error ℕ → Gateway → Gateway
unfolding change_channel answer_or_fail send log_policy_denial deny_protocol_and_disconnect
    subsystem_request_permitted
subsystem_request channel name outcome g = elim g.handler.proxy_session [
  | none ↦ send (channel_failure channel) g
  | some target ↦
      let g' = change_channel channel (λ s. record s { request = subsystem name }) g in
      elim g'.handler.active_policy [
        | none ↦ send (channel_failure channel) g'
        | some policy ↦
            if not (subsystem_request_permitted policy name)
            then deny_protocol_and_disconnect channel
                (if not policy.allow_scp then codes "scp" else codes "sftp")
                (log_policy_denial denied_sftp g')
            else answer_or_fail channel target (request_subsystem channel name) outcome g'
      ]
]

-- `env_request` and `signal`, by the call that they relay.
unfoldable pub answered_request : ℕ → ProxyCall → Result Error ℕ → Gateway → Gateway
unfolding answer_or_abort send
answered_request channel call outcome g = elim g.handler.proxy_session [
  | none ↦ send (channel_failure channel) g
  | some target ↦ answer_or_abort channel target call outcome g
]

unfoldable pub window_change_request : ℕ → ℕ → ℕ → ℕ → ℕ → Gateway → Gateway
unfolding relay
window_change_request channel col_width row_height pix_width pix_height g =
    elim g.handler.proxy_session [
      | none ↦ g
      | some target ↦
          relay target (window_change channel col_width row_height pix_width pix_height) g
    ]

-- `extended_data` and `channel_eof`, and the end of `data`, by the call that they relay.
unfoldable pub relayed_request : ProxyCall → Result Error ℕ → Gateway → Gateway
unfolding relay_or_abort
relayed_request call outcome g = elim g.handler.proxy_session [
  | none ↦ g
  | some target ↦ relay_or_abort target call outcome g
]

-- The part of `channel_close` before the proxy session: the channel is forgotten unless it is in the
-- menu.
unfoldable pub forget_channel : ℕ → Gateway → Gateway
unfolding lookup
forget_channel channel g =
    let menu_active : Bool = elim (lookup channel g.channels) [
      | none ↦ false
      | some s ↦ s.menu_active
    ] in
    if not menu_active
    then record g { channels = keep (λ e. not (e.0 == channel)) g.channels }
    else g

unfoldable pub handle_channel_close : ℕ → Result Error ℕ → Gateway → Gateway
unfolding relayed_request forget_channel
handle_channel_close channel outcome g =
    relayed_request (channel_close channel) outcome (forget_channel channel g)

-- `tcpip_forward` and `cancel_tcpip_forward`, by the call that they relay: the port that the target
-- allocates, if it is allowed.
unfoldable pub forward_request : ProxyCall → Result Error ℕ → Gateway → Option ℕ × Gateway
unfolding relay log_policy_denial remote_forwarding_permitted
forward_request call outcome g = elim g.handler.proxy_session [
  | none ↦ (none, g)
  | some target ↦ elim g.handler.active_policy [
    | none ↦ (none, g)
    | some policy ↦
        if not (remote_forwarding_permitted policy)
        then (none, log_policy_denial denied_remote_forward g)
        else (elim outcome [ ok port ↦ some port | err _ ↦ none ], relay target call g)
  ]
]
