-- ===== src/Gateway/Requests/Input.antt =====
-- The input of the menu on a channel (`handle_menu_channel_input` of src/ssh/mod.rs): the selection of
-- a server on a session that has one, and the requests that are repeated there. The buffer of the
-- menu holds ASCII only, and is its own text.
use central_ssh.Prelude.{
  ℕ, Bool, true, false, not, Option, none, some, and_then, List, [], Result, ok, err, if◌then◌else◌,
  length, get_elem?,
}
use central_ssh.Prelude.Text.{Text}
use central_ssh.Prelude.Assoc.{lookup, insert}
use central_ssh.Error.{Error}
use central_ssh.Abuse.Types.{Platform}
use central_ssh.Auth.Crypto.{Crypto}
use central_ssh.Auth.Buckets.{Floats}
use central_ssh.Config.Store.{Toml}
use central_ssh.Gateway.Menu.{no_escape, menu_bytes}
use central_ssh.Gateway.Login.State.{SelectedTarget, invalid_selection, SshError, io, AppState}
use central_ssh.Gateway.Login.Entries.{
  is_quit, selected_index, allowed_server_entries, prompt_selection,
}
use central_ssh.Gateway.Login.Dialogue.{Connected, connect_selected_target}
use central_ssh.Gateway.Requests.Session.{
  channel_eq_class, ChannelPtyState, SessionRequest, no_request, shell, exec, subsystem,
  SessionChannelState, ProxyCall, open_session_channel_by_id, request_pty, request_shell,
  request_exec, request_subsystem, terminal, selection_again, disconnected, Gateway, send, relay,
  relay_data,
}
use central_ssh.Gateway.Requests.Handlers.{relayed_request}

-- What the proxy session returns to the calls that repeat the requests of a channel.
pub record Replays : Type 0 where
  pub opened : Result Error ℕ
  pub pty : Result Error ℕ
  pub request : Result Error ℕ

-- A call whose error ends the handler.
abbrev pub relay_then :
    SelectedTarget
    → ProxyCall
    → Result Error ℕ
    → (Gateway → Result SshError Bool × Gateway)
    → Gateway
    → Result SshError Bool × Gateway
relay_then target call (ok _) next g = next (relay target call g)
relay_then target call (err _) next g = (err io, relay target call g)

unfoldable pub replay_request :
    ℕ → SelectedTarget → SessionRequest → Result Error ℕ → Gateway → Result SshError Bool × Gateway
unfolding relay
replay_request channel target no_request outcome g = (ok true, g)
replay_request channel target shell outcome g =
    relay_then target (request_shell channel) outcome (λ g'. (ok true, g')) g
replay_request channel target (exec command) outcome g =
    relay_then target (request_exec channel command) outcome (λ g'. (ok true, g')) g
replay_request channel target (subsystem name) outcome g =
    relay_then target (request_subsystem channel name) outcome (λ g'. (ok true, g')) g

unfoldable pub replay_pty :
    ℕ
    → SelectedTarget
    → Option ChannelPtyState
    → Result Error ℕ
    → (Gateway → Result SshError Bool × Gateway)
    → Gateway
    → Result SshError Bool × Gateway
unfolding relay
replay_pty channel target none outcome next g = next g
replay_pty channel target (some pty) outcome next g =
    relay_then target (request_pty channel pty) outcome next g

-- The channel is opened on the target, and its terminal and its request are repeated there.
unfoldable pub replay_channel :
    ℕ → SelectedTarget → Replays → Gateway → Result SshError Bool × Gateway
unfolding lookup replay_pty replay_request relay
replay_channel channel target replays g =
    relay_then target (open_session_channel_by_id channel) replays.opened
      (λ g'. elim (lookup channel g'.channels) [
        | none ↦ (ok true, g')
        | some state ↦
            replay_pty channel target state.pty replays.pty
              (replay_request channel target state.request replays.request) g'
      ])
      g

-- The channel leaves the menu.
unfoldable pub leave_menu : ℕ → Gateway → Gateway
unfolding lookup insert
leave_menu channel g = record g {
  channels = elim (lookup channel g.channels) [
    | none ↦ g.channels
    | some state ↦
        insert channel (record state { menu_active = false; menu_escape_state = no_escape })
          g.channels
  ];
}

module _ (P : Platform) (C : Crypto) (T : Toml) (F : Floats) where
  -- What the handler returns, whether it took the data, and the states behind it.
  pub record MenuReply : Type 0 where
    pub result : Result SshError Bool
    pub app : AppState P T F
    pub gateway : Gateway

  -- The part of a switch behind the connection.
  unfoldable pub after_connect : ℕ → Replays → Gateway → Connected P C T F → MenuReply
  unfolding send replay_channel
  after_connect channel replays closed c =
      let connected : Gateway = record closed { handler = c.handler } in
      let g : Gateway = if c.disconnected then send disconnected connected else connected in
      elim c.result [
        | err e ↦ record { result = err e; app = c.app; gateway = g }
        | ok _ ↦ elim c.handler.proxy_session [
          | none ↦ record { result = ok true; app = c.app; gateway = g }
          | some session ↦
              let (result, g') = replay_channel channel session replays g in
              record { result = result; app = c.app; gateway = g' }
        ]
      ]

  -- The part behind a selection in range.
  unfoldable pub switch_target :
      ℕ
      → Text
      → SelectedTarget
      → Result Error (Unit {0})
      → Replays
      → AppState P T F
      → Gateway
      → MenuReply
  unfolding leave_menu after_connect connect_selected_target
  switch_target channel username target connect replays app g =
      after_connect channel replays (leave_menu channel g)
        (connect_selected_target P C T F connect username target g.handler app)

  -- The part behind a line that is submitted.
  unfoldable pub select_from_menu :
      ℕ → Text → Text → Result Error (Unit {0}) → Replays → AppState P T F → Gateway → MenuReply
  unfolding is_quit selected_index allowed_server_entries prompt_selection switch_target send
  select_from_menu channel username selection connect replays app g =
      if is_quit selection
      then record { result = ok true; app = app; gateway = send disconnected g }
      else elim (allowed_server_entries P C T F app username) [
        | err _ ↦ record { result = err io; app = app; gateway = g }
        | ok entries ↦
            elim (and_then (selected_index selection (length entries)) (λ i. get_elem? entries i)) [
              | none ↦
                  let retry =
                    prompt_selection P C T F username (some invalid_selection) g.handler app in
                  elim retry.result [
                    | err _ ↦ record { result = err io; app = retry.app; gateway = g }
                    | ok _ ↦ record {
                      result = ok true;
                      app = retry.app;
                      gateway = send (selection_again channel) g;
                    }
                  ]
              | some (name, host) ↦
                  switch_target channel username (record { name = name; host = host }) connect
                    replays app g
            ]
      ]

  unfoldable pub handle_menu_channel_input :
      ℕ → List ℕ → Result Error (Unit {0}) → Replays → AppState P T F → Gateway → MenuReply
  unfolding lookup insert menu_bytes send select_from_menu
  handle_menu_channel_input channel bytes connect replays app g =
      let pass : MenuReply = record { result = ok false; app = app; gateway = g } in
      elim g.handler.authenticated_username [
        | none ↦ pass
        | some username ↦ elim (lookup channel g.channels) [
          | none ↦ pass
          | some state ↦
              if not state.menu_active
              then pass
              else let (line, menu) = menu_bytes bytes (record {
                menu_escape_state = state.menu_escape_state;
                input_buffer = state.input_buffer;
                terminal = [];
              }) in
                let typed : SessionChannelState = record state {
                  menu_escape_state = menu.menu_escape_state;
                  input_buffer = menu.input_buffer;
                } in
                let g' =
                  send (terminal channel menu.terminal)
                    (record g { channels = insert channel typed g.channels }) in
                elim line [
                  | none ↦ record { result = ok true; app = app; gateway = g' }
                  | some selection ↦
                      select_from_menu channel username selection connect replays app g'
                ]
        ]
      ]

  unfoldable pub handle_data :
      ℕ
      → List ℕ
      → Result Error ℕ
      → Result Error (Unit {0})
      → Replays
      → AppState P T F
      → Gateway
      → MenuReply
  unfolding handle_menu_channel_input relayed_request
  handle_data channel bytes outcome connect replays app g =
      let r = handle_menu_channel_input channel bytes connect replays app g in
      elim r.result [
        | err _ ↦ r
        | ok taken ↦
            if taken
            then r
            else record r { gateway = relayed_request (relay_data channel bytes) outcome r.gateway }
      ]
