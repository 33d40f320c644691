-- ===== src/Gateway/Requests/Switch.antt =====
-- What a switch to another server in the menu of a session does (src/ssh/mod.rs).
use central_ssh.Prelude.{
  ℕ, Bool, Option, none, some, List, [], ◌∷◌, ◌++◌, map, Result, ok, err, ◌≡◌, refl, by_option, inl,
  inr, Result-cases,
}
use mathlib.Core.Path.{sym, ◌∙◌}
use central_ssh.Prelude.Text.{Text, append_assoc, append_nil}
use central_ssh.Error.{Error}
use central_ssh.Prelude.Assoc.{lookup}
use central_ssh.Auth.Crypto.{Crypto}
use central_ssh.Gateway.Login.State.{SelectedTarget, SshError}
use central_ssh.Gateway.Requests.Session.{
  channel_eq_class, ChannelPtyState, SessionRequest, no_request, shell, exec, subsystem, ProxyCall,
  SessionChannelState, open_session_channel_by_id, request_pty, request_shell, request_exec,
  request_subsystem, Gateway, relay,
}
use central_ssh.Gateway.Requests.Input.{replay_request, replay_pty, replay_channel, Replays}

-- The call that repeats a request, if the channel has one.
abbrev pub repeated : ℕ → SessionRequest → List ProxyCall
repeated channel no_request = []
repeated channel shell = request_shell channel ∷ []
repeated channel (exec command) = request_exec channel command ∷ []
repeated channel (subsystem name) = request_subsystem channel name ∷ []

-- What a channel that is opened repeats: its terminal, if it has one, and then, unless that fails,
-- its request.
abbrev pub repeated_after_open :
    ℕ → Option ChannelPtyState → SessionRequest → Result Error ℕ → List ProxyCall
repeated_after_open channel none asked outcome = repeated channel asked
repeated_after_open channel (some pty) asked (ok _) =
    request_pty channel pty ∷ repeated channel asked
repeated_after_open channel (some pty) asked (err _) = request_pty channel pty ∷ []

-- The calls that a switch makes, by what the server returns to them.
abbrev pub calls_of_switch :
    ℕ → SessionChannelState → (opened terminal : Result Error ℕ) → List ProxyCall
calls_of_switch channel state (err _) terminal = open_session_channel_by_id channel ∷ []
calls_of_switch channel state (ok _) terminal =
    open_session_channel_by_id channel
    ∷ repeated_after_open channel state.pty state.request terminal

-- A part of the gateway that makes these calls, and no more.
record Relays (target : SelectedTarget) (calls : List ProxyCall) (g g' : Gateway) : Type 0 where
  handler : g'.handler ≡ g.handler
  channels : g'.channels ≡ g.channels
  relayed : g'.relayed ≡ g.relayed ++ map (λ call. (target, call)) calls

Relays-cons :
    (target : SelectedTarget) (call : ProxyCall) (calls : List ProxyCall) (g g' : Gateway)
    → Relays target calls (relay target call g) g'
    → Relays target (call ∷ calls) g g'
unfolding relay
Relays-cons target call calls g g' r = record {
  handler = r.handler;
  channels = r.channels;
  relayed =
      r.relayed ∙ append_assoc g.relayed ((target, call) ∷ []) (map (λ call. (target, call)) calls);
}

Relays-none : (target : SelectedTarget) (g : Gateway) → Relays target [] g g
Relays-none target g = record {
  handler = refl;
  channels = refl;
  relayed = sym (append_nil g.relayed);
}

Relays-one :
    (target : SelectedTarget) (call : ProxyCall) (g : Gateway)
    → Relays target (call ∷ []) g (relay target call g)
Relays-one target call g =
    Relays-cons target call [] g (relay target call g) (Relays-none target (relay target call g))

replay_request-Relays :
    (channel : ℕ) (target : SelectedTarget) (request : SessionRequest) (outcome : Result Error ℕ)
    (g : Gateway)
    → Relays target (repeated channel request) g (replay_request channel target request outcome g).1
unfolding replay_request
replay_request-Relays channel target no_request outcome g = Relays-none target g
replay_request-Relays channel target shell (ok _) g = Relays-one target (request_shell channel) g
replay_request-Relays channel target shell (err _) g = Relays-one target (request_shell channel) g
replay_request-Relays channel target (exec command) (ok _) g =
    Relays-one target (request_exec channel command) g
replay_request-Relays channel target (exec command) (err _) g =
    Relays-one target (request_exec channel command) g
replay_request-Relays channel target (subsystem name) (ok _) g =
    Relays-one target (request_subsystem channel name) g
replay_request-Relays channel target (subsystem name) (err _) g =
    Relays-one target (request_subsystem channel name) g

replay_pty-Relays :
    (channel : ℕ) (target : SelectedTarget) (pty : Option ChannelPtyState) (asked : SessionRequest)
    (terminal outcome : Result Error ℕ) (g : Gateway)
    → Relays target
        (repeated_after_open channel pty asked terminal)
        g
        (replay_pty channel target pty terminal (replay_request channel target asked outcome) g).1
unfolding replay_pty
replay_pty-Relays channel target none asked terminal outcome g =
    replay_request-Relays channel target asked outcome g
replay_pty-Relays channel target (some pty) asked (ok _) outcome g =
    Relays-cons target (request_pty channel pty) (repeated channel asked) g _ (
      replay_request-Relays channel target asked outcome (relay target (request_pty channel pty) g))
replay_pty-Relays channel target (some pty) asked (err _) outcome g =
    Relays-one target (request_pty channel pty) g

-- What is repeated on a channel leaves the login of the connection as it is.
pub replay_channel-handler :
    (channel : ℕ) (target : SelectedTarget) (replays : Replays) (g : Gateway)
    → (replay_channel channel target replays g).1.handler ≡ g.handler
unfolding replay_channel relay
replay_channel-handler channel target replays g =
    let KeepsHandler : Result SshError Bool × Gateway → Type 0 = λ r. r.1.handler ≡ g.handler in
    let g' : Gateway = relay target (open_session_channel_by_id channel) g in
    elim (Result-cases replays.opened) [
      | inr (e, bad) ↦ rw (bad, replay_channel) refl
      | inl (n, good) ↦
          rw (good, replay_channel)
            (by_option KeepsHandler (lookup channel g.channels) (λ _. refl)
              (λ state _.
                (replay_pty-Relays channel target state.pty state.request replays.pty
                  replays.request g').handler))
    ]
