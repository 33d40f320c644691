-- ===== src/Gateway/Requests/Session.antt =====
-- The requests on the channels of a session (src/ssh/mod.rs), and the state of the channels
-- (src/ssh/proxy.rs). A call of the proxy session is recorded with its target; what it returns is an
-- argument.
use central_ssh.Prelude.{
  Eq, ◌==◌, ◌&&◌, arith, ℕ, Bool, true, false, Option, none, some, List, [], ◌∷◌, ◌++◌, Result, ok,
  err, unwrap_or,
}
use central_ssh.Prelude.Text.{Text}
use central_ssh.Prelude.Assoc.{Map, lookup, insert}
use central_ssh.Error.{Error}
use central_ssh.Gateway.Menu.{MenuEscapeState, no_escape}
use central_ssh.Gateway.Login.State.{SelectedTarget, GatewayHandler}

instance abbrev pub channel_eq_class : Eq ℕ
channel_eq_class = record { beq = λ a b. a == b; beq_iff = λ a b. ground arith }

pub record ChannelPtyState : Type 0 where
  pub term : Text
  pub col_width : ℕ
  pub row_height : ℕ
  pub pix_width : ℕ
  pub pix_height : ℕ
  pub terminal_modes : List (ℕ × ℕ)

-- A command with the text that its bytes are, if they are one.
pub data SessionRequest : Type 0 where
  no_request shell : SessionRequest
  exec : (command : Option Text) → SessionRequest
  subsystem : (name : Text) → SessionRequest

pub record SessionChannelState : Type 0 where
  pub pty : Option ChannelPtyState
  pub request : SessionRequest
  pub menu_active : Bool
  pub input_buffer : List ℕ
  pub menu_escape_state : MenuEscapeState

abbrev pub new_channel : SessionChannelState
new_channel = record {
  pty = none;
  request = no_request;
  menu_active = false;
  input_buffer = [];
  menu_escape_state = no_escape;
}

unfoldable pub supports_inline_drop_to_menu : SessionRequest → Bool
supports_inline_drop_to_menu shell = true
supports_inline_drop_to_menu _ = false

-- `channel_should_reuse_menu`, on what the table of channels has for the channel.
unfoldable pub channel_should_reuse_menu : Option SessionChannelState → Bool → Bool
unfolding supports_inline_drop_to_menu
channel_should_reuse_menu none drop_to_menu = false
channel_should_reuse_menu (some state) drop_to_menu =
    drop_to_menu && supports_inline_drop_to_menu state.request

-- The calls of `ProxySession`.
pub data ProxyCall : Type 0 where
  open_session_channel open_session_channel_by_id request_shell channel_eof channel_close signal :
      (channel : ℕ) → ProxyCall
  open_direct_tcpip_channel : (channel : ℕ) (host : Text) (port : ℕ) → ProxyCall
  request_pty : (channel : ℕ) → ChannelPtyState → ProxyCall
  request_exec : (channel : ℕ) → Option Text → ProxyCall
  request_subsystem : (channel : ℕ) → Text → ProxyCall
  set_env : (channel : ℕ) (name value : Text) → ProxyCall
  window_change : (channel col_width row_height pix_width pix_height : ℕ) → ProxyCall
  relay_data : (channel : ℕ) → List ℕ → ProxyCall
  relay_extended_data : (channel code : ℕ) → List ℕ → ProxyCall
  tcpip_forward cancel_tcpip_forward : (address : Text) (port : ℕ) → ProxyCall
  abort : ProxyCall

-- What the client is sent.
pub data ClientMessage : Type 0 where
  channel_success channel_failure close exit_status : (channel : ℕ) → ClientMessage
  access_denied : (channel : ℕ) (protocol : Text) → ClientMessage
  terminal : (channel : ℕ) → List ℕ → ClientMessage
  selection_again : (channel : ℕ) → ClientMessage
  disconnected : ClientMessage

-- The events of `log_policy_denial`, with the server that they name.
pub data DenialKind : Type 0 where
  denied_local_forward denied_remote_forward denied_scp denied_sftp : DenialKind

pub record Denial : Type 0 where
  pub kind : DenialKind
  pub username : Option Text
  pub target_server : Option Text

-- A connection with its channels, and what it has done.
pub record Gateway : Type 0 where
  pub handler : GatewayHandler
  pub channels : Map ℕ SessionChannelState
  pub relayed : List (SelectedTarget × ProxyCall)
  pub sent : List ClientMessage
  pub denials : List Denial

unfoldable pub send : ClientMessage → Gateway → Gateway
send message g = record g { sent = g.sent ++ message ∷ [] }

unfoldable pub relay : SelectedTarget → ProxyCall → Gateway → Gateway
relay target call g = record g { relayed = g.relayed ++ (target, call) ∷ [] }

-- `entry(channel).or_default()`, changed.
unfoldable pub change_channel : ℕ → (SessionChannelState → SessionChannelState) → Gateway → Gateway
unfolding lookup insert
change_channel channel f g = record g {
  channels = insert channel (f (unwrap_or (lookup channel g.channels) new_channel)) g.channels;
}

unfoldable pub log_policy_denial : DenialKind → Gateway → Gateway
log_policy_denial kind g = record g {
  denials =
      g.denials
      ++ record {
        kind = kind;
        username = g.handler.authenticated_username;
        target_server = elim g.handler.pending_target [ none ↦ none | some t ↦ some t.name ];
      }
        ∷ [];
}

-- The messages are taken to be sent.
unfoldable pub deny_protocol_and_disconnect : ℕ → Text → Gateway → Gateway
unfolding send
deny_protocol_and_disconnect channel protocol g = send disconnected (
    send (exit_status channel)
      (send (access_denied channel protocol) (send (channel_success channel) g)))

unfoldable pub fail_channel_request : ℕ → Gateway → Gateway
unfolding send
fail_channel_request channel g = send (close channel) (send (channel_failure channel) g)

-- The answers to a call that is relayed: on an error the request fails, the channel closes or the
-- session is aborted.
unfoldable pub answer_or_fail : ℕ → SelectedTarget → ProxyCall → Result Error ℕ → Gateway → Gateway
unfolding relay send fail_channel_request
answer_or_fail channel target call (ok _) g = send (channel_success channel) (relay target call g)
answer_or_fail channel target call (err _) g = fail_channel_request channel (relay target call g)

unfoldable pub answer_or_abort : ℕ → SelectedTarget → ProxyCall → Result Error ℕ → Gateway → Gateway
unfolding relay send
answer_or_abort channel target call (ok _) g = send (channel_success channel) (relay target call g)
answer_or_abort channel target call (err _) g =
    relay target abort (send (channel_failure channel) (relay target call g))

unfoldable pub relay_or_abort : SelectedTarget → ProxyCall → Result Error ℕ → Gateway → Gateway
unfolding relay
relay_or_abort target call (ok _) g = relay target call g
relay_or_abort target call (err _) g = relay target abort (relay target call g)
