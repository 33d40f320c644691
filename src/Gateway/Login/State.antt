-- ===== src/Gateway/Login/State.antt =====
-- The state of a connection and of the application (src/ssh/mod.rs, src/app.rs). A prompt is what
-- it asks for and shows, without its wording; an audit record is kept without its time, its
-- session and its texts.
use central_ssh.Prelude.{ℕ, Bool, false, Option, none, some, List, Result}
use central_ssh.Prelude.Text.{Text}
use central_ssh.Error.{Error}
use central_ssh.Abuse.Types.{IpAddr, v4, Platform}
use central_ssh.Abuse.Tracker.{Tracker, Write}
use central_ssh.Auth.Buckets.{Floats, Limits, Readings}
use central_ssh.Config.Types.{UserRecord, EffectiveAuthorizationPolicy}
use central_ssh.Config.Store.{Toml, ConfigStore}

pub record PendingAuthContext : Type 0 where
  pub user : UserRecord
  pub new_password_hash : Option Text
  pub login_password : Option Text

pub record PasswordPolicyConfig : Type 0 where
  pub enforce : Bool
  pub min_length : ℕ

pub data KeyboardAuthState : Type 0 where
  await_password : (username : Text) → KeyboardAuthState
  await_existing_totp : (username password : Text) → KeyboardAuthState
  await_new_password : PendingAuthContext → PasswordPolicyConfig → KeyboardAuthState
  await_confirm_password :
      PendingAuthContext → PasswordPolicyConfig → (candidate_password : Text) → KeyboardAuthState
  await_enrollment_totp : PendingAuthContext → (secret : Text) → KeyboardAuthState
  await_selection : PendingAuthContext → KeyboardAuthState

-- `proxy::SelectedTarget` of src/ssh/proxy.rs.
pub record SelectedTarget : Type 0 where
  pub name : Text
  pub host : Text

-- What a prompt says of the response before it.
pub data Notice : Type 0 where
  passwords_do_not_match empty_password invalid_totp_code invalid_selection : Notice
  refused : Error → Notice

-- `Auth::Partial` by its prompt. A server of the menu has its host unless it is hidden.
pub data Prompt : Type 0 where
  password_prompt confirm_password_prompt : Prompt
  new_password_prompt totp_prompt : Option Notice → Prompt
  enrollment_prompt : (secret url : Text) → Option Notice → Prompt
  selection_prompt : List (Text × Option Text) → Option Notice → Prompt

-- `russh::server::Auth`; a rejection names keyboard-interactive as the method to go on with.
pub data Auth : Type 0 where
  accept reject : Auth
  partial : Prompt → Auth

-- `russh::Error`, and a panic of the handler.
pub data SshError : Type 0 where
  io disconnect panicked : SshError

-- `AuditResult` of src/audit/mod.rs, and the event types that the login writes.
pub data AuditResult : Type 0 where
  success failure denied banned delayed error : AuditResult

pub data EventType : Type 0 where
  connection_opened ban_created ban_extended ban_expired connection_rejected_banned : EventType
  whitelist_bypass rate_limit_delay_applied protocol_error auth_attempt auth_failure : EventType
  auth_password auth_totp auth_success unknown_username_attempt password_change : EventType
  totp_enrollment authorization_denied server_selected proxy_start : EventType

pub data Method : Type 0 where
  no_method publickey password keyboard_interactive : Method

pub record AuditEvent : Type 0 where
  pub event_type : EventType
  pub username : Option Text
  pub target_server : Option Text
  pub auth_method : Option Method
  pub result : AuditResult

-- The fields of `GatewayHandler` that the login uses; a proxy session is the target that it is
-- connected to.
pub record GatewayHandler : Type 0 where
  pub peer_ip : IpAddr
  pub keyboard_auth_state : Option KeyboardAuthState
  pub authenticated_username : Option Text
  pub pending_target : Option SelectedTarget
  pub active_policy : Option EffectiveAuthorizationPolicy
  pub proxy_session : Option SelectedTarget
  pub connection_logged : Bool

-- `GatewayServer::new_client`; a peer without an address counts as 0.0.0.0.
unfoldable pub new_client : Option IpAddr → GatewayHandler
new_client peer = record {
  peer_ip = elim peer [ none ↦ v4 0 | some ip ↦ ip ];
  keyboard_auth_state = none;
  authenticated_username = none;
  pending_target = none;
  active_policy = none;
  proxy_session = none;
  connection_logged = false;
}

-- What the clock, the generator of random numbers and the disk give during one call.
pub record Moment : Type 0 where
  pub checked : ℕ
  pub noted : ℕ
  pub check_saved : ℕ
  pub note_saved : ℕ
  pub check_write : Write
  pub note_write : Write
  pub address_readings : Readings
  pub user_readings : Readings
  pub code_time : ℕ
  pub salt : ℕ
  pub secret_bytes : List ℕ
  pub config_write : Write

module _ (P : Platform) (T : Toml) (F : Floats) where
  -- `AppState`: the store, the tables and the dummy hash of `AuthEngine`, the tracker, and the
  -- audit log.
  pub record AppState : Type 0 where
    pub store : ConfigStore T P
    pub dummy_hash : Text
    pub limits : Limits F
    pub abuse : Tracker P
    pub audit : List AuditEvent

  -- What a handler returns, and the states behind it.
  pub record Reply : Type 0 where
    pub result : Result SshError Auth
    pub app : AppState
    pub handler : GatewayHandler
