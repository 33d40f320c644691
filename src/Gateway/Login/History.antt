-- ===== src/Gateway/Login/History.antt =====
-- What a connection has been through: its events, the connection behind them, and what the calls of
-- the login dialogue among them show.
use central_ssh.Prelude.{
  ◌≡◌, true, Option, none, some, List, [], ◌∷◌, Result, ok, contains, unwrap_or, ℕ,
}
use mathlib.Core.List.{Memᴰ}
use central_ssh.Prelude.Text.{Text, text_eq_class, trim}
use central_ssh.Prelude.Assoc.{lookup}
use central_ssh.Error.{Error}
use central_ssh.Abuse.Types.{Platform, IpAddr}
use central_ssh.Auth.Crypto.{Crypto}
use central_ssh.Auth.Buckets.{Floats}
use central_ssh.Auth.Passwords.{is_password_of, is_code_of}
use central_ssh.Config.Types.{UserRecord}
use central_ssh.Config.Validate.{find_user, check_users}
use central_ssh.Config.Store.{Toml, ConfigStore}
use central_ssh.Gateway.Login.State.{
  SelectedTarget, Method, GatewayHandler, new_client, Moment, AppState,
}
use central_ssh.Gateway.Login.Dialogue.{auth_refused, auth_keyboard_interactive, auth_succeeded}
use central_ssh.Gateway.Requests.Session.{SessionChannelState, Gateway}
use central_ssh.Gateway.Requests.Input.{Replays, handle_menu_channel_input}

module _ (P : Platform) (C : Crypto) (T : Toml) (F : Floats) where
  -- A call on a connection that changes its login or its session: a method that is refused,
  -- keyboard-interactive, what follows when it succeeds, or the input of the menu of a channel. The
  -- application that a call finds is any one: other sessions and reloads change it. So are the
  -- channels that the menu finds.
  pub data Event : Type 0 where
    refused : Method → Moment → AppState P T F → Event
    answered : Moment → (user : Text) → (response : Option (Option Text)) → AppState P T F → Event
    succeeded : (connect : Result Error (Unit {0})) → AppState P T F → Event
    menu_input :
        (channel : ℕ)
        → List ℕ
        → (connect : Result Error (Unit {0})) → Replays
        → List (ℕ × SessionChannelState)
        → AppState P T F
        → Event

  -- A gateway with these channels, on which nothing is sent yet.
  abbrev pub gateway_of : GatewayHandler → List (ℕ × SessionChannelState) → Gateway
  gateway_of h channels = record {
    handler = h;
    channels = channels;
    relayed = [];
    sent = [];
    denials = [];
  }

  -- The connection behind the events, of which the last comes first.
  unfoldable pub run : Option IpAddr → List Event → GatewayHandler
  unfolding auth_refused auth_keyboard_interactive auth_succeeded handle_menu_channel_input
  run peer [] = new_client peer
  run peer (refused kind m app ∷ es) = (auth_refused P C T F kind m (run peer es) app).handler
  run peer (answered m user response app ∷ es) =
      (auth_keyboard_interactive P C T F m user response (run peer es) app).handler
  run peer (succeeded connect app ∷ es) = (auth_succeeded P C T F connect (run peer es) app).handler
  run peer (menu_input channel bytes connect replays channels app ∷ es) =
      (handle_menu_channel_input P C T F channel bytes connect replays app
        (gateway_of (run peer es) channels)).gateway.handler

  -- What a call reads and leaves: the text of its response and the time at which a code in it is
  -- checked, if it has a response, and the configuration before the call and behind it.
  pub record Call : Type 0 where
    pub response : Option (Text × ℕ)
    pub store : ConfigStore T P
    pub after : ConfigStore T P

  abbrev pub call_of : Moment → Option (Option Text) → (store after : ConfigStore T P) → Call
  call_of m response store after = record {
    response = elim response [ none ↦ none | some first ↦ some (unwrap_or first [], m.code_time) ];
    store = store;
    after = after;
  }

  -- The input of a menu has no response of the dialogue, and leaves the configuration as it is.
  abbrev pub menu_call : AppState P T F → Call
  menu_call app = record { response = none; store = app.store; after = app.store }

  -- The calls of the dialogue and of the menu, the last first.
  unfoldable pub calls_of : Option IpAddr → List Event → List Call
  unfolding auth_keyboard_interactive run
  calls_of peer [] = []
  calls_of peer (refused _ m app ∷ es) = calls_of peer es
  calls_of peer (answered m user response app ∷ es) =
      call_of m response app.store
        (auth_keyboard_interactive P C T F m user response (run peer es) app).app.store
      ∷ calls_of peer es
  calls_of peer (succeeded connect app ∷ es) = calls_of peer es
  calls_of peer (menu_input channel bytes connect replays channels app ∷ es) =
      menu_call app ∷ calls_of peer es

  -- The users of a configuration are accepted by its validation.
  abbrev pub HasAcceptedUsers : ConfigStore T P → Type 0
  HasAcceptedUsers store = check_users C store.servers [] store.config.users ≡ ok tt

  abbrev pub user_at : Call → Text → Option UserRecord
  user_at call name = find_user call.store.config.users name

  -- Some call had the password as its response, for the hash that a call found for the user.
  pub record PasswordGiven (calls : List Call) (name : Text) : Type 0 where
    pub typed : Call
    pub typed_in : Memᴰ typed calls
    pub password : Text
    pub at : ℕ
    pub response : typed.response ≡ some (password, at)
    pub checked : Call
    pub checked_in : Memᴰ checked calls
    pub user : UserRecord
    pub found : user_at checked name ≡ some user
    pub right : is_password_of C password user.password ≡ true

  -- Some call found the user with the secret, or left the user with it.
  pub data SecretOf (calls : List Call) (name secret : Text) : Type 0 where
    had :
        (checked : Call)
        → Memᴰ checked calls
        → (user : UserRecord) → user_at checked name ≡ some user
        → user.totp_secret ≡ some secret
        → SecretOf calls name secret
    enrolled :
        (stored : Call)
        → Memᴰ stored calls
        → (user : UserRecord) → find_user stored.after.config.users name ≡ some user
        → user.totp_secret ≡ some secret
        → SecretOf calls name secret

  -- Some call had a code of such a secret as its response, which checks at the time of that
  -- call.
  pub record CodeGiven (calls : List Call) (name : Text) : Type 0 where
    pub typed : Call
    pub typed_in : Memᴰ typed calls
    pub code : Text
    pub at : ℕ
    pub response : typed.response ≡ some (code, at)
    pub secret : Text
    pub right : is_code_of C (trim code) secret at ≡ true
    pub origin : SecretOf calls name secret

  -- Some call found the server in the user's list, at this host.
  pub record Allowed (calls : List Call) (name : Text) (target : SelectedTarget) : Type 0 where
    pub chosen : Call
    pub chosen_in : Memᴰ chosen calls
    pub user : UserRecord
    pub found : user_at chosen name ≡ some user
    pub allowed : contains user.allowed_servers target.name ≡ true
    pub host : lookup target.name chosen.store.servers ≡ some target.host

  -- Both factors.
  pub record Authenticated (calls : List Call) (name : Text) : Type 0 where
    pub password : PasswordGiven calls name
    pub code : CodeGiven calls name

  module _ (call : Call) {calls : List Call} where
    pub later_password :
        {name : Text} → PasswordGiven calls name → PasswordGiven (call ∷ calls) name
    later_password p = record {
      typed = p.typed;
      typed_in = Memᴰ.tail p.typed_in;
      password = p.password;
      at = p.at;
      response = p.response;
      checked = p.checked;
      checked_in = Memᴰ.tail p.checked_in;
      user = p.user;
      found = p.found;
      right = p.right;
    }

    later_secret :
        {name secret : Text} → SecretOf calls name secret → SecretOf (call ∷ calls) name secret
    later_secret (had c i u found has) = had c (Memᴰ.tail i) u found has
    later_secret (enrolled c i u found has) = enrolled c (Memᴰ.tail i) u found has

    pub later_code : {name : Text} → CodeGiven calls name → CodeGiven (call ∷ calls) name
    later_code p = record {
      typed = p.typed;
      typed_in = Memᴰ.tail p.typed_in;
      code = p.code;
      at = p.at;
      response = p.response;
      secret = p.secret;
      right = p.right;
      origin = later_secret p.origin;
    }

    pub later-Allowed :
        {name : Text} {target : SelectedTarget}
        → Allowed calls name target
        → Allowed (call ∷ calls) name target
    later-Allowed p = record {
      chosen = p.chosen;
      chosen_in = Memᴰ.tail p.chosen_in;
      user = p.user;
      found = p.found;
      allowed = p.allowed;
      host = p.host;
    }

    pub later : {name : Text} → Authenticated calls name → Authenticated (call ∷ calls) name
    later p = record { password = later_password p.password; code = later_code p.code }
