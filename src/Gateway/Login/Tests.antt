-- ===== src/Gateway/Login/Tests.antt =====
-- The theorems on the login dialogue of src/ssh/mod.rs at the logins of two users: one who has a
-- one-time secret, and one who logs in for the first time.
use central_ssh.Config.Policy.{resolve_effective_authorization_policy}
use central_ssh.Auth.Engine.{verify_password_and_optional_totp_constant_time}
use central_ssh.Abuse.Core.{check_ip}
use central_ssh.Prelude.Assoc.{retain, contains_key, lookup}
use central_ssh.Auth.Crypto.{build_totp_from_secret}
use central_ssh.Config.Validate.{
  validate_password_field, check_allowed, is_rejected_bootstrap_placeholder, check_totp,
  is_hash_format, check_users, check_user, is_valid_username,
}
use central_ssh.Prelude.{
  ◌≡◌, ◌≢◌, refl, arith, Bool, true, false, Option, none, some, List, [], ◌∷◌, ok,
}
use central_ssh.Prelude.Text.{len, starts_with, text_eq, trim, Text, codes}
use central_ssh.Abuse.Types.{ip_eq, IpAddr, v4}
use central_ssh.Abuse.Tracker.{tracker_check_ip, missing, written}
use central_ssh.Abuse.Example.{platform, settings, table, other_client}
use central_ssh.Auth.Buckets.{consume_rate_limit_token, Readings}
use central_ssh.Auth.Example.{crypto, floats}
use central_ssh.Auth.Engine.{verify_password_and_optional_totp_constant_time, verify_totp_code}
use central_ssh.Config.Validate.{find_user}
use central_ssh.Config.Example.{toml, store, bob, carol}
use central_ssh.Gateway.Login.State.{
  SelectedTarget, accept, reject, publickey, GatewayHandler, new_client, Moment, AppState, Reply,
  PendingAuthContext,
}
use central_ssh.Gateway.Login.Dialogue.{auth_keyboard_interactive}
use central_ssh.Gateway.Login.History.{
  Event, refused, answered, succeeded, menu_input, run, calls_of, Allowed, Authenticated,
  HasAcceptedUsers,
}
use central_ssh.Gateway.Login.Enrollment.{handle_enrollment_response}
use central_ssh.Gateway.Login.Outcomes.{auth_keyboard_interactive_banned}
use central_ssh.Gateway.Login.Enrolled.{enrollment_stores}
use central_ssh.Gateway.Login.Sound.{IsAccepted}
use central_ssh.Gateway.Requests.Session.{SessionChannelState, new_channel, shell}
use central_ssh.Gateway.Requests.Input.{Replays}
use central_ssh.Gateway.Login.Safety.{
  AreAccepted, auth_keyboard_interactive-IsAccepted, proxy_session-IsProxied,
}

abbrev clock : Readings
clock = record { now = 5; created = 6; elapsed = 7; refilled = 8 }

abbrev moment : Moment
moment = record {
  checked = 10;
  noted = 11;
  check_saved = 12;
  note_saved = 13;
  check_write = written;
  note_write = written;
  address_readings = clock;
  user_readings = clock;
  code_time = 13;
  salt = 14;
  secret_bytes = codes "JBSWY3DP";
  config_write = written;
}

abbrev App : Type 0
App = AppState platform toml floats

abbrev app : App
app = record {
  store = store;
  dummy_hash = codes "$argon2id$dummy";
  limits = record { rate_limits = []; ip_rate_limits = [] };
  abuse = record { settings = settings; core = []; file = missing; audit = [] };
  audit = [];
}

abbrev peer : Option IpAddr
peer = some (v4 9)

abbrev Step : Type 0
Step = Event platform crypto toml floats

abbrev answer : Text → Text → Step
answer user text = answered moment user (some (some text)) app

-- A public key is tried first; then the password and the code are given.
abbrev bob_so_far : List Step
bob_so_far =
    answer (codes "bob") (codes "JBSWY3DP")
    ∷ (answer (codes "bob") (codes "hunter2")
        ∷ (answered moment (codes "bob") none app ∷ (refused publickey moment app ∷ [])))

users_accepted : HasAcceptedUsers platform crypto toml floats store
unfolding check_users is_valid_username len check_user validate_password_field is_hash_format
    starts_with check_totp build_totp_from_secret check_allowed contains_key lookup text_eq trim
    is_rejected_bootstrap_placeholder
users_accepted = refl

all_accepted :
    AreAccepted platform crypto toml floats (answer (codes "bob") (codes "1") ∷ bob_so_far)
all_accepted = (users_accepted, (users_accepted, (users_accepted, (users_accepted, tt))))

bob_accepted :
    (auth_keyboard_interactive platform crypto toml floats moment
      (codes "bob")
      (some (some (codes "1")))
      (run platform crypto toml floats peer bob_so_far)
      app).result
    ≡ ok accept
unfolding auth_keyboard_interactive tracker_check_ip check_ip run new_client ip_eq lookup trim
    text_eq consume_rate_limit_token contains_key retain
    verify_password_and_optional_totp_constant_time starts_with len build_totp_from_secret
bob_accepted = refl

auth_keyboard_interactive-IsAccepted_example :
    IsAccepted platform crypto toml floats
      (calls_of platform crypto toml floats peer (answer (codes "bob") (codes "1") ∷ bob_so_far))
      (run platform crypto toml floats peer (answer (codes "bob") (codes "1") ∷ bob_so_far))
auth_keyboard_interactive-IsAccepted_example =
    auth_keyboard_interactive-IsAccepted platform crypto toml floats peer bob_so_far moment
      (codes "bob") (some (some (codes "1"))) app all_accepted bob_accepted

abbrev git : SelectedTarget
git = record { name = codes "git"; host = codes "git.example.org" }

-- The session that is accepted reaches its server, and once more from the menu of a channel.
abbrev in_menu : SessionChannelState
in_menu = record new_channel { request = shell; menu_active = true }

abbrev replays : Replays
replays = record { opened = ok 0; pty = ok 0; request = ok 0 }

abbrev bob_proxied : List Step
bob_proxied =
    menu_input 1 (b'1' ∷ (13 ∷ [])) (ok tt) replays ((1, in_menu) ∷ []) app
    ∷ (succeeded (ok tt) app ∷ (answer (codes "bob") (codes "1") ∷ bob_so_far))

bob_reaches_git : (run platform crypto toml floats peer bob_proxied).proxy_session ≡ some git
unfolding run tracker_check_ip check_ip new_client ip_eq lookup trim text_eq
    consume_rate_limit_token contains_key retain verify_password_and_optional_totp_constant_time
    starts_with len build_totp_from_secret resolve_effective_authorization_policy
bob_reaches_git = refl

proxy_session-IsProxied_example :
    (name : Text) × Authenticated platform crypto toml floats
      (calls_of platform crypto toml floats peer bob_proxied)
      name
    × Allowed platform crypto toml floats
        (calls_of platform crypto toml floats peer bob_proxied)
        name
        git
proxy_session-IsProxied_example =
    proxy_session-IsProxied platform crypto toml floats peer bob_proxied git all_accepted
      bob_reaches_git

abbrev entries : List (Text × Text)
entries = (codes "git", codes "git.example.org") ∷ []

abbrev dialogue : Text → GatewayHandler → App → Reply platform toml floats
dialogue text h a =
    auth_keyboard_interactive platform crypto toml floats moment (codes "bob") (some (some text)) h
      a

-- The three calls of a login, each on what the one before it leaves.
abbrev first : Reply platform toml floats
first = dialogue (codes "hunter2") (new_client peer) app

abbrev second : Reply platform toml floats
second = dialogue (codes "JBSWY3DP") first.handler first.app

abbrev third : Reply platform toml floats
third = dialogue (codes "1") second.handler second.app

abbrev is_banned_at : App → Bool
is_banned_at a = (tracker_check_ip platform (v4 9) 10 12 written a.abuse).0.banned

-- The same with a table that bans an address.
abbrev guarded : AppState platform toml floats
guarded = record app {
  abuse = record { settings = settings; core = table; file = missing; audit = [] };
}

other_client_banned :
    (tracker_check_ip platform other_client 10 12 written guarded.abuse).0.banned ≡ true
unfolding tracker_check_ip check_ip ip_eq lookup
other_client_banned = refl

abbrev banned_client : GatewayHandler
banned_client = new_client (some other_client)

auth_keyboard_interactive_banned_example :
    let r =
      auth_keyboard_interactive platform crypto toml floats moment
        (codes "bob")
        (some (some (codes "hunter2")))
        banned_client
        guarded in
    (r.result ≡ ok reject)
    × (r.handler.keyboard_auth_state ≡ none)
    × (r.handler.authenticated_username ≡ none)
    × (r.app.store ≡ store)
    × (r.app.limits ≡ guarded.limits)
unfolding new_client
auth_keyboard_interactive_banned_example =
    auth_keyboard_interactive_banned platform crypto toml floats moment (codes "bob")
      (some (some (codes "hunter2"))) banned_client guarded other_client_banned

abbrev enrolling : PendingAuthContext
enrolling = record {
  user = carol;
  new_password_hash = some (codes "$argon2id$swordfish");
  login_password = none;
}

carol_confirms : verify_totp_code crypto (codes "ABCDEFGH") (trim (codes "ABCDEFGH")) 13 ≡ ok tt
unfolding verify_totp_code build_totp_from_secret text_eq trim
carol_confirms = refl

carol_found : find_user (bob ∷ carol ∷ []) (codes "carol") ≡ some carol
unfolding find_user text_eq
carol_found = refl

bob_is_not_carol : codes "bob" ≢ codes "carol"
bob_is_not_carol e = ground arith

enrollment_stores_example :
    let users =
      (handle_enrollment_response platform crypto toml floats moment enrolling
        (codes "ABCDEFGH")
        (codes "ABCDEFGH")
        (new_client peer)
        app).app.store.config.users in
    (find_user users (codes "carol")
      ≡ some (record carol {
        password = codes "$argon2id$swordfish";
        totp_secret = some (codes "ABCDEFGH");
        must_change_password = false;
      }))
    × (find_user users (codes "bob") ≡ find_user (bob ∷ carol ∷ []) (codes "bob"))
enrollment_stores_example =
    enrollment_stores platform crypto toml floats moment enrolling (codes "ABCDEFGH")
      (codes "ABCDEFGH") (new_client peer) app carol (codes "bob") carol_confirms refl carol_found
      bob_is_not_carol
