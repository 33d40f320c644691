-- ===== src/Lib.antt =====
-- A verification library for CentralSSH, an SSH gateway that authenticates users, lets them choose
-- a server, and proxies their sessions to it.
--
-- The parts of the program and how they interact. src/config/mod.rs loads and validates the
-- configuration. src/abuse.rs keeps, per client address, the failed logins and the bans, under
-- settings from the configuration, and saves its table to a file. src/crypto_policy.rs turns the
-- configured key exchange names into what russh offers. src/auth/mod.rs checks passwords and
-- one-time codes. The gateway (src/ssh) asks the tracker before each call of a login and tells it of
-- each outcome, stores new credentials in the configuration, connects the user to the chosen
-- server, and relays the requests that the policy permits.
--
-- Which file models which part:
--   Prelude and its children: lists, results, texts and association lists.
--   Error: the errors of src/error.rs, with the reason in place of the message text.
--   Abuse.Types, Abuse.Core: the table of src/abuse.rs, one function per method and helper of
--     AbuseTrackerCore, with the same names; each returns its result and the new table.
--   Abuse.Settings: Fail2banConfig::effective, its validation and its whitelist.
--   Abuse.Tracker: AbuseTracker, its table and its state file; tracker_check_ip and the like are
--     its methods check_ip and the like.
--   Abuse.Window, Abuse.Invariant, Abuse.Runs, Abuse.Bans, Abuse.Isolation, Abuse.Threshold,
--     Abuse.Whitelist, Abuse.Restart, Abuse.Service: their theorems.
--   Kex.Policy, Kex.Laws: the resolution of key exchange names in src/crypto_policy.rs.
--   Auth.Crypto: what src/auth/mod.rs takes from the crates for passwords and one-time codes.
--   Auth.Engine: the password, one-time code and policy checks of AuthEngine in src/auth/mod.rs,
--     with their names. Auth.Buckets: its rate limits; take_token is what its two tables share.
--   Auth.Passwords, Auth.Limits: their theorems.
--   Version.Tag, Version.Grammar: src/version_support.rs and its theorems.
--   Gateway.Exec: validate_exec_request, classify_scp_exec_request, shell_like_split and the
--     *_permitted functions of src/ssh/mod.rs. Gateway.Menu: menu_input_byte_action and the byte
--     loop of handle_menu_channel_input. Gateway.Transfers, Gateway.Keys: their theorems.
--   Gateway.Login.State: GatewayHandler, KeyboardAuthState and what goes with them in
--     src/ssh/mod.rs, AppState of src/app.rs. Gateway.Login.Audit: the functions that write the
--     audit log, tell the tracker, and check an address before each call; note_login_failure and
--     reject_login are the calls that every refusal ends with. Gateway.Login.Entries,
--     Gateway.Login.Responses, Gateway.Login.Enrollment: the handlers handle_*_response and their
--     helpers. Gateway.Login.Dialogue: auth_keyboard_interactive, with the rest of its body in
--     continue_dialogue and its match in respond; auth_refused is auth_none, auth_publickey and
--     auth_password; auth_succeeded and connect_selected_target.
--   Gateway.Login.History: a connection as a sequence of calls, of the login and of the menu in a
--     session. Gateway.Login.Progress, Evidence, Steps, Sound, Selection, Switches, Checks, Safety,
--     Passed, Outcomes, Completion, Enrolled: their theorems.
--   Gateway.Requests.Session: the channels of src/ssh/proxy.rs and the answers to the client.
--     Gateway.Requests.Handlers: the handlers of the requests; answered_request is env_request and
--     signal, relayed_request is extended_data, channel_eof and the end of data and of
--     channel_close, forward_request is tcpip_forward and cancel_tcpip_forward.
--     Gateway.Requests.Input: handle_menu_channel_input behind its byte loop, and data.
--     Gateway.Requests.Step, Clean, Policy, Switch: their theorems.
--   Config.Types, Config.Validate, Config.Policy: the data of src/config/mod.rs,
--     validate_semantics with its checks, resolve_paths and the authorization policies.
--   Config.Store: ConfigStore of src/config/mod.rs with update_user_credentials and
--     migrate_bootstrap_passwords, and the document that they change.
--   Config.Semantics, Config.Accepted, Config.Credentials, Config.Migration: their theorems.
--   Abuse.Example, Auth.Example, Config.Example and the modules Tests and StoreTests: concrete
--     inputs.
--
-- How the code corresponds. A `str` is the list of its code points, a path the text of it. A hash
-- map is an association list in the order of its iteration. An instant is the number of
-- nanoseconds since the earliest instant that the crate chrono has, a duration a number of
-- nanoseconds; sums of both are exact, so that chrono's panic past its last year is not modelled.
-- A number of w bits keeps its wrap-around or its saturation. The floating point numbers, the
-- parsers of addresses, networks and durations, and the conversion of durations to chrono's are
-- fields of the record Platform, the algorithm names of russh those of Russh, hashing and
-- one-time codes those of Crypto, the numbers of the rate limits those of Floats. A panic is the
-- result none, with what was written before it.
-- The locks of tokio make each operation of the tracker one step. Loops are structural recursion
-- on the list they run over, so that no fuel is needed.
--
-- What the clock, the random numbers and the disk give during a call of the login is the record
-- Moment; the save of the check before the call and that of its outcome have an instant each. A
-- call sees one application from its start to its end: a reload of the configuration or
-- another session's login in the middle of a call is not modelled, between calls anything may
-- happen. Documents of toml_edit are the record Toml. A proxy session is the server it is connected
-- to; its calls are recorded, and what they return is an argument of the handler. A message to the
-- client is taken to be sent. The bytes of a command or a response stand for their text, an event of
-- the audit log for its kind, user, server, method and result.
--
-- Not modelled: the network, the file system (what a read gives and how a write ends are
-- arguments), message texts, the audit log's file, the tasks of src/ssh/proxy.rs that copy messages
-- between client and server, loading and reloading of the configuration files with their security
-- checks, the keys on disk, the command line, and the scripts that build and package the program.
pub mod Prelude
pub mod Error
pub mod Abuse
pub mod Kex
pub mod Auth
pub mod Config
pub mod Version
pub mod Gateway
