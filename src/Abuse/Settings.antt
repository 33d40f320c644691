-- ===== src/Abuse/Settings.antt =====
-- The settings of the tracker: `Fail2banConfig::effective` of src/abuse.rs, its validation and
-- its whitelist.
use central_ssh.Prelude.{
  ℕ, Bool, true, ◌&&◌, List, [], ◌∷◌, ◌++◌, Option, none, some, Result, ok, ◌>>=◌, ◌>>◌, fail_if,
  ok_or, ltb, ◌==◌, if◌then◌else◌, unwrap_or, contains, is_empty, ◌*◌,
}
use central_ssh.Prelude.Text.{Text, codes, split_once, trim, lines}
use central_ssh.Error.{
  Error, invalid_config, bad_duration, bad_whitelist_entry, bad_whitelist_ip, zero_max_failures,
  zero_find_time, zero_ban_time, short_max_ban_time, small_multiplier, zero_delay_time,
}
use central_ssh.Abuse.Types.{Platform, Settings}

-- Nanoseconds in a second.
abbrev pub seconds : ℕ → ℕ
seconds n = n * 1_000_000_000

-- `Fail2banConfig`, with the entries of its whitelist table as `inline_whitelist`.
pub record Fail2banConfig (P : Platform) : Type 0 where
  pub enabled : Option Bool
  pub max_failures : Option ℕ
  pub find_time : Option Text
  pub ban_time : Option Text
  pub max_ban_time : Option Text
  pub backoff_multiplier : Option (Platform.Float P)
  pub delay_before_ban : Option Bool
  pub delay_time : Option Text
  pub persist_state : Option Bool
  pub state_path : Option Text
  pub inline_whitelist : List Text

-- A line without its comment and the space around it.
unfoldable pub strip_comment : Text → Text
strip_comment raw = trim (elim (split_once b'#' raw) [ none ↦ raw | some (head, _) ↦ head ])

module _ (P : Platform) where
  open P use {
    Net, net_eq, net_of_ip, parse_net, parse_ip, parse_duration, localhost_v4, localhost_v6,
  }

  unfoldable pub default_settings : Settings P
  default_settings = record {
    enabled = true;
    max_failures = 5;
    find_time = seconds 60;
    ban_time = seconds (10 * 60);
    max_ban_time = seconds (24 * 60 * 60);
    backoff_multiplier = Platform.default_multiplier P;
    delay_before_ban = true;
    delay_time = seconds 2;
    persist_state = true;
    state_path = codes "/var/lib/centralssh/fail2ban_state.json";
    whitelist = localhost_v4 ∷ localhost_v6 ∷ [];
  }

  unfoldable pub parse_duration_option : Option Text → ℕ → Result Error ℕ
  parse_duration_option none default = ok default
  parse_duration_option (some raw) default =
      ok_or (parse_duration raw) (invalid_config bad_duration)

  -- `seen.insert` and the push that it guards, on the set and the list.
  unfoldable pub push_new : Net → List Net × List Net → List Net × List Net
  push_new net (seen, whitelist) =
      if contains ⦃e = net_eq⦄ seen net
      then (seen, whitelist)
      else (net ∷ seen, whitelist ++ net ∷ [])

  -- The loop over the inline entries.
  unfoldable pub parse_inline : List Text → List Net × List Net → Result Error (List Net × List Net)
  parse_inline [] acc = ok acc
  parse_inline (entry ∷ entries) acc =
      ok_or (parse_net entry) (invalid_config bad_whitelist_entry) >>= λ net.
      parse_inline entries (push_new net acc)

  -- The loop of `read_whitelist_file`.
  unfoldable pub parse_rows : List Text → Result Error (List Net)
  unfolding strip_comment
  parse_rows [] = ok []
  parse_rows (row ∷ rows) =
      let line = strip_comment row in
      let rest = parse_rows rows in
      if is_empty line
      then rest
      else (ok_or (parse_ip line) (invalid_config bad_whitelist_ip) >>= λ ip.
          rest >>= λ nets. ok (net_of_ip ip ∷ nets))

  -- `read_whitelist_file` on what `fs::read_to_string` gives.
  unfoldable pub read_whitelist_file : Result Error Text → Result Error (List Net)
  unfolding parse_rows
  read_whitelist_file content = content >>= λ text. parse_rows (lines text)

  unfoldable pub push_all : List Net → List Net × List Net → List Net × List Net
  push_all [] acc = acc
  push_all (net ∷ nets) acc = push_all nets (push_new net acc)

  -- `parse_whitelist`; the file is what reading `whitelist_path` gives, if a path is set.
  unfoldable pub parse_whitelist : List Text → Option (Result Error Text) → Result Error (List Net)
  unfolding parse_inline push_all read_whitelist_file default_settings
  parse_whitelist values file = do
    let start = default_settings.whitelist
    acc ← parse_inline values (start, start)
    elim file [
      | none ↦ ok acc.1
      | some content ↦ read_whitelist_file content >>= λ nets. ok (push_all nets acc).1
    ]

  unfoldable pub validate_fail2ban_settings : Settings P → Result Error (Unit {0})
  validate_fail2ban_settings s = do
    fail_if (s.max_failures == 0) (invalid_config zero_max_failures)
    fail_if (s.find_time == 0) (invalid_config zero_find_time)
    fail_if (s.ban_time == 0) (invalid_config zero_ban_time)
    fail_if (ltb s.max_ban_time s.ban_time) (invalid_config short_max_ban_time)
    fail_if (Platform.lt P s.backoff_multiplier (Platform.one P)) (invalid_config small_multiplier)
    fail_if (s.delay_before_ban && s.delay_time == 0) (invalid_config zero_delay_time)

  unfoldable pub effective :
      Fail2banConfig P → Option (Result Error Text) → Result Error (Settings P)
  effective config file = do
    find_time ← parse_duration_option config.find_time default_settings.find_time
    ban_time ← parse_duration_option config.ban_time default_settings.ban_time
    max_ban_time ← parse_duration_option config.max_ban_time default_settings.max_ban_time
    delay_time ← parse_duration_option config.delay_time default_settings.delay_time
    whitelist ← parse_whitelist config.inline_whitelist file
    let settings : Settings P = record {
      enabled = unwrap_or config.enabled default_settings.enabled;
      max_failures = unwrap_or config.max_failures default_settings.max_failures;
      find_time = find_time;
      ban_time = ban_time;
      max_ban_time = max_ban_time;
      backoff_multiplier = unwrap_or config.backoff_multiplier default_settings.backoff_multiplier;
      delay_before_ban = unwrap_or config.delay_before_ban default_settings.delay_before_ban;
      delay_time = delay_time;
      persist_state = unwrap_or config.persist_state default_settings.persist_state;
      state_path = unwrap_or config.state_path default_settings.state_path;
      whitelist = whitelist;
    }
    validate_fail2ban_settings settings
    ok settings
