-- ===== src/Abuse/Tests.antt =====
-- Runs of the tracker, and the theorems about src/abuse.rs at concrete inputs.
use central_ssh.Prelude.{
  ◌+◌, ◌≤◌, ◌≡◌, refl, true, ◌||◌, none, some, [], ◌∷◌, arith, ltb, leb, if◌then◌else◌, any,
  is_some,
}
use central_ssh.Prelude.Text.{codes, text_eq_class}
use central_ssh.Prelude.Assoc.{lookup, IsMap}
use central_ssh.Abuse.Types.{v6, ip_eq, ip_eq_class, Settings, created}
use central_ssh.Abuse.Core.{
  is_whitelisted, is_after, is_expired, compute_ban_duration, check_ip, record_failure,
  record_success, note_failure, saturating_suc, snapshot_for_persistence,
}
use central_ssh.Abuse.Invariant.{IsValidCore, IsValidEntry, no_names}
use central_ssh.Abuse.Runs.{Operation, perform, start, next, Reach-IsValid}
use central_ssh.Abuse.Bans.{
  entry_of, ban_of, event_of, window_failures, next_ban, check_ip_report, record_failure_report,
  ban_duration_le, check_ip-record_failure,
}
use central_ssh.Abuse.Isolation.{other_addresses, overflow_never_bans}
use central_ssh.Abuse.Threshold.{fail_at, below_threshold, at_threshold_bans}
use central_ssh.Abuse.Settings.{
  Fail2banConfig, effective, validate_fail2ban_settings, parse_duration_option, parse_whitelist,
  push_new,
}
use central_ssh.Abuse.Whitelist.{IsSound, effective-IsSound, has, names_net, file_has}
use central_ssh.Abuse.Tracker.{
  Tracker, written, failed, missing, restore, tracker_check_ip, tracker_record_failure,
}
use central_ssh.Abuse.Restart.{ban_survives_restart}
use central_ssh.Abuse.Service.{tracker_ban_holds}
use central_ssh.Abuse.Example.{
  platform, settings, client, other_client, failing, banned, table, exhausted, localhost,
  read_print, read_net,
}

abbrev one_failure : Operation
one_failure = Operation.failure client (some (codes "eve")) none

Reach_example : IsValidCore 5 (perform platform one_failure 5 settings [])
Reach_example = Reach-IsValid platform (next one_failure 5 settings (start 0) (omega arith))

-- The third failure within the window bans.
third_failure_bans :
    event_of (record_failure platform table client none none 30 settings).0
    ≡ some (record { kind = created; until = 630; duration = 600 })
unfolding record_failure lookup ip_eq
third_failure_bans = refl

check_ip_report_example :
    let (check, core') = check_ip platform table other_client 650 settings in
    (check.banned ≡ is_after 650 (ban_of table other_client))
    × (check.expired_ban ≡ is_expired 650 (ban_of table other_client))
    × (check.ban_until ≡ ban_of core' other_client)
    × (ban_of core' other_client
        ≡ (if is_after 650 (ban_of table other_client) then ban_of table other_client else none))
unfolding is_whitelisted ip_eq
check_ip_report_example = check_ip_report platform settings table other_client 650 refl

ban_duration_le_example : 600 ≤ settings.max_ban_time
ban_duration_le_example =
    ban_duration_le platform settings table client none none 30
      (record { kind = created; until = 630; duration = 600 }) third_failure_bans

check_ip-record_failure_example :
    let (check, _) =
      check_ip platform
        (record_failure platform table client none none 30 settings).1
        client
        629
        settings in
    (check.banned ≡ ltb 629 630)
    × (check.expired_ban ≡ leb 630 629)
    × (check.ban_until ≡ (if ltb 629 630 then some 630 else none))
check_ip-record_failure_example =
    check_ip-record_failure platform settings table client none none 30 629
      (record { kind = created; until = 630; duration = 600 }) third_failure_bans

other_addresses_example :
    (lookup other_client (check_ip platform table client 30 settings).1 ≡ lookup other_client table)
    × (lookup other_client (record_failure platform table client none none 30 settings).1
        ≡ lookup other_client table)
    × (lookup other_client (record_success platform table client 30 settings)
        ≡ lookup other_client table)
other_addresses_example =
    other_addresses platform settings table client other_client none none 30 (λ e. ground arith)

overflow_example :
    let (outcome, core') = record_failure platform exhausted client none none 30 settings in
    (outcome ≡ none)
    × (ban_of core' client ≡ ban_of exhausted client)
    × (compute_ban_duration platform settings (entry_of core' client).ban_count ≡ none)
unfolding is_whitelisted ip_eq lookup compute_ban_duration note_failure
overflow_example =
    overflow_never_bans platform settings exhausted client none none 30 refl refl (omega arith)

table-IsMap : IsMap table
unfolding lookup ip_eq
table-IsMap = (refl, (refl, tt))

failing-IsValid : IsValidEntry 30 failing
failing-IsValid = record {
  sorted = omega arith;
  past = omega arith;
  users = no_names;
  servers = no_names;
  total_range = omega arith;
  count_range = omega arith;
  counted = refl;
  dated = refl;
}

banned-IsValid : IsValidEntry 30 banned
banned-IsValid = record {
  sorted = omega arith;
  past = omega arith;
  users = no_names;
  servers = no_names;
  total_range = omega arith;
  count_range = omega arith;
  counted = refl;
  dated = refl;
}

table-IsValid : IsValidCore 30 table
table-IsValid = record { keys = table-IsMap; entries = (failing-IsValid, (banned-IsValid, tt)) }

record_failure_report_example :
    let bans = leb 3 (window_failures platform settings 30 60 failing + 1) in
    let (outcome, core') = record_failure platform table client none none 30 settings in
    (is_some outcome ≡ true)
    × (event_of outcome ≡ (if bans then some (next_ban platform settings 30 600 failing) else none))
    × (ban_of core' client
        ≡ (if bans then some (next_ban platform settings 30 600 failing).until else none))
    × ((entry_of core' client).ban_count ≡ (if bans then saturating_suc 32 0 else 0))
unfolding is_whitelisted ip_eq lookup compute_ban_duration
record_failure_report_example =
    record_failure_report platform settings table client none none 30 60 600 table-IsValid refl refl
      refl (omega arith)

below_threshold_example :
    let e = entry_of (fail_at platform settings client none none (10 ∷ 20 ∷ []) []) client in
    (e.recent_failures ≡ 10 ∷ 20 ∷ []) × (e.ban_until ≡ none) × (e.ban_count ≡ 0)
unfolding is_whitelisted ip_eq lookup
below_threshold_example =
    below_threshold platform settings client none none 10 60 refl refl (10 ∷ 20 ∷ []) [] refl
      (omega arith) (omega arith) (omega arith)

at_threshold_bans_example :
    event_of
      (record_failure platform
        (fail_at platform settings client none none (10 ∷ 20 ∷ []) [])
        client
        none
        none
        70
        settings).0
    ≡ some (record { kind = created; until = 70 + 600; duration = 600 })
unfolding is_whitelisted ip_eq lookup compute_ban_duration
at_threshold_bans_example =
    at_threshold_bans platform settings client none none 10 60 refl refl (10 ∷ 20 ∷ []) 70 600 []
      refl (omega arith) (omega arith) refl refl (omega arith)

abbrev empty_config : Fail2banConfig platform
empty_config = record {
  enabled = none;
  max_failures = none;
  find_time = none;
  ban_time = none;
  max_ban_time = none;
  backoff_multiplier = none;
  delay_before_ban = none;
  delay_time = none;
  persist_state = none;
  state_path = none;
  inline_whitelist = codes "::1/128" ∷ [];
}

-- The default settings, with the local host whitelisted once.
abbrev default_result : Settings platform
default_result = record {
  enabled = true;
  max_failures = 5;
  find_time = 60_000_000_000;
  ban_time = 600_000_000_000;
  max_ban_time = 86_400_000_000_000;
  backoff_multiplier = 2;
  delay_before_ban = true;
  delay_time = 2_000_000_000;
  persist_state = true;
  state_path = codes "/var/lib/centralssh/fail2ban_state.json";
  whitelist = localhost ∷ v6 1 ∷ [];
}

effective-IsSound_example :
    IsSound platform default_result
    × (has platform default_result.whitelist client ≡ (
        ip_eq localhost client
        || ip_eq (v6 1) client
        || any (names_net platform client) empty_config.inline_whitelist
        || file_has platform client none))
unfolding effective parse_duration_option parse_whitelist read_net validate_fail2ban_settings
    push_new ip_eq
effective-IsSound_example = effective-IsSound platform empty_config none default_result client refl

ban_survives_restart_example :
    let core' =
      restore platform 650 settings (snapshot_for_persistence platform table 600 settings).0 [] in
    (ban_of core' other_client ≡ some 700) × ((entry_of core' other_client).ban_count ≡ 1)
unfolding lookup ip_eq
ban_survives_restart_example =
    ban_survives_restart platform read_print table other_client 600 650 700 settings settings
      table-IsMap refl (omega arith) (omega arith)

abbrev tracker : Tracker platform
tracker = record { settings = settings; core = table; file = missing; audit = [] }

tracker_ban_holds_example :
    let t' = (tracker_record_failure platform client none none 30 31 written tracker).1 in
    let check = (tracker_check_ip platform client 400 401 failed t').0 in
    (check.banned ≡ ltb 400 630) × (check.expired_ban ≡ leb 630 400)
unfolding lookup ip_eq tracker_record_failure record_failure
tracker_ban_holds_example =
    tracker_ban_holds platform client none none 30 31 400 401 written failed tracker
      (record { kind = created; until = 630; duration = 600 }) table-IsMap refl
