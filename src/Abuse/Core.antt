-- ===== src/Abuse/Core.antt =====
-- `AbuseTrackerCore` of src/abuse.rs and its helpers. An operation returns its result and the new
-- table. A result `none` is a panic: the entry keeps what was written before it.
use central_ssh.Prelude.{
  ℕ, ◌+◌, ◌-◌, ◌%◌, ◌^◌, Bool, true, false, not, ◌&&◌, ◌||◌, Option, none, some, List, [], ◌∷◌,
  ◌++◌, ltb, leb, ◌==◌, if◌then◌else◌, min, is_some, is_empty, any, contains, length, unwrap_or,
}
use central_ssh.Prelude.Text.{Text, text_eq_class}
use central_ssh.Prelude.Assoc.{lookup, insert, contains_key, retain}
use central_ssh.Abuse.Types.{
  IpAddr, ip_eq_class, as_i32, Platform, Settings, Entry, Core, PersistedState, created, extended,
  PreAuthCheck, FailureOutcome,
}

-- `AbuseEntry::default()`.
abbrev pub new_entry : Entry
new_entry = record {
  recent_failures = [];
  total_failures = 0;
  ban_until = none;
  ban_count = 0;
  last_failure = none;
  last_success = none;
  recent_usernames = [];
  recent_target_servers = [];
}

-- The loop of `prune_failures`: drops from the front what is older than the window.
unfoldable pub prune_window : ℕ → ℕ → List ℕ → List ℕ
prune_window now window [] = []
prune_window now window (t ∷ ts) =
    if ltb (t + window) now then prune_window now window ts else t ∷ ts

-- `VecDeque::pop_front`.
abbrev pub drop_front {ℓ} : {A : Type ℓ} → List A → List A
drop_front [] = []
drop_front (x ∷ xs) = xs

unfoldable pub push_recent_value : List Text → Option Text → List Text
push_recent_value values none = values
push_recent_value values (some v) =
    if is_empty v || contains values v
    then values
    else (if leb 5 (length values) then drop_front values else values) ++ v ∷ []

-- `Option::is_some_and` on an instant.
abbrev pub is_after : ℕ → Option ℕ → Bool
is_after now none = false
is_after now (some t) = ltb now t

abbrev pub is_expired : ℕ → Option ℕ → Bool
is_expired now none = false
is_expired now (some t) = leb t now

-- Addition that stops at the largest value of a `w`-bit integer.
abbrev pub saturating_suc : ℕ → ℕ → ℕ
saturating_suc w n = if ltb (n + 1) (2 ^ w) then n + 1 else 2 ^ w - 1

abbrev pub no_check : PreAuthCheck
no_check = record {
  whitelisted = false;
  had_state = false;
  expired_ban = false;
  banned = false;
  ban_until = none;
  ban_duration = none;
}

-- `record_success` on the entry of the address.
unfoldable pub succeed_entry : ℕ → Entry → Entry
succeed_entry now entry =
    if is_after now entry.ban_until
    then record entry { last_success = some now }
    else record entry {
      last_success = some now;
      recent_failures = [];
      recent_usernames = [];
      recent_target_servers = [];
    }

-- What `retain` keeps.
unfoldable pub is_active : ℕ → Entry → Bool
is_active now entry =
    not (is_empty entry.recent_failures)
    || is_after now entry.ban_until
    || ltb 0 entry.ban_count
    || is_some entry.last_failure
    || is_some entry.last_success

-- `recent_failures.len() as u32`.
abbrev pub failure_count : Entry → ℕ
failure_count entry = length entry.recent_failures % 2 ^ 32

module _ (P : Platform) where
  open P use {powi, mul_f64, net_contains, from_std}

  unfoldable pub is_whitelisted : Settings P → IpAddr → Bool
  is_whitelisted s ip = any (λ net. net_contains net ip) s.whitelist

  unfoldable pub prune_failures : Entry → ℕ → ℕ → Entry
  unfolding prune_window
  prune_failures entry now window = elim (from_std window) [
    | none ↦ entry
    | some w ↦ record entry { recent_failures = prune_window now w entry.recent_failures }
  ]

  -- `none` is the panic of `mul_f64`.
  unfoldable pub compute_ban_duration : Settings P → ℕ → Option ℕ
  compute_ban_duration s previous =
      elim (mul_f64 s.ban_time (powi s.backoff_multiplier (as_i32 previous))) [
        | none ↦ none
        | some scaled ↦ some (min scaled s.max_ban_time)
      ]

  -- The part of `check_ip` below its early returns, on the entry of the address.
  unfoldable pub check_entry : Settings P → ℕ → Entry → PreAuthCheck × Entry
  unfolding prune_failures
  check_entry s now entry =
      let pruned = prune_failures entry now s.find_time in
      let expired = is_expired now pruned.ban_until in
      let entry' : Entry = if expired then record pruned { ban_until = none } else pruned in
      let open_check = record no_check { had_state = true; expired_ban = expired } in
      (
        elim entry'.ban_until [
          | none ↦ open_check
          | some t ↦
              if ltb now t
              then record open_check {
                banned = true;
                ban_until = some t;
                ban_duration = some (t - now);
              }
              else open_check
        ],
        entry',
      )

  unfoldable pub check_ip : Core → IpAddr → ℕ → Settings P → PreAuthCheck × Core
  unfolding check_entry is_whitelisted
  check_ip core ip now s =
      if not s.enabled
      then (no_check, core)
      else if is_whitelisted s ip
      then (record no_check { whitelisted = true; had_state = contains_key ip core }, core)
      else elim (lookup ip core) [
        | none ↦ (no_check, core)
        | some entry ↦
            let (check, entry') = check_entry s now entry in (check, insert ip entry' core)
      ]

  -- The part of `record_failure` that notes the failure in the entry.
  unfoldable pub note_failure : Settings P → ℕ → Option Text → Option Text → Entry → Entry
  unfolding prune_failures push_recent_value
  note_failure s now username target entry =
      let pruned = prune_failures entry now s.find_time in
      record pruned {
        last_failure = some now;
        total_failures = saturating_suc 64 pruned.total_failures;
        recent_failures = pruned.recent_failures ++ now ∷ [];
        recent_usernames = push_recent_value pruned.recent_usernames username;
        recent_target_servers = push_recent_value pruned.recent_target_servers target;
      }

  -- The ban of an entry whose window is full; `none` is a panic before the ban is written.
  unfoldable pub ban_entry : Settings P → ℕ → Entry → Option FailureOutcome × Entry
  unfolding compute_ban_duration
  ban_entry s now entry = elim (compute_ban_duration s entry.ban_count) [
    | none ↦ (none, entry)
    | some duration ↦
        let until = now + unwrap_or (from_std duration) 0 in
        (
          some (record {
            whitelisted = false;
            delay = none;
            ban_event = some (record {
              kind = if entry.ban_count == 0 then created else extended;
              until = until;
              duration = duration;
            });
          }),
          record entry { ban_until = some until; ban_count = saturating_suc 32 entry.ban_count },
        )
  ]

  -- The tarpit delay of a failure that does not ban.
  unfoldable pub delay_outcome : Settings P → Entry → FailureOutcome
  delay_outcome s entry = record {
    whitelisted = false;
    delay =
        if s.delay_before_ban
          && ltb 1 s.max_failures
          && leb (s.max_failures - 1) (failure_count entry)
        then some s.delay_time
        else none;
    ban_event = none;
  }

  -- `record_failure` on the entry of the address, below its early returns.
  unfoldable pub fail_entry :
      Settings P → ℕ → Option Text → Option Text → Entry → Option FailureOutcome × Entry
  unfolding note_failure ban_entry delay_outcome
  fail_entry s now username target entry =
      let noted = note_failure s now username target entry in
      if leb s.max_failures (failure_count noted)
      then ban_entry s now noted
      else (some (delay_outcome s noted), noted)

  unfoldable pub record_failure :
      Core → IpAddr → Option Text → Option Text → ℕ → Settings P → Option FailureOutcome × Core
  unfolding fail_entry is_whitelisted
  record_failure core ip username target now s =
      if not s.enabled
      then (some (record { whitelisted = false; delay = none; ban_event = none }), core)
      else if is_whitelisted s ip
      then (some (record { whitelisted = true; delay = none; ban_event = none }), core)
      else let (outcome, entry) =
          fail_entry s now username target (unwrap_or (lookup ip core) new_entry) in
        (outcome, insert ip entry core)

  unfoldable pub record_success : Core → IpAddr → ℕ → Settings P → Core
  unfolding succeed_entry is_whitelisted
  record_success core ip now s =
      if not s.enabled then core else if is_whitelisted s ip then core else elim (lookup ip core) [
        | none ↦ core
        | some entry ↦ insert ip (succeed_entry now entry) core
      ]

  -- The closure of `entries.retain`: prunes an entry, and drops it if it is idle.
  unfoldable pub keep_active : ℕ → Settings P → Entry → Option Entry
  unfolding is_active prune_failures
  keep_active now s entry =
      let pruned = prune_failures entry now s.find_time in
      if is_active now pruned then some pruned else none

  -- The loop that fills the `PersistedState`.
  unfoldable pub collect : Core → PersistedState → PersistedState
  collect [] persisted = persisted
  collect ((ip, entry) ∷ core) persisted =
      collect core (insert (Platform.ip_to_text P ip) entry persisted)

  unfoldable pub snapshot_for_persistence : Core → ℕ → Settings P → PersistedState × Core
  unfolding collect
  snapshot_for_persistence core now s =
      let core' = retain (keep_active now s) core in (collect core' [], core')
