-- ===== src/Abuse/Bans.antt =====
-- When an address is banned, and for how long (src/abuse.rs).
use central_ssh.Prelude.{
  ℕ, ◌+◌, ◌^◌, ◌≤◌, ◌<◌, ◌≡◌, ap, inl, inr, Bool, true, not, ◌&&◌, [], ◌∷◌, Option, none, some,
  Option-cases, is_some, arith, leb, ltb, unwrap_or, length, length-append, keep, if◌then◌else◌,
  ◌==◌,
}
use central_ssh.Prelude.Text.{Text}
use central_ssh.Prelude.Assoc.{lookup, insert, lookup-insert_self}
use central_ssh.Abuse.Types.{
  IpAddr, ip_eq_class, Platform, Settings, Entry, Core, FailureOutcome, BanEvent, created, extended,
}
use central_ssh.Abuse.Core.{
  new_entry, is_after, is_expired, prune_failures, check_entry, check_ip, note_failure, ban_entry,
  fail_entry, failure_count, delay_outcome, record_failure, is_whitelisted, compute_ban_duration,
  prune_window, saturating_suc,
}
use central_ssh.Abuse.Window.{in_window, prune_window-eq-keep}
use central_ssh.Abuse.Invariant.{IsValidEntry, IsValidCore, entry_or_new-IsValid}

abbrev pub entry_of : Core → IpAddr → Entry
entry_of core ip = unwrap_or (lookup ip core) new_entry

-- The end of the ban of an address.
abbrev pub ban_of : Core → IpAddr → Option ℕ
ban_of core ip = (entry_of core ip).ban_until

-- The ban that a failure reports; none also for a panic.
abbrev pub event_of : Option FailureOutcome → Option BanEvent
event_of none = none
event_of (some r) = r.ban_event

module _ (P : Platform) (s : Settings P) where
  -- The tracker looks at the address at all.
  abbrev pub is_watched : IpAddr → Bool
  is_watched ip = s.enabled && not (is_whitelisted P s ip)

  prune_failures_ban : (e : Entry) (now w : ℕ) → (prune_failures P e now w).ban_until ≡ e.ban_until
  unfolding prune_failures
  prune_failures_ban e now w = ground arith

  prune_failures_count :
      (e : Entry) (now w : ℕ) → (prune_failures P e now w).ban_count ≡ e.ban_count
  unfolding prune_failures
  prune_failures_count e now w = ground arith

  check_entry_report :
      (now : ℕ) (e : Entry)
      → let check = (check_entry P s now e).0 in
        (check.banned ≡ is_after now e.ban_until)
        × (check.expired_ban ≡ is_expired now e.ban_until)
        × (check.ban_until ≡ (if is_after now e.ban_until then e.ban_until else none))
        × ((check_entry P s now e).1.ban_until
            ≡ (if is_after now e.ban_until then e.ban_until else none))
  unfolding check_entry
  check_entry_report now e = ground (arith, prune_failures_ban e now s.find_time)

  -- For a watched address, `check_ip` reports a ban exactly while its end is later than now, and
  -- reports that end; a ban whose end has come is reported as expired, and removed.
  pub check_ip_report :
      (core : Core) (ip : IpAddr) (now : ℕ)
      → is_watched ip ≡ true
      → let (check, core') = check_ip P core ip now s in
        (check.banned ≡ is_after now (ban_of core ip))
        × (check.expired_ban ≡ is_expired now (ban_of core ip))
        × (check.ban_until ≡ ban_of core' ip)
        × (ban_of core' ip ≡ (if is_after now (ban_of core ip) then ban_of core ip else none))
  unfolding check_ip
  check_ip_report core ip now watched = elim (Option-cases (lookup ip core)) [
    | inl absent ↦ ground arith
    | inr (e, found) ↦
        ground
          (arith, lookup-insert_self ip (check_entry P s now e).1 core, check_entry_report now e)
  ]

  -- The failures of an entry within a window, this instant's excluded.
  abbrev pub window_failures : ℕ → ℕ → Entry → ℕ
  window_failures now window e = length (keep (in_window now window) e.recent_failures)

  note_failure_count :
      (now w : ℕ) (user target : Option Text) (e : Entry)
      → IsValidEntry now e
      → Platform.from_std P s.find_time ≡ some w
      → length (note_failure P s now user target e).recent_failures ≡ window_failures now w e + 1
  unfolding note_failure prune_failures
  note_failure_count now w user target e v fits =
      rw (fits, prune_failures)
        (omega (
          arith,
          length-append (prune_window now w e.recent_failures) (now ∷ []),
          ap length (prune_window-eq-keep now w e.recent_failures v.sorted),
        ))

  pub note_failure_ban :
      (now : ℕ) (user target : Option Text) (e : Entry)
      → let noted = note_failure P s now user target e in
        (noted.ban_until ≡ e.ban_until) × (noted.ban_count ≡ e.ban_count)
  unfolding note_failure
  note_failure_ban now user target e =
      (prune_failures_ban e now s.find_time, prune_failures_count e now s.find_time)

  pub record_failure_watched :
      (core : Core) (ip : IpAddr) (user target : Option Text) (now : ℕ)
      → is_watched ip ≡ true
      → let (outcome, entry) = fail_entry P s now user target (entry_of core ip) in
        record_failure P core ip user target now s ≡ (outcome, insert ip entry core)
  unfolding record_failure
  record_failure_watched core ip user target now watched = ground arith

  -- The ban that an entry gets next, if it lasts `d`.
  abbrev pub next_ban : ℕ → ℕ → Entry → BanEvent
  next_ban now d e = record {
    kind = if e.ban_count == 0 then created else extended;
    until = now + unwrap_or (Platform.from_std P d) 0;
    duration = d;
  }

  fail_entry_report :
      (now w d : ℕ) (user target : Option Text) (e : Entry)
      → IsValidEntry now e
      → Platform.from_std P s.find_time ≡ some w
      → compute_ban_duration P s e.ban_count ≡ some d
      → window_failures now w e + 1 < 2 ^ 32
      → let bans = leb s.max_failures (window_failures now w e + 1) in
        let (outcome, e') = fail_entry P s now user target e in
        (is_some outcome ≡ true)
        × (event_of outcome ≡ (if bans then some (next_ban now d e) else none))
        × (e'.ban_until ≡ (if bans then some (next_ban now d e).until else e.ban_until))
        × (e'.ban_count ≡ (if bans then saturating_suc 32 e.ban_count else e.ban_count))
  unfolding fail_entry ban_entry delay_outcome
  fail_entry_report now w d user target e v fits found few =
      let noted = note_failure P s now user target e in
      let count : failure_count noted ≡ window_failures now w e + 1 =
        omega (arith, note_failure_count now w user target e v fits) in
      ground (
        arith,
        count,
        note_failure_ban now user target e,
        ap (compute_ban_duration P s) (note_failure_ban now user target e).1,
      )

  -- In a valid table, and if the window and the ban time are representable, a failure of a watched
  -- address bans it exactly when the failures within the window, this one included and fewer than
  -- 2^32, number `max_failures` or more. Then the ban starts now and lasts the computed time, is
  -- the first or an extended one by the bans before it, and counts one more; else the ban and its
  -- count stay as they were.
  pub record_failure_report :
      (core : Core) (ip : IpAddr) (user target : Option Text) (now w d : ℕ)
      → IsValidCore now core
      → is_watched ip ≡ true
      → Platform.from_std P s.find_time ≡ some w
      → compute_ban_duration P s (entry_of core ip).ban_count ≡ some d
      → window_failures now w (entry_of core ip) + 1 < 2 ^ 32
      → let bans = leb s.max_failures (window_failures now w (entry_of core ip) + 1) in
        let (outcome, core') = record_failure P core ip user target now s in
        (is_some outcome ≡ true)
        × (event_of outcome ≡ (if bans then some (next_ban now d (entry_of core ip)) else none))
        × (ban_of core' ip
            ≡ (if bans then some (next_ban now d (entry_of core ip)).until else ban_of core ip))
        × ((entry_of core' ip).ban_count ≡ (
            if bans
            then saturating_suc 32 (entry_of core ip).ban_count
            else (entry_of core ip).ban_count))
  record_failure_report core ip user target now w d v watched fits found few =
      let e = entry_of core ip in
      ground (
        arith,
        record_failure_watched core ip user target now watched,
        lookup-insert_self ip (fail_entry P s now user target e).1 core,
        fail_entry_report now w d user target e (entry_or_new-IsValid now ip core v) fits found few,
      )

  -- A reported ban is that of a watched address, and is written in its entry.
  pub fail_entry_event :
      (now : ℕ) (user target : Option Text) (e : Entry) (ev : BanEvent)
      → event_of (fail_entry P s now user target e).0 ≡ some ev
      → ((fail_entry P s now user target e).1.ban_until ≡ some ev.until)
        × (ev.duration ≤ s.max_ban_time)
  unfolding fail_entry ban_entry delay_outcome compute_ban_duration
  fail_entry_event now user target e ev h = ground arith

  pub record_failure_event :
      (core : Core) (ip : IpAddr) (user target : Option Text) (now : ℕ) (ev : BanEvent)
      → event_of (record_failure P core ip user target now s).0 ≡ some ev
      → (is_watched ip ≡ true)
        × (event_of (fail_entry P s now user target (entry_of core ip)).0 ≡ some ev)
  unfolding record_failure
  record_failure_event core ip user target now ev h = ground arith

  -- No ban that `record_failure` reports is longer than `max_ban_time`.
  pub ban_duration_le :
      (core : Core) (ip : IpAddr) (user target : Option Text) (now : ℕ) (ev : BanEvent)
      → event_of (record_failure P core ip user target now s).0 ≡ some ev
      → ev.duration ≤ s.max_ban_time
  ban_duration_le core ip user target now ev banned =
      let fact = record_failure_event core ip user target now ev banned in
      (fail_entry_event now user target (entry_of core ip) ev fact.1).1

  -- A ban that `record_failure` reports is in force for a later check under the same settings
  -- until its end, and not after; the check reports that end.
  pub check_ip-record_failure :
      (core : Core) (ip : IpAddr) (user target : Option Text) (now later : ℕ) (ev : BanEvent)
      → event_of (record_failure P core ip user target now s).0 ≡ some ev
      → let (check, _) = check_ip P (record_failure P core ip user target now s).1 ip later s in
        (check.banned ≡ ltb later ev.until)
        × (check.expired_ban ≡ leb ev.until later)
        × (check.ban_until ≡ (if ltb later ev.until then some ev.until else none))
  check_ip-record_failure core ip user target now later ev banned =
      let fact = record_failure_event core ip user target now ev banned in
      let e = entry_of core ip in
      let core' = (record_failure P core ip user target now s).1 in
      ground (
        arith,
        record_failure_watched core ip user target now fact.0,
        lookup-insert_self ip (fail_entry P s now user target e).1 core,
        fail_entry_event now user target e ev fact.1,
        check_ip_report core' ip later fact.0,
      )
