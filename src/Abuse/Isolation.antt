-- ===== src/Abuse/Isolation.antt =====
-- What an operation of the tracker leaves alone (src/abuse.rs).
use central_ssh.Prelude.{
  ℕ, ◌≤◌, ◌≡◌, ◌≢◌, ap, inl, inr, true, [], Option, none, some, Option-cases, arith, if◌then◌else◌,
}
use central_ssh.Prelude.Text.{Text}
use central_ssh.Prelude.Assoc.{lookup, lookup-insert_self, lookup-insert_ne}
use central_ssh.Abuse.Types.{IpAddr, ip_eq_class, Platform, Settings, Entry, Core}
use central_ssh.Abuse.Core.{
  is_after, check_entry, check_ip, note_failure, fail_entry, record_failure, succeed_entry,
  record_success, ban_entry, compute_ban_duration, failure_count,
}
use central_ssh.Abuse.Bans.{entry_of, ban_of, is_watched, record_failure_watched, note_failure_ban}

module _ (P : Platform) (s : Settings P) where
  -- An operation on one address changes the entry of no other.
  pub other_addresses :
      (core : Core) (ip other : IpAddr) (user target : Option Text) (now : ℕ)
      → other ≢ ip
      → (lookup other (check_ip P core ip now s).1 ≡ lookup other core)
        × (lookup other (record_failure P core ip user target now s).1 ≡ lookup other core)
        × (lookup other (record_success P core ip now s) ≡ lookup other core)
  unfolding check_ip record_failure record_success
  other_addresses core ip other user target now ne =
      let e = entry_of core ip in
      (
        elim (Option-cases (lookup ip core)) [
          | inl absent ↦ ground arith
          | inr (f, found) ↦
              ground (arith, lookup-insert_ne ip other (check_entry P s now f).1 core ne)
        ],
        ground (arith, lookup-insert_ne ip other (fail_entry P s now user target e).1 core ne),
        elim (Option-cases (lookup ip core)) [
          | inl absent ↦ ground arith
          | inr (f, found) ↦ ground (arith, lookup-insert_ne ip other (succeed_entry now f) core ne)
        ],
      )

  -- A login of a watched address with an entry forgets its recent failures, unless a ban is in
  -- force; its ban and the ban count stay as they were, and the login is noted.
  pub record_success_report :
      (core : Core) (ip : IpAddr) (now : ℕ) {e : Entry}
      → is_watched P s ip ≡ true
      → lookup ip core ≡ some e
      → let e' = entry_of (record_success P core ip now s) ip in
        (e'.recent_failures ≡ (if is_after now e.ban_until then e.recent_failures else []))
        × (e'.ban_until ≡ e.ban_until)
        × (e'.ban_count ≡ e.ban_count)
        × (e'.last_success ≡ some now)
  unfolding record_success succeed_entry
  record_success_report core ip now {e} watched found =
      ground (arith, lookup-insert_self ip (succeed_entry now e) core)

  overflow_entry :
      (now : ℕ) (user target : Option Text) (e : Entry)
      → compute_ban_duration P s e.ban_count ≡ none
      → s.max_failures ≤ failure_count (note_failure P s now user target e)
      → let (outcome, e') = fail_entry P s now user target e in
        (outcome ≡ none) × (e'.ban_until ≡ e.ban_until) × (e'.ban_count ≡ e.ban_count)
  unfolding fail_entry ban_entry
  overflow_entry now user target e overflow full =
      let kept = note_failure_ban P s now user target e in
      ground (arith, kept, ap (compute_ban_duration P s) kept.1)

  -- Once the backoff factor of its bans so far takes `ban_time` out of the range of a `Duration`,
  -- the failure that fills the window of a watched address panics instead of banning it. The
  -- address is left with the ban it had, and the next ban time still cannot be computed.
  pub overflow_never_bans :
      (core : Core) (ip : IpAddr) (user target : Option Text) (now : ℕ)
      → is_watched P s ip ≡ true
      → compute_ban_duration P s (entry_of core ip).ban_count ≡ none
      → s.max_failures ≤ failure_count (note_failure P s now user target (entry_of core ip))
      → let (outcome, core') = record_failure P core ip user target now s in
        (outcome ≡ none)
        × (ban_of core' ip ≡ ban_of core ip)
        × (compute_ban_duration P s (entry_of core' ip).ban_count ≡ none)
  overflow_never_bans core ip user target now watched overflow full =
      let e = entry_of core ip in
      let entry = overflow_entry now user target e overflow full in
      ground (
        arith,
        record_failure_watched P s core ip user target now watched,
        lookup-insert_self ip (fail_entry P s now user target e).1 core,
        entry,
        ap (compute_ban_duration P s) entry.2,
      )
