-- ===== src/Abuse/Service.antt =====
-- The tracker around the table (`AbuseTracker` of src/abuse.rs): what saving does to a ban.
use central_ssh.Prelude.{ℕ, ◌<◌, ◌≡◌, true, Option, some, is_some, arith, ltb, leb}
use mathlib.Core.Path.{subst, sym}
use central_ssh.Prelude.Text.{Text}
use central_ssh.Prelude.Assoc.{lookup, insert, IsMap, lookup-retain, insert-IsMap}
use central_ssh.Abuse.Types.{IpAddr, ip_eq_class, Platform, Settings, Entry, BanEvent}
use central_ssh.Abuse.Core.{
  is_active, keep_active, prune_failures, snapshot_for_persistence, fail_entry, ban_entry,
  delay_outcome,
}
use central_ssh.Abuse.Bans.{
  entry_of, ban_of, event_of, is_watched, check_ip_report, record_failure_event,
  record_failure_watched, fail_entry_event,
}
use central_ssh.Abuse.Tracker.{
  Tracker, Write, persist_if_enabled, tracker_check_ip, tracker_record_failure,
}
use central_ssh.Prelude.Assoc.{lookup-insert_self}

module _ (P : Platform) where
  keep_active_ban :
      (s : Settings P) (now until : ℕ) (e : Entry)
      → e.ban_until ≡ some until
      → 0 < e.ban_count
      → (e' : Entry) × (keep_active P now s e ≡ some e') × (e'.ban_until ≡ some until)
  unfolding keep_active is_active prune_failures
  keep_active_ban s now until e banned counted =
      (prune_failures P e now s.find_time, ground arith, ground arith)

  persist_ban :
      (ip : IpAddr) (now until : ℕ) (w : Write) (t : Tracker P) (e : Entry)
      → IsMap t.core
      → lookup ip t.core ≡ some e
      → e.ban_until ≡ some until
      → 0 < e.ban_count
      → ban_of (persist_if_enabled P now w t).core ip ≡ some until
  unfolding persist_if_enabled snapshot_for_persistence
  persist_ban ip now until w t e m found banned counted =
      let (e', kept, same) = keep_active_ban t.settings now until e banned counted in
      ground (arith, lookup-retain (keep_active P now t.settings) ip t.core m)

  persist_settings :
      (now : ℕ) (w : Write) (t : Tracker P) → (persist_if_enabled P now w t).settings ≡ t.settings
  unfolding persist_if_enabled
  persist_settings now w t = ground arith

  fail_entry_counts :
      (s : Settings P) (now : ℕ) (user target : Option Text) (e : Entry) (ev : BanEvent)
      → event_of (fail_entry P s now user target e).0 ≡ some ev
      → 0 < (fail_entry P s now user target e).1.ban_count
  unfolding fail_entry ban_entry delay_outcome
  fail_entry_counts s now user target e ev h = ground arith

  tracker_failure_ban :
      (ip : IpAddr) (user target : Option Text) (now saved : ℕ) (w : Write) (t : Tracker P)
      (ev : BanEvent)
      → IsMap t.core
      → event_of (tracker_record_failure P ip user target now saved w t).0 ≡ some ev
      → let t' = (tracker_record_failure P ip user target now saved w t).1 in
        (is_watched P t.settings ip ≡ true)
        × (t'.settings ≡ t.settings)
        × (ban_of t'.core ip ≡ some ev.until)
  unfolding tracker_record_failure
  tracker_failure_ban ip user target now saved w t ev m h =
      let s = t.settings in
      let fact = record_failure_event P s t.core ip user target now ev h in
      let e = entry_of t.core ip in
      let step = record_failure_watched P s t.core ip user target now fact.0 in
      let e' = (fail_entry P s now user target e).1 in
      let t' : Tracker P = record t { core = insert ip e' t.core } in
      let banned =
        persist_ban ip saved ev.until w t' e' (insert-IsMap ip e' t.core m)
          (lookup-insert_self ip e' t.core) (fail_entry_event P s now user target e ev fact.1).0
          (fail_entry_counts s now user target e ev fact.1) in
      let some_outcome : is_some (fail_entry P s now user target e).0 ≡ true =
        ground (arith, fact.1) in
      rw (step, some_outcome) (fact.0, persist_settings saved w t', banned)

  -- In a table without an address twice, a ban that the tracker reports for a failure is in force
  -- for a next check until its end and not after, also if the table is saved in between, at
  -- whatever instant and with whatever success.
  pub tracker_ban_holds :
      (ip : IpAddr) (user target : Option Text) (now saved later again : ℕ) (w w' : Write)
      (t : Tracker P) (ev : BanEvent)
      → IsMap t.core
      → event_of (tracker_record_failure P ip user target now saved w t).0 ≡ some ev
      → let t' = (tracker_record_failure P ip user target now saved w t).1 in
        let check = (tracker_check_ip P ip later again w' t').0 in
        (check.banned ≡ ltb later ev.until) × (check.expired_ban ≡ leb ev.until later)
  unfolding tracker_check_ip
  tracker_ban_holds ip user target now saved later again w w' t ev m h =
      let t' = (tracker_record_failure P ip user target now saved w t).1 in
      let (watched, same, banned) = tracker_failure_ban ip user target now saved w t ev m h in
      let watched' : is_watched P t'.settings ip ≡ true =
        subst (λ (s : Settings P). is_watched P s ip ≡ true) (sym same) watched in
      ground (arith, check_ip_report P t'.settings t'.core ip later watched', banned)
