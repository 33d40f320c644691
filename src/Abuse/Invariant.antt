-- ===== src/Abuse/Invariant.antt =====
-- The well-formedness of the tracker's table, kept by every operation of src/abuse.rs.
use central_ssh.Prelude.{
  ℕ, ◌^◌, ◌≤◌, ◌<◌, ◌≡◌, refl, inl, inr, true, false, not, ◌||◌, ◌&&◌, ◌==◌, List, [], ◌∷◌, Option,
  none, some, All, if_intro, Option-cases, is_empty, is_some, arith, leb, unwrap_or,
}
use central_ssh.Prelude.Text.{Text}
use central_ssh.Prelude.Assoc.{
  lookup, insert, IsMap, AllValues, insert-IsMap, insert-AllValues, lookup-AllValues, retain-IsMap,
  retain-AllValues,
}
use central_ssh.Abuse.Types.{
  IpAddr, ip_eq_class, Platform, Settings, Entry, Core, FailureOutcome, PreAuthCheck,
}
use central_ssh.Abuse.Core.{
  prune_window, is_expired, is_after, saturating_suc, compute_ban_duration, failure_count,
  prune_failures, new_entry, check_entry, check_ip, note_failure, ban_entry, fail_entry,
  record_failure, succeed_entry, record_success, keep_active, snapshot_for_persistence,
  is_whitelisted,
}
use central_ssh.Abuse.Window.{
  IsSorted, IsRecent, prune_window-All, prune_window-IsSorted, append-IsSorted, All-le_mono,
  push_recent_value-IsRecent,
}
use central_ssh.Prelude.{All-append}
use mathlib.Core.Path.{subst}

-- What holds of an entry at an instant that no noted event is after: the failures are in order
-- and in the past, the recent names few and distinct, the counters in range of their integers,
-- a ban is a counted one, and a failure left a date.
pub record IsValidEntry (now : ℕ) (e : Entry) : Type 0 where
  pub sorted : IsSorted e.recent_failures
  pub past : All (λ t. t ≤ now) e.recent_failures
  pub users : IsRecent e.recent_usernames
  pub servers : IsRecent e.recent_target_servers
  pub total_range : e.total_failures < 2 ^ 64
  pub count_range : e.ban_count < 2 ^ 32
  pub counted : (is_some e.ban_until && e.ban_count == 0) ≡ false
  pub dated : (is_empty e.recent_failures || is_some e.last_failure) ≡ true

pub record IsValidCore (now : ℕ) (core : Core) : Type 0 where
  pub keys : IsMap core
  pub entries : AllValues (IsValidEntry now) core

pub no_names : IsRecent []
no_names = record { few = omega arith; distinct = tt; named = tt }

pub new_entry-IsValid : (now : ℕ) → IsValidEntry now new_entry
new_entry-IsValid now = record {
  sorted = tt;
  past = tt;
  users = no_names;
  servers = no_names;
  total_range = omega arith;
  count_range = omega arith;
  counted = refl;
  dated = refl;
}

pub IsValidEntry-later : (a b : ℕ) (e : Entry) → a ≤ b → IsValidEntry a e → IsValidEntry b e
IsValidEntry-later a b e le v = record {
  sorted = v.sorted;
  past = All-le_mono a b e.recent_failures le v.past;
  users = v.users;
  servers = v.servers;
  total_range = v.total_range;
  count_range = v.count_range;
  counted = v.counted;
  dated = v.dated;
}

pub IsValidCore-later : (a b : ℕ) (core : Core) → a ≤ b → IsValidCore a core → IsValidCore b core
IsValidCore-later a b core le v = record { keys = v.keys; entries = later core v.entries }
  where
    later : (c : Core) → AllValues (IsValidEntry a) c → AllValues (IsValidEntry b) c
    later [] h = tt
    later ((ip, e) ∷ c) h = (IsValidEntry-later a b e le h.0, later c h.1)

prune_window_nonempty :
    (now w : ℕ) (ts : List ℕ) → is_empty (prune_window now w ts) ≡ false → is_empty ts ≡ false
unfolding prune_window
prune_window_nonempty now w [] h = h
prune_window_nonempty now w (t ∷ ts) h = refl

prune_failures-IsValid :
    (P : Platform) (now w : ℕ) (e : Entry)
    → IsValidEntry now e
    → IsValidEntry now (prune_failures P e now w)
unfolding prune_failures
prune_failures-IsValid P now w e v = elim (Option-cases (Platform.from_std P w)) [
  | inl long ↦ rw (long, prune_failures) v
  | inr (d, fits) ↦
      rw (fits, prune_failures)
        (record {
          sorted = prune_window-IsSorted now d e.recent_failures v.sorted;
          past = prune_window-All (λ t. t ≤ now) now d e.recent_failures v.past;
          users = v.users;
          servers = v.servers;
          total_range = v.total_range;
          count_range = v.count_range;
          counted = v.counted;
          dated = ground (arith, prune_window_nonempty now d e.recent_failures);
        })
]

clear_ban-IsValid :
    (now : ℕ) (e : Entry) → IsValidEntry now e → IsValidEntry now (record e { ban_until = none })
clear_ban-IsValid now e v = record {
  sorted = v.sorted;
  past = v.past;
  users = v.users;
  servers = v.servers;
  total_range = v.total_range;
  count_range = v.count_range;
  counted = refl;
  dated = v.dated;
}

saturating_suc_range : (w n : ℕ) → 0 < 2 ^ w → saturating_suc w n < 2 ^ w
saturating_suc_range w n h = ground arith

succeed_entry-IsValid :
    (now : ℕ) (e : Entry) → IsValidEntry now e → IsValidEntry now (succeed_entry now e)
unfolding succeed_entry
succeed_entry-IsValid now e v =
    if_intro (IsValidEntry now) (is_after now e.ban_until)
      (record {
        sorted = v.sorted;
        past = v.past;
        users = v.users;
        servers = v.servers;
        total_range = v.total_range;
        count_range = v.count_range;
        counted = v.counted;
        dated = v.dated;
      })
      (record {
        sorted = tt;
        past = tt;
        users = no_names;
        servers = no_names;
        total_range = v.total_range;
        count_range = v.count_range;
        counted = v.counted;
        dated = refl;
      })

insert-IsValid :
    (now : ℕ) (ip : IpAddr) (e : Entry) (core : Core)
    → IsValidEntry now e
    → IsValidCore now core
    → IsValidCore now (insert ip e core)
insert-IsValid now ip e core v c = record {
  keys = insert-IsMap ip e core c.keys;
  entries = insert-AllValues (IsValidEntry now) ip e core v c.entries;
}

pub entry_or_new-IsValid :
    (now : ℕ) (ip : IpAddr) (core : Core)
    → IsValidCore now core
    → IsValidEntry now (unwrap_or (lookup ip core) new_entry)
entry_or_new-IsValid now ip core c = elim (Option-cases (lookup ip core)) [
  | inl absent ↦ rw absent (new_entry-IsValid now)
  | inr (e, found) ↦ rw found (lookup-AllValues (IsValidEntry now) ip core c.entries found)
]

module _ (P : Platform) (s : Settings P) (now : ℕ) where
  check_entry-IsValid :
      (e : Entry) → IsValidEntry now e → IsValidEntry now (check_entry P s now e).1
  unfolding check_entry
  check_entry-IsValid e v =
      let p = prune_failures-IsValid P now s.find_time e v in
      if_intro (IsValidEntry now) (is_expired now (prune_failures P e now s.find_time).ban_until)
        (clear_ban-IsValid now (prune_failures P e now s.find_time) p) p

  note_failure-IsValid :
      (user target : Option Text) (e : Entry)
      → IsValidEntry now e
      → IsValidEntry now (note_failure P s now user target e)
  unfolding note_failure
  note_failure-IsValid user target e v =
      let p = prune_failures-IsValid P now s.find_time e v in
      let pruned = prune_failures P e now s.find_time in
      record {
        sorted = append-IsSorted pruned.recent_failures now p.sorted p.past;
        past = All-append (λ t. t ≤ now) pruned.recent_failures (now ∷ []) p.past (omega arith, tt);
        users = push_recent_value-IsRecent pruned.recent_usernames user p.users;
        servers = push_recent_value-IsRecent pruned.recent_target_servers target p.servers;
        total_range = saturating_suc_range 64 pruned.total_failures (omega arith);
        count_range = p.count_range;
        counted = p.counted;
        dated = ground arith;
      }

  ban_entry-IsValid : (e : Entry) → IsValidEntry now e → IsValidEntry now (ban_entry P s now e).1
  unfolding ban_entry
  ban_entry-IsValid e v = elim (Option-cases (compute_ban_duration P s e.ban_count)) [
    | inl panic ↦ rw (panic, ban_entry) v
    | inr (d, found) ↦
        rw (found, ban_entry)
          (record {
            sorted = v.sorted;
            past = v.past;
            users = v.users;
            servers = v.servers;
            total_range = v.total_range;
            count_range = ground arith;
            counted = ground arith;
            dated = v.dated;
          })
  ]

  fail_entry-IsValid :
      (user target : Option Text) (e : Entry)
      → IsValidEntry now e
      → IsValidEntry now (fail_entry P s now user target e).1
  unfolding fail_entry
  fail_entry-IsValid user target e v =
      let noted = note_failure P s now user target e in
      let n = note_failure-IsValid user target e v in
      if_intro (λ (r : Option FailureOutcome × Entry). IsValidEntry now r.1)
        (leb s.max_failures (failure_count noted)) (ban_entry-IsValid noted n) n

  keep_active-IsValid :
      (e e' : Entry) → IsValidEntry now e → keep_active P now s e ≡ some e' → IsValidEntry now e'
  unfolding keep_active
  keep_active-IsValid e e' v h =
      let p = prune_failures-IsValid P now s.find_time e v in
      let kept : prune_failures P e now s.find_time ≡ e' = ground arith in
      subst (IsValidEntry now) kept p

  pub check_ip-IsValid :
      (core : Core) (ip : IpAddr)
      → IsValidCore now core
      → IsValidCore now (check_ip P core ip now s).1
  unfolding check_ip
  check_ip-IsValid core ip v = if_intro Q (not s.enabled) v (
      if_intro Q (is_whitelisted P s ip) v (elim (Option-cases (lookup ip core)) [
        | inl absent ↦ rw absent v
        | inr (e, found) ↦ rw found (
            insert-IsValid now ip (check_entry P s now e).1 core
              (check_entry-IsValid e (lookup-AllValues (IsValidEntry now) ip core v.entries found))
              v)
      ]))
    where
      Q : PreAuthCheck × Core → Type 0
      Q r = IsValidCore now r.1

  pub record_failure-IsValid :
      (core : Core) (ip : IpAddr) (user target : Option Text)
      → IsValidCore now core
      → IsValidCore now (record_failure P core ip user target now s).1
  unfolding record_failure
  record_failure-IsValid core ip user target v =
      let e = unwrap_or (lookup ip core) new_entry in
      if_intro Q (not s.enabled) v (
        if_intro Q (is_whitelisted P s ip) v (
          insert-IsValid now ip (fail_entry P s now user target e).1 core
            (fail_entry-IsValid user target e (entry_or_new-IsValid now ip core v)) v))
    where
      Q : Option FailureOutcome × Core → Type 0
      Q r = IsValidCore now r.1

  pub record_success-IsValid :
      (core : Core) (ip : IpAddr)
      → IsValidCore now core
      → IsValidCore now (record_success P core ip now s)
  unfolding record_success
  record_success-IsValid core ip v = if_intro (IsValidCore now) (not s.enabled) v (
      if_intro (IsValidCore now) (is_whitelisted P s ip) v (elim (Option-cases (lookup ip core)) [
        | inl absent ↦ rw absent v
        | inr (e, found) ↦ rw found (
            insert-IsValid now ip (succeed_entry now e) core
              (succeed_entry-IsValid now e
                (lookup-AllValues (IsValidEntry now) ip core v.entries found))
              v)
      ]))

  pub snapshot-IsValid :
      (core : Core)
      → IsValidCore now core
      → IsValidCore now (snapshot_for_persistence P core now s).1
  unfolding snapshot_for_persistence
  snapshot-IsValid core v = record {
    keys = retain-IsMap (keep_active P now s) core v.keys;
    entries =
        retain-AllValues (IsValidEntry now) (keep_active P now s) core keep_active-IsValid
          v.entries;
  }
