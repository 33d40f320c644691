-- ===== src/Abuse/Tracker.antt =====
-- `AbuseTracker` of src/abuse.rs: the table behind its lock, with the settings, the state file and
-- the audit events of failed loads and saves. Each operation reads the clock up to twice; what the
-- file system does is an argument.
use central_ssh.Prelude.{
  ℕ, not, ◌||◌, List, [], ◌∷◌, ◌++◌, Option, none, some, Result, ok, err, ◌>>=◌, if◌then◌else◌,
  is_some, is_empty, ltb,
}
use central_ssh.Prelude.Text.{Text}
use central_ssh.Prelude.Assoc.{insert}
use central_ssh.Error.{Error, io, serde}
use central_ssh.Abuse.Types.{
  IpAddr, ip_eq_class, Platform, Settings, Entry, Core, PersistedState, PreAuthCheck,
  FailureOutcome,
}
use central_ssh.Abuse.Core.{
  is_expired, prune_failures, check_ip, record_failure, record_success, snapshot_for_persistence,
}
use central_ssh.Abuse.Settings.{Fail2banConfig, effective}

-- What `fs::read` and `serde_json` make of the state file.
pub data StateFile : Type 0 where
  missing unreadable malformed : StateFile
  holds : PersistedState → StateFile

-- How `write_state_file` ends: before the rename, after it, or well.
pub data Write : Type 0 where
  failed renamed written : Write

pub data TrackerEvent : Type 0 where
  state_load state_save : TrackerEvent

pub record Tracker (P : Platform) : Type 0 where
  pub settings : Settings P
  pub core : Core
  pub file : StateFile
  pub audit : List TrackerEvent

module _ (P : Platform) where
  -- What the loop of `read_state_file` keeps of an entry.
  unfoldable pub restore_entry : ℕ → Settings P → Entry → Option Entry
  unfolding prune_failures
  restore_entry now s entry =
      let pruned = prune_failures P entry now s.find_time in
      let entry' : Entry =
        if is_expired now pruned.ban_until then record pruned { ban_until = none } else pruned in
      if not (is_empty entry'.recent_failures)
        || is_some entry'.ban_until
        || ltb 0 entry'.ban_count
        || is_some entry'.last_failure
        || is_some entry'.last_success
      then some entry'
      else none

  -- The loop of `read_state_file`.
  unfoldable pub restore : ℕ → Settings P → PersistedState → Core → Core
  unfolding restore_entry
  restore now s [] entries = entries
  restore now s ((raw, entry) ∷ rest) entries = restore now s rest (elim (Platform.parse_ip P raw) [
    | none ↦ entries
    | some ip ↦ elim (restore_entry now s entry) [
      | none ↦ entries
      | some entry' ↦ insert ip entry' entries
    ]
  ])

  unfoldable pub read_state_file : StateFile → ℕ → Settings P → Result Error Core
  unfolding restore
  read_state_file missing now s = ok []
  read_state_file unreadable now s = err io
  read_state_file malformed now s = err serde
  read_state_file (holds persisted) now s = ok (restore now s persisted [])

  unfoldable pub load_persisted_state : ℕ → Settings P → Tracker P → Tracker P
  load_persisted_state now s t =
      if not s.persist_state then t else elim (read_state_file t.file now s) [
        | ok entries ↦ record t { core = entries }
        | err _ ↦ record t { audit = t.audit ++ state_load ∷ [] }
      ]

  abbrev file_after : Write → PersistedState → StateFile → StateFile
  file_after failed snapshot old = old
  file_after renamed snapshot old = holds snapshot
  file_after written snapshot old = holds snapshot

  abbrev audit_after : Write → List TrackerEvent → List TrackerEvent
  audit_after failed log = log ++ state_save ∷ []
  audit_after renamed log = log ++ state_save ∷ []
  audit_after written log = log

  unfoldable pub persist_if_enabled : ℕ → Write → Tracker P → Tracker P
  persist_if_enabled now write t =
      if not t.settings.persist_state
      then t
      else let (snapshot, core) = snapshot_for_persistence P t.core now t.settings in
        record t {
          core = core;
          file = file_after write snapshot t.file;
          audit = audit_after write t.audit;
        }

  -- `AbuseTracker::check_ip`; `now'` is when the snapshot is taken.
  unfoldable pub tracker_check_ip : IpAddr → ℕ → ℕ → Write → Tracker P → PreAuthCheck × Tracker P
  tracker_check_ip ip now now' write t =
      let (check, core) = check_ip P t.core ip now t.settings in
      let t' : Tracker P = record t { core = core } in
      (check, if check.expired_ban || check.banned then persist_if_enabled now' write t' else t')

  -- `AbuseTracker::record_failure`. A panic ends it before the table is saved.
  unfoldable pub tracker_record_failure :
      IpAddr
      → Option Text
      → Option Text
      → ℕ
      → ℕ
      → Write
      → Tracker P
      → Option FailureOutcome × Tracker P
  tracker_record_failure ip username target now now' write t =
      let (outcome, core) = record_failure P t.core ip username target now t.settings in
      let t' : Tracker P = record t { core = core } in
      (outcome, if is_some outcome then persist_if_enabled now' write t' else t')

  unfoldable pub tracker_record_success : IpAddr → ℕ → ℕ → Write → Tracker P → Tracker P
  tracker_record_success ip now now' write t =
      persist_if_enabled now' write (record t { core = record_success P t.core ip now t.settings })

  -- `AbuseTracker::from_config`; `whitelist` is what reading `whitelist_path` gives.
  unfoldable pub from_config :
      Fail2banConfig P
      → Option (Result Error Text)
      → ℕ
      → StateFile
      → List TrackerEvent
      → Result Error (Tracker P)
  from_config config whitelist now file audit = effective P config whitelist >>= λ settings. ok (
      load_persisted_state now settings
        (record { settings = settings; core = []; file = file; audit = audit }))

  -- `AbuseTracker::reload_from_config`: an error leaves the tracker as it is.
  unfoldable pub reload_from_config :
      Fail2banConfig P
      → Option (Result Error Text)
      → ℕ
      → Tracker P
      → Result Error (Unit {0}) × Tracker P
  reload_from_config config whitelist now t = elim (effective P config whitelist) [
    | ok settings ↦ (ok tt, load_persisted_state now settings (record t { settings = settings }))
    | err e ↦ (err e, t)
  ]
