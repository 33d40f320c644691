-- ===== src/Abuse/Runs.antt =====
-- Sequences of tracker operations (the calls that src/abuse.rs makes under its lock), at instants
-- that do not go back, under settings that a reload may change in between.
use central_ssh.Prelude.{ℕ, ◌≤◌, [], Option}
use central_ssh.Prelude.Text.{Text}
use central_ssh.Abuse.Types.{IpAddr, Platform, Settings, Core}
use central_ssh.Abuse.Core.{check_ip, record_failure, record_success, snapshot_for_persistence}
use central_ssh.Abuse.Invariant.{
  IsValidCore, IsValidCore-later, check_ip-IsValid, record_failure-IsValid, record_success-IsValid,
  snapshot-IsValid,
}

pub data Operation : Type 0 where
  check success : IpAddr → Operation
  failure : IpAddr → Option Text → Option Text → Operation
  persist : Operation

module _ (P : Platform) where
  -- The table after one operation.
  unfoldable pub perform : Operation → ℕ → Settings P → Core → Core
  perform (Operation.check ip) now s core = (check_ip P core ip now s).1
  perform (Operation.success ip) now s core = record_success P core ip now s
  perform (Operation.failure ip user target) now s core =
      (record_failure P core ip user target now s).1
  perform Operation.persist now s core = (snapshot_for_persistence P core now s).1

  -- The tables that the tracker can have at an instant if its clock never steps back.
  pub data Reach : ℕ → Core → Type 0 where
    start : (now : ℕ) → Reach now []
    next :
        {before : ℕ} {core : Core} (op : Operation) (now : ℕ) (s : Settings P)
        → Reach before core
        → before ≤ now
        → Reach now (perform op now s core)

  perform-IsValid :
      (op : Operation) (now : ℕ) (s : Settings P) (core : Core)
      → IsValidCore now core
      → IsValidCore now (perform op now s core)
  unfolding perform
  perform-IsValid (Operation.check ip) now s core v = check_ip-IsValid P s now core ip v
  perform-IsValid (Operation.success ip) now s core v = record_success-IsValid P s now core ip v
  perform-IsValid (Operation.failure ip user target) now s core v =
      record_failure-IsValid P s now core ip user target v
  perform-IsValid Operation.persist now s core v = snapshot-IsValid P s now core v

  -- Every table that a run of checks, failures, successes and saves reaches from the empty table is
  -- valid at the instant of its last step, whatever the settings of each step, if no step has an
  -- instant before that of the step behind it: a clock that steps back is outside the runs, and so
  -- is a table that a restart reads back.
  pub Reach-IsValid : {now : ℕ} {core : Core} → Reach now core → IsValidCore now core
  Reach-IsValid (start now) = record { keys = tt; entries = tt }
  Reach-IsValid (next {before} {core} op now s r le) =
      perform-IsValid op now s core (IsValidCore-later before now core le (Reach-IsValid r))
