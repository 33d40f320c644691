-- ===== src/Abuse/Threshold.antt =====
-- Runs of failures of one address from its first one on (`record_failure` of src/abuse.rs).
use central_ssh.Prelude.{
  ℕ, suc, ◌+◌, ◌^◌, ◌≤◌, ◌<◌, ◌≡◌, refl, ap, ◌∙◌, true, false, List, [], ◌∷◌, ◌++◌, Option, none,
  some, arith, leb, length, length-append, All, All-append, unwrap_or, if◌then◌else◌,
}
use central_ssh.Prelude.Text.{Text}
use central_ssh.Prelude.Assoc.{lookup, lookup-insert_self}
use central_ssh.Abuse.Types.{IpAddr, ip_eq_class, Platform, Settings, Entry, Core, created}
use central_ssh.Abuse.Core.{
  prune_window, prune_failures, note_failure, fail_entry, failure_count, ban_entry, delay_outcome,
  record_failure, compute_ban_duration,
}
use central_ssh.Abuse.Bans.{
  entry_of, event_of, is_watched, record_failure_watched, note_failure_ban,
}
use mathlib.Core.List.{append_assoc, append-nil}

-- All instants lie in a window of the given length.
abbrev pub Within : ℕ → ℕ → List ℕ → Type 0
Within lo w ts = All (λ t. (lo ≤ t) × (t ≤ lo + w)) ts

prune_window-Within :
    (lo w now : ℕ) (ts : List ℕ) → Within lo w ts → now ≤ lo + w → prune_window now w ts ≡ ts
unfolding prune_window
prune_window-Within lo w now [] h le = refl
prune_window-Within lo w now (t ∷ ts) h le = ground arith

-- The entry of an address that has failed at the given instants and was never banned.
record Failed (ts : List ℕ) (e : Entry) : Type 0 where
  times : e.recent_failures ≡ ts
  unbanned : e.ban_until ≡ none
  uncounted : e.ban_count ≡ 0

module _ (P : Platform) (s : Settings P) (ip : IpAddr) (user target : Option Text) where
  -- The failures of the address at the given instants, in order.
  unfoldable pub fail_at : List ℕ → Core → Core
  fail_at [] core = core
  fail_at (t ∷ ts) core = fail_at ts (record_failure P core ip user target t s).1

  module _ (lo w : ℕ) (fits : Platform.from_std P s.find_time ≡ some w) where
    note_failure-Failed :
        (ts : List ℕ) (now : ℕ) (e : Entry)
        → Within lo w ts
        → now ≤ lo + w
        → Failed ts e
        → Failed (ts ++ now ∷ []) (note_failure P s now user target e)
    unfolding note_failure prune_failures
    note_failure-Failed ts now e within le f = record {
      times = rw (fits, prune_failures, f.times, prune_window-Within lo w now ts within le) refl;
      unbanned = (note_failure_ban P s now user target e).0 ∙ f.unbanned;
      uncounted = (note_failure_ban P s now user target e).1 ∙ f.uncounted;
    }

    fail_entry-Failed :
        (ts : List ℕ) (now : ℕ) (e : Entry)
        → Within lo w ts
        → now ≤ lo + w
        → Failed ts e
        → length ts + 1 < s.max_failures
        → s.max_failures < 2 ^ 32
        → Failed (ts ++ now ∷ []) (fail_entry P s now user target e).1
    unfolding fail_entry
    fail_entry-Failed ts now e within le f few fit =
        let noted = note_failure-Failed ts now e within le f in
        let count : failure_count (note_failure P s now user target e) ≡ length ts + 1 =
          omega (arith, ap length noted.times, length-append ts (now ∷ [])) in
        let quiet : leb s.max_failures (failure_count (note_failure P s now user target e))
            ≡ false =
          ground (arith, count) in
        rw (quiet, fail_entry) noted

    noted_count :
        (ts : List ℕ) (now : ℕ) (e : Entry)
        → Within lo w ts
        → now ≤ lo + w
        → Failed ts e
        → length ts + 1 < 2 ^ 32
        → failure_count (note_failure P s now user target e) ≡ length ts + 1
    noted_count ts now e within le f fit =
        let noted = note_failure-Failed ts now e within le f in
        omega (arith, ap length noted.times, length-append ts (now ∷ []))

    fail_entry_bans :
        (ts : List ℕ) (now d : ℕ) (e : Entry)
        → Within lo w ts
        → now ≤ lo + w
        → Failed ts e
        → compute_ban_duration P s 0 ≡ some d
        → suc (length ts) ≡ s.max_failures
        → s.max_failures < 2 ^ 32
        → event_of (fail_entry P s now user target e).0
          ≡ some (record {
            kind = created;
            until = now + unwrap_or (Platform.from_std P d) 0;
            duration = d;
          })
    unfolding fail_entry ban_entry
    fail_entry_bans ts now d e within le f found full fit =
        let uncounted = (note_failure-Failed ts now e within le f).uncounted in
        ground (
          arith,
          noted_count ts now e within le f (omega arith),
          uncounted,
          ap (compute_ban_duration P s) uncounted,
        )

    fail_entry_delays :
        (ts : List ℕ) (now : ℕ) (e : Entry)
        → Within lo w ts
        → now ≤ lo + w
        → Failed ts e
        → suc (suc (length ts)) ≡ s.max_failures
        → s.max_failures < 2 ^ 32
        → (fail_entry P s now user target e).0
          ≡ some (record {
            whitelisted = false;
            delay = if s.delay_before_ban then some s.delay_time else none;
            ban_event = none;
          })
    unfolding fail_entry delay_outcome
    fail_entry_delays ts now e within le f almost fit =
        ground (arith, noted_count ts now e within le f (omega arith))

    module _ (watched : is_watched P s ip ≡ true) where
      record_failure-Failed :
          (ts : List ℕ) (now : ℕ) (core : Core)
          → Within lo w ts
          → now ≤ lo + w
          → Failed ts (entry_of core ip)
          → length ts + 1 < s.max_failures
          → s.max_failures < 2 ^ 32
          → Failed (ts ++ now ∷ []) (entry_of (record_failure P core ip user target now s).1 ip)
      record_failure-Failed ts now core within le f few fit =
          let e = entry_of core ip in
          let done = fail_entry-Failed ts now e within le f few fit in
          let step = record_failure_watched P s core ip user target now watched in
          rw (step, lookup-insert_self ip (fail_entry P s now user target e).1 core) done

      fail_at-Failed :
          (past ts : List ℕ) (core : Core)
          → Within lo w past
          → Within lo w ts
          → Failed past (entry_of core ip)
          → length past + length ts < s.max_failures
          → s.max_failures < 2 ^ 32
          → Failed (past ++ ts) (entry_of (fail_at ts core) ip)
      unfolding fail_at
      fail_at-Failed past [] core wp wt f few fit = rw append-nil f
      fail_at-Failed past (t ∷ ts) core wp wt f few fit =
          let one = record_failure-Failed past t core wp wt.0.1 f (omega arith) fit in
          let rest =
            fail_at-Failed (past ++ t ∷ []) ts (record_failure P core ip user target t s).1
              (All-append (λ u. (lo ≤ u) × (u ≤ lo + w)) past (t ∷ []) wp (wt.0, tt)) wt.1 one
              (omega (arith, length-append past (t ∷ []))) fit in
          rw append_assoc at rest

      -- The first failures of a watched address without an entry, fewer than `max_failures` of
      -- them within one window, are all remembered, and do not ban it.
      pub below_threshold :
          (ts : List ℕ) (core : Core)
          → lookup ip core ≡ none
          → Within lo w ts
          → length ts < s.max_failures
          → s.max_failures < 2 ^ 32
          → let e = entry_of (fail_at ts core) ip in
            (e.recent_failures ≡ ts) × (e.ban_until ≡ none) × (e.ban_count ≡ 0)
      below_threshold ts core absent within few fit =
          let start : Failed [] (entry_of core ip) =
            rw absent (record { times = refl; unbanned = refl; uncounted = refl }) in
          let f = fail_at-Failed [] ts core tt within start (omega arith) fit in
          (f.times, f.unbanned, f.uncounted)

      -- For a watched address without an entry before, the failure that makes `max_failures`
      -- within one window bans it for the first time, from its instant on and for the backoff time
      -- of a first ban, if that time can be computed.
      pub at_threshold_bans :
          (ts : List ℕ) (now d : ℕ) (core : Core)
          → lookup ip core ≡ none
          → Within lo w ts
          → now ≤ lo + w
          → compute_ban_duration P s 0 ≡ some d
          → suc (length ts) ≡ s.max_failures
          → s.max_failures < 2 ^ 32
          → event_of (record_failure P (fail_at ts core) ip user target now s).0
            ≡ some (record {
              kind = created;
              until = now + unwrap_or (Platform.from_std P d) 0;
              duration = d;
            })
      at_threshold_bans ts now d core absent within early found full fit =
          let e = entry_of (fail_at ts core) ip in
          let (times, unbanned, uncounted) =
            below_threshold ts core absent within (omega arith) fit in
          let f : Failed ts e = record {
            times = times;
            unbanned = unbanned;
            uncounted = uncounted;
          } in
          ground (
            arith,
            record_failure_watched P s (fail_at ts core) ip user target now watched,
            fail_entry_bans ts now d e within early f found full fit,
          )

      -- For a watched address without an entry before, the failure that makes one less than
      -- `max_failures` within one window is delayed by `delay_time` exactly if the tracker delays,
      -- and does not ban.
      pub before_threshold_delays :
          (ts : List ℕ) (now : ℕ) (core : Core)
          → lookup ip core ≡ none
          → Within lo w ts
          → now ≤ lo + w
          → suc (suc (length ts)) ≡ s.max_failures
          → s.max_failures < 2 ^ 32
          → (record_failure P (fail_at ts core) ip user target now s).0
            ≡ some (record {
              whitelisted = false;
              delay = if s.delay_before_ban then some s.delay_time else none;
              ban_event = none;
            })
      before_threshold_delays ts now core absent within early almost fit =
          let e = entry_of (fail_at ts core) ip in
          let (times, unbanned, uncounted) =
            below_threshold ts core absent within (omega arith) fit in
          let f : Failed ts e = record {
            times = times;
            unbanned = unbanned;
            uncounted = uncounted;
          } in
          ground (
            arith,
            record_failure_watched P s (fail_at ts core) ip user target now watched,
            fail_entry_delays ts now e within early f almost fit,
          )
