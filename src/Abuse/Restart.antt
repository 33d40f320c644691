-- ===== src/Abuse/Restart.antt =====
-- Saving and restoring the table (`snapshot_for_persistence`, `read_state_file` of src/abuse.rs):
-- a ban outlives a restart.
use central_ssh.Prelude.{
  ℕ, ◌<◌, ◌≡◌, refl, ap, ◌∙◌, inl, inr, [], ◌∷◌, none, some, Bool-cases, Option-cases, arith,
  and_then, or_else,
}
use mathlib.Core.Path.{subst}
use central_ssh.Prelude.Text.{text_eq, text_eq_iff, text_eq_class}
use central_ssh.Prelude.Assoc.{
  lookup, insert, retain, IsMap, lookup-insert, insert-IsMap, lookup-retain, retain-IsMap,
}
use central_ssh.Abuse.Types.{
  IpAddr, ip_eq, ip_eq_iff, ip_eq_class, Platform, Settings, Entry, Core, PersistedState,
}
use central_ssh.Abuse.Core.{
  is_active, prune_failures, keep_active, collect, snapshot_for_persistence,
}
use central_ssh.Abuse.Tracker.{restore_entry, restore}
use central_ssh.Abuse.Bans.{entry_of, ban_of}

module _ (P : Platform)
    (printed : (ip : IpAddr) → Platform.parse_ip P (Platform.ip_to_text P ip) ≡ some ip) where
  open P use {parse_ip, ip_to_text}

  text_eq_to_text : (a b : IpAddr) → text_eq (ip_to_text a) (ip_to_text b) ≡ ip_eq a b
  text_eq_to_text a b = elim (Bool-cases (ip_eq a b)) [
    | inl same ↦
        ground
          (arith, ap ip_to_text ((ip_eq_iff a b).0 same), text_eq_iff (ip_to_text a) (ip_to_text b))
    | inr other ↦ elim (Bool-cases (text_eq (ip_to_text a) (ip_to_text b))) [
      | inl clash ↦
          let e = ap parse_ip ((text_eq_iff (ip_to_text a) (ip_to_text b)).0 clash) in
          ground (arith, e, printed a, printed b, ip_eq_iff a b)
      | inr differ ↦ rw (differ, other)
    ]
  ]

  -- The keys of a saved table are printed addresses.
  abbrev IsPrinted : PersistedState → Type 0
  IsPrinted [] = Unit
  IsPrinted ((raw, e) ∷ p) = ((ip : IpAddr) × (raw ≡ ip_to_text ip)) × IsPrinted p

  insert-IsPrinted :
      (ip : IpAddr) (e : Entry) (p : PersistedState)
      → IsPrinted p
      → IsPrinted (insert (ip_to_text ip) e p)
  unfolding insert
  insert-IsPrinted ip e [] h = ((ip, refl), tt)
  insert-IsPrinted ip e ((raw, f) ∷ p) h = elim (Bool-cases (text_eq raw (ip_to_text ip))) [
    | inl same ↦ rw (same, insert) ((ip, refl), h.1)
    | inr other ↦ rw (other, insert) (h.0, insert-IsPrinted ip e p h.1)
  ]

  collect-IsPrinted :
      (core : Core) (p : PersistedState) → IsPrinted p → IsPrinted (collect P core p)
  unfolding collect
  collect-IsPrinted [] p h = h
  collect-IsPrinted ((ip, e) ∷ core) p h =
      collect-IsPrinted core (insert (ip_to_text ip) e p) (insert-IsPrinted ip e p h)

  collect-IsMap : (core : Core) (p : PersistedState) → IsMap p → IsMap (collect P core p)
  unfolding collect
  collect-IsMap [] p h = h
  collect-IsMap ((ip, e) ∷ core) p h =
      collect-IsMap core (insert (ip_to_text ip) e p) (insert-IsMap (ip_to_text ip) e p h)

  lookup-collect :
      (ip : IpAddr) (core : Core) (p : PersistedState)
      → IsMap core
      → lookup (ip_to_text ip) (collect P core p)
        ≡ or_else (lookup ip core) (lookup (ip_to_text ip) p)
  unfolding collect lookup
  lookup-collect ip [] p h = refl
  lookup-collect ip ((other, e) ∷ core) p h = ground (
    arith,
    lookup-collect ip core (insert (ip_to_text other) e p) h.1,
    lookup-insert (ip_to_text other) (ip_to_text ip) e p,
    text_eq_to_text other ip,
    ip_eq_iff other ip,
    h.0,
  )

  lookup-restore :
      (now : ℕ) (s : Settings P) (ip : IpAddr) (p : PersistedState) (core : Core)
      → IsMap p
      → IsPrinted p
      → lookup ip (restore P now s p core)
        ≡ or_else (and_then (lookup (ip_to_text ip) p) (restore_entry P now s)) (lookup ip core)
  unfolding restore lookup
  lookup-restore now s ip [] core m h = refl
  lookup-restore now s ip ((raw, e) ∷ p) core m ((other, named), h) =
      let read : parse_ip raw ≡ some other = ap parse_ip named ∙ printed other in
      let same_text : text_eq raw (ip_to_text ip) ≡ ip_eq other ip =
        ap (λ t. text_eq t (ip_to_text ip)) named ∙ text_eq_to_text other ip in
      let absent : lookup (ip_to_text other) p ≡ none = subst (λ t. lookup t p ≡ none) named m.0 in
      elim (Option-cases (restore_entry P now s e)) [
        | inl gone ↦ ground (
          arith,
          lookup-restore now s ip p core m.1 h,
          read,
          same_text,
          absent,
          ip_eq_iff other ip,
        )
        | inr (e', kept) ↦ ground (
          arith,
          lookup-restore now s ip p (insert other e' core) m.1 h,
          lookup-insert other ip e' core,
          read,
          same_text,
          absent,
          ip_eq_iff other ip,
        )
      ]

  -- In a table without an address twice whose addresses parse as they were printed, what is
  -- restored from the saved table is, for every address, what the snapshot kept of its entry and
  -- the restart keeps of that.
  restore-snapshot :
      (core : Core) (ip : IpAddr) (saved read : ℕ) (s s' : Settings P)
      → IsMap core
      → lookup ip (restore P read s' (snapshot_for_persistence P core saved s).0 [])
        ≡ and_then (and_then (lookup ip core) (keep_active P saved s)) (restore_entry P read s')
  unfolding snapshot_for_persistence lookup
  restore-snapshot core ip saved read s s' m =
      let kept = retain (keep_active P saved s) core in
      ground (
        arith,
        lookup-restore read s' ip (collect P kept []) [] (collect-IsMap kept [] tt)
            (collect-IsPrinted kept [] tt),
        lookup-collect ip kept [] (retain-IsMap (keep_active P saved s) core m),
        lookup-retain (keep_active P saved s) ip core m,
      )

  prune_keeps :
      (e : Entry) (now w : ℕ)
      → let e' = prune_failures P e now w in
        (e'.ban_until ≡ e.ban_until)
        × (e'.ban_count ≡ e.ban_count)
        × (e'.last_failure ≡ e.last_failure)
        × (e'.last_success ≡ e.last_success)
  unfolding prune_failures
  prune_keeps e now w = ground arith

  -- In a table without an address twice whose addresses parse as they were printed, a ban that is
  -- in force when the table is saved and still when it is read back is in force after the restart,
  -- to the same end and with the same count, whatever the settings.
  pub ban_survives_restart :
      (core : Core) (ip : IpAddr) (saved read until : ℕ) (s s' : Settings P)
      → IsMap core
      → ban_of core ip ≡ some until
      → saved < until
      → read < until
      → let core' = restore P read s' (snapshot_for_persistence P core saved s).0 [] in
        (ban_of core' ip ≡ some until)
        × ((entry_of core' ip).ban_count ≡ (entry_of core ip).ban_count)
  unfolding restore_entry keep_active is_active
  ban_survives_restart core ip saved read until s s' m banned before after =
      elim (Option-cases (lookup ip core)) [
        | inl absent ↦ absurd (ground arith)
        | inr (e, found) ↦
            let pruned = prune_failures P e saved s.find_time in
            ground (
              arith,
              restore-snapshot core ip saved read s s' m,
              prune_keeps e saved s.find_time,
              prune_keeps pruned read s'.find_time,
            )
      ]
