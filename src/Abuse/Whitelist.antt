-- ===== src/Abuse/Whitelist.antt =====
-- What the settings that pass `Fail2banConfig::effective` of src/abuse.rs guarantee.
use central_ssh.Prelude.{
  ◌≤◌, ◌<◌, ◌≡◌, ◌↔◌, refl, ap, inl, inr, Bool, false, ◌&&◌, ◌||◌, List, [], ◌∷◌, Option, none,
  some, Result, ok, err, ◌>>=◌, Result-cases, arith, any, any-append, contains, Bool-cases,
  Option-cases, if◌then◌else◌, is_empty, ◌==◌, Eq,
}
use central_ssh.Prelude.Text.{Text, lines}
use central_ssh.Error.{Error}
use mathlib.Core.Path.{subst}
use central_ssh.Abuse.Types.{Platform, Settings}
use central_ssh.Abuse.Settings.{
  Fail2banConfig, default_settings, push_new, push_all, parse_inline, parse_rows, strip_comment,
  read_whitelist_file, parse_whitelist, validate_fail2ban_settings, effective,
}

module _ (P : Platform) where
  open P use {Net, net_eq, net_of_ip, parse_net, parse_ip, localhost_v4, localhost_v6}

  -- Settings under which the tracker can work.
  pub record IsSound (s : Settings P) : Type 0 where
    pub counts : 0 < s.max_failures
    pub window : 0 < s.find_time
    pub bans : 0 < s.ban_time
    pub capped : s.ban_time ≤ s.max_ban_time
    pub grows : Platform.lt P s.backoff_multiplier (Platform.one P) ≡ false
    pub delays : (s.delay_before_ban && s.delay_time == 0) ≡ false

  validate-IsSound : (s : Settings P) → validate_fail2ban_settings P s ≡ ok tt → IsSound s
  unfolding validate_fail2ban_settings
  validate-IsSound s h = record {
    counts = ground arith;
    window = ground arith;
    bans = ground arith;
    capped = ground arith;
    grows = ground arith;
    delays = ground arith;
  }

  validate_complete : (s : Settings P) → IsSound s → validate_fail2ban_settings P s ≡ ok tt
  unfolding validate_fail2ban_settings
  validate_complete s h = ground arith

  abbrev pub has : List Net → Net → Bool
  has = contains ⦃e = net_eq⦄

  -- The set and the list of the loops have the same members.
  abbrev SameMembers : List Net × List Net → Type 0
  SameMembers (seen, whitelist) = (n : Net) → has seen n ≡ has whitelist n

  push_new-has :
      (net : Net) (acc : List Net × List Net)
      → SameMembers acc
      → SameMembers (push_new P net acc)
        × ((n : Net) → has (push_new P net acc).1 n ≡ (Eq.beq net_eq net n || has acc.1 n))
  unfolding push_new
  push_new-has net (seen, whitelist) same = elim (Bool-cases (has seen net)) [
    | inl old ↦
        rw (old, push_new)
          (same, λ n. ground (arith, net_eq.beq_iff net n, same n, same net, ap (has whitelist)))
    | inr new ↦
        rw (new, push_new)
          (
            λ n. ground (arith, same n, any-append (λ x. net_eq.beq x n) whitelist (net ∷ [])),
            λ n. ground (arith, same n, any-append (λ x. net_eq.beq x n) whitelist (net ∷ [])),
          )
  ]

  -- A configured network, as its text is parsed.
  abbrev pub names_net : Net → Text → Bool
  names_net n entry = elim (parse_net entry) [ none ↦ false | some net ↦ net_eq.beq net n ]

  parse_inline-has :
      (values : List Text) (acc acc' : List Net × List Net)
      → SameMembers acc
      → parse_inline P values acc ≡ ok acc'
      → SameMembers acc' × ((n : Net) → has acc'.1 n ≡ (any (names_net n) values || has acc.1 n))
  unfolding parse_inline
  parse_inline-has [] acc acc' same h =
      let same_acc : acc ≡ acc' = cc in
      subst (λ a. SameMembers a × ((n : Net) → has a.1 n ≡ has acc.1 n)) same_acc (same, λ n. refl)
  parse_inline-has (v ∷ vs) acc acc' same h = elim (Option-cases (parse_net v)) [
    | inl bad ↦ absurd (ground arith)
    | inr (net, parsed) ↦
        let step = push_new-has net acc same in
        let rest = parse_inline-has vs (push_new P net acc) acc' step.0 (ground arith) in
        (rest.0, λ n. ground (arith, rest.1 n, step.1 n))
  ]

  push_all-has :
      (nets : List Net) (acc : List Net × List Net)
      → SameMembers acc
      → (n : Net) → has (push_all P nets acc).1 n ≡ (has nets n || has acc.1 n)
  unfolding push_all
  push_all-has [] acc same n = refl
  push_all-has (net ∷ nets) acc same n =
      let step = push_new-has net acc same in
      ground (arith, step.1 n, push_all-has nets (push_new P net acc) step.0 n)

  -- The network of a row of the file, comments and space removed.
  abbrev pub row_is_net : Net → Text → Bool
  row_is_net n row =
      if is_empty (strip_comment row) then false else elim (parse_ip (strip_comment row)) [
        | none ↦ false
        | some ip ↦ net_eq.beq (net_of_ip ip) n
      ]

  parse_rows-has :
      (rows : List Text) (nets : List Net)
      → parse_rows P rows ≡ ok nets
      → (n : Net) → has nets n ≡ any (row_is_net n) rows
  unfolding parse_rows
  parse_rows-has [] nets h n = ground arith
  parse_rows-has (row ∷ rows) nets h n = elim (Bool-cases (is_empty (strip_comment row))) [
    | inl blank ↦ ground (arith, parse_rows-has rows nets (ground arith) n)
    | inr text ↦ elim (Result-cases (parse_rows P rows)) [
      | inl (tail, parsed) ↦ ground (arith, parse_rows-has rows tail parsed n)
      | inr (e, failed) ↦ elim (Option-cases (parse_ip (strip_comment row))) [
        | inl bad ↦ absurd (ground arith)
        | inr (ip, good) ↦ absurd (ground arith)
      ]
    ]
  ]

  -- What a whitelist file whitelists.
  abbrev pub file_has : Net → Option (Result Error Text) → Bool
  file_has n (some (ok text)) = any (row_is_net n) (lines text)
  file_has n (some (err e)) = false
  file_has n none = false

  -- The networks of a whitelist that is accepted are the two of the local host, those of the
  -- inline entries and those of the rows of the file, and no others.
  pub parse_whitelist-has :
      (values : List Text) (file : Option (Result Error Text)) (nets : List Net) (n : Net)
      → parse_whitelist P values file ≡ ok nets
      → has nets n ≡ (
          net_eq.beq localhost_v4 n
          || net_eq.beq localhost_v6 n
          || any (names_net n) values
          || file_has n file)
  unfolding parse_whitelist read_whitelist_file default_settings
  parse_whitelist-has values file nets n h =
      elim (Result-cases (parse_inline P values (local, local))) [
        | inl (acc, parsed) ↦
            let inline = parse_inline-has values (local, local) acc (λ m. refl) parsed in
            from_file file acc (inline.1 n) inline.0 (rw parsed at h)
        | inr (e, failed) ↦ absurd (ground arith)
      ]
    where
      local : List Net
      local = localhost_v4 ∷ localhost_v6 ∷ []

      from_file :
          (f : Option (Result Error Text)) (acc : List Net × List Net)
          → has acc.1 n ≡ (any (names_net n) values || has local n)
          → SameMembers acc
          → elim f [
            | none ↦ ok acc.1
            | some content ↦ read_whitelist_file P content >>= λ ns. ok (push_all P ns acc).1
          ]
            ≡ ok nets
          → has nets n ≡ (
              net_eq.beq localhost_v4 n
              || net_eq.beq localhost_v6 n
              || any (names_net n) values
              || file_has n f)
      from_file none acc inline same e = ground (arith, inline)
      from_file (some (err x)) acc inline same e = absurd (ground arith)
      from_file (some (ok text)) acc inline same e =
          elim (Result-cases (parse_rows P (lines text))) [
            | inl (ns, rows) ↦
                ground
                  (arith, inline, parse_rows-has (lines text) ns rows n, push_all-has ns acc same n)
            | inr (x, bad) ↦ absurd (ground arith)
          ]

  -- Settings are accepted exactly when they are sound.
  pub validate_iff : (s : Settings P) → (validate_fail2ban_settings P s ≡ ok tt) ↔ IsSound s
  validate_iff s = (validate-IsSound s, validate_complete s)

  effective_parts :
      (config : Fail2banConfig P) (file : Option (Result Error Text)) (s : Settings P)
      → effective P config file ≡ ok s
      → (validate_fail2ban_settings P s ≡ ok tt)
        × (parse_whitelist P config.inline_whitelist file ≡ ok s.whitelist)
  unfolding effective
  effective_parts config file s h = ground arith

  -- Settings that come from a configuration are sound, and whitelist exactly the local host, the
  -- networks of the inline entries and those of the file.
  pub effective-IsSound :
      (config : Fail2banConfig P) (file : Option (Result Error Text)) (s : Settings P) (n : Net)
      → effective P config file ≡ ok s
      → IsSound s
        × (has s.whitelist n ≡ (
            net_eq.beq localhost_v4 n
            || net_eq.beq localhost_v6 n
            || any (names_net n) config.inline_whitelist
            || file_has n file))
  effective-IsSound config file s n h =
      let parts = effective_parts config file s h in
      (
        validate-IsSound s parts.0,
        parse_whitelist-has config.inline_whitelist file s.whitelist n parts.1,
      )
