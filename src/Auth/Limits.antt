-- ===== src/Auth/Limits.antt =====
-- The rate limits of src/auth/mod.rs: their tables stay bounded, and a login spends a token of its
-- address and one of its address and name.
use central_ssh.Prelude.{
  ℕ, suc, ◌-◌, ◌≤◌, ◌≡◌, ◌≢◌, refl, inl, inr, true, false, not, ◌&&◌, Option, some, [], ◌∷◌, ok,
  leb, if◌then◌else◌, length, unwrap_or, Eq, arith, Bool-cases, Option-cases, Result-cases,
  if_intro,
}
use central_ssh.Prelude.Text.{Text}
use central_ssh.Prelude.Assoc.{
  Map, lookup, insert, contains_key, retain, IsMap, AllValues, insert-IsMap, retain-IsMap,
  insert-AllValues, retain-AllValues, lookup-AllValues, lookup-insert_self, lookup-insert_ne,
}
use central_ssh.Abuse.Types.{IpAddr, ip_eq_class}
use central_ssh.Auth.Buckets.{
  Floats, RateLimitKey, key_eq_class, to_ascii_lowercase, max_entries, Readings, TokenBucket,
  new_bucket, refill, consume_one, keep_fresh, prune_buckets, take_token, Limits,
  consume_ip_rate_limit_token, consume_rate_limit_token,
}

length-retain-le {ℓ κ} :
    {K : Type ℓ} {V : Type κ} (f : V → Option V) (m : Map K V) → length (retain f m) ≤ length m
unfolding retain
length-retain-le f [] = omega arith
length-retain-le f ((k, v) ∷ m) = elim (Option-cases (f v)) [
  | inl gone ↦ ground (arith, length-retain-le f m, gone)
  | inr (w, kept) ↦ ground (arith, length-retain-le f m, kept)
]

length-insert {ℓ κ} :
    {K : Type ℓ} {V : Type κ} ⦃e : Eq K⦄ (k : K) (v : V) (m : Map K V)
    → length (insert k v m) ≡ (if contains_key k m then length m else suc (length m))
unfolding insert contains_key lookup
length-insert k v [] = refl
length-insert ⦃e⦄ k v ((j, w) ∷ m) = ground (arith, length-insert k v m)

length-insert-le {ℓ κ} :
    {K : Type ℓ} {V : Type κ} ⦃e : Eq K⦄ (k : K) (v : V) (m : Map K V) (bound : ℕ)
    → length m ≤ bound
    → (not (contains_key k m) && leb bound (length m)) ≡ false
    → length (insert k v m) ≤ bound
length-insert-le k v m bound le h = ground (arith, length-insert k v m)

module _ (F : Floats) where
  open F use {Float, one, le, sub}

  -- The bucket has the capacity of its table, and not more tokens than that.
  abbrev pub IsBucket : Float → TokenBucket F → Type 0
  IsBucket capacity b = (b.capacity ≡ capacity) × (le b.tokens capacity ≡ true)

  -- A table without a key twice, of at most 8192 buckets.
  pub record IsTable {K : Type 0} ⦃e : Eq K⦄ (capacity : Float) (m : Map K (TokenBucket F))
      : Type 0 where
    pub keys : IsMap m
    pub few : length m ≤ max_entries
    pub buckets : AllValues (IsBucket capacity) m

  refill-IsBucket :
      (capacity : Float) (r : Readings) (b : TokenBucket F)
      → le capacity capacity ≡ true
      → IsBucket capacity b
      → IsBucket capacity (refill F r b)
  unfolding refill
  refill-IsBucket capacity r b fine h =
      if_intro (IsBucket capacity) (le (F.as_secs_f64 (r.elapsed - b.last_refill)) F.zero) h (
        h.0,
        ground (
          arith,
          F.min_le
              (F.add b.tokens
                (F.mul (F.as_secs_f64 (r.elapsed - b.last_refill)) b.refill_rate_per_sec))
              capacity,
          h.0,
        ),
      )

  consume_one-IsBucket :
      (capacity : Float) (r : Readings) (b : TokenBucket F)
      → le capacity capacity ≡ true
      → IsBucket capacity b
      → IsBucket capacity (consume_one F r b).1
  unfolding consume_one
  consume_one-IsBucket capacity r b fine h =
      let full = refill-IsBucket capacity r b fine h in
      elim (Bool-cases (le one (refill F r b).tokens)) [
        | inl enough ↦
            ground (arith, enough, full, F.sub_one_le (refill F r b).tokens capacity enough full.1)
        | inr short ↦ ground (arith, short, full)
      ]

  keep_fresh-IsBucket :
      (capacity : Float) (now : ℕ) (b c : TokenBucket F)
      → IsBucket capacity b
      → keep_fresh F now b ≡ some c
      → IsBucket capacity c
  unfolding keep_fresh
  keep_fresh-IsBucket capacity now b c h e = ground arith

  module _ {K : Type 0} ⦃e : Eq K⦄ (capacity rate : Float)
      (fine : le capacity capacity ≡ true) where
    prune_buckets-IsTable :
        (now : ℕ) (m : Map K (TokenBucket F))
        → IsTable capacity m
        → IsTable capacity (prune_buckets F now m)
    unfolding prune_buckets
    prune_buckets-IsTable now m v = record {
      keys = retain-IsMap (keep_fresh F now) m v.keys;
      few = omega (arith, length-retain-le (keep_fresh F now) m, v.few);
      buckets =
          retain-AllValues (IsBucket capacity) (keep_fresh F now) m
            (keep_fresh-IsBucket capacity now) v.buckets;
    }

    unwrap_or-IsBucket :
        (r : Readings) (key : K) (m : Map K (TokenBucket F))
        → IsTable capacity m
        → IsBucket capacity (unwrap_or (lookup key m) (new_bucket F capacity rate r.created))
    unfolding new_bucket
    unwrap_or-IsBucket r key m v = elim (Option-cases (lookup key m)) [
      | inl absent ↦ rw absent (refl, fine)
      | inr (b, found) ↦ rw found (lookup-AllValues (IsBucket capacity) key m v.buckets found)
    ]

    pub take_token-IsTable :
        (r : Readings) (key : K) (m : Map K (TokenBucket F))
        → IsTable capacity m
        → IsTable capacity (take_token F capacity rate r key m).1
    unfolding take_token
    take_token-IsTable r key m v =
        let pruned = prune_buckets F r.now m in
        let p : IsTable capacity pruned = prune_buckets-IsTable r.now m v in
        let bucket = unwrap_or (lookup key pruned) (new_bucket F capacity rate r.created) in
        elim (Bool-cases (not (contains_key key pruned) && leb max_entries (length pruned))) [
          | inl full ↦ rw full p
          | inr room ↦ rw room (record {
            keys = insert-IsMap key (consume_one F r bucket).1 pruned p.keys;
            few = length-insert-le key (consume_one F r bucket).1 pruned max_entries p.few room;
            buckets =
                insert-AllValues (IsBucket capacity) key (consume_one F r bucket).1 pruned
                  (consume_one-IsBucket capacity r bucket fine (unwrap_or-IsBucket r key pruned p))
                  p.buckets;
          })
        ]

    -- What a token that is taken says of the bucket.
    take_token_ok :
        (r : Readings) (key : K) (m : Map K (TokenBucket F))
        → (take_token F capacity rate r key m).0 ≡ ok tt
        → let bucket =
            unwrap_or
              (lookup key (prune_buckets F r.now m))
              (new_bucket F capacity rate r.created) in
          (le one (refill F r bucket).tokens ≡ true)
          × (lookup key (take_token F capacity rate r key m).1
              ≡ some (record (refill F r bucket) { tokens = sub (refill F r bucket).tokens one }))
    unfolding take_token consume_one
    take_token_ok r key m h =
        let pruned = prune_buckets F r.now m in
        let bucket = unwrap_or (lookup key pruned) (new_bucket F capacity rate r.created) in
        let spent : TokenBucket F = record (refill F r bucket) {
          tokens = sub (refill F r bucket).tokens one;
        } in
        elim (Bool-cases (not (contains_key key pruned) && leb max_entries (length pruned))) [
          | inl full ↦ absurd (ground (arith, full))
          | inr room ↦ elim (Bool-cases (le one (refill F r bucket).tokens)) [
            | inr short ↦ absurd (ground (arith, room, short))
            | inl enough ↦ (enough, rw (room, enough) (lookup-insert_self key spent pruned))
          ]
        ]

    -- The bucket of another key is only pruned.
    pub take_token_other :
        (r : Readings) (key other : K) (m : Map K (TokenBucket F))
        → other ≢ key
        → lookup other (take_token F capacity rate r key m).1
          ≡ lookup other (prune_buckets F r.now m)
    unfolding take_token
    take_token_other r key other m ne =
        let pruned = prune_buckets F r.now m in
        let bucket = unwrap_or (lookup key pruned) (new_bucket F capacity rate r.created) in
        elim (Bool-cases (not (contains_key key pruned) && leb max_entries (length pruned))) [
          | inl full ↦ rw full refl
          | inr room ↦ rw room (lookup-insert_ne key other (consume_one F r bucket).1 pruned ne)
        ]

  pub record IsValidLimits (limits : Limits F) : Type 0 where
    pub users : IsTable F.user_capacity limits.rate_limits
    pub addresses : IsTable F.ip_capacity limits.ip_rate_limits

  -- If both tables have at most 8192 buckets, no key twice, and no bucket with more tokens than
  -- its capacity, then this is so after a login attempt.
  pub consume_rate_limit_token-IsValidLimits :
      (ip : IpAddr) (username : Text) (r r' : Readings) (limits : Limits F)
      → IsValidLimits limits
      → IsValidLimits (consume_rate_limit_token F ip username r r' limits).1
  unfolding consume_rate_limit_token consume_ip_rate_limit_token
  consume_rate_limit_token-IsValidLimits ip username r r' limits v =
      let addresses =
        take_token-IsTable F.ip_capacity F.ip_refill F.capacity_le.1 r ip limits.ip_rate_limits
          v.addresses in
      elim (Result-cases (take_token F F.ip_capacity F.ip_refill r ip limits.ip_rate_limits).0) [
        | inr (e, refused) ↦
            rw (refused, consume_rate_limit_token, consume_ip_rate_limit_token)
              (record { users = v.users; addresses = addresses })
        | inl (a, allowed) ↦
            rw (allowed, consume_rate_limit_token, consume_ip_rate_limit_token)
              (record {
                users =
                    take_token-IsTable F.user_capacity F.user_refill F.capacity_le.0 r'
                      (record { ip = ip; username = to_ascii_lowercase username })
                      limits.rate_limits v.users;
                addresses = addresses;
              })
      ]

  -- An attempt that is let through spent a token of the bucket of its address, and one of the
  -- bucket of its address and lowercase name: each, pruned and refilled, held at least one.
  pub consume_rate_limit_token_spends :
      (ip : IpAddr) (username : Text) (r r' : Readings) (limits : Limits F)
      → (consume_rate_limit_token F ip username r r' limits).0 ≡ ok tt
      → let limits' = (consume_rate_limit_token F ip username r r' limits).1 in
        let key : RateLimitKey = record { ip = ip; username = to_ascii_lowercase username } in
        let of_ip = refill F r (
          unwrap_or
            (lookup ip (prune_buckets F r.now limits.ip_rate_limits))
            (new_bucket F F.ip_capacity F.ip_refill r.created)) in
        let of_user = refill F r' (
          unwrap_or
            (lookup key (prune_buckets F r'.now limits.rate_limits))
            (new_bucket F F.user_capacity F.user_refill r'.created)) in
        (le one of_ip.tokens ≡ true)
        × (lookup ip limits'.ip_rate_limits ≡ some (record of_ip { tokens = sub of_ip.tokens one }))
        × (le one of_user.tokens ≡ true)
        × (lookup key limits'.rate_limits
            ≡ some (record of_user { tokens = sub of_user.tokens one }))
  unfolding consume_rate_limit_token consume_ip_rate_limit_token
  consume_rate_limit_token_spends ip username r r' limits h =
      elim (Result-cases (take_token F F.ip_capacity F.ip_refill r ip limits.ip_rate_limits).0) [
        | inr (e, refused) ↦ absurd (ground (arith, refused))
        | inl (a, allowed) ↦
            let key : RateLimitKey = record { ip = ip; username = to_ascii_lowercase username } in
            let (enough, spent) =
              take_token_ok F.ip_capacity F.ip_refill F.capacity_le.1 r ip limits.ip_rate_limits
                allowed in
            let (enough', spent') =
              take_token_ok F.user_capacity F.user_refill F.capacity_le.0 r' key limits.rate_limits
                (ground (arith, allowed)) in
            (
              enough,
              rw (allowed, consume_rate_limit_token, consume_ip_rate_limit_token) spent,
              enough',
              rw (allowed, consume_rate_limit_token, consume_ip_rate_limit_token) spent',
            )
      ]

  -- An attempt from one address leaves the address bucket of every other one as pruning leaves
  -- it.
  pub consume_rate_limit_token_others :
      (ip other : IpAddr) (username : Text) (r r' : Readings) (limits : Limits F)
      → other ≢ ip
      → lookup other (consume_rate_limit_token F ip username r r' limits).1.ip_rate_limits
        ≡ lookup other (prune_buckets F r.now limits.ip_rate_limits)
  unfolding consume_rate_limit_token consume_ip_rate_limit_token
  consume_rate_limit_token_others ip other username r r' limits ne =
      let kept =
        take_token_other F.ip_capacity F.ip_refill F.capacity_le.1 r ip other limits.ip_rate_limits
          ne in
      elim (Result-cases (take_token F F.ip_capacity F.ip_refill r ip limits.ip_rate_limits).0) [
        | inr (e, refused) ↦
            rw (refused, consume_rate_limit_token, consume_ip_rate_limit_token) kept
        | inl (a, allowed) ↦
            rw (allowed, consume_rate_limit_token, consume_ip_rate_limit_token) kept
      ]
