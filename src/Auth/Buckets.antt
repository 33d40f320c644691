-- ===== src/Auth/Buckets.antt =====
-- The rate limits of `AuthEngine` (src/auth/mod.rs). The floating point numbers are a parameter; an
-- instant is a number of nanoseconds, and each reading of the clock is an argument.
use central_ssh.Prelude.{
  ℕ, ◌-◌, ◌≡◌, ◌↔◌, Bool, true, false, not, ◌&&◌, Option, none, some, Result, ok, err, leb,
  if◌then◌else◌, map, length, unwrap_or, Eq, arith, ◌+◌,
}
use central_ssh.Prelude.Text.{Text, text_eq, text_eq_iff}
use central_ssh.Prelude.Assoc.{Map, lookup, insert, contains_key, retain}
use central_ssh.Error.{Error, rate_limit_exceeded}
use central_ssh.Abuse.Types.{IpAddr, ip_eq, ip_eq_iff, ip_eq_class}

-- `f64`, with the constants of the source. `as_secs_f64` is that of a duration in nanoseconds; the
-- laws hold of all numbers but NaN.
pub record Floats : Type 1 where
  pub Float : Type 0
  pub zero : Float
  pub one : Float
  pub add : Float → Float → Float
  pub sub : Float → Float → Float
  pub mul : Float → Float → Float
  pub min : Float → Float → Float
  pub le : Float → Float → Bool
  pub as_secs_f64 : ℕ → Float
  -- 10.0, 1.0 / 30.0, 30.0 and 1.0.
  pub user_capacity : Float
  pub user_refill : Float
  pub ip_capacity : Float
  pub ip_refill : Float
  pub min_le : (a b : Float) → le b b ≡ true → le (min a b) b ≡ true
  pub sub_one_le : (a b : Float) → le one a ≡ true → le a b ≡ true → le (sub a one) b ≡ true
  pub capacity_le : (le user_capacity user_capacity ≡ true) × (le ip_capacity ip_capacity ≡ true)

pub record RateLimitKey : Type 0 where
  pub ip : IpAddr
  pub username : Text

unfoldable pub key_eq : RateLimitKey → RateLimitKey → Bool
key_eq j k = ip_eq j.ip k.ip && text_eq j.username k.username

pub key_eq_iff : (j k : RateLimitKey) → (key_eq j k ≡ true) ↔ (j ≡ k)
unfolding key_eq
key_eq_iff j k = ground (arith, ip_eq_iff j.ip k.ip, text_eq_iff j.username k.username)

instance abbrev pub key_eq_class : Eq RateLimitKey
key_eq_class = record { beq = key_eq; beq_iff = key_eq_iff }

-- `str::to_ascii_lowercase`.
unfoldable pub to_ascii_lowercase : Text → Text
to_ascii_lowercase name = map (λ c. if leb b'A' c && leb c b'Z' then c + 32 else c) name

-- `RATE_LIMIT_MAX_ENTRIES`, and `RATE_LIMIT_IDLE_TTL` in nanoseconds.
abbrev pub max_entries : ℕ
max_entries = 8192

abbrev pub idle_ttl : ℕ
idle_ttl = 1_800_000_000_000

-- What the clock reads in one call: before the table is pruned, when a bucket is made, and twice
-- when it is refilled.
pub record Readings : Type 0 where
  pub now : ℕ
  pub created : ℕ
  pub elapsed : ℕ
  pub refilled : ℕ

module _ (F : Floats) where
  open F use {Float, zero, one, add, sub, mul, min, le}

  pub record TokenBucket : Type 0 where
    pub capacity : Float
    pub tokens : Float
    pub refill_rate_per_sec : Float
    pub last_refill : ℕ

  -- `TokenBucket::new`.
  unfoldable pub new_bucket : Float → Float → ℕ → TokenBucket
  new_bucket capacity rate now = record {
    capacity = capacity;
    tokens = capacity;
    refill_rate_per_sec = rate;
    last_refill = now;
  }

  unfoldable pub refill : Readings → TokenBucket → TokenBucket
  refill r bucket =
      let elapsed = F.as_secs_f64 (r.elapsed - bucket.last_refill) in
      if le elapsed zero then bucket else record bucket {
        tokens = min (add bucket.tokens (mul elapsed bucket.refill_rate_per_sec)) bucket.capacity;
        last_refill = r.refilled;
      }

  unfoldable pub consume_one : Readings → TokenBucket → Bool × TokenBucket
  unfolding refill
  consume_one r bucket =
      let full : TokenBucket = refill r bucket in
      if le one full.tokens
      then (true, record full { tokens = sub full.tokens one })
      else (false, full)

  -- What `prune_buckets` keeps.
  unfoldable pub keep_fresh : ℕ → TokenBucket → Option TokenBucket
  keep_fresh now bucket = if leb (now - bucket.last_refill) idle_ttl then some bucket else none

  unfoldable pub prune_buckets {ℓ} : {K : Type ℓ} → ℕ → Map K TokenBucket → Map K TokenBucket
  unfolding keep_fresh
  prune_buckets now buckets = retain (keep_fresh now) buckets

  -- The part that both limits share, on the table of one of them.
  unfoldable pub take_token {ℓ} :
      {K : Type ℓ} ⦃e : Eq K⦄
      → Float
      → Float
      → Readings
      → K
      → Map K TokenBucket
      → Result Error (Unit {0}) × Map K TokenBucket
  unfolding prune_buckets consume_one new_bucket
  take_token capacity rate r key buckets =
      let pruned = prune_buckets r.now buckets in
      if not (contains_key key pruned) && leb max_entries (length pruned)
      then (err rate_limit_exceeded, pruned)
      else let (taken, bucket) =
          consume_one r (unwrap_or (lookup key pruned) (new_bucket capacity rate r.created)) in
        (if taken then ok tt else err rate_limit_exceeded, insert key bucket pruned)

  -- The two tables of `AuthEngine`.
  pub record Limits : Type 0 where
    pub rate_limits : Map RateLimitKey TokenBucket
    pub ip_rate_limits : Map IpAddr TokenBucket

  unfoldable pub consume_ip_rate_limit_token :
      IpAddr → Readings → Limits → Result Error (Unit {0}) × Limits
  unfolding take_token
  consume_ip_rate_limit_token ip r limits =
      let (result, buckets) = take_token F.ip_capacity F.ip_refill r ip limits.ip_rate_limits in
      (result, record limits { ip_rate_limits = buckets })

  unfoldable pub consume_rate_limit_token :
      IpAddr → Text → Readings → Readings → Limits → Result Error (Unit {0}) × Limits
  unfolding consume_ip_rate_limit_token to_ascii_lowercase
  consume_rate_limit_token ip username r r' limits =
      let (allowed, limits') = consume_ip_rate_limit_token ip r limits in
      elim allowed [
        | err e ↦ (err e, limits')
        | ok _ ↦
            let key : RateLimitKey = record { ip = ip; username = to_ascii_lowercase username } in
            let (result, buckets) =
              take_token F.user_capacity F.user_refill r' key limits'.rate_limits in
            (result, record limits' { rate_limits = buckets })
      ]
