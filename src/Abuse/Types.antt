-- ===== src/Abuse/Types.antt =====
-- The data of src/abuse.rs. Instants (`DateTime<Utc>`) are nanoseconds since chrono's earliest
-- instant and durations are nanoseconds; sums of the two are taken as exact.
use central_ssh.Prelude.{
  ℕ, ◌-◌, ◌^◌, ◌≡◌, ◌↔◌, Bool, true, false, Option, List, ◌==◌, Eq, arith, ltb, if◌then◌else◌,
}
use central_ssh.Prelude.Text.{Text, codes}
use central_ssh.Prelude.Assoc.{Map}
use central_ssh.Prelude.{some}

-- `std::net::IpAddr`, by its bits.
pub data IpAddr : Type 0 where
  v4 v6 : ℕ → IpAddr

unfoldable pub ip_eq : IpAddr → IpAddr → Bool
ip_eq (v4 a) (v4 b) = a == b
ip_eq (v4 a) (v6 b) = false
ip_eq (v6 a) (v4 b) = false
ip_eq (v6 a) (v6 b) = a == b

pub ip_eq_iff : (a b : IpAddr) → (ip_eq a b ≡ true) ↔ (a ≡ b)
unfolding ip_eq
ip_eq_iff (v4 a) (v4 b) = ground arith
ip_eq_iff (v4 a) (v6 b) = ground arith
ip_eq_iff (v6 a) (v4 b) = ground arith
ip_eq_iff (v6 a) (v6 b) = ground arith

instance abbrev pub ip_eq_class : Eq IpAddr
ip_eq_class = record { beq = ip_eq; beq_iff = ip_eq_iff }

-- An `i32`: `pos n` is n and `negsuc n` is -(n + 1).
pub data ℤ : Type 0 where
  pos negsuc : ℕ → ℤ

-- The cast `u32 as i32`.
abbrev pub as_i32 : ℕ → ℤ
as_i32 n = if ltb n (2 ^ 31) then pos n else negsuc (2 ^ 32 - n - 1)

-- What the tracker takes from `f64` and from the crates ipnet, humantime and chrono.
pub record Platform : Type 1 where
  -- `f64`; `mul_f64` is `Duration::mul_f64`, which panics (`none`) on a result out of range.
  pub Float : Type 0
  pub one : Float
  pub lt : Float → Float → Bool
  pub powi : Float → ℤ → Float
  pub mul_f64 : ℕ → Float → Option ℕ
  pub default_multiplier : Float
  -- `ipnet::IpNet`.
  pub Net : Type 0
  pub net_eq : Eq Net
  pub net_contains : Net → IpAddr → Bool
  pub net_of_ip : IpAddr → Net
  pub parse_net : Text → Option Net
  pub localhost_v4 : Net
  pub localhost_v6 : Net
  pub parse_localhost_v4 : parse_net (codes "127.0.0.1/32") ≡ some localhost_v4
  pub parse_localhost_v6 : parse_net (codes "::1/128") ≡ some localhost_v6
  -- `IpAddr::from_str` and `IpAddr::to_string`.
  pub parse_ip : Text → Option IpAddr
  pub ip_to_text : IpAddr → Text
  -- `humantime::parse_duration`, `chrono::TimeDelta::from_std`.
  pub parse_duration : Text → Option ℕ
  pub from_std : ℕ → Option ℕ

pub record Settings (P : Platform) : Type 0 where
  pub enabled : Bool
  pub max_failures : ℕ
  pub find_time : ℕ
  pub ban_time : ℕ
  pub max_ban_time : ℕ
  pub backoff_multiplier : Platform.Float P
  pub delay_before_ban : Bool
  pub delay_time : ℕ
  pub persist_state : Bool
  pub state_path : Text
  pub whitelist : List (Platform.Net P)

-- `AbuseEntry`.
pub record Entry : Type 0 where
  pub recent_failures : List ℕ
  pub total_failures : ℕ
  pub ban_until : Option ℕ
  pub ban_count : ℕ
  pub last_failure : Option ℕ
  pub last_success : Option ℕ
  pub recent_usernames : List Text
  pub recent_target_servers : List Text

-- `AbuseTrackerCore`: its one field.
abbrev pub Core : Type 0
Core = Map IpAddr Entry

-- `PersistedState`: its one field.
abbrev pub PersistedState : Type 0
PersistedState = Map Text Entry

pub data BanEventKind : Type 0 where
  created extended : BanEventKind

pub record BanEvent : Type 0 where
  pub kind : BanEventKind
  pub until : ℕ
  pub duration : ℕ

pub record PreAuthCheck : Type 0 where
  pub whitelisted : Bool
  pub had_state : Bool
  pub expired_ban : Bool
  pub banned : Bool
  pub ban_until : Option ℕ
  pub ban_duration : Option ℕ

pub record FailureOutcome : Type 0 where
  pub whitelisted : Bool
  pub delay : Option ℕ
  pub ban_event : Option BanEvent
