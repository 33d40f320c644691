-- ===== src/Abuse/Example.antt =====
-- A concrete platform, settings and tables at which the theorems about src/abuse.rs are applied.
use central_ssh.Prelude.{
  ℕ, ◌*◌, ◌^◌, ◌≡◌, refl, true, Option, none, some, [], ◌∷◌, ltb, ◌==◌, if◌then◌else◌, length,
}
use central_ssh.Prelude.Text.{Text, codes, text_eq}
use central_ssh.Abuse.Types.{
  IpAddr, v4, v6, ip_eq, ip_eq_class, ℤ, pos, negsuc, Platform, Settings, Entry, Core,
}
use central_ssh.Abuse.Core.{new_entry}

abbrev pub localhost : IpAddr
localhost = v4 2130706433

abbrev pub power : ℕ → ℤ → ℕ
power f (pos n) = f ^ n
power f (negsuc n) = 0

-- Whole factors; the product must be below 2 ^ 64 seconds.
abbrev pub scale : ℕ → ℕ → Option ℕ
scale d f = if ltb (d * f) (2 ^ 64 * 1_000_000_000) then some (d * f) else none

unfoldable pub read_net : Text → Option IpAddr
unfolding text_eq
read_net t =
    if text_eq t (codes "127.0.0.1/32")
    then some localhost
    else if text_eq t (codes "::1/128")
    then some (v6 1)
    else none

abbrev pub print_ip : IpAddr → Text
print_ip (v4 n) = 4 ∷ n ∷ []
print_ip (v6 n) = 6 ∷ n ∷ []

abbrev pub read_ip : Text → Option IpAddr
read_ip [] = none
read_ip (a ∷ []) = none
read_ip (a ∷ n ∷ []) = if a == 4 then some (v4 n) else if a == 6 then some (v6 n) else none
read_ip (a ∷ n ∷ b ∷ t) = none

pub read_net_v4 : read_net (codes "127.0.0.1/32") ≡ some localhost
unfolding read_net
read_net_v4 = refl

pub read_net_v6 : read_net (codes "::1/128") ≡ some (v6 1)
unfolding read_net
read_net_v6 = refl

-- Networks of one address, whole backoff factors.
abbrev pub platform : Platform
platform = record {
  Float = ℕ;
  one = 1;
  lt = ltb;
  powi = power;
  mul_f64 = scale;
  default_multiplier = 2;
  Net = IpAddr;
  net_eq = ip_eq_class;
  net_contains = ip_eq;
  net_of_ip = λ ip. ip;
  parse_net = read_net;
  localhost_v4 = localhost;
  localhost_v6 = v6 1;
  parse_localhost_v4 = read_net_v4;
  parse_localhost_v6 = read_net_v6;
  parse_ip = read_ip;
  ip_to_text = print_ip;
  parse_duration = λ t. some (length t);
  from_std = λ d. if ltb d (2 ^ 63 * 1_000_000) then some d else none;
}

pub read_print :
    (ip : IpAddr) → Platform.parse_ip platform (Platform.ip_to_text platform ip) ≡ some ip
read_print (v4 n) = refl
read_print (v6 n) = refl

abbrev pub settings : Settings platform
settings = record {
  enabled = true;
  max_failures = 3;
  find_time = 60;
  ban_time = 600;
  max_ban_time = 2000;
  backoff_multiplier = 2;
  delay_before_ban = true;
  delay_time = 2;
  persist_state = true;
  state_path = [];
  whitelist = localhost ∷ [];
}

abbrev pub client : IpAddr
client = v4 7

abbrev pub other_client : IpAddr
other_client = v4 8

-- An address that has failed twice, and one that is banned until 700.
abbrev pub failing : Entry
failing = record new_entry {
  recent_failures = 10 ∷ 20 ∷ [];
  total_failures = 2;
  last_failure = some 20;
}

abbrev pub banned : Entry
banned = record failing { ban_until = some 700; ban_count = 1 }

abbrev pub table : Core
table = (client, failing) ∷ (other_client, banned) ∷ []

-- An entry whose 100 bans make the backoff factor too large.
abbrev pub exhausted : Core
exhausted = (client, record failing { ban_count = 100 }) ∷ []
