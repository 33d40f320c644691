-- ===== src/Auth/Example.antt =====
-- A concrete instance of the cryptographic parameters, at which theorems are applied: a hash is
-- its prefix and the password, a one-time code is the text of the secret.
use mathlib.Core.Path.{subst}
use central_ssh.Prelude.{
  ℕ, ◌+◌, ◌-◌, ◌*◌, ◌/◌, min, ◌≡◌, refl, arith, is_some, Option, true, none, some, List, [], ◌∷◌,
  ◌++◌, if◌then◌else◌, length, leb,
}
use central_ssh.Prelude.Text.{Text, codes, text_eq, text_eq_iff, starts_with}
use central_ssh.Auth.Crypto.{Crypto}
use central_ssh.Auth.Buckets.{Floats}

abbrev drop_prefix : List ℕ → Text → Text
drop_prefix [] t = t
drop_prefix (p ∷ ps) [] = []
drop_prefix (p ∷ ps) (c ∷ t) = drop_prefix ps t

abbrev read_hash : Text → Option Text
read_hash t =
    if starts_with t (codes "$argon2id$") then some (drop_prefix (codes "$argon2id$") t) else none

pub hashed :
    (salt : ℕ) (password : Text) {h : Text}
    → some (codes "$argon2id$" ++ password) ≡ some h
    → (starts_with h (codes "$argon2id$") ≡ true) × (is_some (read_hash h) ≡ true)
unfolding starts_with
hashed salt password {h} e =
    let same : codes "$argon2id$" ++ password ≡ h = ground arith in
    subst (λ t. (starts_with t (codes "$argon2id$") ≡ true) × (is_some (read_hash t) ≡ true)) same
      (refl, refl)

pub built :
    (bytes : List ℕ)
    → length bytes ≡ 32
    → is_some (if leb 4 (length bytes) then some bytes else none) ≡ true
built bytes h = ground arith

abbrev pub crypto : Crypto
crypto = record {
  constant_time_eq = text_eq;
  constant_time_eq_iff = text_eq_iff;
  argon2_params = true;
  Hash = Text;
  parse_hash = λ t.
      if starts_with t (codes "$argon2id$")
      then some (drop_prefix (codes "$argon2id$") t)
      else none;
  verify_password = λ p h. text_eq p h;
  hash_password = λ salt p. some (codes "$argon2id$" ++ p);
  Totp = List ℕ;
  secret_to_bytes = λ t. some t;
  new_totp = λ b. if leb 4 (length b) then some b else none;
  check_at = λ t now code. text_eq t code;
  new_account_totp = λ issuer account b. some account;
  encode_secret = λ b. b;
  hash_password_format = hashed;
  encode_secret_builds = built;
}

-- Numbers in thirtieths.
abbrev pub floats : Floats
floats = record {
  Float = ℕ;
  zero = 0;
  one = 30;
  add = λ a b. a + b;
  sub = λ a b. a - b;
  mul = λ a b. a * b;
  min = λ a b. min a b;
  le = leb;
  as_secs_f64 = λ n. n / 1_000_000_000;
  user_capacity = 300;
  user_refill = 1;
  ip_capacity = 900;
  ip_refill = 30;
  min_le = λ a b h. ground arith;
  sub_one_le = λ a b h k. ground arith;
  capacity_le = (refl, refl);
}
