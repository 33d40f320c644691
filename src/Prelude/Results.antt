-- ===== src/Prelude/Results.antt =====
-- Rust's `Result`, with `?` as a bind.
use mathlib.Core.Path.{◌≡◌, refl}
use mathlib.Core.Bool.{Bool, true, false}
use mathlib.Core.Option.{Option, none, some}
use mathlib.Core.Logic.{◌⊎◌, inl, inr}
use central_ssh.Prelude.Tests.{if◌then◌else◌}

pub data Result {ℓ} (E : Type 0) (A : Type ℓ) : Type ℓ where
  ok : A → Result E A
  err : E → Result E A

infixl 5 ◌>>=◌ ◌>>◌
abbrev pub ◌>>=◌ {ℓ κ} :
    {E : Type 0} {A : Type ℓ} {B : Type κ} → Result E A → (A → Result E B) → Result E B
ok a >>= f = f a
err e >>= f = err e

abbrev pub ◌>>◌ {ℓ} : {E : Type 0} {B : Type ℓ} → Result E (Unit {0}) → Result E B → Result E B
m >> k = m >>= λ _. k

-- `if test { return Err(e) }`.
abbrev pub fail_if : {E : Type 0} → Bool → E → Result E (Unit {0})
fail_if true e = err e
fail_if false e = ok tt

-- `Option::ok_or_else`.
abbrev pub ok_or {ℓ} : {E : Type 0} {A : Type ℓ} → Option A → E → Result E A
ok_or none e = err e
ok_or (some a) e = ok a

-- `Result::is_ok`.
abbrev pub is_ok {ℓ} : {E : Type 0} {A : Type ℓ} → Result E A → Bool
is_ok (ok _) = true
is_ok (err _) = false

-- `Result::map`.
abbrev pub map_ok {ℓ κ} : {E : Type 0} {A : Type ℓ} {B : Type κ} → (A → B) → Result E A → Result E B
map_ok f (ok a) = ok (f a)
map_ok f (err e) = err e

pub Result-cases {ℓ} :
    {E : Type 0} {A : Type ℓ} (r : Result E A) → ((a : A) × (r ≡ ok a)) ⊎ ((e : E) × (r ≡ err e))
Result-cases (ok a) = inl (a, refl)
Result-cases (err e) = inr (e, refl)

-- A property of what a match or a test returns holds if it holds in each branch.
module _ {ℓ κ} {R : Type ℓ} (Q : R → Type κ) where
  pub by_result {μ} :
      {E : Type 0} {A : Type μ} (r : Result E A) {f : E → R} {g : A → R}
      → ((e : E) → r ≡ err e → Q (f e))
      → ((a : A) → r ≡ ok a → Q (g a))
      → Q (elim r [ err e ↦ f e | ok a ↦ g a ])
  by_result (err e) hf hg = hf e refl
  by_result (ok a) hf hg = hg a refl

  pub by_option {μ} :
      {A : Type μ} (o : Option A) {f : R} {g : A → R}
      → (o ≡ none → Q f)
      → ((a : A) → o ≡ some a → Q (g a))
      → Q (elim o [ none ↦ f | some a ↦ g a ])
  by_option none hf hg = hf refl
  by_option (some a) hf hg = hg a refl

  pub by_test : (b : Bool) {f g : R} → (b ≡ true → Q f) → (b ≡ false → Q g) → Q (if b then f else g)
  by_test true hf hg = hf refl
  by_test false hf hg = hg refl
