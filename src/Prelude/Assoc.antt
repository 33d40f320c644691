-- ===== src/Prelude/Assoc.antt =====
-- A `HashMap` as an association list, in the order in which the table is iterated.
use mathlib.Core.Path.{◌≡◌, refl, subst}
use mathlib.Core.Bool.{Bool}
use mathlib.Core.Logic.{◌≢◌, inl, inr}
use mathlib.Core.Option.{Option, none, some}
use mathlib.Core.List.{List, [], ◌∷◌}
use native.Mathlib.Omega.{arith}
use central_ssh.Prelude.Tests.{Eq, if◌then◌else◌, is_some, and_then, Bool-cases, Option-cases}

abbrev pub Map {ℓ κ} : Type ℓ → Type κ → Type (ℓ ⊔ κ)
Map K V = List (K × V)

-- `HashMap::retain`, whose closure may change the value that it keeps.
unfoldable pub retain {ℓ κ} : {K : Type ℓ} {V : Type κ} → (V → Option V) → Map K V → Map K V
retain f [] = []
retain f ((k, v) ∷ m) = elim (f v) [ none ↦ retain f m | some w ↦ (k, w) ∷ retain f m ]

module _ {ℓ κ} {K : Type ℓ} {V : Type κ} ⦃e : Eq K⦄ where
  unfoldable pub lookup : K → Map K V → Option V
  lookup k [] = none
  lookup k ((j, v) ∷ m) = if e.beq j k then some v else lookup k m

  unfoldable pub contains_key : K → Map K V → Bool
  contains_key k m = is_some (lookup k m)

  unfoldable pub insert : K → V → Map K V → Map K V
  insert k v [] = (k, v) ∷ []
  insert k v ((j, w) ∷ m) = if e.beq j k then (k, v) ∷ m else (j, w) ∷ insert k v m

  pub lookup-insert :
      (k j : K) (v : V) (m : Map K V)
      → lookup j (insert k v m) ≡ (if e.beq k j then some v else lookup j m)
  unfolding lookup insert
  lookup-insert k j v [] = refl
  lookup-insert k j v ((i, w) ∷ m) =
      ground (arith, e.beq_iff k j, e.beq_iff i k, e.beq_iff i j, lookup-insert k j v m)

  pub lookup-insert_self : (k : K) (v : V) (m : Map K V) → lookup k (insert k v m) ≡ some v
  lookup-insert_self k v m = ground (arith, lookup-insert k k v m, e.beq_iff k k)

  pub lookup-insert_ne :
      (k j : K) (v : V) (m : Map K V) → j ≢ k → lookup j (insert k v m) ≡ lookup j m
  lookup-insert_ne k j v m h = ground (arith, lookup-insert k j v m, e.beq_iff k j)

  -- No key twice.
  abbrev pub IsMap : Map K V → Type κ
  IsMap [] = Unit
  IsMap ((k, v) ∷ m) = (lookup k m ≡ none) × IsMap m

  pub insert-IsMap : (k : K) (v : V) (m : Map K V) → IsMap m → IsMap (insert k v m)
  unfolding lookup insert
  insert-IsMap k v [] h = (refl, tt)
  insert-IsMap k v ((j, w) ∷ m) h = elim (Bool-cases (e.beq j k)) [
    | inl same ↦ rw (same, insert) (ground (arith, e.beq_iff j k))
    | inr other ↦
        rw (other, insert)
          (
            ground (arith, lookup-insert k j v m, e.beq_iff j k, e.beq_iff k j, h),
            insert-IsMap k v m h.1,
          )
  ]

  pub lookup-retain :
      (f : V → Option V) (k : K) (m : Map K V)
      → IsMap m
      → lookup k (retain f m) ≡ and_then (lookup k m) f
  unfolding lookup retain
  lookup-retain f k [] h = refl
  lookup-retain f k ((j, v) ∷ m) h = ground (arith, e.beq_iff j k, lookup-retain f k m h.1)

  pub retain-IsMap : (f : V → Option V) (m : Map K V) → IsMap m → IsMap (retain f m)
  unfolding retain
  retain-IsMap f [] h = tt
  retain-IsMap f ((j, v) ∷ m) h = ground (arith, lookup-retain f j m h.1, retain-IsMap f m h.1)

  -- A predicate that holds of every value.
  abbrev pub AllValues {μ} : (V → Type μ) → Map K V → Type μ
  AllValues P [] = Unit
  AllValues P ((k, v) ∷ m) = P v × AllValues P m

  pub lookup-AllValues {μ} :
      (P : V → Type μ) (k : K) (m : Map K V) {v : V} → AllValues P m → lookup k m ≡ some v → P v
  unfolding lookup
  lookup-AllValues P k [] hs h = absurd (cc)
  lookup-AllValues P k ((j, w) ∷ m) {v} hs h = elim (Bool-cases (e.beq j k)) [
    | inl same ↦ let found : w ≡ v = ground arith in subst P found hs.0
    | inr other ↦ lookup-AllValues P k m hs.1 (rw (other, lookup) at h)
  ]

  pub insert-AllValues {μ} :
      (P : V → Type μ) (k : K) (v : V) (m : Map K V)
      → P v
      → AllValues P m
      → AllValues P (insert k v m)
  unfolding insert
  insert-AllValues P k v [] p hs = (p, tt)
  insert-AllValues P k v ((j, w) ∷ m) p hs = elim (Bool-cases (e.beq j k)) [
    | inl same ↦ rw (same, insert) (p, hs.1)
    | inr other ↦ rw (other, insert) (hs.0, insert-AllValues P k v m p hs.1)
  ]

  pub retain-AllValues {μ} :
      (P : V → Type μ) (f : V → Option V) (m : Map K V)
      → ((v w : V) → P v → f v ≡ some w → P w)
      → AllValues P m
      → AllValues P (retain f m)
  unfolding retain
  retain-AllValues P f [] keeps hs = tt
  retain-AllValues P f ((j, v) ∷ m) keeps hs = elim (Option-cases (f v)) [
    | inl gone ↦ rw (gone, retain) (retain-AllValues P f m keeps hs.1)
    | inr (w, kept) ↦ rw (kept, retain) (keeps v w hs.0 kept, retain-AllValues P f m keeps hs.1)
  ]
