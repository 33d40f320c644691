-- ===== src/Abuse/Window.antt =====
-- The sliding window and the recent names of an entry (`prune_failures` and `push_recent_value`
-- of src/abuse.rs).
use central_ssh.Prelude.{
  ℕ, ◌+◌, ◌≤◌, ◌≡◌, refl, ◌≢◌, inl, inr, Bool, false, List, [], ◌∷◌, ◌++◌, Option, none, some, leb,
  ltb, All, All-append, keep, length, length-append, contains, Bool-cases, is_empty, arith,
}
use central_ssh.Prelude.Text.{Text, text_eq_iff, text_eq_class}
use central_ssh.Abuse.Core.{prune_window, push_recent_value, drop_front}

-- Oldest first.
abbrev pub IsSorted : List ℕ → Type 0
IsSorted [] = Unit
IsSorted (t ∷ ts) = All (λ u. t ≤ u) ts × IsSorted ts

abbrev pub in_window : ℕ → ℕ → ℕ → Bool
in_window now window t = leb now (t + window)

keep-All :
    (now window t : ℕ) (ts : List ℕ)
    → now ≤ t + window
    → All (λ u. t ≤ u) ts
    → keep (in_window now window) ts ≡ ts
keep-All now window t [] h hs = refl
keep-All now window t (u ∷ us) h hs = ground (arith, keep-All now window t us h hs.1)

-- On failures noted in order, dropping from the front until the first one within the window
-- leaves exactly the failures within the window.
pub prune_window-eq-keep :
    (now window : ℕ) (ts : List ℕ)
    → IsSorted ts
    → prune_window now window ts ≡ keep (in_window now window) ts
unfolding prune_window
prune_window-eq-keep now window [] h = refl
prune_window-eq-keep now window (t ∷ ts) h =
    ground (arith, prune_window-eq-keep now window ts h.1, keep-All now window t ts)

pub prune_window-All :
    (Q : ℕ → Type 0) (now window : ℕ) (ts : List ℕ) → All Q ts → All Q (prune_window now window ts)
unfolding prune_window
prune_window-All Q now window [] h = h
prune_window-All Q now window (t ∷ ts) h = elim (Bool-cases (ltb (t + window) now)) [
  | inl old ↦ rw (old, prune_window) (prune_window-All Q now window ts h.1)
  | inr young ↦ rw (young, prune_window) h
]

pub prune_window-IsSorted :
    (now window : ℕ) (ts : List ℕ) → IsSorted ts → IsSorted (prune_window now window ts)
unfolding prune_window
prune_window-IsSorted now window [] h = h
prune_window-IsSorted now window (t ∷ ts) h = elim (Bool-cases (ltb (t + window) now)) [
  | inl old ↦ rw (old, prune_window) (prune_window-IsSorted now window ts h.1)
  | inr young ↦ rw (young, prune_window) h
]

pub length-prune_window-le :
    (now window : ℕ) (ts : List ℕ) → length (prune_window now window ts) ≤ length ts
unfolding prune_window
length-prune_window-le now window [] = omega arith
length-prune_window-le now window (t ∷ ts) = ground (arith, length-prune_window-le now window ts)

pub append-IsSorted :
    (ts : List ℕ) (now : ℕ) → IsSorted ts → All (λ t. t ≤ now) ts → IsSorted (ts ++ now ∷ [])
append-IsSorted [] now h hs = (tt, tt)
append-IsSorted (t ∷ ts) now h hs =
    (All-append (λ u. t ≤ u) ts (now ∷ []) h.0 (hs.0, tt), append-IsSorted ts now h.1 hs.1)

pub All-le_mono : (a b : ℕ) (ts : List ℕ) → a ≤ b → All (λ t. t ≤ a) ts → All (λ t. t ≤ b) ts
All-le_mono a b [] le h = tt
All-le_mono a b (t ∷ ts) le h = (omega arith, All-le_mono a b ts le h.1)

-- No text twice.
abbrev pub IsDistinct : List Text → Type 0
IsDistinct [] = Unit
IsDistinct (v ∷ vs) = (contains vs v ≡ false) × IsDistinct vs

-- At most five texts, none twice, none empty.
pub record IsRecent (values : List Text) : Type 0 where
  pub few : length values ≤ 5
  pub distinct : IsDistinct values
  pub named : All (λ v. is_empty v ≡ false) values

contains-append :
    (vs : List Text) (v x : Text)
    → contains vs x ≡ false
    → v ≢ x
    → contains (vs ++ v ∷ []) x ≡ false
contains-append [] v x h ne = ground (arith, text_eq_iff v x)
contains-append (u ∷ us) v x h ne = ground (arith, contains-append us v x)

append-IsDistinct :
    (vs : List Text) (v : Text) → IsDistinct vs → contains vs v ≡ false → IsDistinct (vs ++ v ∷ [])
append-IsDistinct [] v h fresh = (refl, tt)
append-IsDistinct (u ∷ us) v h fresh = (
  contains-append us v u h.0 (λ e. ground (arith, text_eq_iff u v)),
  append-IsDistinct us v h.1 (ground arith),
)

drop_front-IsRecent : (vs : List Text) → IsRecent vs → IsRecent (drop_front vs)
drop_front-IsRecent [] h = h
drop_front-IsRecent (v ∷ vs) h = record {
  few = omega arith;
  distinct = h.distinct.1;
  named = h.named.1;
}

contains-drop_front :
    (vs : List Text) (v : Text) → contains vs v ≡ false → contains (drop_front vs) v ≡ false
contains-drop_front [] v h = h
contains-drop_front (u ∷ us) v h = ground arith

length-drop_front : (vs : List Text) → length vs ≤ 5 → length (drop_front vs) ≤ 4
length-drop_front [] h = omega arith
length-drop_front (v ∷ vs) h = omega arith

append-IsRecent :
    (vs : List Text) (v : Text)
    → IsRecent vs
    → length vs ≤ 4
    → contains vs v ≡ false
    → is_empty v ≡ false
    → IsRecent (vs ++ v ∷ [])
append-IsRecent vs v h few fresh named = record {
  few = omega (arith, length-append vs (v ∷ []));
  distinct = append-IsDistinct vs v h.distinct fresh;
  named = All-append (λ u. is_empty u ≡ false) vs (v ∷ []) h.named (named, tt);
}

-- The recent names stay at most five, without repetition and without an empty one.
pub push_recent_value-IsRecent :
    (vs : List Text) (o : Option Text) → IsRecent vs → IsRecent (push_recent_value vs o)
unfolding push_recent_value
push_recent_value-IsRecent vs none h = h
push_recent_value-IsRecent vs (some v) h = elim (Bool-cases (is_empty v)) [
  | inl e ↦ rw e h
  | inr named ↦ elim (Bool-cases (contains vs v)) [
    | inl known ↦ rw (named, known) h
    | inr fresh ↦ elim (Bool-cases (leb 5 (length vs))) [
      | inl full ↦
          rw (named, fresh, full)
            (append-IsRecent (drop_front vs) v (drop_front-IsRecent vs h)
              (length-drop_front vs h.few) (contains-drop_front vs v fresh) named)
      | inr room ↦ rw (named, fresh, room) (append-IsRecent vs v h (ground arith) fresh named)
    ]
  ]
]
