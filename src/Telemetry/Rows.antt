-- ===== src/Telemetry/Rows.antt =====
-- Rows in the order of their ids: what a query for the ids of a range finds.
use ai_model_gateway.Base.{
  ℕ, zero, suc, ◌+◌, ◌≤◌, ◌<◌, ◌≡◌, refl, sym, ◌∙◌, arith, String, true, false, ◌&&◌, List, [], ◌∷◌,
  ◌++◌, str_eq, ltb, leb, if◌then◌else◌, take, keep, length, count_if, inl, inr, Bool-cases,
}
use mathlib.Core.Path.{subst}
use ai_model_gateway.Telemetry.{LoggedEvent}
use ai_model_gateway.Telemetry.Projector.{max_id}

abbrev pub IsOrdered : ℕ → List LoggedEvent → Type 0
IsOrdered lo [] = Unit
IsOrdered lo (r ∷ rs) = (lo < r.id) × IsOrdered r.id rs

abbrev pub below : ℕ → List LoggedEvent → List LoggedEvent
below c = keep (λ r. leb r.id c)

abbrev pub above : ℕ → List LoggedEvent → List LoggedEvent
above c = keep (λ r. ltb c r.id)

abbrev pub window : ℕ → ℕ → List LoggedEvent → List LoggedEvent
window a b = keep (λ r. ltb a r.id && leb r.id b)

-- the rows of a window that lie below a checkpoint
abbrev pub known : ℕ → ℕ → ℕ → List LoggedEvent → List LoggedEvent
known a b c = keep (λ r. (ltb a r.id && leb r.id b) && leb r.id c)

-- how many rows have an event id
abbrev pub times : String → List LoggedEvent → ℕ
times s = count_if (λ r. str_eq s r.event_id)

pub max_id-ge : (a : ℕ) (rs : List LoggedEvent) → IsOrdered a rs → a ≤ max_id a rs
unfolding max_id
max_id-ge a [] h = omega arith
max_id-ge a (r ∷ rs) h = omega (arith, max_id-ge r.id rs h.1)

IsOrdered-le : (a b : ℕ) (rs : List LoggedEvent) → b ≤ a → IsOrdered a rs → IsOrdered b rs
IsOrdered-le a b [] h o = tt
IsOrdered-le a b (r ∷ rs) h o = (omega arith, o.1)

pub IsOrdered-take : (n a : ℕ) (rs : List LoggedEvent) → IsOrdered a rs → IsOrdered a (take n rs)
IsOrdered-take zero a rs o = tt
IsOrdered-take (suc n) a [] o = tt
IsOrdered-take (suc n) a (r ∷ rs) o = (o.0, IsOrdered-take n r.id rs o.1)

below-nil : (c lo : ℕ) (rs : List LoggedEvent) → c ≤ lo → IsOrdered lo rs → below c rs ≡ []
below-nil c lo [] h o = refl
below-nil c lo (r ∷ rs) h o = ground (arith, below-nil c r.id rs)

above-all : (c lo : ℕ) (rs : List LoggedEvent) → c ≤ lo → IsOrdered lo rs → above c rs ≡ rs
above-all c lo [] h o = refl
above-all c lo (r ∷ rs) h o = ground (arith, above-all c r.id rs)

pub IsOrdered-above :
    (c lo : ℕ) (rs : List LoggedEvent) → IsOrdered lo rs → IsOrdered c (above c rs)
IsOrdered-above c lo [] o = tt
IsOrdered-above c lo (r ∷ rs) o = elim (Bool-cases (ltb c r.id)) [
  | inl e ↦ rw (above, keep, e, above-all c r.id rs (ground arith) o.1) (ground arith, o.1)
  | inr e ↦ rw (above, keep, e) (IsOrdered-above c r.id rs o.1)
]

window-nil : (a b lo : ℕ) (rs : List LoggedEvent) → b ≤ lo → IsOrdered lo rs → window a b rs ≡ []
window-nil a b lo [] h o = refl
window-nil a b lo (r ∷ rs) h o = ground (arith, window-nil a b r.id rs)

take-window_all :
    (n a lo : ℕ) (rs : List LoggedEvent)
    → a ≤ lo
    → IsOrdered lo rs
    → take n rs ≡ window a (max_id lo (take n rs)) rs
unfolding max_id
take-window_all zero a lo rs h o = rw (window-nil a lo lo rs (omega arith) o)
take-window_all (suc n) a lo [] h o = refl
take-window_all (suc n) a lo (r ∷ rs) h o =
    ground (
      arith,
      take-window_all n a r.id rs,
      max_id-ge r.id (take n rs) (IsOrdered-take n r.id rs o.1),
    )

above-hit :
    (a : ℕ) (r : LoggedEvent) (rs : List LoggedEvent)
    → ltb a r.id ≡ true
    → IsOrdered r.id rs
    → above a (r ∷ rs) ≡ r ∷ rs
above-hit a r rs e o = ground (arith, above-all a r.id rs (ground arith) o)

above-miss :
    (a : ℕ) (r : LoggedEvent) (rs : List LoggedEvent)
    → ltb a r.id ≡ false
    → above a (r ∷ rs) ≡ above a rs
above-miss a r rs e = ground arith

window-miss :
    (a m : ℕ) (r : LoggedEvent) (rs : List LoggedEvent)
    → ltb a r.id ≡ false
    → window a m (r ∷ rs) ≡ window a m rs
window-miss a m r rs e = ground arith

abbrev TakesWindow : ℕ → ℕ → List LoggedEvent → List LoggedEvent → Type 0
TakesWindow n a rs found = take n found ≡ window a (max_id a (take n found)) rs

-- The first rows above an id are those of a window.
pub take-window :
    (n a lo : ℕ) (rs : List LoggedEvent)
    → IsOrdered lo rs
    → take n (above a rs) ≡ window a (max_id a (take n (above a rs))) rs
take-window zero a lo [] o = refl
take-window (suc n) a lo [] o = refl
take-window n a lo (r ∷ rs) o = elim (Bool-cases (ltb a r.id)) [
  | inl e ↦
      subst (TakesWindow n a (r ∷ rs)) (sym (above-hit a r rs e o.1))
        (take-window_all n a a (r ∷ rs) (omega arith) (ground arith, o.1))
  | inr e ↦
      subst (TakesWindow n a (r ∷ rs)) (sym (above-miss a r rs e))
        (take-window n a r.id rs o.1 ∙ sym (window-miss a _ r rs e))
]

-- What is below the later of two ids.
pub below-max :
    (c m lo : ℕ) (rs : List LoggedEvent)
    → IsOrdered lo rs
    → below (if ltb c m then m else c) rs ≡ below c rs ++ window c m rs
below-max c m lo [] o = refl
below-max c m lo (r ∷ rs) o = elim (Bool-cases (leb r.id c)) [
  | inl e ↦ ground (arith, below-max c m r.id rs o.1)
  | inr e ↦ ground (arith, below-max c m r.id rs o.1, below-nil c r.id rs (ground arith) o.1)
]

known-nil : (a m c lo : ℕ) (rs : List LoggedEvent) → c ≤ lo → IsOrdered lo rs → known a m c rs ≡ []
known-nil a m c lo [] h o = refl
known-nil a m c lo (r ∷ rs) h o =
    let beyond : leb r.id c ≡ false = ground arith in
    ground (arith, known-nil a m c r.id rs, Bool-cases (ltb a r.id && leb r.id m))

pub window-split :
    (a c m lo : ℕ) (rs : List LoggedEvent)
    → a ≤ c
    → IsOrdered lo rs
    → window a m rs ≡ known a m c rs ++ window c m rs
window-split a c m lo [] h o = refl
window-split a c m lo (r ∷ rs) h o = elim (Bool-cases (leb r.id c)) [
  | inl e ↦ ground (arith, window-split a c m r.id rs h o.1)
  | inr e ↦
      let early : ltb a r.id ≡ true = ground arith in
      ground (arith, window-split a c m r.id rs h o.1, known-nil a m c r.id rs (ground arith) o.1)
]

pub times-parts :
    (s : String) (c m : ℕ) (rs : List LoggedEvent)
    → times s (below c rs) + times s (window c m rs) ≤ times s rs
times-parts s c m [] = omega arith
times-parts s c m (r ∷ rs) = ground (arith, times-parts s c m rs)

pub times-below-le :
    (s : String) (c : ℕ) (rs : List LoggedEvent) → times s (below c rs) ≤ times s rs
times-below-le s c [] = omega arith
times-below-le s c (r ∷ rs) = ground (arith, times-below-le s c rs)

pub IsOrdered-append :
    (lo : ℕ) (rs : List LoggedEvent) (r : LoggedEvent)
    → IsOrdered lo rs
    → max_id lo rs < r.id
    → IsOrdered lo (rs ++ r ∷ [])
unfolding max_id
IsOrdered-append lo [] r o h = (h, tt)
IsOrdered-append lo (x ∷ rs) r o h = (o.0, IsOrdered-append x.id rs r o.1 h)

pub max_id-append :
    (lo : ℕ) (rs : List LoggedEvent) (r : LoggedEvent) → max_id lo (rs ++ r ∷ []) ≡ r.id
unfolding max_id
max_id-append lo [] r = refl
max_id-append lo (x ∷ rs) r = max_id-append x.id rs r

-- rows in order whose last id is that before them
pub nil_of_max_id : (a : ℕ) (rs : List LoggedEvent) → IsOrdered a rs → max_id a rs ≡ a → rs ≡ []
unfolding max_id
nil_of_max_id a [] o h = refl
nil_of_max_id a (r ∷ rs) o h = absurd (omega (arith, max_id-ge r.id rs o.1, o.0))

pub length-above :
    (a m : ℕ) (rs : List LoggedEvent)
    → a ≤ m
    → length (above a rs) ≡ length (window a m rs) + length (above m rs)
length-above a m [] h = omega arith
length-above a m (r ∷ rs) h = ground (arith, length-above a m rs h)

pub below_of_above : (c : ℕ) (rs : List LoggedEvent) → above c rs ≡ [] → below c rs ≡ rs
below_of_above c [] h = refl
below_of_above c (r ∷ rs) h = ground (arith, below_of_above c rs)

pub below-hit :
    (c : ℕ) (r : LoggedEvent) (rs : List LoggedEvent)
    → leb r.id c ≡ true
    → below c (r ∷ rs) ≡ r ∷ below c rs
below-hit c r rs e = ground arith

pub below-miss :
    (c : ℕ) (r : LoggedEvent) (rs : List LoggedEvent)
    → leb r.id c ≡ false
    → below c (r ∷ rs) ≡ below c rs
below-miss c r rs e = ground arith
