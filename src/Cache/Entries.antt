-- ===== src/Cache/Entries.antt =====
-- The LRU list as a list of entries with distinct keys.
use ai_model_gateway.Base.{
  ℕ, ◌+◌, ◌≤◌, ◌<◌, ◌≡◌, refl, String, Option, none, some, List, [], ◌∷◌, arith, eq_iff, str_eq,
  if◌then◌else◌, length, Bool-cases, inl, inr,
}
use ai_model_gateway.Cache.{Entry, without, back}

abbrev pub find_key : List Entry → String → Option Entry
find_key [] k = none
find_key (e ∷ l) k = if str_eq e.key k then some e else find_key l k

abbrev pub Distinct : List Entry → Type 0
Distinct [] = Unit
Distinct (e ∷ l) = (find_key l e.key ≡ none) × Distinct l

abbrev pub byte_sum : List Entry → ℕ
byte_sum [] = 0
byte_sum (e ∷ l) = e.bytes + byte_sum l

abbrev pub drop_last : List Entry → List Entry
drop_last [] = []
drop_last (e ∷ []) = []
drop_last (e ∷ f ∷ l) = e ∷ drop_last (f ∷ l)

pub find_key-key : (l : List Entry) (k : String) (e : Entry) → find_key l k ≡ some e → e.key ≡ k
find_key-key [] k e h = cc
find_key-key (f ∷ l) k e h = ground (arith, find_key-key l k e, eq_iff f.key k)

pub find_key-without :
    (l : List Entry) (k j : String)
    → find_key (without k l) j ≡ (if str_eq k j then none else find_key l j)
unfolding without
find_key-without [] k j = ground arith
find_key-without (e ∷ l) k j =
    ground (arith, find_key-without l k j, eq_iff e.key k, eq_iff e.key j, eq_iff k j)

pub without-Distinct : (l : List Entry) (k : String) → Distinct l → Distinct (without k l)
unfolding without
without-Distinct [] k d = tt
without-Distinct (e ∷ l) k d =
    ground (arith, without-Distinct l k, find_key-without l k e.key, d.0, d.1)

pub without_absent : (l : List Entry) (k : String) → find_key l k ≡ none → without k l ≡ l
unfolding without
without_absent [] k h = refl
without_absent (e ∷ l) k h = ground (arith, without_absent l k)

module _ (k : String) (e : Entry) where
  pub byte_sum-without :
      (l : List Entry)
      → Distinct l
      → find_key l k ≡ some e
      → byte_sum (without k l) + e.bytes ≡ byte_sum l
  unfolding without
  byte_sum-without [] d h = cc
  byte_sum-without (f ∷ l) d h = elim (Bool-cases (str_eq f.key k)) [
    | inl same ↦ ground (arith, without_absent l k, eq_iff f.key k, d.0)
    | inr other ↦ ground (arith, byte_sum-without l d.1)
  ]

  pub length-without :
      (l : List Entry) → Distinct l → find_key l k ≡ some e → length (without k l) + 1 ≡ length l
  unfolding without
  length-without [] d h = cc
  length-without (f ∷ l) d h = elim (Bool-cases (str_eq f.key k)) [
    | inl same ↦ ground (arith, without_absent l k, eq_iff f.key k, d.0)
    | inr other ↦ ground (arith, length-without l d.1)
  ]

pub length-without-le : (l : List Entry) (k : String) → length (without k l) ≤ length l
unfolding without
length-without-le [] k = omega arith
length-without-le (e ∷ l) k = ground (arith, length-without-le l k)

pub back-find_key :
    (l : List Entry) (e : Entry) → Distinct l → back l ≡ some e → find_key l e.key ≡ some e
unfolding back
back-find_key [] e d h = cc
back-find_key (f ∷ []) e d h = ground (arith, eq_iff f.key e.key)
back-find_key (f ∷ g ∷ l) e d h =
    ground (arith, back-find_key (g ∷ l) e d.1 h, eq_iff f.key e.key, d.0)

pub without-back :
    (l : List Entry) (e : Entry) → Distinct l → back l ≡ some e → without e.key l ≡ drop_last l
unfolding back without
without-back [] e d h = cc
without-back (f ∷ []) e d h = ground (arith, eq_iff f.key e.key)
without-back (f ∷ g ∷ l) e d h =
    ground
      (arith, without-back (g ∷ l) e d.1 h, back-find_key (g ∷ l) e d.1 h, eq_iff f.key e.key, d.0)

pub back-some : (l : List Entry) → 0 < length l → (e : Entry) × (back l ≡ some e)
unfolding back
back-some [] h = absurd (omega arith)
back-some (e ∷ []) h = (e, refl)
back-some (e ∷ f ∷ l) h = back-some (f ∷ l) (omega arith)

pub length-drop_last : (l : List Entry) → 0 < length l → length (drop_last l) + 1 ≡ length l
length-drop_last [] h = absurd (omega arith)
length-drop_last (e ∷ []) h = omega arith
length-drop_last (e ∷ f ∷ l) h = omega (arith, length-drop_last (f ∷ l) (omega arith))
