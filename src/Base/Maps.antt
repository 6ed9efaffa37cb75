-- ===== src/Base/Maps.antt =====
-- Go's `map[string]V` as an association list. No modelled result depends on the order of an
-- iteration over a map.
use Prim.Native.Nat.{◌+◌, ◌≤◌}
use Prim.Native.String.{String}
use text.Mathlib.Text.{◌==◌ as str_eq}
use text.Mathlib.TextEquality.{eq_iff}
use mathlib.Core.Path.{◌≡◌, refl}
use mathlib.Core.Logic.{inl, inr}
use mathlib.Core.Bool.{Bool, true, false}
use mathlib.Core.List.{List, [], ◌∷◌}
use mathlib.Core.Option.{Option, none, some}
use native.Mathlib.Omega.{arith}
use ai_model_gateway.Base.Tests.{Bool-cases, if◌then◌else◌}
use ai_model_gateway.Base.Lists.{length}

abbrev pub Map {ℓ} : Type ℓ → Type ℓ
Map V = List (String × V)

module _ {ℓ} {V : Type ℓ} where
  -- m[k]
  unfoldable pub get : Map V → String → Option V
  get [] k = none
  get ((j, v) ∷ m) k = if str_eq j k then some v else get m k

  -- delete(m, k)
  unfoldable pub delete : Map V → String → Map V
  delete [] k = []
  delete ((j, v) ∷ m) k = let rest = delete m k in if str_eq j k then rest else (j, v) ∷ rest

  -- m[k] = v
  unfoldable pub put : Map V → String → V → Map V
  unfolding delete
  put m k v = (k, v) ∷ delete m k

  -- for k, v := range m { if !test(k, v) { delete(m, k) } }
  unfoldable pub keep_if : (String → V → Bool) → Map V → Map V
  unfolding delete
  keep_if test [] = []
  keep_if test ((k, v) ∷ m) =
      let rest = keep_if test m in if test k v then (k, v) ∷ rest else delete rest k

  -- _, ok := m[k]
  unfoldable pub has : Map V → String → Bool
  unfolding get
  has m k = elim (get m k) [ none ↦ false | some _ ↦ true ]

  pub get-delete :
      (m : Map V) (k j : String) → get (delete m k) j ≡ (if str_eq k j then none else get m j)
  unfolding get delete
  get-delete [] k j = ground arith
  get-delete ((i, v) ∷ m) k j = ground (arith, get-delete m k j, eq_iff i k, eq_iff i j, eq_iff k j)

  pub get-put :
      (m : Map V) (k j : String) (v : V)
      → get (put m k v) j ≡ (if str_eq k j then some v else get m j)
  unfolding get put
  get-put m k j v = ground (arith, get-delete m k j)

  -- what an iteration with deletions leaves of one binding
  abbrev pub keep_value : (String → V → Bool) → String → Option V → Option V
  keep_value test k none = none
  keep_value test k (some v) = if test k v then some v else none

  pub get-keep_if :
      (test : String → V → Bool) (m : Map V) (j : String)
      → get (keep_if test m) j ≡ keep_value test j (get m j)
  unfolding get keep_if
  get-keep_if test [] j = refl
  get-keep_if test ((k, v) ∷ m) j = elim (Bool-cases (str_eq k j)) [
    | inl e ↦
        rw (e, ← (eq_iff k j).0 e) (ground (arith, get-delete (keep_if test m) k k, eq_iff k k))
    | inr e ↦ ground (arith, get-keep_if test m j, get-delete (keep_if test m) k j)
  ]

  pub has-put : (m : Map V) (k : String) (v : V) → has (put m k v) k ≡ true
  unfolding has
  has-put m k v = ground (arith, get-put m k k v, eq_iff k k)

  pub length-delete-le : (m : Map V) (k : String) → length (delete m k) ≤ length m
  unfolding delete
  length-delete-le [] k = omega arith
  length-delete-le ((j, v) ∷ m) k = ground (arith, length-delete-le m k)

  pub length-keep_if-le :
      (test : String → V → Bool) (m : Map V) → length (keep_if test m) ≤ length m
  unfolding keep_if
  length-keep_if-le test [] = omega arith
  length-keep_if-le test ((k, v) ∷ m) =
      ground (arith, length-keep_if-le test m, length-delete-le (keep_if test m) k)

  pub length-delete-lt :
      (m : Map V) (k : String) (v : V) → get m k ≡ some v → length (delete m k) + 1 ≤ length m
  unfolding get delete
  length-delete-lt [] k v h = cc
  length-delete-lt ((j, w) ∷ m) k v h = ground (arith, length-delete-lt m k v, length-delete-le m k)

  -- a key that is there already takes no room
  pub length-put_old :
      (m : Map V) (k : String) (v w : V) → get m k ≡ some v → length (put m k w) ≤ length m
  unfolding put
  length-put_old m k v w h = omega (arith, length-delete-lt m k v h)

  pub length-put-le : (m : Map V) (k : String) (v : V) → length (put m k v) ≤ length m + 1
  unfolding put
  length-put-le m k v = omega (arith, length-delete-le m k)

  -- no key is bound twice
  abbrev pub Unique : Map V → Type ℓ
  Unique [] = Unit
  Unique ((k, v) ∷ m) = (get m k ≡ none) × Unique m

  pub delete-Unique : (m : Map V) (k : String) → Unique m → Unique (delete m k)
  unfolding delete
  delete-Unique [] k u = tt
  delete-Unique ((j, v) ∷ m) k u = elim (Bool-cases (str_eq j k)) [
    | inl same ↦ rw same (delete-Unique m k u.1)
    | inr other ↦ rw other (ground (arith, get-delete m k j, u.0), delete-Unique m k u.1)
  ]

  pub put-Unique : (m : Map V) (k : String) (v : V) → Unique m → Unique (put m k v)
  unfolding put
  put-Unique m k v u = (ground (arith, get-delete m k k, eq_iff k k), delete-Unique m k u)
