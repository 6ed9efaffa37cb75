-- ===== src/Fallback/Models.antt =====
-- Which models stand in for a model.
use mathlib.Core.Path.{subst}
use ai_model_gateway.Base.{
  ℕ, ◌≡◌, ◌∙◌, refl, ap, String, Bool, false, not, ◌&&◌, ◌||◌, some, List, [], ◌∷◌, any, str_eq,
  ltb, if◌then◌else◌, arith, eq_iff, occurrences, count_if-append, Bool-cases, inl, inr,
}
use ai_model_gateway.Snapshot.{ProviderSnapshot, Snapshot}
use ai_model_gateway.Fallback.{
  serves, add_fallback, add_fallbacks, fallbacks_of, resolve_fallback_models,
}

abbrev one_if : Bool → ℕ
one_if b = if b then 1 else 0

-- a name that may stand in for the model
abbrev pub usable : String → String → Bool
usable model fb = not (str_eq fb "") && not (str_eq fb model)

-- whether a provider that serves the model lists the name
unfoldable pub offers : String → String → List ProviderSnapshot → Bool
offers model fb ps =
    any (λ (p : ProviderSnapshot). serves model p && any (str_eq fb) p.fallback_models) ps

any-occurrences : (s : String) (xs : List String) → any (str_eq s) xs ≡ ltb 0 (occurrences s xs)
any-occurrences s [] = refl
any-occurrences s (x ∷ xs) = ground (arith, any-occurrences s xs)

or_lem : (b u x r : Bool) → ((b || u && x) || u && r) ≡ (b || u && (x || r))
or_lem b u x r = ground arith

module _ (model fb : String) where
  occurrences-add_same :
      (acc : List String) (b : Bool)
      → occurrences fb acc ≡ one_if b
      → occurrences fb (add_fallback model acc fb) ≡ one_if (b || usable model fb && str_eq fb fb)
  unfolding add_fallback
  occurrences-add_same acc b h = ground (
    arith,
    any-occurrences fb acc,
    (eq_iff fb fb).1 refl,
    count_if-append (str_eq fb) acc (fb ∷ []),
  )

  occurrences-add_fallback :
      (acc : List String) (x : String) (b : Bool)
      → occurrences fb acc ≡ one_if b
      → occurrences fb (add_fallback model acc x) ≡ one_if (b || usable model fb && str_eq fb x)
  unfolding add_fallback
  occurrences-add_fallback acc x b h = elim (Bool-cases (str_eq fb x)) [
    | inl e ↦
        let same : fb ≡ x = (eq_iff fb x).0 e in
        subst
          (λ y.
            occurrences fb (add_fallback model acc y)
            ≡ one_if (b || usable model fb && str_eq fb y))
          same (occurrences-add_same acc b h)
    | inr e ↦ ground (arith, count_if-append (str_eq fb) acc (x ∷ []))
  ]

  occurrences-add_fallbacks :
      (xs acc : List String) (b : Bool)
      → occurrences fb acc ≡ one_if b
      → occurrences fb (add_fallbacks model acc xs)
        ≡ one_if (b || usable model fb && any (str_eq fb) xs)
  unfolding add_fallbacks
  occurrences-add_fallbacks [] acc b h = ground arith
  occurrences-add_fallbacks (x ∷ xs) acc b h =
      occurrences-add_fallbacks xs (add_fallback model acc x) _ (occurrences-add_fallback acc x b h)
      ∙ ap one_if (or_lem b (usable model fb) (str_eq fb x) (any (str_eq fb) xs))

  occurrences-fallbacks_of :
      (ps : List ProviderSnapshot) (acc : List String) (b : Bool)
      → occurrences fb acc ≡ one_if b
      → occurrences fb (fallbacks_of model acc ps)
        ≡ one_if (b || usable model fb && offers model fb ps)
  unfolding fallbacks_of offers
  occurrences-fallbacks_of [] acc b h = ground arith
  occurrences-fallbacks_of (p ∷ ps) acc b h = elim (Bool-cases (serves model p)) [
    | inl e ↦
        rw (fallbacks_of, e)
          (occurrences-fallbacks_of ps (add_fallbacks model acc p.fallback_models) _
              (occurrences-add_fallbacks p.fallback_models acc b h)
            ∙ ap one_if (
                or_lem b (usable model fb) (any (str_eq fb) p.fallback_models)
                  (offers model fb ps)))
    | inr e ↦ ground (arith, occurrences-fallbacks_of ps acc b h)
  ]

-- `ResolveFallbackModels` lists exactly the names, neither empty nor the model itself, that a
-- provider which serves the model lists, each of them once.
pub resolve_fallback_models-offers :
    (snap : Snapshot) (model fb : String)
    → occurrences fb (resolve_fallback_models (some snap) model)
      ≡ (if usable model fb && offers model fb snap.providers then 1 else 0)
unfolding resolve_fallback_models
resolve_fallback_models-offers snap model fb =
    occurrences-fallbacks_of model fb snap.providers [] false refl
