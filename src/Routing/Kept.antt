-- ===== src/Routing/Kept.antt =====
-- What holds of all candidates holds of all that `orderProviderCandidates` returns.
use ai_model_gateway.Base.{
  ℕ, zero, suc, ◌+◌, ◌≡◌, some, List, [], ◌∷◌, ◌++◌, leb, ltb, ◌==◌, if_intro, length, get_elem?,
  any, ◌%◌, sym, str_eq, All, Option-cases, inl, inr,
}
use mathlib.Core.Path.{subst}
use ai_model_gateway.Routing.{
  ProviderCandidate, provider_id, weighted_pool, Walk, visit, pick, walk, order_provider_candidates,
}

pub All-append {ℓ κ} :
    {A : Type ℓ} (P : A → Type κ) (xs ys : List A) → All P xs → All P ys → All P (xs ++ ys)
All-append P [] ys hx hy = hy
All-append P (x ∷ xs) ys hx hy = (hx.0, All-append P xs ys hx.1 hy)

module _ (P : ProviderCandidate → Type 0) where
  All-get_elem? :
      (xs : List ProviderCandidate) (i : ℕ) (x : ProviderCandidate)
      → All P xs
      → get_elem? xs i ≡ some x
      → P x
  All-get_elem? [] i x h e = cc
  All-get_elem? (y ∷ ys) zero x h e = let same : y ≡ x = cc in subst P same h.0
  All-get_elem? (y ∷ ys) (suc i) x h e = All-get_elem? ys i x h.1 e

  All-pick :
      (cs : List ProviderCandidate) (pool : List ℕ) (start offset : ℕ) (c : ProviderCandidate)
      → All P cs
      → pick cs pool start offset ≡ some c
      → P c
  All-pick cs pool start offset c h e =
      elim (Option-cases (get_elem? pool ((start + offset) % length pool))) [
        | inl e' ↦ cc
        | inr (idx, e') ↦ All-get_elem? cs idx c h cc
      ]

  All-visit :
      (cs : List ProviderCandidate) (pool : List ℕ) (start offset : ℕ) (w : Walk)
      → All P cs
      → All P w.ordered
      → All P (visit (pick cs pool start offset) w).ordered
  unfolding visit
  All-visit cs pool start offset w h hw = elim (Option-cases (pick cs pool start offset)) [
    | inl e ↦ subst (λ o. All P (visit o w).ordered) (sym e) hw
    | inr (c, e) ↦
        subst (λ o. All P (visit o w).ordered) (sym e)
          (if_intro (λ (v : Walk). All P v.ordered) (any (str_eq (provider_id c)) w.seen) (λ _. hw)
            λ _. All-append P w.ordered (c ∷ []) hw (All-pick cs pool start offset c h e, tt))
  ]

  All-walk :
      (cs : List ProviderCandidate) (pool : List ℕ) (start rounds offset : ℕ) (w : Walk)
      → All P cs
      → All P w.ordered
      → All P (walk cs pool start rounds offset w)
  unfolding walk
  All-walk cs pool start zero offset w h hw = hw
  All-walk cs pool start (suc rounds) offset w h hw =
      if_intro (All P) (ltb (length w.ordered) (length cs))
        (λ _.
          All-walk cs pool start rounds (offset + 1) (visit (pick cs pool start offset) w) h
            (All-visit cs pool start offset w h hw))
        (λ _. hw)

  pub order_provider_candidates-All :
      (sequence : ℕ) (cs : List ProviderCandidate)
      → All P cs
      → All P (order_provider_candidates sequence cs).1
  unfolding order_provider_candidates
  order_provider_candidates-All sequence cs h =
      if_intro (λ (r : ℕ × List ProviderCandidate). All P r.1) (leb (length cs) 1) (λ _. h)
        λ _.
          if_intro (λ (r : ℕ × List ProviderCandidate). All P r.1)
            (length (weighted_pool 0 cs) == 0) (λ _. h)
            λ _. All-walk cs (weighted_pool 0 cs) _ _ 0 (record { seen = []; ordered = [] }) h tt
