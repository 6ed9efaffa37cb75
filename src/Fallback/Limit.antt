-- ===== src/Fallback/Limit.antt =====
-- How many requests the fallbacks may cost, and what a success means.
use ai_model_gateway.Base.{
  ℕ, ◌+◌, ◌≤◌, ◌<◌, ◌≡◌, Bool, false, some, List, [], ◌∷◌, String, arith, leb, if_intro,
}
use ai_model_gateway.Snapshot.{Snapshot}
use ai_model_gateway.Routing.{ProviderCandidate, collect_provider_candidates}
use ai_model_gateway.Attempts.{Outcome, Planned, planned, refused, Upstream, failed}
use ai_model_gateway.Attempts.Calls.{Meter, one}
use ai_model_gateway.Fallback.{
  Step, next, give_up, succeed, then_next, resolve_fallback_models, stopped, writable,
  forward_candidate, try_candidates, try_model, try_models, try_fallback_models, is_empty,
}

module _ {W Plan : Type 0} (up : Upstream W Plan) (adapts : Plan → Outcome → Bool)
    (order : String → List ProviderCandidate → W → List ProviderCandidate × W) (snap : Snapshot)
    (stream : Bool) (calls : Meter up one)
    (unmetered : (model : String) (cs : List ProviderCandidate) (w : W)
      → calls.read (order model cs w).1 ≡ calls.read w) where
  open calls use {read, forwarded, reported}

  -- At most 10 attempts, at least as many as requests forwarded since `base` was read, and a
  -- response only where the outcome did not fail.
  pub Within : ℕ → Step W → Type 0
  Within base (next n w) = (n ≤ 10) × (read w ≤ base + n)
  Within base (give_up n w) = (n ≤ 10) × (read w ≤ base + n)
  Within base (succeed c o n w) = (n ≤ 10) × (read w ≤ base + n) × (failed o ≡ false)

  then_next-Within :
      (base : ℕ) (r : Step W) (k : ℕ → W → Step W)
      → Within base r
      → ((n : ℕ) (w : W) → n ≤ 10 → read w ≤ base + n → Within base (k n w))
      → Within base (then_next r k)
  unfolding Within
  then_next-Within base (next n w) k h f = f n w h.0 h.1
  then_next-Within base (give_up n w) k h f = h
  then_next-Within base (succeed c o n w) k h f = h

  forward_candidate-Within :
      (base : ℕ) (c : ProviderCandidate) (p : Planned Plan) (n : ℕ) (w : W)
      → n < 10
      → read w ≤ base + n
      → Within base (forward_candidate up adapts order snap stream c p (n + 1) w)
  unfolding forward_candidate Within
  forward_candidate-Within base c (refused pl e) n w h b = (omega arith, omega arith)
  forward_candidate-Within base c (planned pl) n w h b =
      let o = (up.forward c pl w).0 in
      let spent : read (up.report c o (up.forward c pl w).1) ≤ base + (n + 1) =
        omega (arith, forwarded c pl w, reported c o (up.forward c pl w).1) in
      if_intro (Within base) (failed o) (λ _. (omega arith, spent))
        λ fine.
          if_intro (Within base) (writable up adapts order snap stream pl o)
            (λ _. (omega arith, spent, fine)) (λ _. (omega arith, spent))

  try_candidates-Within :
      (base : ℕ) (cs : List ProviderCandidate) (n : ℕ) (w : W)
      → n ≤ 10
      → read w ≤ base + n
      → Within base (try_candidates up adapts order snap stream cs n w)
  unfolding try_candidates Within
  try_candidates-Within base [] n w h b = (h, b)
  try_candidates-Within base (c ∷ cs) n w h b =
      if_intro (Within base) (stopped up adapts order snap stream w) (λ _. (h, b))
        λ _.
          if_intro (Within base) (leb 10 n) (λ _. (h, b))
            λ room.
              then_next-Within base _ _
                (forward_candidate-Within base c (up.build_compat_plan c) n w (ground arith) b)
                (try_candidates-Within base cs)

  try_model-Within :
      (base : ℕ) (model : String) (n : ℕ) (w : W)
      → n ≤ 10
      → read w ≤ base + n
      → Within base (try_model up adapts order snap stream model n w)
  unfolding try_model Within
  try_model-Within base model n w h b =
      let cs = collect_provider_candidates (some snap) model in
      let empty : Within base (next n w) = (h, b) in
      if_intro (Within base) (is_empty up adapts order snap stream cs) (λ _. empty)
        λ _.
          try_candidates-Within base (order model cs w).0 n (order model cs w).1 h
            (omega (arith, unmetered model cs w))

  try_models-Within :
      (base : ℕ) (models : List String) (n : ℕ) (w : W)
      → n ≤ 10
      → read w ≤ base + n
      → Within base (try_models up adapts order snap stream models n w)
  unfolding try_models Within
  try_models-Within base [] n w h b = (h, b)
  try_models-Within base (m ∷ ms) n w h b =
      if_intro (Within base) (stopped up adapts order snap stream w) (λ _. (h, b))
        λ _. then_next-Within base _ _ (try_model-Within base m n w h b) (try_models-Within base ms)

  -- Where ordering the candidates forwards nothing, `tryFallbackModels` makes at most 10 attempts,
  -- forwards at most as many requests, and answers the client only with an outcome that did not
  -- fail.
  pub try_fallback_models-Within :
      (model : String) (w : W)
      → Within (read w) (try_fallback_models up adapts order snap stream model w)
  unfolding try_fallback_models
  try_fallback_models-Within model w =
      try_models-Within (read w) (resolve_fallback_models (some snap) model) 0 w (omega arith)
        (omega arith)
