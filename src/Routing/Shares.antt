-- ===== src/Routing/Shares.antt =====
-- Which candidate `orderProviderCandidates` tries first, and how often.
use mathlib.Core.List.{head?}
use native.Mathlib.Nat.{add-zero, mod-eq_of_lt}
use ai_model_gateway.Base.{
  ℕ, zero, suc, ◌+◌, ◌-◌, ◌%◌, ◌^◌, ◌≤◌, ◌<◌, ◌≡◌, ◌≢◌, refl, ap, ◌∙◌, inl, inr, false, Option,
  none, some, List, [], ◌∷◌, ◌++◌, arith, leb, ltb, lt→ltb, ◌==◌, length, get_elem?, get_elem?-lt,
  replicate, any, count_if, count_if-append, str_eq, Bool-cases,
}
use ai_model_gateway.Routing.{
  ProviderCandidate, provider_id, normalize_weight, weighted_pool, Walk, visit, pick, walk,
  order_provider_candidates,
}
use ai_model_gateway.Routing.Order.{pool-index, pick-at}

-- Each candidate's index stands in the pool as often as the candidate weighs.
count-replicate_ne : (n base i : ℕ) → base ≢ i → count_if (λ k. k == i) (replicate n base) ≡ 0
count-replicate_ne zero base i h = refl
count-replicate_ne (suc n) base i h = ground (arith, count-replicate_ne n base i h)

count-replicate_self : (n base i : ℕ) → base ≡ i → count_if (λ k. k == i) (replicate n base) ≡ n
count-replicate_self zero base i h = refl
count-replicate_self (suc n) base i h = ground (arith, count-replicate_self n base i h)

pool-count_below :
    (cs : List ProviderCandidate) (base i : ℕ)
    → i < base
    → count_if (λ k. k == i) (weighted_pool base cs) ≡ 0
unfolding weighted_pool
pool-count_below [] base i h = refl
pool-count_below (d ∷ cs) base i h =
    count_if-append (λ k. k == i) (replicate (normalize_weight d.weight) base)
      (weighted_pool (base + 1) cs)
    ∙ omega (
      arith,
      count-replicate_ne (normalize_weight d.weight) base i (omega arith),
      pool-count_below cs (base + 1) i (omega arith),
    )

weight_of :
    (d c : ProviderCandidate)
    → some d ≡ some c
    → normalize_weight d.weight ≡ normalize_weight c.weight
weight_of d c h = cc

pub pool-count :
    (cs : List ProviderCandidate) (base j i : ℕ) (c : ProviderCandidate)
    → get_elem? cs j ≡ some c
    → base + j ≡ i
    → count_if (λ k. k == i) (weighted_pool base cs) ≡ normalize_weight c.weight
unfolding weighted_pool
pool-count [] base j i c h e = cc
pool-count (d ∷ cs) base zero i c h e =
    count_if-append (λ k. k == i) (replicate (normalize_weight d.weight) base)
      (weighted_pool (base + 1) cs)
    ∙ omega (
      arith,
      count-replicate_self (normalize_weight d.weight) base i (omega arith),
      pool-count_below cs (base + 1) i (omega arith),
      weight_of d c h,
    )
pool-count (d ∷ cs) base (suc j) i c h e =
    count_if-append (λ k. k == i) (replicate (normalize_weight d.weight) base)
      (weighted_pool (base + 1) cs)
    ∙ omega (
      arith,
      count-replicate_ne (normalize_weight d.weight) base i (omega arith),
      pool-count cs (base + 1) j i c h (omega arith),
    )

visit-first :
    (o : Option ProviderCandidate) (w : Walk) (c : ProviderCandidate)
    (more : List ProviderCandidate)
    → w.ordered ≡ c ∷ more
    → (more' : List ProviderCandidate) × ((visit o w).ordered ≡ c ∷ more')
unfolding visit
visit-first none w c more h = (more, h)
visit-first (some d) w c more h = elim (Bool-cases (any (str_eq (provider_id d)) w.seen)) [
  | inl old ↦ (more, rw old h)
  | inr new ↦ (more ++ d ∷ [], rw (new, h))
]

walk-first :
    (candidates : List ProviderCandidate) (pool : List ℕ) (start rounds offset : ℕ) (w : Walk)
    (c : ProviderCandidate) (more : List ProviderCandidate)
    → w.ordered ≡ c ∷ more
    → head? (walk candidates pool start rounds offset w) ≡ some c
unfolding walk
walk-first candidates pool start zero offset w c more h = rw h
walk-first candidates pool start (suc rounds) offset w c more h =
    elim (Bool-cases (ltb (length w.ordered) (length candidates))) [
      | inl room ↦
          let (more', h') = visit-first (pick candidates pool start offset) w c more h in
          rw room (
            walk-first candidates pool start rounds (offset + 1)
              (visit (pick candidates pool start offset) w) c more' h')
      | inr full ↦ rw (full, h)
    ]

pool-pos :
    (cs : List ProviderCandidate) (base : ℕ) → 0 < length cs → 0 < length (weighted_pool base cs)
pool-pos [] base h = elim h [ ]
pool-pos (d ∷ cs) base h =
    let (p, hit) = pool-index (d ∷ cs) base 0 d refl in
    omega (arith, get_elem?-lt (weighted_pool base (d ∷ cs)) p (base + 0) hit)

abbrev nothing_seen : Walk
nothing_seen = record { seen = []; ordered = [] }

order-many :
    (sequence : ℕ) (candidates : List ProviderCandidate)
    → 2 ≤ length candidates
    → sequence < 2 ^ 64 - 1
    → order_provider_candidates sequence candidates ≡ (
      sequence + 1,
      walk candidates
          (weighted_pool 0 candidates)
          (sequence % length (weighted_pool 0 candidates))
          (length (weighted_pool 0 candidates))
          0
          nothing_seen,
    )
unfolding order_provider_candidates
order-many sequence candidates two small = rw (many, full, next, same)
  where
    many : leb (length candidates) 1 ≡ false
    many = ground arith

    full : (length (weighted_pool 0 candidates) == 0) ≡ false
    full = ground (arith, pool-pos candidates 0)

    next : (sequence + 1) % 2 ^ 64 ≡ sequence + 1
    next = omega arith

    same : (sequence + 1 + (2 ^ 64 - 1)) % 2 ^ 64 ≡ sequence
    same = omega arith

walk-pick :
    (candidates : List ProviderCandidate) (pool : List ℕ) (start rounds : ℕ) (c : ProviderCandidate)
    → 0 < length candidates
    → 0 < rounds
    → pick candidates pool start 0 ≡ some c
    → head? (walk candidates pool start rounds 0 nothing_seen) ≡ some c
unfolding walk visit
walk-pick candidates pool start zero c some_candidate h first = elim h [ ]
walk-pick candidates pool start (suc rounds) c some_candidate h first =
    rw (lt→ltb 0 (length candidates) some_candidate, first)
      (walk-first candidates pool start rounds (0 + 1)
        (record { seen = provider_id c ∷ []; ordered = c ∷ [] }) c [] refl)

-- With at least two candidates, and below the wrap of the sequence number, the first to be tried
-- is the one whose index stands in the pool at the place of the sequence number, modulo the
-- pool's length, and the sequence number moves on by one. The pool holds that index as often as
-- the candidate weighs, so over one round of the pool it is tried first that often.
pub order_provider_candidates-first :
    (sequence idx : ℕ) (candidates : List ProviderCandidate) (c : ProviderCandidate)
    → 2 ≤ length candidates
    → sequence < 2 ^ 64 - 1
    → get_elem? (weighted_pool 0 candidates) (sequence % length (weighted_pool 0 candidates))
      ≡ some idx
    → get_elem? candidates idx ≡ some c
    → (head? (order_provider_candidates sequence candidates).1 ≡ some c)
      × ((order_provider_candidates sequence candidates).0 ≡ sequence + 1)
      × (count_if (λ k. k == idx) (weighted_pool 0 candidates) ≡ normalize_weight c.weight)
order_provider_candidates-first sequence idx candidates c two small hit at =
    rw (order-many sequence candidates two small) (
      walk-pick candidates pool (sequence % length pool) (length pool) c (omega arith) pool_pos
          (pick-at candidates pool (sequence % length pool) 0 place hit at),
      refl,
      pool-count candidates 0 idx idx c at (omega arith),
    )
  where
    pool : List ℕ
    pool = weighted_pool 0 candidates

    pool_pos : 0 < length (weighted_pool 0 candidates)
    pool_pos = pool-pos candidates 0 (omega arith)

    place :
        (sequence % length (weighted_pool 0 candidates) + 0) % length (weighted_pool 0 candidates)
        ≡ sequence % length (weighted_pool 0 candidates)
    place =
        ap (λ (t : ℕ). t % length (weighted_pool 0 candidates)) (add-zero _)
        ∙ mod-eq_of_lt (ground (arith, pool-pos candidates 0 (omega arith)))
