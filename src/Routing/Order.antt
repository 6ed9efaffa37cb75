-- ===== src/Routing/Order.antt =====
-- The order in which `orderProviderCandidates` tries the candidates is a rearrangement of them.
use mathlib.Core.List.Perm
use mathlib.Core.List.{Nodup, Perm}
use mathlib.Core.Logic.{∥∥₁_map}
use native.Mathlib.Nat.{zero-add, mod-eq_of_lt, add-mod_right}
use ai_model_gateway.Base.{
  ℕ, zero, suc, ◌+◌, ◌-◌, ◌%◌, ◌<◌, ℤ, pos, negsuc, ◌≡◌, ap, ◌∙◌, inl, inr, true, some, List, [],
  ◌∷◌, arith, leb, ◌==◌, length, get_elem?, replicate, Bool-cases, get_elem?-append_left,
  get_elem?-append_right, get_elem?-lt, mem-get_elem?,
}
use ai_model_gateway.Routing.{
  ProviderCandidate, normalize_weight, weighted_pool, pick, order_provider_candidates,
}
use ai_model_gateway.Routing.Picked.{Complete, Inv-start, ids, walk_perm}

-- The pool holds the index of every candidate.
pub pool-index :
    (cs : List ProviderCandidate) (base j : ℕ) (c : ProviderCandidate)
    → get_elem? cs j ≡ some c
    → (p : ℕ) × (get_elem? (weighted_pool base cs) p ≡ some (base + j))
unfolding weighted_pool
pool-index [] base j c h = cc
pool-index (d ∷ cs) base zero c h = (
  0,
  get_elem?-append_left (replicate (normalize_weight d.weight) base) _ 0 (base + 0)
      (first d.weight),
)
  where
    first : (w : ℤ) → get_elem? (replicate (normalize_weight w) base) 0 ≡ some (base + 0)
    first (pos zero) = ground arith
    first (pos (suc n)) = ground arith
    first (negsuc n) = ground arith
pool-index (d ∷ cs) base (suc j) c h =
    let (p, at) = pool-index cs (base + 1) j c h in
    (
      length (replicate (normalize_weight d.weight) base) + p,
      get_elem?-append_right (replicate (normalize_weight d.weight) base) _ p
          ∙ at
          ∙ ap some (omega arith),
    )

-- The offset at which the loop meets the position `p`.
offset_to : (start p n : ℕ) → start < n → p < n → (e : ℕ) × (e < n) × ((start + e) % n ≡ p)
offset_to start p n hs hp = elim (Bool-cases (leb start p)) [
  | inl le ↦ (p - start, ground arith, ap (λ (t : ℕ). t % n) (rejoin le) ∙ mod-eq_of_lt hp)
  | inr gt ↦ (
    p + n - start,
    ground arith,
    ap (λ (t : ℕ). t % n) wrap ∙ add-mod_right p n ∙ mod-eq_of_lt hp,
  )
]
  where
    rejoin : leb start p ≡ true → start + (p - start) ≡ p
    rejoin le = ground arith

    wrap : start + (p + n - start) ≡ p + n
    wrap = omega arith

pub pick-at :
    (candidates : List ProviderCandidate) (pool : List ℕ) (start e : ℕ) {p idx : ℕ}
    {c : ProviderCandidate}
    → (start + e) % length pool ≡ p
    → get_elem? pool p ≡ some idx
    → get_elem? candidates idx ≡ some c
    → pick candidates pool start e ≡ some c
pick-at candidates pool start e there hit at = ground arith

complete :
    (candidates : List ProviderCandidate) (start : ℕ)
    → start < length (weighted_pool 0 candidates)
    → Complete candidates (weighted_pool 0 candidates) start
complete candidates start h c m = ∥∥₁_map (mem-get_elem? candidates c m) λ (j, at). found j at
  where
    found :
        (j : ℕ)
        → get_elem? candidates j ≡ some c
        → (e : ℕ) × (e < length (weighted_pool 0 candidates))
          × (pick candidates (weighted_pool 0 candidates) start e ≡ some c)
    found j at =
        let (p, hit) = pool-index candidates 0 j c at in
        let (e, lt, there) =
          offset_to start p (length (weighted_pool 0 candidates)) h
            (get_elem?-lt (weighted_pool 0 candidates) p (0 + j) hit) in
        (e, lt, pick-at candidates (weighted_pool 0 candidates) start e there hit (rw zero-add at))

-- With distinct provider IDs, the order is a rearrangement of the candidates: every provider is
-- tried, and none twice, whatever the weights and the sequence number.
pub order_provider_candidates-perm :
    (sequence : ℕ) (candidates : List ProviderCandidate)
    → Nodup (ids candidates)
    → Perm (ids (order_provider_candidates sequence candidates).1) (ids candidates)
unfolding order_provider_candidates
order_provider_candidates-perm sequence candidates distinct =
    elim (Bool-cases (leb (length candidates) 1)) [
      | inl few ↦ rw few (Perm.refl (ids candidates))
      | inr many ↦ elim (Bool-cases (length (weighted_pool 0 candidates) == 0)) [
        | inl empty ↦ rw (many, empty) (Perm.refl (ids candidates))
        | inr full ↦
            rw (many, full)
              (walk_perm candidates (weighted_pool 0 candidates) _ distinct
                (complete candidates _ (ground arith)) (length (weighted_pool 0 candidates)) 0
                (record { seen = []; ordered = [] }) (omega arith)
                (Inv-start candidates (weighted_pool 0 candidates) _))
      ]
    ]
