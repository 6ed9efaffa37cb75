-- ===== src/Runtime/Candidates/Counted.antt =====
-- How often each candidate stands in the classes that `orderCandidates` makes.
use mathlib.Core.Path.{subst}
use ai_model_gateway.Base.{
  ℕ, ◌+◌, ◌≤◌, ◌≡◌, ◌∙◌, refl, ap, sym, String, Bool, true, false, not, ◌&&◌, ◌||◌, Option, List,
  [], ◌∷◌, arith, eq_iff, str_eq, if◌then◌else◌, if_intro, keep, count_if, count_if-append, All,
  get-put, Time, Nodup-of_occurrences, occurrences, count_if-perm,
}
use ai_model_gateway.Snapshot.{FailurePolicy}
use ai_model_gateway.Routing.{ProviderCandidate, provider_id, order_provider_candidates}
use ai_model_gateway.Routing.Order.{order_provider_candidates-perm}
use ai_model_gateway.Routing.Picked.{ids}
use ai_model_gateway.Runtime.{
  ProviderRuntimeState, RuntimeState, fresh, provider_gate_state, ensure_provider_state,
}
use ai_model_gateway.Routing.Kept.{All-append}
use ai_model_gateway.Runtime.Gate.{state_of}
use ai_model_gateway.Runtime.Candidates.{Classes, unset, bound_to, classify_one, classify, to_list}

-- a candidate that may be tried: one that is not blocked, or that may pass through
abbrev may_pass : FailurePolicy → Time → ProviderRuntimeState → Bool
may_pass policy now st =
    not (provider_gate_state st policy now).blocked
    || (provider_gate_state st policy now).passthrough_eligible

abbrev pub is_blocked : FailurePolicy → Time → RuntimeState → ProviderCandidate → Bool
is_blocked policy now s c = (provider_gate_state (state_of s (provider_id c)) policy now).blocked

abbrev pub routable : FailurePolicy → Time → RuntimeState → ProviderCandidate → Bool
routable policy now s c = may_pass policy now (state_of s (provider_id c))

abbrev pub total : (ProviderCandidate → Bool) → Classes → ℕ
total p k =
    count_if p (to_list k.preferred)
    + count_if p k.available
    + count_if p (to_list k.fallback)
    + count_if p k.passthrough

ensure-state_of :
    (s : RuntimeState) (id j : String) → state_of (ensure_provider_state s id).1 j ≡ state_of s j
unfolding ensure_provider_state
ensure-state_of s id j = ground (arith, get-put s.providers id j fresh, eq_iff id j)

ensure-fst : (s : RuntimeState) (id : String) → (ensure_provider_state s id).0 ≡ state_of s id
unfolding ensure_provider_state
ensure-fst s id = ground arith

-- what the classes hold: unblocked candidates and blocked ones
pub record Sorted (P : ProviderCandidate → Bool) (k : Classes) : Type 0 where
  pub preferred : All (λ c. P c ≡ false) (to_list k.preferred)
  pub available : All (λ c. P c ≡ false) k.available
  pub fallback : All (λ c. P c ≡ true) (to_list k.fallback)
  pub passthrough : All (λ c. P c ≡ true) k.passthrough

sum_lem : (a b c x y z : ℕ) → a ≡ b + c → b ≡ x + y → z ≡ y + c → a ≡ x + z
sum_lem a b c x y z h1 h2 h3 = omega arith

count_if-keep :
    (p q : ProviderCandidate → Bool) (c : ProviderCandidate) (cs : List ProviderCandidate)
    → count_if p (keep q (c ∷ cs))
      ≡ (if q c then count_if p (c ∷ []) else 0) + count_if p (keep q cs)
count_if-keep p q c cs = ground arith

module _ (sticky : Option String) (policy : FailurePolicy) (now : Time) where
  total-classify_one :
      (p : ProviderCandidate → Bool) (st : ProviderRuntimeState) (c : ProviderCandidate)
      (k : Classes)
      → total p (classify_one sticky policy now st c k)
        ≡ total p k + (if may_pass policy now st then count_if p (c ∷ []) else 0)
  unfolding classify_one
  total-classify_one p st c k =
      ground
        (arith, count_if-append p k.available (c ∷ []), count_if-append p k.passthrough (c ∷ []))

  Sorted-classify_one :
      (P : ProviderCandidate → Bool) (st : ProviderRuntimeState) (c : ProviderCandidate)
      (k : Classes)
      → P c ≡ (provider_gate_state st policy now).blocked
      → Sorted P k
      → Sorted P (classify_one sticky policy now st c k)
  unfolding classify_one
  Sorted-classify_one P st c k e h =
      let gate = provider_gate_state st policy now in
      if_intro (Sorted P) gate.blocked
        (λ b.
          if_intro (Sorted P) gate.passthrough_eligible
            (λ _.
              if_intro (Sorted P) (bound_to sticky c && unset k.fallback)
                (λ _. record {
                  preferred = h.preferred;
                  available = h.available;
                  passthrough = h.passthrough;
                  fallback = (e ∙ b, tt);
                })
                λ _. record {
                  preferred = h.preferred;
                  available = h.available;
                  fallback = h.fallback;
                  passthrough =
                      All-append (λ d. P d ≡ true) k.passthrough (c ∷ []) h.passthrough (e ∙ b, tt);
                })
            (λ _. h))
        λ b.
          if_intro (Sorted P) (bound_to sticky c && unset k.preferred)
            (λ _. record {
              available = h.available;
              fallback = h.fallback;
              passthrough = h.passthrough;
              preferred = (e ∙ b, tt);
            })
            λ _. record {
              preferred = h.preferred;
              fallback = h.fallback;
              passthrough = h.passthrough;
              available =
                  All-append (λ d. P d ≡ false) k.available (c ∷ []) h.available (e ∙ b, tt);
            }

  -- what `classify` is called with, and what it makes of it
  pub Sorted-classify :
      (t : RuntimeState) (cs : List ProviderCandidate) (s : RuntimeState) (k : Classes)
      → ((j : String) → state_of s j ≡ state_of t j)
      → Sorted (is_blocked policy now t) k
      → Sorted (is_blocked policy now t) (classify sticky policy now cs s k).0
  unfolding classify
  Sorted-classify t [] s k same h = h
  Sorted-classify t (c ∷ cs) s k same h =
      Sorted-classify t cs (ensure_provider_state s (provider_id c)).1 _
        (λ j. ensure-state_of s (provider_id c) j ∙ same j)
        (Sorted-classify_one (is_blocked policy now t) (ensure_provider_state s (provider_id c)).0 c
          k
          (ap (λ st. (provider_gate_state st policy now).blocked)
            (sym (ensure-fst s (provider_id c) ∙ same (provider_id c))))
          h)

  pub total-classify :
      (p : ProviderCandidate → Bool) (t : RuntimeState) (cs : List ProviderCandidate)
      (s : RuntimeState) (k : Classes)
      → ((j : String) → state_of s j ≡ state_of t j)
      → total p (classify sticky policy now cs s k).0
        ≡ total p k + count_if p (keep (routable policy now t) cs)
  unfolding classify
  total-classify p t [] s k same = omega arith
  total-classify p t (c ∷ cs) s k same =
      let st = ensure_provider_state s (provider_id c) in
      let e : may_pass policy now st.0 ≡ routable policy now t c =
        ap (may_pass policy now) (ensure-fst s (provider_id c) ∙ same (provider_id c)) in
      let one = total-classify_one p st.0 c k in
      let rest =
        total-classify p t cs st.1 (classify_one sticky policy now st.0 c k)
          (λ j. ensure-state_of s (provider_id c) j ∙ same j) in
      sum_lem _ _ _ _ _ _ rest
        (subst
          (λ b.
            total p (classify_one sticky policy now st.0 c k)
            ≡ total p k + (if b then count_if p (c ∷ []) else 0))
          e one)
        (count_if-keep p (routable policy now t) c cs)

pub has_id : String → ProviderCandidate → Bool
has_id j c = str_eq j (provider_id c)

pub occurrences-ids :
    (j : String) (xs : List ProviderCandidate) → occurrences j (ids xs) ≡ count_if (has_id j) xs
unfolding has_id
occurrences-ids j [] = refl
occurrences-ids j (x ∷ xs) = ground (arith, occurrences-ids j xs)

pub count_if-keep-le :
    (p q : ProviderCandidate → Bool) (xs : List ProviderCandidate)
    → count_if p (keep q xs) ≤ count_if p xs
count_if-keep-le p q [] = omega arith
count_if-keep-le p q (x ∷ xs) = ground (arith, count_if-keep-le p q xs)

pub count-order :
    (sequence : ℕ) (j : String) (xs : List ProviderCandidate)
    → ((i : String) → count_if (has_id i) xs ≤ 1)
    → count_if (has_id j) (order_provider_candidates sequence xs).1 ≡ count_if (has_id j) xs
count-order sequence j xs h =
    sym (occurrences-ids j (order_provider_candidates sequence xs).1)
    ∙ count_if-perm (str_eq j) (
        order_provider_candidates-perm sequence xs (
          Nodup-of_occurrences (ids xs)
            (λ i. subst (λ n. n ≤ 1) (sym (occurrences-ids i xs)) (h i))))
    ∙ occurrences-ids j xs
