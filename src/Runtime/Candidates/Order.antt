-- ===== src/Runtime/Candidates/Order.antt =====
-- The order of a request's candidates: what is in it, and in which order.
use mathlib.Core.List.{Nodup, append_assoc}
use mathlib.Core.Path.{subst}
use ai_model_gateway.Base.{
  ℕ, ◌+◌, ◌≤◌, ◌≡◌, ◌≢◌, ◌∙◌, refl, ap, sym, String, true, false, List, [], ◌∷◌, ◌++◌, arith,
  if_intro, length, keep, count_if, count_if-append, All, ◌==◌, Time, occurrences_of_Nodup,
  occurrences,
}
use ai_model_gateway.Snapshot.{FailurePolicy, Snapshot}
use ai_model_gateway.Routing.{ProviderCandidate, order_provider_candidates}
use ai_model_gateway.Routing.Picked.{ids}
use ai_model_gateway.Runtime.{RuntimeState, cleanup_expired_sticky, lookup_sticky_provider}
use ai_model_gateway.Routing.Kept.{All-append, order_provider_candidates-All}
use ai_model_gateway.Runtime.Gate.{state_of}
use ai_model_gateway.Runtime.Candidates.{
  Classes, no_classes, classify, to_list, Ordered, arrange, order_candidates,
}
use ai_model_gateway.Runtime.Candidates.Counted.{
  Sorted, Sorted-classify, count-order, count_if-keep-le, has_id, is_blocked, occurrences-ids,
  routable, total, total-classify,
}

-- The candidates in the order of the attempts: first the ones that are not blocked, then the blocked
-- ones that may pass through, and each provider as often as among the routable candidates.
pub record Arranged (policy : FailurePolicy) (now : Time) (s : RuntimeState)
    (candidates result : List ProviderCandidate) : Type 0 where
  front : List ProviderCandidate
  rear : List ProviderCandidate
  split : result ≡ front ++ rear
  front_open : All (λ c. is_blocked policy now s c ≡ false) front
  rear_blocked : All (λ c. is_blocked policy now s c ≡ true) rear
  same :
      (id : String)
      → occurrences id (ids result) ≡ occurrences id (ids (keep (routable policy now s) candidates))

count_if-ids-++ :
    (j : String) (xs ys : List ProviderCandidate)
    → occurrences j (ids (xs ++ ys)) ≡ count_if (has_id j) xs + count_if (has_id j) ys
count_if-ids-++ j xs ys = occurrences-ids j (xs ++ ys) ∙ count_if-append (has_id j) xs ys

module _ (policy : FailurePolicy) (now : Time) (s : RuntimeState)
    (candidates : List ProviderCandidate)
    (distinct : (j : String) → count_if (has_id j) candidates ≤ 1) where
  module _ (k : Classes) (sorted : Sorted (is_blocked policy now s) k)
      (totals : (j : String)
        → total (has_id j) k ≡ count_if (has_id j) (keep (routable policy now s) candidates)) where
    few : (j : String) → total (has_id j) k ≤ 1
    few j =
        let a = totals j in
        let b = count_if-keep-le (has_id j) (routable policy now s) candidates in
        let c = distinct j in omega arith

    count-arranged :
        (n m : ℕ) (j : String)
        → occurrences j (
            ids (
              (to_list k.preferred ++ (order_provider_candidates n k.available).1)
              ++ (to_list k.fallback ++ (order_provider_candidates m k.passthrough).1)))
          ≡ occurrences j (ids (keep (routable policy now s) candidates))
    count-arranged n m j =
        let p = has_id j in
        let a = count-order n j k.available (λ i. let h = few i in omega arith) in
        let b = count-order m j k.passthrough (λ i. let h = few i in omega arith) in
        let front =
          count_if-append p (to_list k.preferred) (order_provider_candidates n k.available).1 in
        let rear =
          count_if-append p (to_list k.fallback) (order_provider_candidates m k.passthrough).1 in
        let all =
          count_if-ids-++ j (to_list k.preferred ++ (order_provider_candidates n k.available).1)
            (to_list k.fallback ++ (order_provider_candidates m k.passthrough).1) in
        let t = totals j in
        let r = occurrences-ids j (keep (routable policy now s) candidates) in omega arith

    arrange-Arranged :
        (s' : RuntimeState) (sequence : ℕ)
        → Arranged policy now s candidates (arrange s' sequence k).candidates
    unfolding arrange
    arrange-Arranged s' sequence =
        let m = (order_provider_candidates sequence k.available).0 in
        let front = to_list k.preferred ++ (order_provider_candidates sequence k.available).1 in
        let rear = to_list k.fallback ++ (order_provider_candidates m k.passthrough).1 in
        let e : to_list k.preferred ++ ((order_provider_candidates sequence k.available).1 ++ rear)
            ≡ front ++ rear =
          sym (
            append_assoc (to_list k.preferred) (order_provider_candidates sequence k.available).1
              rear) in
        record {
          front = front;
          rear = rear;
          split = e;
          front_open =
              All-append (λ c. is_blocked policy now s c ≡ false) (to_list k.preferred) _
                sorted.preferred
                (order_provider_candidates-All (λ c. is_blocked policy now s c ≡ false) sequence
                  k.available sorted.available);
          rear_blocked =
              All-append (λ c. is_blocked policy now s c ≡ true) (to_list k.fallback) _
                sorted.fallback
                (order_provider_candidates-All (λ c. is_blocked policy now s c ≡ true) m
                  k.passthrough sorted.passthrough);
          same = λ j. ap (λ xs. occurrences j (ids xs)) e ∙ count-arranged sequence m j;
        }

nonempty : (c : ProviderCandidate) (cs : List ProviderCandidate) → (length (c ∷ cs) == 0) ≢ true
nonempty c cs = λ e. ground arith

zero_plus : (n : ℕ) → 0 + n ≡ n
zero_plus n = omega arith

lookup-state_of :
    (s : RuntimeState) (model sticky_key : String) (now later : Time) (j : String)
    → state_of (lookup_sticky_provider (cleanup_expired_sticky s now) model sticky_key later).1 j
      ≡ state_of s j
unfolding lookup_sticky_provider cleanup_expired_sticky
lookup-state_of s model sticky_key now later j = ground arith

-- When no two candidates share a provider, `orderCandidates` puts the candidates that are not
-- blocked first and the blocked ones that may pass through after them, and its result holds every
-- provider as often as the candidates that are routable do: none is lost, doubled or added.
pub order_candidates-Arranged :
    (s : RuntimeState) (sequence : ℕ) (snap : Snapshot) (model sticky_key : String)
    (now later : Time) (candidates : List ProviderCandidate)
    → Nodup (ids candidates)
    → Arranged snap.routing_policy.failure_policy now s candidates
        (order_candidates s sequence snap model sticky_key now later candidates).candidates
unfolding order_candidates
order_candidates-Arranged s sequence snap model sticky_key now later [] d = record {
  front = [];
  rear = [];
  split = refl;
  front_open = tt;
  rear_blocked = tt;
  same = λ j. refl;
}
order_candidates-Arranged s sequence snap model sticky_key now later (c ∷ cs) d =
    let policy = snap.routing_policy.failure_policy in
    let found = lookup_sticky_provider (cleanup_expired_sticky s now) model sticky_key later in
    let same = λ (j : String). lookup-state_of s model sticky_key now later j in
    let start : Sorted (is_blocked policy now s) no_classes = record {
      preferred = tt;
      available = tt;
      fallback = tt;
      passthrough = tt;
    } in
    if_intro (λ (o : Ordered). Arranged policy now s (c ∷ cs) o.candidates) (length (c ∷ cs) == 0)
      (λ e. absurd (nonempty c cs e))
      λ _.
        arrange-Arranged policy now s (c ∷ cs)
          (λ j.
            subst (λ n. n ≤ 1) (occurrences-ids j (c ∷ cs))
              (occurrences_of_Nodup j (ids (c ∷ cs)) d))
          (classify found.0 policy now (c ∷ cs) found.1 no_classes).0
          (Sorted-classify found.0 policy now s (c ∷ cs) found.1 no_classes same start)
          (λ j.
            total-classify found.0 policy now (has_id j) s (c ∷ cs) found.1 no_classes same
            ∙ zero_plus _)
          _ sequence
