-- ===== src/Tests/Routes.antt =====
-- Two candidates of the weights 2 and 1.
use ai_model_gateway.Base.{
  ◌≡◌, ◌+◌, refl, true, false, some, [], arith, ◌==◌, eq_iff, sym, count_if,
}
use mathlib.Core.List.{head?, Perm, Nodup, Nodup-nil, Nodup-cons, not-mem-nil, mem-cons}
use mathlib.Core.Logic.Or
use ai_model_gateway.Snapshot.{RetryBackoff}
use ai_model_gateway.Routing.{weighted_pool, order_provider_candidates}
use ai_model_gateway.Routing.Order.{order_provider_candidates-perm}
use ai_model_gateway.Routing.Picked.{ids}
use ai_model_gateway.Routing.Shares.{order_provider_candidates-first}
use ai_model_gateway.Tests.Samples.{candidate, two_candidates, snapshot}
use ai_model_gateway.Runtime.{RuntimeState}
use ai_model_gateway.Runtime.Candidates.{order_candidates}
use ai_model_gateway.Runtime.Candidates.Order.{Arranged, order_candidates-Arranged}

abbrev empty_state : RuntimeState
empty_state = record { providers = []; sticky = []; key_rotators = [] }

two_candidates-Nodup : Nodup (ids two_candidates)
two_candidates-Nodup = Nodup-cons.1 (
  λ m.
      Or.elim (λ a. absurd a) (mem-cons.0 m)
        (λ e. let f : false ≡ true = (eq_iff "b" "a").1 (sym e) in cc) not-mem-nil,
  Nodup-cons.1 (not-mem-nil, Nodup-nil),
)

order_provider_candidates-perm_example :
    Perm (ids (order_provider_candidates 4 two_candidates).1) (ids two_candidates)
order_provider_candidates-perm_example =
    order_provider_candidates-perm 4 two_candidates two_candidates-Nodup

order_provider_candidates-first_example :
    (head? (order_provider_candidates 5 two_candidates).1 ≡ some (candidate "b" 1))
    × ((order_provider_candidates 5 two_candidates).0 ≡ 5 + 1)
    × (count_if (λ k. k == 1) (weighted_pool 0 two_candidates) ≡ 1)
order_provider_candidates-first_example =
    order_provider_candidates-first 5 1 two_candidates (candidate "b" 1) (omega arith) (omega arith)
      (unfold weighted_pool in refl) refl

order_candidates-Arranged_example :
    Arranged snapshot.routing_policy.failure_policy 9 empty_state two_candidates
      (order_candidates empty_state 4 snapshot "large" "s" 9 10 two_candidates).candidates
order_candidates-Arranged_example =
    order_candidates-Arranged empty_state 4 snapshot "large" "s" 9 10 two_candidates
      two_candidates-Nodup

abbrev backoff : RetryBackoff
backoff = snapshot.routing_policy.retry_backoff
