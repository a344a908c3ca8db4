-- ===== src/Domain/Subscription/Selection.antt =====
-- Proofs about the subscription engine of crates/domain/src/subscription.rs as a whole.
use mathlib.Core.Bool.{and-eq-true_iff}
use safe_cameroon.Common.{
  ◌≡◌, refl, ◌∙◌, sym, ◌↔◌, String, Bool, true, ◌||◌, ◌&&◌, any, any_sound, any_complete, List, [],
  ◌∷◌, filter, All, Memᴰ, contains, arith, ◌==◌, ℕ_eq, nat_eq_iff,
}
use safe_cameroon.Domain.Ids.{ConsumerId}
use safe_cameroon.Domain.Alert.{Alert}
use safe_cameroon.Domain.Subscription.{
  Subscription, MatchDecision, ConsumerMatch, matched_of, add_match, group_matches,
  deduplicate_by_consumer, evaluate_subscription, evaluate_subscriptions,
}
use safe_cameroon.Domain.Subscription.Matching.{Satisfies, evaluate_subscription-matched_iff}
use safe_cameroon.Domain.Subscription.Grouping.{consumers, contains-consumers-add_match}

contains-consumers-group_matches :
    (c : ConsumerId) (ds : List MatchDecision) (result : List ConsumerMatch)
    → contains (consumers (group_matches result ds)) c
      ≡ (contains (consumers result) c || any (λ d. d.consumer_id == c) ds)
unfolding group_matches
contains-consumers-group_matches c [] result = ground arith
contains-consumers-group_matches c (d ∷ ds) result = ground (
  arith,
  contains-consumers-group_matches c ds (add_match d.consumer_id (matched_of d) result),
  contains-consumers-add_match c d.consumer_id (matched_of d) result,
)

any-filter-map :
    (lower : String → String) (alert : Alert) (c : ConsumerId) (subscriptions : List Subscription)
    → any
        (λ d. d.consumer_id == c)
        (filter (λ d. d.matched) (evaluate_subscriptions lower alert subscriptions))
      ≡ any (λ s. (evaluate_subscription lower alert s).matched && s.consumer_id == c) subscriptions
unfolding evaluate_subscriptions
any-filter-map lower alert c [] = refl
any-filter-map lower alert c (s ∷ rest) = ground (arith, any-filter-map lower alert c rest)

module _ (lower : String → String) (alert : Alert) (subscriptions : List Subscription)
    (c : ConsumerId) where
  abbrev wants : Subscription → Bool
  wants s = (evaluate_subscription lower alert s).matched && s.consumer_id == c

  selected : List ConsumerMatch
  selected = deduplicate_by_consumer (evaluate_subscriptions lower alert subscriptions)

  contains-selected : contains (consumers selected) c ≡ any wants subscriptions
  unfolding selected deduplicate_by_consumer
  contains-selected =
      contains-consumers-group_matches c
        (filter (λ d. d.matched) (evaluate_subscriptions lower alert subscriptions)) []
      ∙ any-filter-map lower alert c subscriptions

-- The engine selects a consumer exactly when one of its subscriptions has every rule satisfied.
pub selected_iff :
    (lower : String → String) (alert : Alert) (subscriptions : List Subscription) (c : ConsumerId)
    → (contains
          (consumers (deduplicate_by_consumer (evaluate_subscriptions lower alert subscriptions)))
          c
        ≡ true)
      ↔ ((s : Subscription) × Memᴰ s subscriptions
          × (s.consumer_id ≡ c)
          × All (Satisfies lower alert) s.rules)
unfolding selected
selected_iff lower alert subscriptions c = (
  λ h.
      let (s, listed, wanted) =
        any_sound (wants lower alert subscriptions c) subscriptions
          (sym (contains-selected lower alert subscriptions c) ∙ h) in
      let (matches, own) = (and-eq-true_iff _ _).0 wanted in
      (
        s,
        listed,
        (nat_eq_iff s.consumer_id c).0 own,
        (evaluate_subscription-matched_iff lower alert s).0 matches,
      ),
  λ (s, listed, own, satisfied).
      contains-selected lower alert subscriptions c
      ∙ any_complete (wants lower alert subscriptions c) listed (
          (and-eq-true_iff _ _).1 (
            (evaluate_subscription-matched_iff lower alert s).1 satisfied,
            (nat_eq_iff s.consumer_id c).1 own,
          )),
)
