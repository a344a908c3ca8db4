-- ===== src/Domain/Subscription/Grouping.antt =====
-- Proofs about `deduplicate_by_consumer` of crates/domain/src/subscription.rs.
use safe_cameroon.Common.{
  ◌≡◌, refl, sym, ◌∙◌, inl, inr, false, ◌||◌, List, [], ◌∷◌, ◌++◌, append_assoc, append-nil, map,
  filter, All, contains, Distinct, is_empty, if◌then◌else◌, arith, Bool-cases, ◌==◌, ℕ_eq,
}
use safe_cameroon.Domain.Ids.{ConsumerId}
use safe_cameroon.Domain.Subscription.{
  MatchDecision, MatchedSubscription, ConsumerMatch, matched_of, add_match, group_matches,
  deduplicate_by_consumer,
}

-- The subscriptions of a consumer in a grouping, and in a list of decisions.
abbrev pub grouped_of : ConsumerId → List ConsumerMatch → List MatchedSubscription
grouped_of c [] = []
grouped_of c (entry ∷ entries) =
    let later = grouped_of c entries in
    if entry.consumer_id == c then entry.matching_subscriptions else later

abbrev pub decided_for : ConsumerId → List MatchDecision → List MatchedSubscription
decided_for c [] = []
decided_for c (d ∷ ds) =
    let later = decided_for c ds in if d.consumer_id == c then matched_of d ∷ later else later

abbrev pub consumers : List ConsumerMatch → List ConsumerId
consumers = map (λ entry. entry.consumer_id)

grouped_of-add_match :
    (c k : ConsumerId) (m : MatchedSubscription) (entries : List ConsumerMatch)
    → grouped_of c (add_match k m entries)
      ≡ (if k == c then grouped_of c entries ++ (m ∷ []) else grouped_of c entries)
unfolding add_match
grouped_of-add_match c k m [] = ground arith
grouped_of-add_match c k m (entry ∷ entries) = ground (arith, grouped_of-add_match c k m entries)

grouped_of-group_matches :
    (c : ConsumerId) (result : List ConsumerMatch) (ds : List MatchDecision)
    → grouped_of c (group_matches result ds) ≡ grouped_of c result ++ decided_for c ds
unfolding group_matches
grouped_of-group_matches c result [] = sym (append-nil (grouped_of c result))
grouped_of-group_matches c result (d ∷ ds) =
    grouped_of-group_matches c (add_match d.consumer_id (matched_of d) result) ds
    ∙ elim (Bool-cases (d.consumer_id == c)) [
      | inl same ↦
          rw (grouped_of-add_match, same) (append_assoc (grouped_of c result) _ (decided_for c ds))
      | inr other ↦ rw (grouped_of-add_match, other)
    ]

-- Each consumer stands once, and with at least one subscription.
pub record IsGrouping (entries : List ConsumerMatch) : Type 0 where
  pub distinct : Distinct (consumers entries)
  pub inhabited : All (λ entry. is_empty entry.matching_subscriptions ≡ false) entries

pub contains-consumers-add_match :
    (c k : ConsumerId) (m : MatchedSubscription) (entries : List ConsumerMatch)
    → contains (consumers (add_match k m entries)) c ≡ (contains (consumers entries) c || k == c)
unfolding add_match
contains-consumers-add_match c k m [] = ground arith
contains-consumers-add_match c k m (entry ∷ entries) =
    ground (arith, contains-consumers-add_match c k m entries)

Distinct-add_match :
    (k : ConsumerId) (m : MatchedSubscription) (entries : List ConsumerMatch)
    → Distinct (consumers entries)
    → Distinct (consumers (add_match k m entries))
unfolding add_match
Distinct-add_match k m [] d = (refl, tt)
Distinct-add_match k m (entry ∷ entries) d = ground (
  arith,
  Distinct-add_match k m entries d.1,
  contains-consumers-add_match entry.consumer_id k m entries,
  d.0,
)

inhabited-add_match :
    (k : ConsumerId) (m : MatchedSubscription) (entries : List ConsumerMatch)
    → All (λ entry. is_empty entry.matching_subscriptions ≡ false) entries
    → All (λ entry. is_empty entry.matching_subscriptions ≡ false) (add_match k m entries)
unfolding add_match
inhabited-add_match k m [] h = (refl, tt)
inhabited-add_match k m (entry ∷ entries) h = elim (Bool-cases (entry.consumer_id == k)) [
  | inl same ↦ rw same (is_empty-snoc entry.matching_subscriptions m, h.1)
  | inr other ↦ rw other (h.0, inhabited-add_match k m entries h.1)
]
  where
    is_empty-snoc :
        (xs : List MatchedSubscription) (x : MatchedSubscription)
        → is_empty (xs ++ (x ∷ [])) ≡ false
    is_empty-snoc [] x = refl
    is_empty-snoc (y ∷ ys) x = refl

group_matches-IsGrouping :
    (ds : List MatchDecision) (result : List ConsumerMatch)
    → IsGrouping result
    → IsGrouping (group_matches result ds)
unfolding group_matches
group_matches-IsGrouping [] result g = g
group_matches-IsGrouping (d ∷ ds) result g =
    group_matches-IsGrouping ds (add_match d.consumer_id (matched_of d) result) (record {
      distinct = Distinct-add_match d.consumer_id (matched_of d) result g.distinct;
      inhabited = inhabited-add_match d.consumer_id (matched_of d) result g.inhabited;
    })

-- Each consumer gets one entry at most, with exactly the matched subscriptions that are its own, in
-- the order of the decisions, each under the version that was evaluated; no entry is empty.
pub deduplicate_by_consumer-grouped_of :
    (decisions : List MatchDecision)
    → IsGrouping (deduplicate_by_consumer decisions)
      × ((c : ConsumerId)
          → grouped_of c (deduplicate_by_consumer decisions)
            ≡ decided_for c (filter (λ d. d.matched) decisions))
unfolding deduplicate_by_consumer
deduplicate_by_consumer-grouped_of decisions = (
  group_matches-IsGrouping (filter (λ d. d.matched) decisions) []
      (record { distinct = tt; inhabited = tt }),
  λ c. grouped_of-group_matches c [] (filter (λ d. d.matched) decisions),
)
