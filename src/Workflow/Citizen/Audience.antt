-- ===== src/Workflow/Citizen/Audience.antt =====
-- Proofs about `prepare_citizen_subscription` of crates/application/src/citizen_subscription.rs.
use safe_cameroon.Common.{
  ◌≡◌, refl, ◌⊎◌, ◌↔◌, inl, inr, String, true, false, List, some, Result, ok, err, Memᴰ, arith,
  is_empty, is_blank, trim, [], ◌∷◌, ap, sym, ◌∙◌, ℕ, ◌≤◌, subst, Bool-cases, is_ok, All,
}
use safe_cameroon.Domain.Ids.{ConsumerId, SubscriptionId}
use safe_cameroon.Domain.Alert.{Alert, AlertVisibility}
use safe_cameroon.Domain.Consumer.{consumer_new}
use safe_cameroon.Domain.Delivery.{
  ChannelEndpoint, ChannelType, channel_endpoint_new, delivery_preference_new, repeated_channel,
}
use safe_cameroon.Domain.Subscription.{
  severity_rank, evaluate_subscription, geo_area_new, subscription_new,
}
use safe_cameroon.Domain.Subscription.Matching.{Satisfies, evaluate_subscription-matched_iff}
use safe_cameroon.Workflow.Citizen.{
  CitizenSubscriptionRequest, PreparedCitizenSubscription, areas_of, citizen_alert_visibilities,
  rules_of, assemble, prepare_citizen_subscription, CitizenSubscriptionError,
}

for_citizens :
    {v : AlertVisibility}
    → Memᴰ v citizen_alert_visibilities
    → (v ≡ AlertVisibility.community) ⊎ (v ≡ AlertVisibility.public)
for_citizens (Memᴰ.head e) = inl e
for_citizens (Memᴰ.tail (Memᴰ.head e)) = inr e
for_citizens (Memᴰ.tail (Memᴰ.tail m)) = elim m [ ]

kept_of_blank :
    (name : String) (names : List String)
    → is_blank (trim name) ≡ true
    → areas_of (name ∷ names) ≡ areas_of names
unfolding areas_of geo_area_new
kept_of_blank name names h = rw (areas_of, h) refl

kept_of_dark :
    (name : String) (names : List String)
    → is_blank (trim name) ≡ false
    → is_empty (areas_of (name ∷ names)) ≡ false
unfolding areas_of geo_area_new
kept_of_dark name names h = rw (areas_of, h) refl

areas_of-named :
    (names : List String)
    → is_empty (areas_of names) ≡ false
    → (name : String) × Memᴰ name names × (is_blank (trim name) ≡ false)
unfolding areas_of
areas_of-named [] h = cc
areas_of-named (name ∷ names) h = elim (Bool-cases (is_blank (trim name))) [
  | inl blank ↦
      let (other, listed, dark) =
        areas_of-named names (ap is_empty (sym (kept_of_blank name names blank)) ∙ h) in
      (other, Memᴰ.tail listed, dark)
  | inr dark ↦ (name, Memᴰ.head refl, dark)
]

areas_of-kept :
    (name : String) (names : List String)
    → is_blank (trim name) ≡ false
    → Memᴰ name names
    → is_empty (areas_of names) ≡ false
areas_of-kept name [] dark m = elim m [ ]
areas_of-kept name (y ∷ names) dark m = elim (Bool-cases (is_blank (trim y))) [
  | inr other ↦ kept_of_dark y names other
  | inl blank ↦ elim m [
    | Memᴰ.head e ↦ absurd (cc (ap (λ s. is_blank (trim s)) e, dark, blank))
    | Memᴰ.tail later ↦
        ap is_empty (kept_of_blank y names blank) ∙ areas_of-kept name names dark later
  ]
]

-- An area is kept exactly when there is a name that is more than white space.
areas_of-named_iff :
    (names : List String)
    → (is_empty (areas_of names) ≡ false)
      ↔ ((name : String) × Memᴰ name names × (is_blank (trim name) ≡ false))
areas_of-named_iff names =
    (areas_of-named names, λ (name, listed, dark). areas_of-kept name names dark listed)

module _ (sha256 : String → List ℕ) (token : String) (consumer_id : ConsumerId)
    (subscription_id : SubscriptionId) (request : CitizenSubscriptionRequest) where
  assembled :
      (endpoint : ChannelEndpoint)
      → (p : PreparedCitizenSubscription) × (assemble sha256 token consumer_id subscription_id
            request endpoint
          ≡ some p)
        × (p.subscription.rules ≡ rules_of request)
  unfolding assemble delivery_preference_new repeated_channel consumer_new subscription_new trim
  assembled endpoint = (_, refl, refl)

  -- The request is complete: it has an incident type, the name of an area that is not blank once it is
  -- trimmed, and a push subscription that is not.
  abbrev pub IsComplete : Type 0
  IsComplete =
      (is_empty request.incident_types ≡ false)
      × ((name : String) × Memᴰ name request.geography × (is_blank (trim name) ≡ false))
      × (is_blank (trim request.push_subscription_json) ≡ false)

  abbrev endpoint : ChannelEndpoint
  endpoint = record { channel = ChannelType.push; address = trim request.push_subscription_json }

  -- Preparing a subscription never panics, and succeeds exactly when the request names an incident
  -- type, an area that is not blank and a push subscription that is not blank.
  pub prepare_citizen_subscription-ok_iff :
      (r : Result PreparedCitizenSubscription CitizenSubscriptionError)
      × (prepare_citizen_subscription sha256 token consumer_id subscription_id request ≡ some r)
      × ((is_ok r ≡ true) ↔ IsComplete)
  unfolding prepare_citizen_subscription channel_endpoint_new
  prepare_citizen_subscription-ok_iff = elim (Bool-cases (is_empty request.incident_types)) [
    | inl no_types ↦ (err CitizenSubscriptionError.empty_incident_types, ground arith, ground arith)
    | inr types ↦ elim (Bool-cases (is_empty (areas_of request.geography))) [
      | inl no_areas ↦ (
        err CitizenSubscriptionError.invalid_geography,
        ground arith,
        ground (arith, areas_of-named_iff request.geography),
      )
      | inr areas ↦ elim (Bool-cases (is_blank (trim request.push_subscription_json))) [
        | inl blank ↦
            (err CitizenSubscriptionError.invalid_push_subscription, ground arith, ground arith)
        | inr dark ↦
            let (p, e, _) = assembled endpoint in
            (
              ok p,
              rw (types, areas, dark) (rw e refl),
              (λ _. (types, (areas_of-named_iff request.geography).0 areas, dark), λ _. refl),
            )
      ]
    ]
  ]

  prepared-rules :
      (p : PreparedCitizenSubscription)
      → prepare_citizen_subscription sha256 token consumer_id subscription_id request ≡ some (ok p)
      → p.subscription.rules ≡ rules_of request
  unfolding prepare_citizen_subscription channel_endpoint_new
  prepared-rules p h = let (q, e, rules) = assembled endpoint in ground arith

  -- Whatever a citizen asks for, the subscription that is prepared matches only alerts for the
  -- community or the public, of a listed incident type and of at least the severity asked for.
  pub prepare_citizen_subscription-matched :
      (lower : String → String) (alert : Alert) (p : PreparedCitizenSubscription)
      → prepare_citizen_subscription sha256 token consumer_id subscription_id request ≡ some (ok p)
      → (evaluate_subscription lower alert p.subscription).matched ≡ true
      → ((alert.visibility ≡ AlertVisibility.community)
          ⊎ (alert.visibility ≡ AlertVisibility.public))
        × Memᴰ alert.incident_type request.incident_types
        × (severity_rank request.minimum_severity ≤ severity_rank alert.severity)
  prepare_citizen_subscription-matched lower alert p h matched =
      let (types, (severe, (_, (seen, _)))) =
        subst (λ rules. All (Satisfies lower alert) rules) (prepared-rules p h)
          ((evaluate_subscription-matched_iff lower alert p.subscription).0 matched) in
      (for_citizens seen, types, severe)
