-- ===== src/Domain/Delivery/Preferences.antt =====
-- Proofs about `DeliveryPreference::new` of crates/domain/src/delivery.rs.
use safe_cameroon.Common.{
  ◌≡◌, ◌≢◌, sym, ◌∙◌, false, List, [], ◌∷◌, ◌++◌, contains-append, none, ok, contains, All, All-map,
  Pairwise, arith, ne_of_beq_false, ◌==◌, ◌||◌, is_empty, ℕ_eq,
}
use safe_cameroon.Domain.Delivery.{
  ChannelType, ChannelType_eq, ChannelEndpoint, DeliveryStrategy, DeliveryPreference,
  repeated_channel, delivery_preference_new,
}

abbrev pub OneEach : List ChannelEndpoint → Type 0
OneEach = Pairwise (λ a b. a.channel ≢ b.channel)

-- No channel of the endpoints was seen before.
abbrev Unseen : List ChannelType → List ChannelEndpoint → Type 0
Unseen seen = All (λ endpoint. contains seen endpoint.channel ≡ false)

unseen_before :
    (seen : List ChannelType) (c d : ChannelType)
    → contains (seen ++ (c ∷ [])) d ≡ false
    → (contains seen d ≡ false) × (c ≢ d)
unseen_before seen c d h =
    let joined : (contains seen d || (c == d || false)) ≡ false =
      sym (contains-append seen (c ∷ []) d) ∙ h in
    (ground arith, ne_of_beq_false c d (ground arith))

repeated_channel-none :
    (seen : List ChannelType) (endpoints : List ChannelEndpoint)
    → repeated_channel seen endpoints ≡ none
    → Unseen seen endpoints × OneEach endpoints
unfolding repeated_channel
repeated_channel-none seen [] h = (tt, tt)
repeated_channel-none seen (endpoint ∷ endpoints) h =
    let fresh : contains seen endpoint.channel ≡ false = ground arith in
    let (unseen, one_each) =
      repeated_channel-none (seen ++ (endpoint.channel ∷ [])) endpoints (ground arith) in
    (
      (
        fresh,
        All-map _ (λ e. contains seen e.channel ≡ false) endpoints
            (λ e u. (unseen_before seen endpoint.channel e.channel u).0) unseen,
      ),
      (
        All-map _ (λ e. endpoint.channel ≢ e.channel) endpoints
            (λ e u. (unseen_before seen endpoint.channel e.channel u).1) unseen,
        one_each,
      ),
    )

-- A preference that its constructor makes keeps its strategy and its channels, has at least one
-- channel, and has each channel once.
pub delivery_preference_new-OneEach :
    (strategy : DeliveryStrategy) (channels : List ChannelEndpoint) (p : DeliveryPreference)
    → delivery_preference_new strategy channels ≡ ok p
    → (p.strategy ≡ strategy)
      × (p.channels ≡ channels)
      × (is_empty channels ≡ false)
      × Pairwise (λ a b. a.channel ≢ b.channel) channels
unfolding delivery_preference_new
delivery_preference_new-OneEach strategy channels p h =
    (ground arith, ground arith, ground arith, (repeated_channel-none [] channels (ground arith)).1)
