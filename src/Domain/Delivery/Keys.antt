-- ===== src/Domain/Delivery/Keys.antt =====
-- Proofs about the idempotency keys of crates/domain/src/delivery.rs.
use text.Mathlib.TextLemmas.{append-nil}
use safe_cameroon.Common.{◌≡◌, String, NoColon, split_colon, IsExact-injective, ap, arith}
use safe_cameroon.Domain.Ids.{Uuid, AlertId, ConsumerId}
use safe_cameroon.Domain.Delivery.{
  ChannelType, channel_type_as_database_value, channel_type-IsExact, idempotency_key_new,
}

channel_type-NoColon : (c : ChannelType) → NoColon (channel_type_as_database_value c)
unfolding channel_type_as_database_value
channel_type-NoColon ChannelType.whats_app = omega arith
channel_type-NoColon ChannelType.sms = omega arith
channel_type-NoColon ChannelType.email = omega arith
channel_type-NoColon ChannelType.push = omega arith

-- The `uuid` crate writes an identifier in hexadecimal digits and hyphens, so without a colon, and
-- two identifiers differently.
module _ (uuid_text : Uuid → String) (no_colon : (u : Uuid) → NoColon (uuid_text u))
    (uuid_text_exact : (u v : Uuid) → uuid_text u ≡ uuid_text v → u ≡ v) where
  -- A key determines the consumer, the alert, the channel and the endpoint that it was made of,
  -- whatever the endpoint's text, when the text of a UUID has no colon and is another for another
  -- UUID.
  pub idempotency_key_new_injective :
      (c c' : ConsumerId) (a a' : AlertId) (ch ch' : ChannelType) (e e' : String)
      → idempotency_key_new uuid_text c a ch e ≡ idempotency_key_new uuid_text c' a' ch' e'
      → (c ≡ c') × (a ≡ a') × (ch ≡ ch') × (e ≡ e')
  unfolding idempotency_key_new
  idempotency_key_new_injective c c' a a' ch ch' e e' h =
      let (same_consumer, h₁) =
        split_colon _ _ _ _ (no_colon c) (no_colon c') (ap (λ k. k.as_str) h) in
      let (same_alert, h₂) = split_colon _ _ _ _ (no_colon a) (no_colon a') h₁ in
      let (same_channel, h₃) =
        split_colon _ _ _ _ (channel_type-NoColon ch) (channel_type-NoColon ch') h₂ in
      (
        uuid_text_exact c c' same_consumer,
        uuid_text_exact a a' same_alert,
        IsExact-injective channel_type-IsExact ch ch' same_channel,
        simp append-nil at h₃,
      )
