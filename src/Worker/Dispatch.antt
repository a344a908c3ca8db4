-- ===== src/Worker/Dispatch.antt =====
-- apps/worker/src/dispatch.rs: claim deliveries, send each through its channel and record the outcome.
-- The alerts and consumers tables, the channels, the clock and whether the database commits are what
-- the environment answers at the k-th dispatch of a batch.
pub mod Recording
pub mod Loop
pub mod Settled
use safe_cameroon.Common.{
  ℕ, zero, suc, ◌+◌, String, Bool, true, false, List, [], ◌∷◌, length, Option, none, some, Result,
  ok, err,
}
use safe_cameroon.Domain.Ids.{Uuid, AlertId, ConsumerId, DeliveryId}
use safe_cameroon.Domain.Alert.{Alert}
use safe_cameroon.Domain.Consumer.{Consumer}
use safe_cameroon.Domain.Delivery.{Delivery, ChannelType}
use safe_cameroon.Workflow.Case.{automated}
use safe_cameroon.Workflow.Delivery.{
  Minted, DeliveryAttemptTransition, record_delivery_success, record_delivery_failure,
}
use safe_cameroon.Workflow.Message.{OutboundMessage, build_outbound_message}
use safe_cameroon.Store.Deliveries.Claim.{claim_next}
use safe_cameroon.Store.Deliveries.Lookups.{Tables, apply_attempt_transition}

pub record ChannelSendOutcome : Type 0 where
  pub provider_message_id : Option String

pub record ChannelError : Type 0 where
  pub retryable : Bool
  pub message : String

-- An `expect` that fails, or the `sqlx::Error` that `?` passes on.
pub data Halt (SqlxError : Type 0) : Type 0 where
  panic : Halt SqlxError
  database_error : SqlxError → Halt SqlxError

abbrev pub Done : Type 0 → Type 0
Done SqlxError = Result {0, 0} Unit (Halt SqlxError)

pub record Environment (SqlxError : Type 0) : Type 0 where
  pub find_alert : ℕ → AlertId → Result (Option Alert) SqlxError
  pub find_consumer : ℕ → ConsumerId → Result (Option Consumer) SqlxError
  pub registry : ChannelType → Option (ℕ → OutboundMessage → Result ChannelSendOutcome ChannelError)
  pub commit_error : ℕ → Option SqlxError
  pub clock : ℕ → ℕ
  pub mint : ℕ → Minted × Uuid
  pub lower : String → String

abbrev pub locale_of : Option Consumer → Option String
locale_of none = none
locale_of (some consumer) = consumer.locale

module _ {SqlxError : Type 0} (env : Environment SqlxError) where
  -- `apply_attempt_transition`, whose outcome the callers do not look at.
  unfoldable pub write_attempt :
      ℕ → Tables → Delivery → DeliveryAttemptTransition → Tables × Done SqlxError
  unfolding apply_attempt_transition
  write_attempt k tables d transition = elim (env.commit_error k) [
    | some e ↦ (tables, err (database_error e))
    | none ↦ ((apply_attempt_transition (env.clock k) tables d transition).0, ok tt)
  ]

  unfoldable pub fail : ℕ → Tables → Delivery → Bool → String → Tables × Done SqlxError
  unfolding record_delivery_failure write_attempt
  fail k tables d retryable reason =
      let (ids, operation_id) = env.mint k in
      let (d', result) = record_delivery_failure ids d retryable reason automated operation_id in
      elim result [
        | err e ↦ (tables, err panic)
        | ok transition ↦ write_attempt k tables d' transition
      ]

  unfoldable pub record_sent : ℕ → Tables → Delivery → ChannelSendOutcome → Tables × Done SqlxError
  unfolding record_delivery_success write_attempt
  record_sent k tables d outcome =
      let (ids, operation_id) = env.mint k in
      let (d', result) =
        record_delivery_success ids d outcome.provider_message_id automated operation_id in
      elim result [
        | err e ↦ (tables, err panic)
        | ok transition ↦ write_attempt k tables d' transition
      ]

  unfoldable pub send_and_record :
      ℕ
      → Tables
      → Delivery
      → (ℕ → OutboundMessage → Result ChannelSendOutcome ChannelError)
      → OutboundMessage
      → Tables × Done SqlxError
  unfolding record_sent fail
  send_and_record k tables d send message = elim (send k message) [
    | ok outcome ↦ record_sent k tables d outcome
    | err error ↦ fail k tables d error.retryable error.message
  ]

  unfoldable pub dispatch_one : ℕ → Tables → Delivery → Tables × Done SqlxError
  unfolding fail send_and_record build_outbound_message
  dispatch_one k tables d = elim (env.registry d.channel) [
    | none ↦ fail k tables d false "no channel registered for this delivery's channel type"
    | some send ↦ elim (env.find_alert k d.alert_id) [
      | err e ↦ (tables, err (database_error e))
      | ok none ↦ fail k tables d false "alert no longer exists"
      | ok (some alert) ↦ elim (env.find_consumer k d.consumer_id) [
        | err e ↦ (tables, err (database_error e))
        | ok consumer ↦
            let message = build_outbound_message env.lower alert d (locale_of consumer) in
            send_and_record k tables d send message
      ]
    ]
  ]

  -- The loop; an error ends it, and what earlier dispatches wrote stays.
  unfoldable pub dispatch_all : ℕ → Tables → List Delivery → Tables × Done SqlxError
  unfolding dispatch_one
  dispatch_all k tables [] = (tables, ok tt)
  dispatch_all k tables (d ∷ rest) =
      let (tables', result) = dispatch_one k tables d in
      let later = dispatch_all (k + 1) tables' rest in
      elim result [ err halt ↦ (tables', err halt) | ok _ ↦ later ]

  unfoldable pub process_batch :
      (ℕ → Minted × Uuid)
      → ℕ
      → (DeliveryId → Bool)
      → Tables
      → ℕ
      → Tables × Result ℕ (Halt SqlxError)
  unfolding claim_next dispatch_all
  process_batch start_mint now locked tables batch_size =
      elim (claim_next start_mint now locked tables.rows batch_size) [
        | none ↦ (tables, err panic)
        | some (rows, claimed) ↦
            let (tables', result) =
              dispatch_all 0 (record { rows = rows; attempts = tables.attempts }) claimed in
            elim result [ err halt ↦ (tables', err halt) | ok _ ↦ (tables', ok (length claimed)) ]
      ]
