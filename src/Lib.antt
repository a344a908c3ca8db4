-- ===== src/Lib.antt =====
-- The deterministic core of SafeCameroon: from an anonymous report to a delivered alert.
--
-- A reviewer turns reports into a case and moves it through its states; a verified case is projected
-- through a policy to an alert; the subscription engine matches the alert to consumers; matched
-- consumers' preferences are planned as deliveries, one for each channel, and a worker attempts them
-- until they are sent or given up. Use cases add who may do what; tables shared by the workers keep
-- the deliveries and the outbox.
--
-- Files:
--   Common              numbers with `==`, lists, text (`str::trim`, tables of names), results
--   Domain/Ids          crates/domain/src/ids.rs: UUIDs as numbers; `new()` is an argument
--   Domain/Case         crates/domain/src/case.rs: `Case` and its methods; Case/Commands sequences
--   Domain/Alert        crates/domain/src/alert.rs: `Alert`; Alert/Policy `AlertPolicy::new` and
--                       the fields each audience may see
--   Domain/Subscription crates/domain/src/subscription.rs: rules, `evaluate_subscriptions`,
--                       `deduplicate_by_consumer`
--   Domain/Delivery     crates/domain/src/delivery.rs: `Delivery` and `plan_deliveries`;
--                       Delivery/Plan preferences, keys and `RetryPolicy`
--   Domain/Organization, Consumer, Report, Attachment, Extraction
--                       the files of the same names in crates/domain/src
--   Domain/*/Vocabulary the closed vocabularies with their database values; Domain/Vocabularies
--   Workflow/Case, Alert, Authorization, Delivery, Message, Intake, Citizen
--                       crates/application/src/case_workflow.rs, alert_workflow.rs, authorization.rs,
--                       delivery_workflow.rs (with the events of webhook.rs), channel.rs, lib.rs and
--                       citizen_subscription.rs
--   Workflow/RateLimit  crates/application/src/rate_limit.rs
--   Store/Deliveries, Store/Outbox, Store/RateLimits
--                       crates/infrastructure/src/postgres/deliveries.rs, outbox.rs and
--                       rate_limits.rs: a table is a list of rows, a transaction a step;
--                       Deliveries/Claim `claim_next`, with the steps of concurrent workers in
--                       Claim/Interleaving; Deliveries/Lookups the attempts
--   Worker/Dispatch, Worker/Matching
--                       apps/worker/src/dispatch.rs and subscription_matching.rs: one batch
--   Api/Webhooks        apps/api/src/webhooks.rs, with the replay guard of
--                       crates/infrastructure/src/webhook.rs
--   Api/Access          apps/api/src/organization_access.rs and reviewer.rs, with their queries of
--                       crates/infrastructure/src/postgres/reviewers.rs and organizations.rs
--   Infrastructure/Hex, Infrastructure/SessionToken
--                       crates/infrastructure/src/hex.rs and auth/session_token.rs, over bytes
--   Tests               each result at a concrete input
--
-- Correspondence. A struct is a record and an enum a data type with the source's variants in snake
-- case. A method on `&mut self` returns the new value with its result; `expect`, `unreachable!` and
-- other panics are `none` where they could happen. `new` and `reconstitute` of a type carry the type's
-- name (`policy_new`). A random identifier is an argument, and a plan takes a function that gives the
-- k-th pair of them. u8, u32 and u64 wrap at their width; the results on versions and attempt counts
-- say which bounds they need. No definition runs on fuel: each loop of the source goes over a list.
--
-- Parameters. `lower` is Unicode's lower-casing, `uuid_text` the text of a UUID, of which the keys need
-- that it has no colon and is another for another UUID, and `sha256` the digest of the `sha2` crate.
-- A record `Environment` holds what a worker or a handler asks of the rest: the tables that it only
-- reads, channels and verifiers, the clock, fresh identifiers and the errors of the database, by the
-- position in the batch where an answer may change.
--
-- Not modelled: the other HTTP handlers, the web applications, providers, object storage and sign-in,
-- which are input and output; the JSON of payloads; the rows that a transaction adds to the event,
-- audit and outbox tables; polling and shutdown of the worker; the other tables.
pub mod Common
pub mod Domain
pub mod Workflow
pub mod Store
pub mod Worker
pub mod Infrastructure
pub mod Api
pub mod Tests
