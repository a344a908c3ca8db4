-- ===== src/Tests.antt =====
-- The theorems at concrete inputs.
mod Samples
mod Case
mod Alert
mod Subscription
mod Delivery
mod Planning
mod Workflow
mod Store
mod Claim
mod Worker
mod Api
mod Access
mod SessionToken
