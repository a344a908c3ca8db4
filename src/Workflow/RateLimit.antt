-- ===== src/Workflow/RateLimit.antt =====
-- crates/application/src/rate_limit.rs: the scopes, their limits and windows, and the limiter that
-- counts in memory.
use safe_cameroon.Common.{
  ℕ, ◌+◌, ◌*◌, String, Bool, List, [], ◌∷◌, Eq, eq_of, u32, leb, if◌then◌else◌, ◌==◌, ◌&&◌,
  String_eq,
}

pub data RateLimitScope : Type 0 where
  anonymous_report_submission reviewer_login_attempt citizen_subscription_creation
        attachment_upload_request voice_transcription_request :
      RateLimitScope

unfoldable pub RateLimitScope-discrete : Discrete RateLimitScope
RateLimitScope-discrete = hlevel

instance abbrev pub RateLimitScope_eq : Eq RateLimitScope
RateLimitScope_eq = eq_of RateLimitScope-discrete

unfoldable pub rate_limit_scope_as_database_value : RateLimitScope → String
rate_limit_scope_as_database_value RateLimitScope.anonymous_report_submission =
    "ANONYMOUS_REPORT_SUBMISSION"
rate_limit_scope_as_database_value RateLimitScope.reviewer_login_attempt = "REVIEWER_LOGIN_ATTEMPT"
rate_limit_scope_as_database_value RateLimitScope.citizen_subscription_creation =
    "CITIZEN_SUBSCRIPTION_CREATION"
rate_limit_scope_as_database_value RateLimitScope.attachment_upload_request =
    "ATTACHMENT_UPLOAD_REQUEST"
rate_limit_scope_as_database_value RateLimitScope.voice_transcription_request =
    "VOICE_TRANSCRIPTION_REQUEST"

unfoldable pub limit : RateLimitScope → ℕ
limit RateLimitScope.anonymous_report_submission = 10
limit RateLimitScope.reviewer_login_attempt = 5
limit RateLimitScope.citizen_subscription_creation = 10
limit RateLimitScope.attachment_upload_request = 30
limit RateLimitScope.voice_transcription_request = 5

-- In seconds.
unfoldable pub window : RateLimitScope → ℕ
window RateLimitScope.anonymous_report_submission = 60 * 60
window RateLimitScope.reviewer_login_attempt = 15 * 60
window RateLimitScope.citizen_subscription_creation = 60 * 60
window RateLimitScope.attachment_upload_request = 60 * 60
window RateLimitScope.voice_transcription_request = 60 * 60

-- The counts of `InMemoryRateLimiter`.
pub record Count : Type 0 where
  pub scope : RateLimitScope
  pub source_key : String
  pub requests : ℕ  -- u32

-- The counts after one more request of a source, and what its own count is then.
unfoldable pub count_request : List Count → RateLimitScope → String → List Count × ℕ
count_request [] scope source_key =
    (record { scope = scope; source_key = source_key; requests = 1 } ∷ [], 1)
count_request (entry ∷ entries) scope source_key =
    let (later, requests) = count_request entries scope source_key in
    if entry.scope == scope && entry.source_key == source_key
    then (record entry { requests = u32 (entry.requests + 1) } ∷ entries, u32 (entry.requests + 1))
    else (entry ∷ later, requests)

unfoldable pub record_and_check : List Count → RateLimitScope → String → List Count × Bool
unfolding count_request limit
record_and_check counts scope source_key =
    let (counts', requests) = count_request counts scope source_key in
    (counts', leb requests (limit scope))
