-- ===== src/Store/RateLimits.antt =====
-- crates/infrastructure/src/postgres/rate_limits.rs: the `rate_limit_windows` table. `now` is the
-- system's clock in seconds.
pub mod Counting
pub mod Limiting
use safe_cameroon.Common.{
  ℕ, ◌+◌, ◌-◌, ◌*◌, ◌%◌, String, Bool, true, not, List, [], ◌∷◌, filter, length, Result, ok, err,
  ltb, leb, if◌then◌else◌, ◌==◌, ◌&&◌, ℕ_eq, String_eq,
}
use safe_cameroon.Workflow.RateLimit.{RateLimitScope, RateLimitScope_eq, limit, window}

pub record Window : Type 0 where
  pub scope : RateLimitScope
  pub source_key : String
  pub window_start_epoch_seconds : ℕ
  pub request_count : ℕ  -- an INTEGER column

-- The statement fails where the column's type ends.
pub data RateLimitError : Type 0 where
  integer_out_of_range : RateLimitError

abbrev pub is_window : RateLimitScope → String → ℕ → Window → Bool
is_window scope source_key start w =
    w.scope == scope && w.source_key == source_key && w.window_start_epoch_seconds == start

-- `INSERT ... ON CONFLICT DO UPDATE ... RETURNING request_count`.
unfoldable pub upsert : List Window → RateLimitScope → String → ℕ → List Window × ℕ
upsert [] scope source_key start = (
  record {
    scope = scope;
    source_key = source_key;
    window_start_epoch_seconds = start;
    request_count = 1;
  }
      ∷ [],
  1,
)
upsert (w ∷ ws) scope source_key start =
    let (later, count) = upsert ws scope source_key start in
    if is_window scope source_key start w
    then (record w { request_count = w.request_count + 1 } ∷ ws, w.request_count + 1)
    else (w ∷ later, count)

unfoldable pub window_start : ℕ → RateLimitScope → ℕ
unfolding window
window_start now scope = now - now % window scope

unfoldable pub record_and_check :
    List Window → ℕ → RateLimitScope → String → List Window × Result Bool RateLimitError
unfolding upsert window_start limit
record_and_check windows now scope source_key =
    let (windows', request_count) = upsert windows scope source_key (window_start now scope) in
    if ltb request_count 2147483648
    then (windows', ok (leb request_count (limit scope)))
    else (windows, err integer_out_of_range)

abbrev pub retention : ℕ
retention = 24 * 60 * 60

-- The rows that stay, and how many were removed.
unfoldable pub delete_expired_windows : List Window → ℕ → List Window × ℕ
delete_expired_windows windows now =
    let cutoff = now - retention in
    (
      filter (λ w. not (ltb w.window_start_epoch_seconds cutoff)) windows,
      length (filter (λ w. ltb w.window_start_epoch_seconds cutoff) windows),
    )
