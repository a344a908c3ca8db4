-- ===== src/Store/RateLimits/Limiting.antt =====
-- Proofs about whom the rate limiter of crates/infrastructure/src/postgres/rate_limits.rs refuses.
use safe_cameroon.Common.{
  ℕ, ◌+◌, ◌-◌, ◌≤◌, ◌<◌, ◌≡◌, refl, ◌∙◌, ap, inl, inr, String, Bool, true, List, [], ◌∷◌, filter,
  length, All, All-map, ok, ltb, leb, if◌then◌else◌, arith, Bool-cases,
}
use safe_cameroon.Workflow.RateLimit.{RateLimitScope, limit}
use safe_cameroon.Store.RateLimits.{
  Window, is_window, upsert, window_start, record_and_check, delete_expired_windows, retention,
}
use safe_cameroon.Store.RateLimits.Counting.{
  Op, request, cleanup, time, perform, run, is_request, requests, stored, upsert-count,
  upsert-stored, window_start-recent, kept-stored,
}

abbrev Bounded : ℕ → List Window → Type 0
Bounded n = All (λ w. w.request_count ≤ n)

stored-Bounded :
    (n : ℕ) (ws : List Window) (scope : RateLimitScope) (source_key : String) (start : ℕ)
    → Bounded n ws
    → stored scope source_key start ws ≤ n
unfolding stored
stored-Bounded n [] scope source_key start h = omega arith
stored-Bounded n (w ∷ ws) scope source_key start h =
    ground (arith, h.0, stored-Bounded n ws scope source_key start h.1)

Bounded-le : (n m : ℕ) (ws : List Window) → n ≤ m → Bounded n ws → Bounded m ws
Bounded-le n m ws more h =
    All-map (λ w. w.request_count ≤ n) _ ws (λ w le. omega (arith, le, more)) h

upsert-Bounded :
    (n : ℕ) (ws : List Window) (scope : RateLimitScope) (source_key : String) (start : ℕ)
    → Bounded n ws
    → Bounded (n + 1) (upsert ws scope source_key start).0
unfolding upsert
upsert-Bounded n [] scope source_key start h = (omega arith, tt)
upsert-Bounded n (w ∷ ws) scope source_key start h =
    elim (Bool-cases (is_window scope source_key start w)) [
      | inl own ↦ rw own (omega (arith, h.0), Bounded-le n (n + 1) ws (omega arith) h.1)
      | inr other ↦ rw other (omega (arith, h.0), upsert-Bounded n ws scope source_key start h.1)
    ]

filter-Bounded :
    (n : ℕ) (p : Window → Bool) (ws : List Window) → Bounded n ws → Bounded n (filter p ws)
filter-Bounded n p [] h = tt
filter-Bounded n p (w ∷ ws) h = elim (Bool-cases (p w)) [
  | inl kept ↦ rw kept (h.0, filter-Bounded n p ws h.1)
  | inr gone ↦ rw gone (filter-Bounded n p ws h.1)
]

perform-request :
    (n : ℕ) (ws : List Window) (now : ℕ) (scope : RateLimitScope) (source_key : String)
    → Bounded n ws
    → n + 1 < 2147483648
    → record_and_check ws now scope source_key ≡ (
      (upsert ws scope source_key (window_start now scope)).0,
      ok (leb (stored scope source_key (window_start now scope) ws + 1) (limit scope)),
    )
unfolding record_and_check
perform-request n ws now scope source_key h fits =
    let count = upsert-count ws scope source_key (window_start now scope) in
    let small = stored-Bounded n ws scope source_key (window_start now scope) h in
    let below : ltb (stored scope source_key (window_start now scope) ws + 1) 2147483648 ≡ true =
      ground (arith, small, fits) in
    rw (count, below) refl

perform-Bounded :
    (n : ℕ) (ws : List Window) (op : Op)
    → Bounded n ws
    → n + 1 < 2147483648
    → Bounded (n + 1) (perform ws op)
unfolding perform delete_expired_windows
perform-Bounded n ws (request now scope source_key) h fits =
    rw (perform, perform-request n ws now scope source_key h fits)
      (upsert-Bounded n ws scope source_key (window_start now scope) h)
perform-Bounded n ws (cleanup now) h fits =
    Bounded-le n (n + 1) _ (omega arith) (filter-Bounded n _ ws h)

perform-stored :
    (n : ℕ) (ws : List Window) (op : Op) (scope : RateLimitScope) (source_key : String)
    (start now : ℕ)
    → Bounded n ws
    → n + 1 < 2147483648
    → time op ≤ now
    → now < start + 3600
    → stored scope source_key start (perform ws op) ≡ (
        if is_request scope source_key start op
        then stored scope source_key start ws + 1
        else stored scope source_key start ws)
unfolding perform delete_expired_windows
perform-stored n ws (request at s k) scope source_key start now h fits earlier recent =
    rw (perform, perform-request n ws at s k h fits)
      (upsert-stored ws scope source_key start s k (window_start at s))
perform-stored n ws (cleanup at) scope source_key start now h fits earlier recent =
    kept-stored ws scope source_key start (at - retention) (omega (arith, earlier, recent))

run-stored :
    (n : ℕ) (ops : List Op) (ws : List Window) (scope : RateLimitScope) (source_key : String)
    (start now : ℕ)
    → Bounded n ws
    → n + length ops < 2147483648
    → All (λ op. time op ≤ now) ops
    → now < start + 3600
    → (stored scope source_key start (run ws ops)
        ≡ stored scope source_key start ws + requests scope source_key start ops)
      × Bounded (n + length ops) (run ws ops)
unfolding run
run-stored n [] ws scope source_key start now h fits earlier recent =
    (omega arith, Bounded-le n (n + 0) ws (omega arith) h)
run-stored n (op ∷ ops) ws scope source_key start now h fits earlier recent =
    let (count, bound) =
      run-stored (n + 1) ops (perform ws op) scope source_key start now
        (perform-Bounded n ws op h (omega (arith, fits))) (omega (arith, fits)) earlier.1 recent in
    let here =
      perform-stored n ws op scope source_key start now h (omega (arith, fits)) earlier.0 recent in
    (ground (arith, count, here), Bounded-le _ _ _ (omega arith) bound)

-- After any requests and cleanups that came no later than now and are fewer than 2^31, a request is
-- within the limit exactly when, with the earlier requests of the same source under the same scope in
-- the same window, it is not more than the limit. The other sources, scopes and windows do not count,
-- and no cleanup forgets a request that does.
pub record_and_check_lem :
    (ops : List Op) (now : ℕ) (scope : RateLimitScope) (source_key : String)
    → length ops + 1 < 2147483648
    → All (λ op. time op ≤ now) ops
    → (record_and_check (run [] ops) now scope source_key).1
      ≡ ok (leb (requests scope source_key (window_start now scope) ops + 1) (limit scope))
unfolding stored
record_and_check_lem ops now scope source_key fits earlier =
    let start = window_start now scope in
    let (count, bound) =
      run-stored 0 ops [] scope source_key start now tt (omega (arith, fits)) earlier
        (window_start-recent now scope) in
    let answer =
      perform-request (length ops) (run [] ops) now scope source_key
        (Bounded-le _ _ _ (omega arith) bound) fits in
    ap (λ r. r.1) answer ∙ ap (λ n. ok (leb (n + 1) (limit scope))) (count ∙ omega arith)
