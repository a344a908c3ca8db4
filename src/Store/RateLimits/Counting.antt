-- ===== src/Store/RateLimits/Counting.antt =====
-- Proofs about the rate limiter of crates/infrastructure/src/postgres/rate_limits.rs.
use mathlib.Core.Bool.{false≢true}
use safe_cameroon.Common.{
  ℕ, ◌+◌, ◌≤◌, ◌<◌, ◌≡◌, refl, sym, ◌∙◌, ap, inl, inr, String, Bool, true, false, not, List, [],
  ◌∷◌, filter, ltb, if◌then◌else◌, ◌==◌, ◌&&◌, ℕ_eq, String_eq, arith, Bool-cases, nat_eq_iff,
}
use safe_cameroon.Workflow.RateLimit.{RateLimitScope, RateLimitScope_eq, window}
use safe_cameroon.Store.RateLimits.{
  Window, is_window, upsert, window_start, record_and_check, delete_expired_windows,
}

-- What reaches the table: a request, or the maintenance, each at a time.
pub data Op : Type 0 where
  request : ℕ → RateLimitScope → String → Op
  cleanup : ℕ → Op

abbrev pub time : Op → ℕ
time (request now scope source_key) = now
time (cleanup now) = now

unfoldable pub perform : List Window → Op → List Window
unfolding record_and_check delete_expired_windows
perform windows (request now scope source_key) = (record_and_check windows now scope source_key).0
perform windows (cleanup now) = (delete_expired_windows windows now).0

unfoldable pub run : List Window → List Op → List Window
unfolding perform
run windows [] = windows
run windows (op ∷ ops) = run (perform windows op) ops

-- Whether an operation is a request of the source under the scope in the window that starts then.
abbrev pub is_request : RateLimitScope → String → ℕ → Op → Bool
is_request scope source_key start (request now s k) =
    s == scope && k == source_key && window_start now s == start
is_request scope source_key start (cleanup now) = false

abbrev pub requests : RateLimitScope → String → ℕ → List Op → ℕ
requests scope source_key start [] = 0
requests scope source_key start (op ∷ ops) =
    let later = requests scope source_key start ops in
    if is_request scope source_key start op then later + 1 else later

-- The count that the table has for a window.
unfoldable pub stored : RateLimitScope → String → ℕ → List Window → ℕ
stored scope source_key start [] = 0
stored scope source_key start (w ∷ ws) =
    let later = stored scope source_key start ws in
    if is_window scope source_key start w then w.request_count else later

pub upsert-count :
    (ws : List Window) (scope : RateLimitScope) (source_key : String) (start : ℕ)
    → (upsert ws scope source_key start).1 ≡ stored scope source_key start ws + 1
unfolding upsert stored
upsert-count [] scope source_key start = omega arith
upsert-count (w ∷ ws) scope source_key start =
    ground (arith, upsert-count ws scope source_key start)

abbrev pub same_key : RateLimitScope → String → ℕ → RateLimitScope → String → ℕ → Bool
same_key s k at scope source_key start = s == scope && k == source_key && at == start

and_true : (a b c : Bool) → (a && b && c) ≡ true → (a ≡ true) × (b ≡ true) × (c ≡ true)
and_true a b c h = ground arith

same_key_sound :
    (s : RateLimitScope) (k : String) (at : ℕ) (scope : RateLimitScope) (source_key : String)
    (start : ℕ)
    → same_key s k at scope source_key start ≡ true
    → (s ≡ scope) × (k ≡ source_key) × (at ≡ start)
same_key_sound s k at scope source_key start h =
    let (a, b, c) = and_true (s == scope) (k == source_key) (at == start) h in
    (
      (RateLimitScope_eq.beq_iff s scope).0 a,
      (String_eq.beq_iff k source_key).0 b,
      (nat_eq_iff at start).0 c,
    )

-- Of two keys that are the same, both or neither are a third.
same_key-same :
    (w : Window) (s : RateLimitScope) (k : String) (at : ℕ) (scope : RateLimitScope)
    (source_key : String) (start : ℕ)
    → is_window s k at w ≡ true
    → same_key s k at scope source_key start ≡ is_window scope source_key start w
same_key-same w s k at scope source_key start h =
    let (a, b, c) = same_key_sound w.scope w.source_key w.window_start_epoch_seconds s k at h in
    rw (a, b, c) refl

same_key-other :
    (w : Window) (s : RateLimitScope) (k : String) (at : ℕ) (scope : RateLimitScope)
    (source_key : String) (start : ℕ)
    → is_window s k at w ≡ false
    → is_window scope source_key start w ≡ true
    → same_key s k at scope source_key start ≡ false
same_key-other w s k at scope source_key start h own =
    elim (Bool-cases (same_key s k at scope source_key start)) [
      | inr other ↦ other
      | inl same ↦
          let (a, b, c) = same_key_sound s k at scope source_key start same in
          absurd (false≢true (sym h ∙ (rw (a, b, c) own)))
    ]

pub upsert-stored :
    (ws : List Window) (scope : RateLimitScope) (source_key : String) (start : ℕ)
    (s : RateLimitScope) (k : String) (at : ℕ)
    → stored scope source_key start (upsert ws s k at).0 ≡ (
        if same_key s k at scope source_key start
        then stored scope source_key start ws + 1
        else stored scope source_key start ws)
unfolding upsert stored
upsert-stored [] scope source_key start s k at = refl
upsert-stored (w ∷ ws) scope source_key start s k at = elim (Bool-cases (is_window s k at w)) [
  | inl here ↦
      rw (here, same_key-same w s k at scope source_key start here)
        (elim (Bool-cases (is_window scope source_key start w)) [
          | inl own ↦ rw own refl
          | inr other ↦ rw other refl
        ])
  | inr away ↦ elim (Bool-cases (is_window scope source_key start w)) [
    | inl own ↦ rw (away, own, same_key-other w s k at scope source_key start away own) refl
    | inr other ↦ rw (away, other) (upsert-stored ws scope source_key start s k at)
  ]
]

pub window_start-recent : (now : ℕ) (scope : RateLimitScope) → now < window_start now scope + 3600
unfolding window_start window
window_start-recent now RateLimitScope.anonymous_report_submission = omega arith
window_start-recent now RateLimitScope.reviewer_login_attempt = omega arith
window_start-recent now RateLimitScope.citizen_subscription_creation = omega arith
window_start-recent now RateLimitScope.attachment_upload_request = omega arith
window_start-recent now RateLimitScope.voice_transcription_request = omega arith

-- The rows that a cleanup keeps have the counts that they had.
pub kept-stored :
    (ws : List Window) (scope : RateLimitScope) (source_key : String) (start cutoff : ℕ)
    → cutoff ≤ start
    → stored scope source_key start (filter (λ w. not (ltb w.window_start_epoch_seconds cutoff)) ws)
      ≡ stored scope source_key start ws
unfolding stored
kept-stored [] scope source_key start cutoff h = refl
kept-stored (w ∷ ws) scope source_key start cutoff h =
    elim (Bool-cases (ltb w.window_start_epoch_seconds cutoff)) [
      | inr later ↦ rw later (
          ap (λ n. if is_window scope source_key start w then w.request_count else n)
            (kept-stored ws scope source_key start cutoff h))
      | inl gone ↦ elim (Bool-cases (is_window scope source_key start w)) [
        | inr other ↦ rw (gone, other) (kept-stored ws scope source_key start cutoff h)
        | inl own ↦
            let (_, _, c) =
              same_key_sound w.scope w.source_key w.window_start_epoch_seconds scope source_key
                start own in
            let early : w.window_start_epoch_seconds < cutoff = ground arith in
            absurd (omega (arith, c, early, h))
      ]
    ]
