-- ===== src/Worker/Dispatch/Settled.antt =====
-- Proofs about `process_batch` of apps/worker/src/dispatch.rs.
use safe_cameroon.Common.{
  ℕ, ◌+◌, ◌<◌, ◌≡◌, ◌≢◌, refl, sym, ◌∙◌, ap, inl, inr, Bool, List, ◌++◌, map, subst, length,
  length-map, ok, Memᴰ, All-members, Distinct-filter, Distinct-take, arith, Bool-cases, ℕ_eq,
  Distinct, contains, mem_of_filter, mem_of_take,
}
use mathlib.Core.List.Memᴰ
use mathlib.Core.List.{map-map}
use safe_cameroon.Domain.Ids.{Uuid, DeliveryId}
use safe_cameroon.Domain.Delivery.{Delivery, DeliveryStatus}
use safe_cameroon.Workflow.Delivery.{Minted}
use safe_cameroon.Store.Deliveries.{Row}
use safe_cameroon.Store.Deliveries.Claim.{is_claimable}
use safe_cameroon.Store.Deliveries.Claim.Claiming.{row_id, started}
use safe_cameroon.Store.Deliveries.Claim.Selection.{selected, after_claim, claim_next-selected}
use safe_cameroon.Store.Deliveries.Claim.Claimed.{after_claim-id, ids-claim, started-listed}
use safe_cameroon.Store.Deliveries.Claim.Gating.{after_claim-other}
use safe_cameroon.Store.Deliveries.Lookups.{Tables}
use safe_cameroon.Worker.Dispatch.{Environment, process_batch}
use safe_cameroon.Worker.Dispatch.Recording.{Answers, IsUnderway}
use safe_cameroon.Worker.Dispatch.Loop.{
  delivery_id, IsPending, attempt_key, delivery_key, next_key, dispatch_all-IsSettled,
}

module _ (now : ℕ) (locked : DeliveryId → Bool) (tables : Tables) (limit : ℕ)
    (distinct : Distinct (map row_id tables.rows))
    (fits : (r : Row) → Memᴰ r tables.rows → r.delivery.version + 2 < 18446744073709551616) where
  started-IsUnderway :
      {d : Delivery}
      → Memᴰ d (map started (selected now locked tables.rows limit))
      → IsUnderway (map (after_claim (selected now locked tables.rows limit)) tables.rows) d
  unfolding started
  started-IsUnderway {d} m =
      let chosen = selected now locked tables.rows limit in
      let (r, listed, own) = started-listed now locked tables.rows limit distinct m in
      let (c, n, e) = Memᴰ.of_map started chosen m in
      let there =
        (mem_of_filter (is_claimable now locked tables.rows) tables.rows
          (mem_of_take limit _ n)).0 in
      let small = fits c there in
      record {
        row = r;
        listed = listed;
        own = own;
        sending = rw (← e) refl;
        fits = rw (← e) (ground (arith, small));
      }

  claimed-IsPending :
      ((r : Row) → Memᴰ r tables.rows → r.delivery.status ≢ DeliveryStatus.sending)
      → IsPending
          (record {
            rows = map (after_claim (selected now locked tables.rows limit)) tables.rows;
            attempts = tables.attempts;
          })
          (map started (selected now locked tables.rows limit))
  unfolding started
  claimed-IsPending idle =
      let chosen = selected now locked tables.rows limit in
      let ids : map delivery_id (map started chosen) ≡ map row_id chosen =
        map-map delivery_id started chosen in
      record {
        distinct = subst (λ ids. Distinct ids) (sym (ids-claim chosen tables.rows)) distinct;
        apart =
            subst (λ ids. Distinct ids) (sym ids)
              (Distinct-take row_id limit _ (
                Distinct-filter row_id (is_claimable now locked tables.rows) tables.rows distinct));
        underway = All-members (map started chosen) (λ d m. started-IsUnderway m);
        only = λ r listed sending.
            let (r0, m0, from) = Memᴰ.of_map (after_claim chosen) tables.rows listed in
            elim (Bool-cases (contains (map row_id chosen) r0.delivery.id)) [
              | inl here ↦ rw (ids, ← from, after_claim-id chosen r0) here
              | inr other ↦
                  let kept = sym (after_claim-other chosen r0 other) ∙ from in
                  absurd (idle r0 m0 (rw kept sending))
            ];
      }

started-next : (rows : List Row) → map delivery_key (map started rows) ≡ map next_key rows
unfolding started
started-next rows = map-map delivery_key started rows

-- When no delivery is being sent, the identifiers are different, every version has two successors in
-- `u64`, and the database answers and commits, a batch ends without a panic whatever the registry and
-- the channels answer: it returns how many deliveries it claimed, leaves no delivery being sent, and
-- adds to the recorded attempts, in order, exactly one for each claimed delivery, under that delivery's
-- identifier and with the number that follows its attempts so far (in `u32`).
pub process_batch-settles :
    {SqlxError : Type 0} (env : Environment SqlxError) (start_mint : ℕ → Minted × Uuid) (now : ℕ)
    (locked : DeliveryId → Bool) (tables : Tables) (batch_size : ℕ)
    → Answers env
    → Distinct (map row_id tables.rows)
    → ((r : Row) → Memᴰ r tables.rows → r.delivery.version + 2 < 18446744073709551616)
    → ((r : Row) → Memᴰ r tables.rows → r.delivery.status ≢ DeliveryStatus.sending)
    → ((process_batch env start_mint now locked tables batch_size).1
        ≡ ok (length (selected now locked tables.rows batch_size)))
      × ((r : Row)
          → Memᴰ r (process_batch env start_mint now locked tables batch_size).0.rows
          → r.delivery.status ≢ DeliveryStatus.sending)
      × (map attempt_key (process_batch env start_mint now locked tables batch_size).0.attempts
          ≡ map attempt_key tables.attempts
            ++ map next_key (selected now locked tables.rows batch_size))
unfolding process_batch
process_batch-settles env start_mint now locked tables batch_size answers distinct fits idle =
    let chosen = selected now locked tables.rows batch_size in
    let claim =
      claim_next-selected start_mint now locked tables.rows batch_size distinct
        (λ r m. omega (arith, fits r m)) in
    let settled =
      dispatch_all-IsSettled env answers 0 _ _
        (claimed-IsPending now locked tables batch_size distinct fits idle) in
    let count : length (map started chosen) ≡ length chosen = length-map started chosen in
    rw (process_batch, claim, settled.through)
      (
        ap (λ n. ok n) count,
        settled.idle,
        settled.logged ∙ ap (λ keys. map attempt_key tables.attempts ++ keys) (started-next chosen),
      )
