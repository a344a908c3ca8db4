-- ===== src/Worker/Dispatch/Loop.antt =====
-- Proofs about the loop of `process_batch` of apps/worker/src/dispatch.rs.
use safe_cameroon.Common.{
  ℕ, ◌+◌, ◌≡◌, ◌≢◌, refl, sym, ◌∙◌, ap, inl, inr, true, false, List, [], ◌∷◌, ◌++◌, map, subst,
  map-append, append-nil, append_assoc, u32, ok, Memᴰ, All, arith, Bool-cases, ◌==◌, ℕ_eq, Distinct,
  contains,
}
use mathlib.Core.List.Memᴰ
use mathlib.Core.Path.{ap₂}
use safe_cameroon.Domain.Ids.{DeliveryId}
use safe_cameroon.Domain.Delivery.{Delivery, DeliveryAttempt, DeliveryStatus}
use safe_cameroon.Store.Deliveries.{Row, advance_row, is_previous}
use safe_cameroon.Store.Deliveries.Claim.Claiming.{row_id, ids-advance}
use safe_cameroon.Store.Deliveries.Claim.Selection.{row_of_id}
use safe_cameroon.Store.Deliveries.Lookups.{Tables}
use safe_cameroon.Worker.Dispatch.{Environment, Done, dispatch_one, dispatch_all}
use safe_cameroon.Worker.Dispatch.Recording.{Answers, IsUnderway, dispatch_one-IsRecorded}

abbrev pub delivery_id : Delivery → DeliveryId
delivery_id d = d.id

-- Between two dispatches: what is being sent is what remains to be dispatched.
pub record IsPending (tables : Tables) (claimed : List Delivery) : Type 0 where
  pub distinct : Distinct (map row_id tables.rows)
  pub apart : Distinct (map delivery_id claimed)
  pub underway : All (IsUnderway tables.rows) claimed
  pub only :
      (r : Row)
      → Memᴰ r tables.rows
      → r.delivery.status ≡ DeliveryStatus.sending
      → contains (map delivery_id claimed) r.delivery.id ≡ true

-- For which delivery an attempt was, and its number.
abbrev pub attempt_key : DeliveryAttempt → DeliveryId × ℕ
attempt_key a = (a.delivery_id, a.attempt_number)

abbrev pub delivery_key : Delivery → DeliveryId × ℕ
delivery_key d = (d.id, d.attempt_count)

-- The attempt that a claim of the row starts.
abbrev pub next_key : Row → DeliveryId × ℕ
next_key row = (row.delivery.id, u32 (row.delivery.attempt_count + 1))

-- At the end of the loop: it has run through, no row is being sent, every dispatch left an attempt.
pub record IsSettled {SqlxError : Type 0} (before : Tables) (claimed : List Delivery)
    (out : Tables × Done SqlxError) : Type 0 where
  pub through : out.1 ≡ ok tt
  pub idle : (r : Row) → Memᴰ r out.0.rows → r.delivery.status ≢ DeliveryStatus.sending
  pub logged :
      map attempt_key out.0.attempts ≡ map attempt_key before.attempts ++ map delivery_key claimed

advance_row-other :
    (now : ℕ) (next : Delivery) (r : Row)
    → (next.id == r.delivery.id) ≡ false
    → advance_row now next r ≡ r
unfolding advance_row
advance_row-other now next r h = ground arith

advance_row-ended :
    (now : ℕ) (next : Delivery) (r : Row)
    → next.status ≢ DeliveryStatus.sending
    → is_previous next r ≡ true
    → (advance_row now next r).delivery.status ≢ DeliveryStatus.sending
unfolding advance_row
advance_row-ended now next r ended h = rw h ended

-- The others stay under way.
IsUnderway-rest :
    (now : ℕ) (rows : List Row) (next : Delivery) (rest : List Delivery)
    → contains (map delivery_id rest) next.id ≡ false
    → All (IsUnderway rows) rest
    → All (IsUnderway (map (advance_row now next) rows)) rest
IsUnderway-rest now rows next [] fresh h = tt
IsUnderway-rest now rows next (other ∷ rest) fresh h =
    let u = h.0 in
    let own = u.own in
    (
      record {
        row = u.row;
        listed =
            Memᴰ.cast (sym (advance_row-other now next u.row rw own (ground (arith, fresh))))
              (Memᴰ.map (advance_row now next) u.listed);
        own = u.own;
        sending = u.sending;
        fits = u.fits;
      },
      IsUnderway-rest now rows next rest (ground (arith, fresh)) h.1,
    )

IsPending-step :
    (now : ℕ) (tables after : Tables) (d next : Delivery) (rest : List Delivery)
    → IsPending tables (d ∷ rest)
    → next.id ≡ d.id
    → next.version ≡ d.version + 1
    → next.status ≢ DeliveryStatus.sending
    → after.rows ≡ map (advance_row now next) tables.rows
    → IsPending after rest
IsPending-step now tables after d next rest p same advanced ended e = record {
  distinct = rw e (subst (λ ids. Distinct ids) (sym (ids-advance now next tables.rows)) p.distinct);
  apart = p.apart.1;
  underway = rw e (IsUnderway-rest now tables.rows next rest (rw same p.apart.0) p.underway.1);
  only = λ r listed sending.
      let (r0, m0, from) =
        Memᴰ.of_map (advance_row now next) tables.rows (subst (λ rows. Memᴰ r rows) e listed) in
      elim (Bool-cases (next.id == r0.delivery.id)) [
        | inl own ↦
            let u = p.underway.0 in
            let it = row_of_id tables.rows p.distinct m0 u.listed (rw u.own (ground arith)) in
            let previous : is_previous next r0 ≡ true =
              rw it (rw u.own (ground (arith, same, advanced))) in
            absurd (advance_row-ended now next r0 ended previous (rw from sending))
        | inr other ↦
            let kept = sym (advance_row-other now next r0 other) ∙ from in
            let still = p.only r0 m0 (rw kept sending) in rw (← kept) (ground (arith, still, same))
      ];
}

dispatch_all-step :
    {SqlxError : Type 0} (env : Environment SqlxError) (k : ℕ) (tables after : Tables)
    (d : Delivery) (rest : List Delivery)
    → dispatch_one env k tables d ≡ (after, ok tt)
    → dispatch_all env k tables (d ∷ rest) ≡ dispatch_all env (k + 1) after rest
unfolding dispatch_all
dispatch_all-step env k tables after d rest h =
    rw (dispatch_all, ap (λ out. out.1) h, ap (λ out. out.0) h) refl

logged_one :
    (log : List DeliveryAttempt) (a : DeliveryAttempt) (d : Delivery) (rest : List Delivery)
    → a.delivery_id ≡ d.id
    → a.attempt_number ≡ d.attempt_count
    → map attempt_key (log ++ (a ∷ [])) ++ map delivery_key rest
      ≡ map attempt_key log ++ map delivery_key (d ∷ rest)
logged_one log a d rest own counted =
    ap (λ keys. keys ++ map delivery_key rest) (map-append attempt_key log (a ∷ []))
    ∙ append_assoc (map attempt_key log) (attempt_key a ∷ []) (map delivery_key rest)
    ∙ ap (λ key. map attempt_key log ++ (key ∷ map delivery_key rest))
        (ap₂ (λ i n. (i, n)) own counted)

-- Started as it should be, the loop runs through and leaves nothing being sent.
pub dispatch_all-IsSettled :
    {SqlxError : Type 0} (env : Environment SqlxError) (answers : Answers env) (k : ℕ)
    (tables : Tables) (claimed : List Delivery)
    → IsPending tables claimed
    → IsSettled tables claimed (dispatch_all env k tables claimed)
unfolding dispatch_all
dispatch_all-IsSettled env answers k tables [] p = record {
  through = refl;
  idle = λ r m sending. absurd (cc (p.only r m sending));
  logged = sym (append-nil (map attempt_key tables.attempts));
}
dispatch_all-IsSettled env answers k tables (d ∷ rest) p =
    let done = dispatch_one-IsRecorded env answers k tables d p.distinct p.underway.0 in
    let after : Tables = record {
      rows = map (advance_row (env.clock k) done.next) tables.rows;
      attempts = tables.attempts ++ (done.attempt ∷ []);
    } in
    let p' =
      IsPending-step (env.clock k) tables after d done.next rest p done.same done.advanced
        done.ended refl in
    let later = dispatch_all-IsSettled env answers (k + 1) after rest p' in
    rw (dispatch_all-step env k tables after d rest done.result) (record {
      through = later.through;
      idle = later.idle;
      logged =
          later.logged
          ∙ logged_one tables.attempts done.attempt d rest done.attempt_own done.attempt_counted;
    })
