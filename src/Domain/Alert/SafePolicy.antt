-- ===== src/Domain/Alert/SafePolicy.antt =====
-- What makes an alert policy of crates/domain/src/alert.rs safe, and the tests that say so.
use safe_cameroon.Common.{
  ◌≡◌, ◌≢◌, refl, ◌↔◌, ◌⊎◌, inl, inr, All-map, true, false, List, [], ◌∷◌, is_empty, All, arith,
}
use safe_cameroon.Domain.Case.{CaseEventType, IncidentType_eq}
use safe_cameroon.Domain.Alert.{
  AlertVisibility, AlertField, AlertField_eq, AlertPolicy, admits_internal_only_fields,
  is_forbidden, is_restricted_to_internal_audiences, is_trigger,
}

-- What only those inside may see.
abbrev pub IsInside : AlertVisibility → Type 0
IsInside v = (v ≡ AlertVisibility.internal) ⊎ (v ≡ AlertVisibility.partner)

abbrev pub IsOpen : AlertField → Type 0
IsOpen f =
    (f ≢ AlertField.internal_notes)
    × (f ≢ AlertField.exact_location)
    × (f ≢ AlertField.witness_details)

-- A policy that may be issued: it lists a field, never the reporter's identity, internal notes, the
-- exact location and details of witnesses only for an internal or partner audience, and fires only on
-- the verification of a case or on its activation or resolution, which follow it.
pub record IsSafe (policy : AlertPolicy) : Type 0 where
  pub listed : policy.field_allowlist ≢ []
  pub anonymous : All (λ f. f ≢ AlertField.reporter_identity) policy.field_allowlist
  pub unrestricted : IsInside policy.visibility ⊎ All IsOpen policy.field_allowlist
  pub after_verification :
      (policy.trigger ≡ CaseEventType.case_verified)
      ⊎ ((policy.trigger ≡ CaseEventType.case_activated)
          ⊎ (policy.trigger ≡ CaseEventType.case_resolved))

is_empty-false_iff : (fs : List AlertField) → (is_empty fs ≡ false) ↔ (fs ≢ [])
is_empty-false_iff [] = (λ h. cc, λ h. absurd (h refl))
is_empty-false_iff (f ∷ fs) = (λ h e. cc, λ h. refl)

is_forbidden-false_iff :
    (f : AlertField) → (is_forbidden f ≡ false) ↔ (f ≢ AlertField.reporter_identity)
unfolding is_forbidden
is_forbidden-false_iff f = ground arith

is_restricted-false_iff :
    (f : AlertField) → (is_restricted_to_internal_audiences f ≡ false) ↔ IsOpen f
unfolding is_restricted_to_internal_audiences
is_restricted-false_iff f = ground arith

admits-true_iff : (v : AlertVisibility) → (admits_internal_only_fields v ≡ true) ↔ IsInside v
unfolding admits_internal_only_fields
admits-true_iff v = ground arith

is_trigger-true_iff :
    (e : CaseEventType)
    → (is_trigger e ≡ true) ↔ (
        (e ≡ CaseEventType.case_verified)
        ⊎ ((e ≡ CaseEventType.case_activated) ⊎ (e ≡ CaseEventType.case_resolved)))
unfolding is_trigger
is_trigger-true_iff e = ground arith

-- The same, as the tests of the code say it.
pub record PassesChecks (policy : AlertPolicy) : Type 0 where
  pub listed : is_empty policy.field_allowlist ≡ false
  pub anonymous : All (λ f. is_forbidden f ≡ false) policy.field_allowlist
  pub unrestricted :
      (admits_internal_only_fields policy.visibility ≡ true)
      ⊎ All (λ f. is_restricted_to_internal_audiences f ≡ false) policy.field_allowlist
  pub after_verification : is_trigger policy.trigger ≡ true

pub IsSafe-anonymous :
    (policy : AlertPolicy)
    → IsSafe policy
    → All (λ f. is_forbidden f ≡ false) policy.field_allowlist
IsSafe-anonymous policy s =
    All-map _ _ policy.field_allowlist (λ f h. (is_forbidden-false_iff f).1 h) s.anonymous

pub IsSafe-unrestricted :
    (policy : AlertPolicy)
    → IsSafe policy
    → (admits_internal_only_fields policy.visibility ≡ true)
      ⊎ All (λ f. is_restricted_to_internal_audiences f ≡ false) policy.field_allowlist
IsSafe-unrestricted policy s = elim s.unrestricted [
  | inl inside ↦ inl ((admits-true_iff policy.visibility).1 inside)
  | inr open_fields ↦
      inr (All-map _ _ policy.field_allowlist (λ f h. (is_restricted-false_iff f).1 h) open_fields)
]

pub PassesChecks-IsSafe : (policy : AlertPolicy) → PassesChecks policy → IsSafe policy
PassesChecks-IsSafe policy c = record {
  listed = (is_empty-false_iff policy.field_allowlist).0 c.listed;
  anonymous =
      All-map _ _ policy.field_allowlist (λ f h. (is_forbidden-false_iff f).0 h) c.anonymous;
  unrestricted = elim c.unrestricted [
    | inl inside ↦ inl ((admits-true_iff policy.visibility).0 inside)
    | inr open_fields ↦
        inr
          (All-map _ _ policy.field_allowlist (λ f h. (is_restricted-false_iff f).0 h) open_fields)
  ];
  after_verification = (is_trigger-true_iff policy.trigger).0 c.after_verification;
}

pub IsSafe-PassesChecks : (policy : AlertPolicy) → IsSafe policy → PassesChecks policy
IsSafe-PassesChecks policy s = record {
  listed = (is_empty-false_iff policy.field_allowlist).1 s.listed;
  anonymous = IsSafe-anonymous policy s;
  unrestricted = IsSafe-unrestricted policy s;
  after_verification = (is_trigger-true_iff policy.trigger).1 s.after_verification;
}
