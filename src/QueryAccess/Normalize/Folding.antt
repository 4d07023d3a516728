-- ===== src/QueryAccess/Normalize/Folding.antt =====
-- What the folded classification of several statements is, and the reasons of identity statuses.
use delta_scope.Prelude.{
  ◌≡◌, refl, ◌∙◌, Bool, true, false, ◌&&◌, ◌||◌, not, List, [], ◌∷◌, arith, any, Option, none, some,
  if◌then◌else◌, ltb, length,
}
use delta_scope.QueryAccess.{
  ReadClassification, read_only, not_read_only, indeterminate, other_classification, IdentityStatus,
  ReasonCode,
}
use delta_scope.QueryAccess.Normalize.{
  fold_read_classification, fold_from, identity_status_is_fail_closed, valid_identity_status,
  identity_status_to_failure, reason_for_identity_failure, reason_for_identity_status,
}

abbrev pub is_not_read_only : ReadClassification → Bool
is_not_read_only not_read_only = true
is_not_read_only _ = false

abbrev pub is_indeterminate : ReadClassification → Bool
is_indeterminate indeterminate = true
is_indeterminate _ = false

fold_from_lem :
    (seen : Bool) (cs : List ReadClassification)
    → fold_from seen cs ≡ (
        if any is_not_read_only cs
        then not_read_only
        else if seen || any is_indeterminate cs
        then indeterminate
        else read_only)
unfolding fold_from
fold_from_lem seen [] = ground arith
fold_from_lem seen (not_read_only ∷ cs) = refl
fold_from_lem seen (indeterminate ∷ cs) = ground (arith, fold_from_lem true cs)
fold_from_lem seen (read_only ∷ cs) = fold_from_lem seen cs
fold_from_lem seen (other_classification t ∷ cs) = fold_from_lem seen cs

-- One statement that writes makes a script not read-only, wherever it stands; without one, the
-- script is indeterminate when it is empty or some statement is, and else read-only. A statement
-- with an unknown classification counts as read-only.
pub fold_read_classification_lem :
    (cs : List ReadClassification)
    → fold_read_classification cs ≡ (
        if any is_not_read_only cs
        then not_read_only
        else if not (ltb 0 (length cs)) || any is_indeterminate cs
        then indeterminate
        else read_only)
unfolding fold_read_classification
fold_read_classification_lem [] = ground arith
fold_read_classification_lem (c ∷ cs) = fold_from_lem false (c ∷ cs) ∙ ground arith

abbrev pub is_some {ℓ} : {A : Type ℓ} → Option A → Bool
is_some none = false
is_some (some a) = true

-- A status has a reason exactly when it is a known one and forbids promotion, and two statuses with
-- the same reason are the same.
pub reason_for_identity_status_lem :
    (s t : IdentityStatus) (c : ReasonCode)
    → (is_some (reason_for_identity_status s)
        ≡ (valid_identity_status s && identity_status_is_fail_closed s))
      × (reason_for_identity_status s ≡ some c → reason_for_identity_status t ≡ some c → s ≡ t)
unfolding reason_for_identity_status identity_status_to_failure reason_for_identity_failure
    valid_identity_status identity_status_is_fail_closed
reason_for_identity_status_lem s t c = (ground arith, λ h k. ground (arith, h, k))
