-- ===== src/QueryAccess/State/Stable.antt =====
-- A final state is final.
use delta_scope.Prelude.{◌≡◌, refl, ap, ◌∙◌, true, List, [], ◌∷◌, arith, ltb, length}
use delta_scope.QueryAccess.{
  ReadClassification, read_only, not_read_only, indeterminate, other_classification, Admission,
  admissible, rejected, indeterminate_admission, other_admission, ReasonCode, AccessResult,
}
use delta_scope.QueryAccess.Normalize.{normalize_reason_codes}
use delta_scope.QueryAccess.Normalize.Canonical.{
  normalize_reason_codes_canonical, contains-normalize_reason_codes,
}
use delta_scope.QueryAccess.State.{settle_state, normalize_final_state, ensure_indeterminate_reason}
use delta_scope.QueryAccess.State.Contract.{IsState, normalize_final_state-IsContract}

normalize_reason_codes_idempotent :
    (cs : List ReasonCode)
    → normalize_reason_codes (normalize_reason_codes cs) ≡ normalize_reason_codes cs
normalize_reason_codes_idempotent cs =
    normalize_reason_codes_canonical (normalize_reason_codes cs) cs
      (λ x. contains-normalize_reason_codes x cs)

ensure-some :
    (cs : List ReasonCode) (r : AccessResult)
    → ltb 0 (length cs) ≡ true
    → ensure_indeterminate_reason cs r.unresolved ≡ cs
unfolding ensure_indeterminate_reason
ensure-some [] r h = ground arith
ensure-some (c ∷ cs) r h = refl

settle_state-stable :
    (rc : ReadClassification) (adm : Admission) (r : AccessResult)
    → IsState rc adm
    → (rc ≡ indeterminate → ltb 0 (length r.reason_codes) ≡ true)
    → settle_state (record r { read_classification = rc; admission = adm })
      ≡ record r { read_classification = rc; admission = adm }
unfolding settle_state
settle_state-stable read_only admissible r s h = refl
settle_state-stable not_read_only rejected r s h = refl
settle_state-stable indeterminate indeterminate_admission r s h =
    ap
      (λ cs. record r {
        read_classification = indeterminate;
        admission = indeterminate_admission;
        reason_codes = cs;
      })
      (ensure-some r.reason_codes r (h refl))
settle_state-stable read_only rejected r s h = elim s [ ]
settle_state-stable read_only indeterminate_admission r s h = elim s [ ]
settle_state-stable read_only (other_admission _) r s h = elim s [ ]
settle_state-stable not_read_only admissible r s h = elim s [ ]
settle_state-stable not_read_only indeterminate_admission r s h = elim s [ ]
settle_state-stable not_read_only (other_admission _) r s h = elim s [ ]
settle_state-stable indeterminate admissible r s h = elim s [ ]
settle_state-stable indeterminate rejected r s h = elim s [ ]
settle_state-stable indeterminate (other_admission _) r s h = elim s [ ]
settle_state-stable (other_classification _) adm r s h = elim s [ ]

-- Normalizing a final state again changes nothing.
pub normalize_final_state_idempotent :
    (r : AccessResult) → normalize_final_state (normalize_final_state r) ≡ normalize_final_state r
unfolding normalize_final_state
normalize_final_state_idempotent r =
    let q = normalize_final_state r in
    let c = normalize_final_state-IsContract r in
    let fixed = settle_state-stable q.read_classification q.admission q c.state c.reasons in
    ap {A = AccessResult} {B = AccessResult}
      (λ x. record x { reason_codes = normalize_reason_codes x.reason_codes }) fixed
    ∙ ap {B = AccessResult} (λ cs. record q { reason_codes = cs })
        (normalize_reason_codes_idempotent (settle_state r).reason_codes)
