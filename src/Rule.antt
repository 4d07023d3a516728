-- ===== src/Rule.antt =====
-- internal/domain/rule/rule.go: levels, findings, skip reasons and the errors of the registry.
pub mod Registry
use delta_scope.Prelude.{ℕ, Bool, Text, List, Option, ◌≡◌, refl, ◌⊎◌, inl, inr}
use delta_scope.Spec.{Any}

-- `rule.Level` is a string type; `other_level` holds a value that is no constant of the source.
pub data Level : Type 0 where
  blocker warning notice : Level
  other_level : Text → Level

pub record Location : Type 0 where
  pub line : ℕ
  pub column : ℕ

pub record ExplanationMetadata : Type 0 where
  pub status : Text
  pub note : Text

pub record FindingExplanation : Type 0 where
  pub summary : Text
  pub why : Text
  pub risk : Text
  pub suggestion : Text
  pub metadata : Option ExplanationMetadata

pub record Finding : Type 0 where
  pub rule_id : Text
  pub level : Level
  pub message : Text
  pub statement_index : ℕ
  pub statement_kind : Text
  pub location : Option Location
  pub suggestion : Text
  pub metadata : List (Text × Any)
  pub explanation : Option FindingExplanation

pub data SkipReason : Type 0 where
  dialect_mismatch : SkipReason

pub record SkippedRule : Type 0 where
  pub rule_id : Text
  pub reason : SkipReason

pub record StatementEvaluation : Type 0 where
  pub findings : List Finding
  pub skipped : List SkippedRule
  pub applied_rule_ids : List Text

-- The errors that the registry and the audit service return. `cancelled` is the context's error,
-- `rule_failure` an error of a rule.
pub data Error : Type 0 where
  empty_rule_id : Error
  duplicate_rule_id : Text → Error
  rule_id_mismatch : Text → Text → Error
  cancelled : Error
  rule_failure : Text → Error

pub data Result {ℓ} (A : Type ℓ) : Type ℓ where
  ok : A → Result A
  err : Error → Result A

infixl 5 ◌>>=◌
abbrev pub ◌>>=◌ {ℓ κ} : {A : Type ℓ} {B : Type κ} → Result A → (A → Result B) → Result B
ok a >>= f = f a
err e >>= f = err e

pub Result-cases {ℓ} :
    {A : Type ℓ} (r : Result A) → ((e : Error) × (r ≡ err e)) ⊎ ((a : A) × (r ≡ ok a))
Result-cases (ok a) = inr (a, refl)
Result-cases (err e) = inl (e, refl)
