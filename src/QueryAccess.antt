-- ===== src/QueryAccess.antt =====
-- internal/domain/queryaccess/model.go: what the query access analysis says of a statement. A string
-- type that the code sorts or compares with free text is `Text` with its constants; one that the
-- code only switches on is a data type, whose constructor `other_` is any string that is none of the
-- constants.
pub mod Normalize
pub mod Effect
pub mod Trust
pub mod Profile
pub mod Resolve
pub mod Builtin
pub mod Proof
pub mod Service
pub mod Requirements
pub mod State
mod Tests
use delta_scope.Prelude.{Bool, List, Text, codes}

pub data Mode : Type 0 where
  strict_mode projection_only : Mode
  other_mode : Text → Mode

pub data ReadClassification : Type 0 where
  read_only not_read_only indeterminate : ReadClassification
  other_classification : Text → ReadClassification

pub data Admission : Type 0 where
  admissible rejected indeterminate_admission : Admission
  other_admission : Text → Admission

-- The failures and the outcomes of the resolution of an effect's identity.
pub data IdentityFailure : Type 0 where
  failure_unavailable failure_unknown failure_error : IdentityFailure
  failure_ambiguous failure_coercion_gap : IdentityFailure
  other_failure : Text → IdentityFailure

pub data IdentityStatus : Type 0 where
  status_resolved status_unknown status_ambiguous : IdentityStatus
  status_coercion_gap status_lookup_failed status_unavailable : IdentityStatus
  other_status : Text → IdentityStatus

-- `RelationKind`
abbrev pub RelationKind : Type 0
RelationKind = Text

abbrev pub relation_table : RelationKind
relation_table = codes "table"

abbrev pub relation_view : RelationKind
relation_view = codes "view"

abbrev pub relation_cte : RelationKind
relation_cte = codes "cte"

abbrev pub relation_derived : RelationKind
relation_derived = codes "derived"

abbrev pub UsageContext : Type 0
UsageContext = Text

-- `ReasonCode`, with the constants that the modelled code names.
abbrev pub ReasonCode : Type 0
ReasonCode = Text

abbrev pub reason_indeterminate : ReasonCode
reason_indeterminate = codes "indeterminate"

abbrev pub reason_schema_unavailable : ReasonCode
reason_schema_unavailable = codes "schema_unavailable"

abbrev pub reason_unproven_operator_effect : ReasonCode
reason_unproven_operator_effect = codes "unproven_operator_effect"

abbrev pub reason_unproven_function_effect : ReasonCode
reason_unproven_function_effect = codes "unproven_function_effect"

abbrev pub reason_unproven_cast_effect : ReasonCode
reason_unproven_cast_effect = codes "unproven_cast_effect"

abbrev pub reason_identity_resolver_unavailable : ReasonCode
reason_identity_resolver_unavailable = codes "identity_resolver_unavailable"

abbrev pub reason_identity_unknown : ReasonCode
reason_identity_unknown = codes "identity_unknown"

abbrev pub reason_identity_lookup_failed : ReasonCode
reason_identity_lookup_failed = codes "identity_lookup_failed"

abbrev pub reason_identity_ambiguous : ReasonCode
reason_identity_ambiguous = codes "identity_ambiguous"

abbrev pub reason_identity_coercion_gap : ReasonCode
reason_identity_coercion_gap = codes "identity_coercion_gap"

abbrev pub reason_unqualified_relation_blocked : ReasonCode
reason_unqualified_relation_blocked = codes "unqualified_relation_blocked"

abbrev pub reason_view_expansion_required : ReasonCode
reason_view_expansion_required = codes "view_expansion_required"

abbrev pub WarningCode : Type 0
WarningCode = Text

abbrev pub warning_inference_risk : WarningCode
warning_inference_risk = codes "projection_only_inference_risk"

pub record RelationReference : Type 0 where
  pub schema : Text
  pub name : Text
  pub alias : Text
  pub kind : RelationKind
  pub permission_required : Bool
  pub unbound : Bool

pub record ColumnReference : Type 0 where
  pub schema : Text
  pub table : Text
  pub column : Text
  pub usages : List UsageContext
  pub unbound : Bool

pub record OutputColumn : Type 0 where
  pub name : Text
  pub sources : List Text

pub record Requirement : Type 0 where
  pub object : Text
  pub privilege : Text

pub record Unresolved : Type 0 where
  pub reference : Text
  pub reason : ReasonCode

-- `Result`
pub record AccessResult : Type 0 where
  pub dialect : Text
  pub mode : Mode
  pub read_classification : ReadClassification
  pub admission : Admission
  pub reason_codes : List ReasonCode
  pub relations : List RelationReference
  pub referenced_columns : List ColumnReference
  pub outputs : List OutputColumn
  pub requirements : List Requirement
  pub unresolved : List Unresolved
  pub warnings : List WarningCode
