-- ===== src/Spec.antt =====
-- internal/domain/spec: dialects, parsed statements and the parts of them that the application
-- layer itself reads. Statement fields that only single rules read (the DDL facts, table lists and
-- counters) are left out. A string type with constants is a data type with one more constructor for
-- any other value; a `float64` is its bit pattern; a Go `nil` slice and an empty one are the same.
use delta_scope.Prelude.{ℕ, Bool, true, false, Text, codes, List, Option}

pub data Dialect : Type 0 where
  mysql tidb postgresql : Dialect
  other_dialect : Text → Dialect

abbrev pub dialect_text : Dialect → Text
dialect_text mysql = codes "mysql"
dialect_text tidb = codes "tidb"
dialect_text postgresql = codes "postgresql"
dialect_text (other_dialect s) = s

unfoldable pub is_postgresql : Dialect → Bool
is_postgresql postgresql = true
is_postgresql _ = false

unfoldable pub is_mysql : Dialect → Bool
is_mysql mysql = true
is_mysql _ = false

unfoldable pub is_mysql_or_tidb : Dialect → Bool
is_mysql_or_tidb mysql = true
is_mysql_or_tidb tidb = true
is_mysql_or_tidb _ = false

-- `map[string]any` values: those that the sources write, and a mark for any other.
pub data Any : Type 0 where
  text_value : Text → Any
  flag_value : Bool → Any
  number_value : ℕ → Any
  texts_value : List Text → Any
  other_value : ℕ → Any

pub data Operation : Type 0 where
  unknown_operation insert_operation update_operation delete_operation : Operation

pub data PredicateShape : Type 0 where
  -- the empty string
  unset_shape : PredicateShape
  unknown_shape missing_where unique_equality indexed_prefix_equality indexed_range : PredicateShape
  join_shape non_sargable subquery : PredicateShape

pub data ImpactSource : Type 0 where
  shape_source metadata_source plan_source : ImpactSource

pub data ImpactRisk : Type 0 where
  unset_risk low_risk medium_risk high_risk unknown_risk : ImpactRisk

pub data ImpactConfidence : Type 0 where
  unset_confidence low_confidence medium_confidence high_confidence : ImpactConfidence

-- `EstimatedRows` is a count, so never negative; a plan that says otherwise is not modelled.
pub record ImpactEstimate : Type 0 where
  pub estimated_rows : Option ℕ
  pub estimated_ratio : Option ℕ
  pub risk_level : ImpactRisk
  pub confidence : ImpactConfidence
  pub source : ImpactSource
  pub reason_codes : List Text
  pub notes : List Text

pub record Dml : Type 0 where
  pub operation : Operation
  pub has_where : Bool
  pub has_join : Bool
  pub has_returning : Bool
  pub predicate_shape : PredicateShape
  pub lookup_columns : List Text
  pub impact : Option ImpactEstimate

pub data IndexKind : Type 0 where
  unknown_index primary secondary unique fulltext : IndexKind

pub record Index : Type 0 where
  pub kind : IndexKind
  pub columns : List Text

pub record TableSnapshot : Type 0 where
  pub exists : Bool
  pub primary_key : Option Index
  pub options : List (Text × Text)

-- `has_instance` says whether the instance snapshot is set.
pub record Metadata : Type 0 where
  pub schema : Text
  pub target_table : Option TableSnapshot
  pub has_instance : Bool

pub record UnsupportedDetail : Type 0 where
  pub index : ℕ
  pub feature : Text
  pub sql : Text
  pub reason : Text
  pub metadata : List (Text × Any)

pub record Statement : Type 0 where
  pub kind : Text
  pub dialect : Dialect
  pub raw_sql : Text
  pub normalized_sql : Text
  pub line : ℕ
  pub column : ℕ
  pub metadata : Option Metadata
  pub dml : Option Dml
  pub unsupported : Option UnsupportedDetail

pub record Diagnostic : Type 0 where
  pub classification : Text
  pub reason : Text
  pub action_hint : Text
  pub audited : Bool
  pub dialect : Text
  pub guidance_code : Text
  pub evidence_ref : Text
  pub line : ℕ
  pub column : ℕ
