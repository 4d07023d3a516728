-- ===== src/QueryAccess/Effect.antt =====
-- internal/application/queryaccess/contracts.go and the types of identity_resolver.go: the effect
-- candidates of a query, and the catalog facts that identify them.
pub mod Context
pub mod Batches
pub mod Binding
pub mod Eligibility
pub mod Samples
mod Tests
use delta_scope.Prelude.{
  text_beq, ℕ, ℤ, Bool, true, false, ◌&&◌, ◌||◌, not, List, [], ◌∷◌, Text, codes, comparable_text,
  comparable_nat, ◌==◌, Option, none, some, if◌then◌else◌, ltb, length,
}
use delta_scope.QueryAccess.{IdentityStatus}

-- `EffectCandidateKind`; its order is that of the strings.
pub data EffectKind : Type 0 where
  operator_kind function_kind cast_kind unknown_kind : EffectKind
  other_kind : Text → EffectKind

abbrev pub kind_text : EffectKind → Text
kind_text operator_kind = codes "operator"
kind_text function_kind = codes "function"
kind_text cast_kind = codes "cast"
kind_text unknown_kind = codes "unknown"
kind_text (other_kind t) = t

pub record OperandColumnRef : Type 0 where
  pub schema : Text
  pub table : Text
  pub column : Text

pub record EffectCandidate : Type 0 where
  pub kind : EffectKind
  pub ordinal : ℤ
  pub name_path : List Text
  pub original_name_path : List Text
  pub explicit_schema : Bool
  pub is_quoted : Bool
  pub canonical : Bool
  pub ambiguous : Bool
  pub parser_classification : Text
  pub unqualified_relation : Bool
  pub arity : ℤ
  pub operand_kinds : List Text
  pub is_aggregate : Bool
  pub has_window : Bool
  pub has_filter : Bool
  pub has_distinct : Bool
  pub has_agg_order : Bool
  pub has_within_group : Bool
  pub has_frame : Bool
  pub has_named_window : Bool
  pub has_window_partition : Bool
  pub has_window_order : Bool
  pub window_partition_kinds : List Text
  pub window_order_kinds : List Text
  pub window_frame_kinds : List Text
  pub window_partition_column_refs : List OperandColumnRef
  pub window_order_column_refs : List OperandColumnRef
  pub target_type_path : List Text
  pub operand_column_refs : List OperandColumnRef

-- `EffectIdentityResolutionContext`; OIDs and the version number are unsigned or never negative.
pub record ResolutionContext : Type 0 where
  pub bound : Bool
  pub session_binding : Text
  pub path_epoch : ℕ
  pub namespace_search_oids : List ℕ
  pub database_oid : ℕ
  pub role_oid : ℕ
  pub server_version_num : ℕ

-- `EffectIdentityFacts`; volatility and cast method are one-letter codes, or empty.
pub record IdentityFacts : Type 0 where
  pub kind : EffectKind
  pub aggregate_class : Text
  pub object_oid : ℕ
  pub namespace_oid : ℕ
  pub operand_type_oids : List ℕ
  pub result_type_oid : ℕ
  pub implementation_oid : ℕ
  pub volatility : Text
  pub cast_method : Text
  pub cast_function_oid : ℕ
  pub canonical_signature : Text
  pub resolved_schema_name : Text
  pub resolved_object_name : Text
  pub database_oid : ℕ
  pub server_version_num : ℕ

-- `EffectIdentityItem`; an `EffectIdentityBatch` is the list of its items.
pub record IdentityItem : Type 0 where
  pub ordinal : ℤ
  pub status : IdentityStatus
  pub facts : Option IdentityFacts

-- `EffectIdentityRequest`, but for the type OIDs, which the modelled code does not read.
pub record IdentityRequest : Type 0 where
  pub dialect : Text
  pub candidates : List EffectCandidate
  pub resolution : ResolutionContext

abbrev more_than_one : List Text → Bool
more_than_one xs = ltb 1 (length xs)

abbrev pub is_operator : EffectKind → Bool
is_operator operator_kind = true
is_operator _ = false

abbrev pub is_function : EffectKind → Bool
is_function function_kind = true
is_function _ = false

abbrev pub is_cast : EffectKind → Bool
is_cast cast_kind = true
is_cast _ = false

-- `validEffectCandidateKind`
unfoldable pub valid_kind : EffectKind → Bool
valid_kind operator_kind = true
valid_kind function_kind = true
valid_kind cast_kind = true
valid_kind _ = false

unfoldable pub valid_volatility : Text → Bool
valid_volatility v = v == codes "i" || v == codes "s" || v == codes "v"

unfoldable pub valid_cast_method : Text → Bool
valid_cast_method m = m == codes "f" || m == codes "b" || m == codes "i"

-- `CandidateExplicitlyQualified`
unfoldable pub explicitly_qualified : EffectCandidate → Bool
explicitly_qualified c =
    c.explicit_schema
    || more_than_one c.name_path
    || (is_cast c.kind && more_than_one c.target_type_path)

abbrev first_of_more : List Text → Text
first_of_more (x ∷ y ∷ xs) = x
first_of_more _ = []

-- `candidateExplicitSchemaName`
unfoldable pub explicit_schema_name : EffectCandidate → Text
unfolding explicitly_qualified
explicit_schema_name c =
    if not (explicitly_qualified c)
    then []
    else if is_cast c.kind
    then first_of_more c.target_type_path
    else first_of_more c.name_path

-- `candidateExplicitPgCatalog`
explicit_pg_catalog : EffectCandidate → Bool
unfolding explicit_schema_name
explicit_pg_catalog c = text_beq (explicit_schema_name c) (codes "pg_catalog")

-- The last element of a path, or the empty text.
abbrev last_of : List Text → Text
last_of [] = []
last_of (x ∷ []) = x
last_of (x ∷ y ∷ xs) = last_of (y ∷ xs)

-- `candidateCanonicalName`
unfoldable pub canonical_name : EffectCandidate → Text
canonical_name c = if is_cast c.kind then last_of c.target_type_path else last_of c.name_path
