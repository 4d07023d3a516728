-- ===== src/QueryAccess/Builtin.antt =====
-- internal/application/queryaccess/builtin_semantic_manifest.go: the manifests of native calls by
-- profile, their validation, and the registry. `strings.ToLower` is a parameter.
pub mod Gateway
pub mod Native
pub mod Production
mod Tests
use delta_scope.Prelude.{
  ℕ, suc, ℤ, pos, negsuc, int_lt, is_negative, comparable_int, comparable_text, ◌==◌, Bool, true,
  false, not, ◌&&◌, ◌||◌, List, [], ◌∷◌, ◌++◌, Text, text_beq, codes, Option, none, some, nat_beq,
  ltb, ◌+◌, length, contains, any, map, concat, if◌then◌else◌, ◌⊎◌, inl, inr,
}
use delta_scope.Utf8.{trim_space}
use delta_scope.Report.{decimal}
use delta_scope.QueryAccess.Profile.{
  AnalysisProfile, empty_profile, profile_text, profile_beq, ProfileError,
  validate_analysis_profile,
}

pub data CallClass : Type 0 where
  aggregate_class window_class scalar_class : CallClass
  other_class : Text → CallClass

abbrev class_text : CallClass → Text
class_text aggregate_class = codes "aggregate"
class_text window_class = codes "window"
class_text scalar_class = codes "scalar"
class_text (other_class t) = t

abbrev pub is_aggregate_class : CallClass → Bool
is_aggregate_class aggregate_class = true
is_aggregate_class _ = false

abbrev pub is_window_class : CallClass → Bool
is_window_class window_class = true
is_window_class _ = false

abbrev pub is_scalar_class : CallClass → Bool
is_scalar_class scalar_class = true
is_scalar_class _ = false

-- `BuiltinSemanticEntry`
pub record BuiltinEntry : Type 0 where
  pub dialect : Text
  pub profile : AnalysisProfile
  pub name : Text
  pub call_class : CallClass
  pub arity : ℤ
  pub operand_kinds : List Text
  pub min_arity : ℤ
  pub max_arity : ℤ
  pub allow_filter : Bool
  pub allow_distinct : Bool
  pub allow_agg_order : Bool
  pub allow_within_group : Bool
  pub allow_frame : Bool
  pub allow_named_window : Bool
  pub allow_window_partition : Bool
  pub allow_window_order : Bool
  pub require_window_partition : Bool
  pub require_window_order : Bool

pub data BuiltinError : Type 0 where
  unsupported_dialect missing_profile invalid_name unsupported_class : BuiltinError
  negative_arity negative_min_arity negative_max_arity min_above_max_arity : BuiltinError
  wrong_operand_count zero_arity_operands non_star_operand unsupported_operand : BuiltinError
  window_on_aggregate modifier_on_scalar require_partition require_order : BuiltinError
  profile_error : ProfileError → BuiltinError

-- `validBuiltinOperandKind`
unfoldable pub valid_operand_kind : Text → Bool
valid_operand_kind kind =
    kind == codes "column"
    || kind == codes "const"
    || kind == codes "param"
    || kind == codes "star"
    || kind == codes "expr"
    || kind == codes "subquery"

abbrev window_modifier : BuiltinEntry → Bool
window_modifier e =
    e.allow_window_partition || e.allow_window_order || e.allow_frame || e.allow_named_window
    || e.require_window_partition || e.require_window_order

abbrev one_other_than_star : List Text → Bool
one_other_than_star (kind ∷ []) = not (kind == codes "star")
one_other_than_star _ = false

-- The checks of `validateBuiltinSemanticEntry` behind those of the name and the class.
unfoldable pub validate_shape : BuiltinEntry → Option BuiltinError
unfolding valid_operand_kind
validate_shape e =
    let fixed = e.min_arity == pos 0 in
    let given = length e.operand_kinds in
    if is_negative e.arity
    then some negative_arity
    else if is_negative e.min_arity
    then some negative_min_arity
    else if is_negative e.max_arity
    then some negative_max_arity
    else if int_lt (pos 0) e.min_arity
        && int_lt (pos 0) e.max_arity
        && int_lt e.max_arity e.min_arity
    then some min_above_max_arity
    else if fixed && int_lt (pos 0) e.arity && not (pos given == e.arity)
    then some wrong_operand_count
    else if fixed && e.arity == pos 0 && ltb 1 given
    then some zero_arity_operands
    else if fixed && e.arity == pos 0 && one_other_than_star e.operand_kinds
    then some non_star_operand
    else if any (λ kind. not (valid_operand_kind kind)) e.operand_kinds
    then some unsupported_operand
    else if is_aggregate_class e.call_class && window_modifier e
    then some window_on_aggregate
    else if is_scalar_class e.call_class
        && (window_modifier e
            || e.allow_filter
            || e.allow_distinct
            || e.allow_agg_order
            || e.allow_within_group)
    then some modifier_on_scalar
    else if e.require_window_partition && not e.allow_window_partition
    then some require_partition
    else if e.require_window_order && not e.allow_window_order
    then some require_order
    else none

abbrev unknown_class : CallClass → Bool
unknown_class c = not (is_aggregate_class c) && not (is_window_class c) && not (is_scalar_class c)

-- `%d`, `%t` and `%v` of a slice of strings.
abbrev int_text : ℤ → Text
int_text (pos n) = decimal n
int_text (negsuc n) = b'-' ∷ decimal (n + 1)

abbrev bool_text : Bool → Text
bool_text true = codes "true"
bool_text false = codes "false"

abbrev join : ℕ → List Text → Text
join separator [] = []
join separator (t ∷ []) = t
join separator (t ∷ u ∷ ts) = t ++ separator ∷ join separator (u ∷ ts)

abbrev flags : BuiltinEntry → List Bool
flags e =
    e.allow_filter ∷ e.allow_distinct ∷ e.allow_agg_order ∷ e.allow_within_group ∷ e.allow_frame
    ∷ e.allow_named_window ∷ e.allow_window_partition ∷ e.allow_window_order
    ∷ e.require_window_partition ∷ e.require_window_order ∷ []

abbrev list_text : List Text → Text
list_text ts = b'[' ∷ (join b' ' ts ++ b']' ∷ [])

-- `builtinSemanticEntryKey`
unfoldable pub entry_key : BuiltinEntry → Text
entry_key e = join b'|' (
    e.dialect
    ∷ profile_text e.profile
    ∷ e.name
    ∷ class_text e.call_class
    ∷ int_text e.arity
    ∷ list_text e.operand_kinds
    ∷ int_text e.min_arity
    ∷ int_text e.max_arity
    ∷ concat (map bool_text (flags e))
    ∷ [])

pub data BuiltinManifestError : Type 0 where
  bad_builtin : ℕ → BuiltinError → BuiltinManifestError
  duplicate_builtin registry_entry registry_mismatch : BuiltinManifestError

-- `BuiltinSemanticManifest`: its entries. Copies of them are the same entries here.
abbrev pub Manifest : Type 0
Manifest = List BuiltinEntry

-- The loop of `manifestForProfile`.
abbrev pub of_profile : AnalysisProfile → Manifest → List BuiltinEntry
of_profile profile [] = []
of_profile profile (e ∷ es) =
    let rest = of_profile profile es in if profile_beq e.profile profile then e ∷ rest else rest

-- `builtinSemanticRegistry`: the manifests by profile, `none` for a nil one.
abbrev pub BuiltinRegistry : Type 0
BuiltinRegistry = List (AnalysisProfile × Manifest)

abbrev pub other_profile_entry : AnalysisProfile → Manifest → Bool
other_profile_entry profile [] = false
other_profile_entry profile (e ∷ es) =
    not (profile_beq e.profile profile) || other_profile_entry profile es

abbrev pub manifest_at : AnalysisProfile → BuiltinRegistry → Option Manifest
manifest_at profile [] = none
manifest_at profile ((p, m) ∷ rest) =
    if profile_beq p profile then some m else manifest_at profile rest

module _ (to_lower : Text → Text) where
  -- `validateBuiltinSemanticEntry`
  unfoldable pub validate_builtin : BuiltinEntry → Option BuiltinError
  unfolding validate_shape
  validate_builtin e =
      if not (text_beq e.dialect (codes "mysql")) && not (text_beq e.dialect (codes "tidb"))
      then some unsupported_dialect
      else if profile_beq e.profile empty_profile
      then some missing_profile
      else elim (validate_analysis_profile e.profile e.dialect) [
        | some err ↦ some (profile_error err)
        | none ↦
            if text_beq e.name []
              || not (text_beq e.name (to_lower e.name))
              || not (text_beq (trim_space e.name) e.name)
            then some invalid_name
            else if unknown_class e.call_class
            then some unsupported_class
            else validate_shape e
      ]

  -- The loop of `NewBuiltinSemanticManifest`, with the index and the keys of `seen`.
  unfoldable pub validate_builtins : ℕ → List Text → Manifest → Option BuiltinManifestError
  unfolding validate_builtin
  validate_builtins i seen [] = none
  validate_builtins i seen (e ∷ es) =
      let rest = validate_builtins (suc i) (entry_key e ∷ seen) es in
      elim (validate_builtin e) [
        | some err ↦ some (bad_builtin i err)
        | none ↦ if contains (entry_key e) seen then some duplicate_builtin else rest
      ]

  -- `NewBuiltinSemanticManifest`
  unfoldable pub new_manifest : List BuiltinEntry → BuiltinManifestError ⊎ Manifest
  unfolding validate_builtins
  new_manifest es = elim (validate_builtins 0 [] es) [ some err ↦ inl err | none ↦ inr es ]

  -- `manifestForProfile`
  unfoldable pub manifest_for_profile : Manifest → AnalysisProfile → BuiltinManifestError ⊎ Manifest
  unfolding new_manifest
  manifest_for_profile all profile = new_manifest (of_profile profile all)

  -- `newBuiltinSemanticRegistry`
  unfoldable pub new_builtin_registry :
      List (AnalysisProfile × Option Manifest) → BuiltinManifestError ⊎ BuiltinRegistry
  unfolding new_manifest
  new_builtin_registry [] = inr []
  new_builtin_registry ((profile, none) ∷ rest) = inl registry_entry
  new_builtin_registry ((profile, some m) ∷ rest) =
      let others = new_builtin_registry rest in
      if profile_beq profile empty_profile
      then inl registry_entry
      else if other_profile_entry profile m
      then inl registry_mismatch
      else elim (new_manifest m) [
        | inl err ↦ inl err
        | inr copy ↦ elim others [ inl err ↦ inl err | inr r ↦ inr ((profile, copy) ∷ r) ]
      ]

  -- `(*builtinSemanticRegistry).manifest` and `cloneBuiltinSemanticManifest`
  unfoldable pub manifest_of : BuiltinRegistry → AnalysisProfile → Option Manifest
  unfolding new_manifest
  manifest_of registry profile = elim (manifest_at profile registry) [
    | none ↦ none
    | some m ↦ elim (new_manifest m) [ inl err ↦ none | inr copy ↦ some copy ]
  ]
