-- ===== src/QueryAccess/Profile.antt =====
-- internal/application/queryaccess/profile.go: the closed set of engine versions.
use delta_scope.Prelude.{
  Bool, true, false, Text, codes, text_beq, Option, none, some, if◌then◌else◌, text_beq_iff, ◌≡◌,
  refl, arith,
}

pub data AnalysisProfile : Type 0 where
  empty_profile mysql57 mysql80 mysql84 tidb85 : AnalysisProfile
  -- any other string
  other_profile : Text → AnalysisProfile

abbrev pub profile_text : AnalysisProfile → Text
profile_text empty_profile = codes ""
profile_text mysql57 = codes "mysql-5.7"
profile_text mysql80 = codes "mysql-8.0"
profile_text mysql84 = codes "mysql-8.4"
profile_text tidb85 = codes "tidb-8.5"
profile_text (other_profile t) = t

abbrev pub profile_beq : AnalysisProfile → AnalysisProfile → Bool
profile_beq empty_profile empty_profile = true
profile_beq mysql57 mysql57 = true
profile_beq mysql80 mysql80 = true
profile_beq mysql84 mysql84 = true
profile_beq tidb85 tidb85 = true
profile_beq (other_profile s) (other_profile t) = text_beq s t
profile_beq _ _ = false

pub data ProfileError : Type 0 where
  invalid_profile dialect_mismatch : ProfileError

abbrev only_for : Text → Text → Option ProfileError
only_for owner dialect = if text_beq dialect owner then none else some dialect_mismatch

-- `ValidateAnalysisProfile`
unfoldable pub validate_analysis_profile : AnalysisProfile → Text → Option ProfileError
validate_analysis_profile empty_profile dialect = none
validate_analysis_profile mysql57 dialect = only_for (codes "mysql") dialect
validate_analysis_profile mysql80 dialect = only_for (codes "mysql") dialect
validate_analysis_profile mysql84 dialect = only_for (codes "mysql") dialect
validate_analysis_profile tidb85 dialect = only_for (codes "tidb") dialect
validate_analysis_profile (other_profile t) dialect = some invalid_profile

pub profile_beq-eq : (p q : AnalysisProfile) → profile_beq p q ≡ true → p ≡ q
profile_beq-eq empty_profile empty_profile h = refl
profile_beq-eq mysql57 mysql57 h = refl
profile_beq-eq mysql80 mysql80 h = refl
profile_beq-eq mysql84 mysql84 h = refl
profile_beq-eq tidb85 tidb85 h = refl
profile_beq-eq (other_profile s) (other_profile t) h = ground (arith, text_beq_iff s t)
profile_beq-eq _ _ h = ground arith
