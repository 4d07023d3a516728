-- ===== src/QueryAccess/Service/Refusal.antt =====
-- Which error Service.Analyze returns, and why.
use delta_scope.Prelude.{
  ◌≡◌, refl, sym, ap, ◌∙◌, subst, Bool, true, false, List, [], Text, arith, Option, none, some, ◌⊎◌,
  inl, inr, Bool-cases, Option-cases, text_beq_iff, has_prefix, drop,
}
use delta_scope.Utf8.{trim_space}
use delta_scope.QueryAccess.{
  Mode, strict_mode, projection_only, other_mode, RelationReference, ColumnReference, OutputColumn,
  Unresolved,
}
use delta_scope.QueryAccess.Requirements.{build_requirements}
use delta_scope.QueryAccess.Normalize.{ValidationError, validate_mode}
use delta_scope.QueryAccess.Effect.Eligibility.{Folding}
use delta_scope.QueryAccess.Profile.{validate_analysis_profile, ProfileError}
use delta_scope.QueryAccess.Proof.{Service}
use delta_scope.QueryAccess.Proof.Orchestrate.{Extracted}
use delta_scope.QueryAccess.Service.{
  Request, Context, AnalyzeError, analyze_cancelled, bom_only_sql, extraction_failed,
  profile_refused, requirements_failed, invalid_result, Extractor, normalize_sql_input,
  byte_order_mark, blocked, analyze_extracted, extract_by_dialect, analyze,
}
use delta_scope.QueryAccess.Service.Kept.{blocked-mode}
use delta_scope.QueryAccess.Service.Outcome.{
  checks, unmarked, is_bare, analyze-checks, extracted-total, step_of,
}

abbrev IsModeError : Extracted → AnalyzeError → Type 0
IsModeError x (requirements_failed e) = validate_mode x.result.mode ≡ some e
IsModeError x _ = ⊥

-- Why the guards refuse.
abbrev CheckCause : Bool → Bool → Option ProfileError → Option Extracted → AnalyzeError → Type 0
CheckCause cancelled bare profile extraction analyze_cancelled = cancelled ≡ true
CheckCause cancelled bare profile extraction bom_only_sql = (cancelled ≡ false) × (bare ≡ true)
CheckCause cancelled bare profile extraction (profile_refused e) = profile ≡ some e
CheckCause cancelled bare profile extraction extraction_failed =
    (profile ≡ none) × (extraction ≡ none)
CheckCause cancelled bare profile extraction (requirements_failed e) =
    (x : Extracted) × (extraction ≡ some x) × (validate_mode x.result.mode ≡ some e)
CheckCause cancelled bare profile extraction (invalid_result e) = ⊥

abbrev error_of : AnalyzeError → AnalyzeError ⊎ Extracted → AnalyzeError
error_of other (inl e) = e
error_of other (inr x) = other

mode_cause :
    (x : Extracted) (e : AnalyzeError) → IsModeError x e → CheckCause false false none (some x) e
mode_cause x (requirements_failed e) h = (x, refl, h)
mode_cause x analyze_cancelled h = elim h [ ]
mode_cause x bom_only_sql h = elim h [ ]
mode_cause x extraction_failed h = elim h [ ]
mode_cause x (profile_refused e) h = elim h [ ]
mode_cause x (invalid_result e) h = elim h [ ]

checks-inl :
    (cancelled bare : Bool) (profile : Option ProfileError) (extraction : Option Extracted)
    (finish : Extracted → AnalyzeError ⊎ Extracted) (e : AnalyzeError)
    → ((x : Extracted) → finish x ≡ inl e → IsModeError x e)
    → checks cancelled bare profile extraction finish ≡ inl e
    → CheckCause cancelled bare profile extraction e
checks-inl true bare profile extraction finish e refused h =
    subst (CheckCause true bare profile extraction) (ap (error_of e) h) refl
checks-inl false true profile extraction finish e refused h =
    subst (CheckCause false true profile extraction) (ap (error_of e) h) (refl, refl)
checks-inl false false (some p) extraction finish e refused h =
    subst (CheckCause false false (some p) extraction) (ap (error_of e) h) refl
checks-inl false false none none finish e refused h =
    subst (CheckCause false false none none) (ap (error_of e) h) (refl, refl)
checks-inl false false none (some x) finish e refused h = mode_cause x e (refused x h)

build_requirements-refused :
    (to_lower : Text → Text) (m : Mode) (relations : List RelationReference)
    (columns : List ColumnReference) (outputs : List OutputColumn) (unresolved : List Unresolved)
    (e : ValidationError)
    → validate_mode m ≡ some e
    → build_requirements to_lower m relations columns outputs unresolved ≡ inl e
unfolding build_requirements validate_mode
build_requirements-refused to_lower strict_mode relations columns outputs unresolved e h =
    ground arith
build_requirements-refused to_lower projection_only relations columns outputs unresolved e h =
    ground arith
build_requirements-refused to_lower (other_mode t) relations columns outputs unresolved e h =
    ground arith

module _ (folding : Folding) (s : Service) (ctx : Context) (req : Request) where
  extracted-step :
      (x : Extracted)
      → let r = blocked folding s ctx req x.result in
        analyze_extracted folding s ctx req x
        ≡ step_of folding s ctx req x (
            build_requirements folding.to_lower r.mode r.relations r.referenced_columns r.outputs
              r.unresolved)
  unfolding analyze_extracted
  extracted-step x = refl

  extracted-refused :
      (x : Extracted) (e : AnalyzeError)
      → analyze_extracted folding s ctx req x ≡ inl e
      → IsModeError x e
  extracted-refused x e h = elim (Option-cases (validate_mode x.result.mode)) [
    | inl known ↦
        let (x', done, contract) = extracted-total folding s ctx req x known in
        ground (arith, h, done)
    | inr (err, wrong) ↦
        let r = blocked folding s ctx req x.result in
        let refused =
          build_requirements-refused folding.to_lower r.mode r.relations r.referenced_columns
            r.outputs r.unresolved err
            (ap validate_mode (blocked-mode folding s ctx req x.result) ∙ wrong) in
        let same = sym (extracted-step x ∙ ap (step_of folding s ctx req x) refused) ∙ h in
        subst (IsModeError x) (ap (error_of e) same) wrong
  ]

-- What each error says of the request.
abbrev pub Cause : Extractor → Extractor → Context → Request → AnalyzeError → Type 0
Cause tidb postgresql ctx req analyze_cancelled = ctx.at_start ≡ true
Cause tidb postgresql ctx req bom_only_sql =
    (ctx.at_start ≡ false)
    × (has_prefix req.sql byte_order_mark ≡ true)
    × (trim_space (drop 3 req.sql) ≡ [])
Cause tidb postgresql ctx req (profile_refused e) =
    validate_analysis_profile req.analysis_profile req.dialect ≡ some e
Cause tidb postgresql ctx req extraction_failed =
    (validate_analysis_profile req.analysis_profile req.dialect ≡ none)
    × (extract_by_dialect tidb postgresql (unmarked req) ≡ none)
Cause tidb postgresql ctx req (requirements_failed e) =
    (x : Extracted) × (extract_by_dialect tidb postgresql (unmarked req) ≡ some x)
    × (validate_mode x.result.mode ≡ some e)
Cause tidb postgresql ctx req (invalid_result e) = ⊥

bare-cause :
    (req : Request)
    → is_bare req ≡ true
    → (has_prefix req.sql byte_order_mark ≡ true) × (trim_space (drop 3 req.sql) ≡ [])
unfolding normalize_sql_input
bare-cause req h = elim (Bool-cases (has_prefix req.sql byte_order_mark)) [
  | inl e ↦ (e, (text_beq_iff (trim_space (drop 3 req.sql)) []).0 (ground (arith, e, h)))
  | inr e ↦ ground (arith, e, h, (text_beq_iff req.sql req.sql).1 refl)
]

module _ (folding : Folding) (tidb postgresql : Extractor) (s : Service) (ctx : Context)
    (req : Request) where
  Cause-checks :
      (e : AnalyzeError)
      → CheckCause ctx.at_start
          (is_bare req)
          (validate_analysis_profile req.analysis_profile req.dialect)
          (extract_by_dialect tidb postgresql (unmarked req))
          e
      → Cause tidb postgresql ctx req e
  Cause-checks analyze_cancelled h = h
  Cause-checks bom_only_sql (live, bare) =
      let (marked, blank) = bare-cause req bare in (live, marked, blank)
  Cause-checks (profile_refused e) h = h
  Cause-checks extraction_failed h = h
  Cause-checks (requirements_failed e) h = h
  Cause-checks (invalid_result e) h = h

  -- Whenever the analysis fails, its error tells the cause: the context was cancelled, the text is a
  -- byte order mark and nothing behind it but spaces, the profile does not fit the dialect, the
  -- extraction failed, or the extracted mode is unknown. It never fails because its own result is
  -- invalid.
  pub analyze_refused :
      (e : AnalyzeError)
      → analyze folding tidb postgresql s ctx req ≡ inl e
      → Cause tidb postgresql ctx req e
  analyze_refused e h = Cause-checks e (
      checks-inl ctx.at_start (is_bare req)
        (validate_analysis_profile req.analysis_profile req.dialect)
        (extract_by_dialect tidb postgresql (unmarked req))
        (λ x. analyze_extracted folding s ctx (unmarked req) x) e
        (λ x. extracted-refused folding s ctx (unmarked req) x e)
        (sym (analyze-checks folding tidb postgresql s ctx req) ∙ h))
