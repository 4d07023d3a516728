-- ===== src/QueryAccess/Service/Outcome.antt =====
-- What Service.Analyze returns: when there is a result, what it promises, and which error there is
-- else.
use delta_scope.Prelude.{
  ◌≡◌, refl, sym, ap, ◌∙◌, Bool, true, false, List, [], Text, text_beq, arith, Option, none, some,
  ◌⊎◌, inl, inr, not, ◌&&◌, if◌then◌else◌,
}
use delta_scope.Utf8.{trim_space}
use delta_scope.QueryAccess.{
  read_only, admissible, Mode, strict_mode, projection_only, other_mode, RelationReference,
  ColumnReference, OutputColumn, Unresolved,
}
use delta_scope.QueryAccess.Normalize.{ValidationError, validate_mode}
use delta_scope.QueryAccess.Requirements.{build_requirements, Requirements}
use delta_scope.QueryAccess.State.{has_view}
use delta_scope.QueryAccess.State.Contract.{IsContract, conclude-IsContract}
use delta_scope.QueryAccess.Effect.Eligibility.{Folding}
use delta_scope.QueryAccess.Profile.{validate_analysis_profile, ProfileError}
use delta_scope.QueryAccess.Proof.{Service}
use delta_scope.QueryAccess.Proof.Orchestrate.{Extracted, orchestrate}
use delta_scope.QueryAccess.Service.{
  Request, Context, AnalyzeError, analyze_cancelled, bom_only_sql, extraction_failed,
  profile_refused, requirements_failed, Extractor, normalize_sql_input, resolver_of, is_there,
  is_unqualified, attach, blocked, prove_and_conclude, analyze_extracted, extract_by_dialect,
  analyze,
}
use delta_scope.QueryAccess.Service.Kept.{orchestrate-mode, blocked-mode}
use delta_scope.QueryAccess.Service.Admission.{extracted-admissible, extracted-resolved}

-- The guards of the analysis, and the extraction.
abbrev pub checks :
    Bool
    → Bool
    → Option ProfileError
    → Option Extracted
    → (Extracted → AnalyzeError ⊎ Extracted)
    → AnalyzeError ⊎ Extracted
checks cancelled bare profile extraction finish =
    if cancelled then inl analyze_cancelled else if bare then inl bom_only_sql else elim profile [
      | some e ↦ inl (profile_refused e)
      | none ↦ elim extraction [ none ↦ inl extraction_failed | some x ↦ finish x ]
    ]

pub checks-inr :
    (cancelled bare : Bool) (profile : Option ProfileError) (extraction : Option Extracted)
    (finish : Extracted → AnalyzeError ⊎ Extracted) (x' : Extracted)
    → checks cancelled bare profile extraction finish ≡ inr x'
    → (x : Extracted) × (extraction ≡ some x) × (finish x ≡ inr x')
checks-inr true bare profile extraction finish x' h = ground arith
checks-inr false true profile extraction finish x' h = ground arith
checks-inr false false (some e) extraction finish x' h = ground arith
checks-inr false false none none finish x' h = ground arith
checks-inr false false none (some x) finish x' h = (x, refl, h)

checks-finish :
    (cancelled bare : Bool) (profile : Option ProfileError) (extraction : Option Extracted)
    (finish : Extracted → AnalyzeError ⊎ Extracted) (x : Extracted)
    → cancelled ≡ false
    → bare ≡ false
    → profile ≡ none
    → extraction ≡ some x
    → checks cancelled bare profile extraction finish ≡ finish x
checks-finish cancelled bare profile extraction finish x live marked fits found =
    rw (live, marked, fits, found) refl

build_requirements-total :
    (to_lower : Text → Text) (m : Mode) (relations : List RelationReference)
    (columns : List ColumnReference) (outputs : List OutputColumn) (unresolved : List Unresolved)
    → validate_mode m ≡ none
    → (reqs : Requirements) × (build_requirements to_lower m relations columns outputs unresolved
        ≡ inr reqs)
unfolding build_requirements validate_mode
build_requirements-total to_lower strict_mode relations columns outputs unresolved h = (_, refl)
build_requirements-total to_lower projection_only relations columns outputs unresolved h = (_, refl)
build_requirements-total to_lower (other_mode t) relations columns outputs unresolved h =
    ground arith

module _ (folding : Folding) (s : Service) (ctx : Context) (req : Request) where
  prove_and_conclude-total :
      (x : Extracted)
      → validate_mode x.result.mode ≡ none
      → (x' : Extracted) × (prove_and_conclude folding s ctx req x ≡ inr x') × IsContract x'.result
  unfolding prove_and_conclude
  prove_and_conclude-total x known =
      let p = orchestrate folding s req.analysis_profile req.dialect x in
      let same = orchestrate-mode folding s req.analysis_profile req.dialect x in
      let (r, e, contract) =
        conclude-IsContract (is_there (resolver_of s req)) p.0 p.1
          (ap validate_mode same ∙ known) in
      (record x { result = r }, rw e refl, contract)

  abbrev pub step_of : Extracted → ValidationError ⊎ Requirements → AnalyzeError ⊎ Extracted
  step_of x (inl e) = inl (requirements_failed e)
  step_of x (inr reqs) =
      prove_and_conclude folding s ctx req
        (record x { result = attach reqs (blocked folding s ctx req x.result) })

  pub extracted-total :
      (x : Extracted)
      → validate_mode x.result.mode ≡ none
      → (x' : Extracted) × (analyze_extracted folding s ctx req x ≡ inr x') × IsContract x'.result
  unfolding analyze_extracted
  extracted-total x known =
      let r = blocked folding s ctx req x.result in
      let known_mode = ap validate_mode (blocked-mode folding s ctx req x.result) ∙ known in
      let (reqs, e) =
        build_requirements-total folding.to_lower r.mode r.relations r.referenced_columns r.outputs
          r.unresolved known_mode in
      let (x', done, contract) =
        prove_and_conclude-total (record x { result = attach reqs r }) known_mode in
      (x', ap (step_of x) e ∙ done, contract)

abbrev pub unmarked : Request → Request
unmarked req = record req { sql = normalize_sql_input req.sql }

-- The text is nothing but a byte order mark and spaces.
abbrev pub is_bare : Request → Bool
is_bare req =
    not (text_beq (normalize_sql_input req.sql) req.sql)
    && text_beq (trim_space (normalize_sql_input req.sql)) []

module _ (folding : Folding) (tidb postgresql : Extractor) (s : Service) (ctx : Context)
    (req : Request) where
  pub analyze-checks :
      analyze folding tidb postgresql s ctx req
      ≡ checks ctx.at_start
          (is_bare req)
          (validate_analysis_profile req.analysis_profile req.dialect)
          (extract_by_dialect tidb postgresql (unmarked req))
          (λ x. analyze_extracted folding s ctx (unmarked req) x)
  unfolding analyze
  analyze-checks = refl

  -- The analysis always returns a result, and one that keeps the contract of classification,
  -- admission and reasons, if its context is not cancelled, the text is more than a byte order mark
  -- and spaces, the profile fits the dialect, and the extraction has a known mode.
  pub analyze-IsContract :
      (x : Extracted)
      → ctx.at_start ≡ false
      → is_bare req ≡ false
      → validate_analysis_profile req.analysis_profile req.dialect ≡ none
      → extract_by_dialect tidb postgresql (unmarked req) ≡ some x
      → validate_mode x.result.mode ≡ none
      → (x' : Extracted) × (analyze folding tidb postgresql s ctx req ≡ inr x')
        × IsContract x'.result
  analyze-IsContract x live marked fits found known =
      let (x', done, contract) = extracted-total folding s ctx (unmarked req) x known in
      (x', analyze-checks ∙ checks-finish _ _ _ _ _ x live marked fits found ∙ done, contract)

  -- An admissible result is read-only, has nothing unresolved and reads no view; for PostgreSQL, it
  -- has no base relation without a schema.
  pub analyze-admissible :
      (x' : Extracted)
      → analyze folding tidb postgresql s ctx req ≡ inr x'
      → x'.result.admission ≡ admissible
      → (x'.result.read_classification ≡ read_only)
        × (x'.result.unresolved ≡ [])
        × (has_view x'.result.relations ≡ false)
        × (is_unqualified req x'.result ≡ false)
  analyze-admissible x' h adm =
      let (x, found, done) =
        checks-inr ctx.at_start (is_bare req)
          (validate_analysis_profile req.analysis_profile req.dialect)
          (extract_by_dialect tidb postgresql (unmarked req))
          (λ x. analyze_extracted folding s ctx (unmarked req) x) x' (sym analyze-checks ∙ h) in
      let (no_view, qualified) = extracted-admissible folding s ctx (unmarked req) x x' done adm in
      let (read, resolved) = extracted-resolved folding s ctx (unmarked req) x x' done adm in
      (read, resolved, no_view, qualified)
