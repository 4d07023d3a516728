-- ===== src/Report/Counts.antt =====
-- The counts and the verdict of an aggregated result.
use delta_scope.Prelude.{
  ℕ, suc, ◌+◌, ◌≤◌, ◌≡◌, refl, ◌∙◌, Bool, true, false, ◌||◌, List, [], ◌∷◌, ◌++◌, arith, ltb,
  if◌then◌else◌, length, any, map, Option, none, some, All,
}
use mathlib.Core.Path.{ap₂}
use delta_scope.Rule.{Finding, blocker, warning, notice}
use delta_scope.Report.{
  Verdict, unset_verdict, pass, review, reject, Summary, StatementResult, statement_findings,
  count_level, count_findings, verdict_of, aggregate, Explanation, explain_statement,
}

abbrev pub is_blocker : Finding → Bool
is_blocker f = elim f.level [ blocker ↦ true | _ ↦ false ]

abbrev pub is_warning : Finding → Bool
is_warning f = elim f.level [ warning ↦ true | _ ↦ false ]

abbrev pub is_notice : Finding → Bool
is_notice f = elim f.level [ notice ↦ true | _ ↦ false ]

-- The number of findings that pass a test.
abbrev pub count : (Finding → Bool) → List Finding → ℕ
count p [] = 0
count p (f ∷ fs) = if p f then suc (count p fs) else count p fs

count-append :
    (p : Finding → Bool) (fs gs : List Finding) → count p (fs ++ gs) ≡ count p fs + count p gs
count-append p [] gs = omega arith
count-append p (f ∷ fs) gs = ground (arith, count-append p fs gs)

count_findings_lem :
    (s : Summary) (fs : List Finding)
    → count_findings s fs ≡ record {
      statements = s.statements;
      blockers = s.blockers + count is_blocker fs;
      warnings = s.warnings + count is_warning fs;
      notices = s.notices + count is_notice fs;
    }
unfolding count_findings count_level
count_findings_lem s [] = ground arith
count_findings_lem s (f ∷ fs) = ground (arith, count_findings_lem (count_level f.level s) fs)

abbrev pub all_findings : List StatementResult → List Finding → List Finding
all_findings statements findings = statement_findings statements ++ findings

-- The summary counts the statements and, by level, the findings of all statements and the global
-- ones; a level that is none of the three is not counted.
pub summary-aggregate :
    (statements : List StatementResult) (findings : List Finding)
    → (aggregate statements findings).summary ≡ record {
      statements = length statements;
      blockers = count is_blocker (all_findings statements findings);
      warnings = count is_warning (all_findings statements findings);
      notices = count is_notice (all_findings statements findings);
    }
unfolding aggregate
summary-aggregate statements findings =
    let start : Summary = record {
      statements = length statements;
      blockers = 0;
      warnings = 0;
      notices = 0;
    } in
    count_findings_lem start (all_findings statements findings) ∙ ground arith

any-count : (p : Finding → Bool) (fs : List Finding) → any p fs ≡ ltb 0 (count p fs)
any-count p [] = ground arith
any-count p (f ∷ fs) = ground (arith, any-count p fs)

-- The verdict is reject exactly when some finding blocks, review when none does and some finding
-- warns, and pass otherwise.
pub verdict-aggregate :
    (statements : List StatementResult) (findings : List Finding)
    → (aggregate statements findings).verdict ≡ (
        if any is_blocker (all_findings statements findings)
        then reject
        else if any is_warning (all_findings statements findings)
        then review
        else pass)
unfolding aggregate verdict_of
verdict-aggregate statements findings = ground (
  arith,
  any-count is_blocker (all_findings statements findings),
  any-count is_warning (all_findings statements findings),
  count_findings_lem
      (record { statements = length statements; blockers = 0; warnings = 0; notices = 0 })
      (all_findings statements findings),
)

abbrev pub severity : Verdict → ℕ
severity unset_verdict = 0
severity pass = 1
severity review = 2
severity reject = 3

any-append : (p : Finding → Bool) (fs gs : List Finding) → any p (fs ++ gs) ≡ (any p fs || any p gs)
any-append p [] gs = refl
any-append p (f ∷ fs) gs = ground (arith, any-append p fs gs)

-- More global findings never make the verdict milder.
pub verdict-aggregate_mono :
    (statements : List StatementResult) (findings more : List Finding)
    → severity (aggregate statements findings).verdict
      ≤ severity (aggregate statements (findings ++ more)).verdict
verdict-aggregate_mono statements findings more = ground (
  arith,
  verdict-aggregate statements findings,
  verdict-aggregate statements (findings ++ more),
  any-append is_blocker (statement_findings statements) findings,
  any-append is_blocker (statement_findings statements) (findings ++ more),
  any-append is_blocker findings more,
  any-append is_warning (statement_findings statements) findings,
  any-append is_warning (statement_findings statements) (findings ++ more),
  any-append is_warning findings more,
)

-- An aggregated result has the statements it was given, but for their explanations.
module _ {ℓ} {A : Type ℓ} (f : StatementResult → A)
    (blind : (s : StatementResult) (e : Option Explanation)
      → f (record s { explanation = e }) ≡ f s) where
  pub map-aggregate :
      (statements : List StatementResult) (findings : List Finding)
      → map f (aggregate statements findings).statements ≡ map f statements
  unfolding aggregate
  map-aggregate [] findings = refl
  map-aggregate (s ∷ ss) findings =
      ap₂ (λ x xs. x ∷ xs) (explained s s.explanation) (map-aggregate ss findings)
    where
      explained : (s : StatementResult) (e : Option Explanation) → f (explain_statement s e) ≡ f s
      explained s none = blind s _
      explained s (some e) = refl

module _ {ℓ} (P : StatementResult → Type ℓ)
    (blind : (s : StatementResult) (e : Option Explanation)
      → P s
      → P (record s { explanation = e })) where
  pub aggregate-All :
      (statements : List StatementResult) (findings : List Finding)
      → All P statements
      → All P (aggregate statements findings).statements
  unfolding aggregate
  aggregate-All [] findings h = tt
  aggregate-All (s ∷ ss) findings (p, h) =
      (explained s s.explanation p, aggregate-All ss findings h)
    where
      explained : (s : StatementResult) (e : Option Explanation) → P s → P (explain_statement s e)
      explained s none q = blind s _ q
      explained s (some e) q = q
