-- ===== src/QueryAccess/Service/Unqualified.antt =====
-- Service.Analyze on a PostgreSQL query with a base relation that has no schema.
use delta_scope.Prelude.{
  ◌≡◌, ◌≢◌, refl, sym, ap, ◌∙◌, true, List, [], ◌∷◌, ◌++◌, text_beq, codes, arith, some, inr,
  comparable_text, text_beq_iff,
}
use delta_scope.QueryAccess.{admissible, relation_cte, relation_derived, RelationReference}
use delta_scope.QueryAccess.State.{has_unqualified_relation}
use delta_scope.QueryAccess.Effect.Eligibility.{Folding}
use delta_scope.QueryAccess.Profile.{validate_analysis_profile}
use delta_scope.QueryAccess.Proof.{Service}
use delta_scope.QueryAccess.Proof.Orchestrate.{Extracted}
use delta_scope.QueryAccess.Service.{
  Request, Context, Extractor, is_unqualified, extract_by_dialect, analyze_extracted, analyze,
}
use delta_scope.QueryAccess.Service.Outcome.{checks-inr, analyze-checks, unmarked, is_bare}
use delta_scope.QueryAccess.Service.Admission.{extracted-unqualified}

-- A base relation without a schema: neither a CTE nor a derived table.
pub record IsBareBase (rel : RelationReference) : Type 0 where
  pub bare : rel.schema ≡ []
  pub no_cte : rel.kind ≢ relation_cte
  pub no_derived : rel.kind ≢ relation_derived

has_unqualified-among :
    (before after : List RelationReference) (rel : RelationReference)
    → IsBareBase rel
    → has_unqualified_relation (before ++ rel ∷ after) ≡ true
unfolding has_unqualified_relation
has_unqualified-among [] after rel h = ground (
  arith,
  text_beq_iff rel.schema [],
  text_beq_iff rel.kind relation_cte,
  text_beq_iff rel.kind relation_derived,
  h.bare,
  h.no_cte,
  h.no_derived,
)
has_unqualified-among (r ∷ before) after rel h =
    ground (arith, has_unqualified-among before after rel h)

-- For PostgreSQL, a query in which the extraction finds a base relation without a schema, wherever it
-- stands among the relations, is never admissible, whatever the metadata and the proofs say.
pub analyze-unqualified :
    (folding : Folding) (tidb postgresql : Extractor) (s : Service) (ctx : Context) (req : Request)
    (x x' : Extracted) (before after : List RelationReference) (rel : RelationReference)
    → req.dialect ≡ codes "postgresql"
    → extract_by_dialect tidb postgresql (unmarked req) ≡ some x
    → x.result.relations ≡ before ++ rel ∷ after
    → IsBareBase rel
    → analyze folding tidb postgresql s ctx req ≡ inr x'
    → x'.result.admission ≢ admissible
analyze-unqualified folding tidb postgresql s ctx req x x' before after rel dialect found there h
      done =
    let (y, also, rest) =
      checks-inr ctx.at_start (is_bare req)
        (validate_analysis_profile req.analysis_profile req.dialect)
        (extract_by_dialect tidb postgresql (unmarked req))
        (λ x. analyze_extracted folding s ctx (unmarked req) x) x'
        (sym (analyze-checks folding tidb postgresql s ctx req) ∙ done) in
    let same : x ≡ y = cc in
    let among = ap has_unqualified_relation there ∙ has_unqualified-among before after rel h in
    let is_pg : text_beq req.dialect (codes "postgresql") ≡ true =
      (text_beq_iff req.dialect (codes "postgresql")).1 dialect in
    let unqualified : is_unqualified (unmarked req) y.result ≡ true =
      rw
        (
          is_pg,
          ap (λ (z : Extracted). has_unqualified_relation z.result.relations) (sym same) ∙ among,
        )
        refl in
    extracted-unqualified folding s ctx (unmarked req) y x' unqualified rest
