-- ===== src/Audit/Explain.antt =====
-- internal/application/audit/explain.go, and `Lookup` of internal/domain/rule/catalog/catalog.go:
-- findings get the explanation of their catalog entry. The catalog's entries, which the repository
-- builds from its rule tables, are an argument.
use delta_scope.Prelude.{
  Bool, true, false, List, [], ◌∷◌, Text, comparable_text, ◌==◌, text_beq, if◌then◌else◌, Option,
  none, some, codes, map,
}
use delta_scope.Spec.{Statement, Metadata}
use delta_scope.Rule.{Finding, FindingExplanation, ExplanationMetadata}

pub data MetadataKind : Type 0 where
  schema_kind target_table_kind instance_kind : MetadataKind
  other_kind : Text → MetadataKind

pub record MetadataNotes : Type 0 where
  pub kinds : List MetadataKind
  pub required : Text
  pub missing : Text

-- The fields of a catalog entry that an explanation reads.
pub record CatalogEntry : Type 0 where
  pub rule_id : Text
  pub summary : Text
  pub why : Text
  pub risk : Text
  pub suggestion : Text
  pub metadata_notes : Option MetadataNotes

-- `catalog.Lookup`: the first entry with the ID.
catalog_lookup : List CatalogEntry → Text → Option CatalogEntry
catalog_lookup [] id = none
catalog_lookup (e ∷ es) id = if e.rule_id == id then some e else catalog_lookup es id

kind_available : Metadata → MetadataKind → Bool
kind_available m schema_kind = if text_beq m.schema [] then false else true
kind_available m target_table_kind = elim m.target_table [ none ↦ false | some t ↦ true ]
kind_available m instance_kind = m.has_instance
kind_available m (other_kind k) = false

kinds_available : Metadata → List MetadataKind → Bool
unfolding kind_available
kinds_available m [] = true
kinds_available m (k ∷ ks) = if kind_available m k then kinds_available m ks else false

abbrev metadata_of : Option Statement → Option Metadata
metadata_of none = none
metadata_of (some s) = s.metadata

-- `metadataAvailable`
metadata_available : Option Statement → List MetadataKind → Bool
unfolding kinds_available
metadata_available statement kinds = elim (metadata_of statement) [
  | none ↦ false
  | some m ↦ kinds_available m kinds
]

note_of : Option Statement → MetadataNotes → ExplanationMetadata
unfolding metadata_available
note_of statement notes =
    if metadata_available statement notes.kinds
    then record { status = codes "available"; note = notes.required }
    else record { status = codes "limited"; note = notes.missing }

explain_entry : Option Statement → Finding → Option CatalogEntry → FindingExplanation
unfolding note_of
explain_entry statement finding none = record {
  summary = finding.message;
  why = [];
  risk = [];
  suggestion = finding.suggestion;
  metadata = none;
}
explain_entry statement finding (some entry) = record {
  summary = entry.summary;
  why = entry.why;
  risk = entry.risk;
  suggestion = entry.suggestion;
  metadata = elim entry.metadata_notes [
    | none ↦ none
    | some notes ↦ some (note_of statement notes)
  ];
}

-- `explanationForFinding`
explanation_for_finding : List CatalogEntry → Finding → Option Statement → FindingExplanation
unfolding explain_entry catalog_lookup
explanation_for_finding entries finding statement =
    explain_entry statement finding (catalog_lookup entries finding.rule_id)

abbrev prefer : Text → Text → Text
prefer own generated = if text_beq own [] then generated else own

merge_own : Option FindingExplanation → FindingExplanation → FindingExplanation
merge_own none generated = generated
merge_own (some own) generated = record {
  summary = prefer own.summary generated.summary;
  why = prefer own.why generated.why;
  risk = prefer own.risk generated.risk;
  suggestion = prefer own.suggestion generated.suggestion;
  metadata = elim own.metadata [ none ↦ generated.metadata | some m ↦ some m ];
}

-- `mergeFindingExplanation`; its nil case does not arise, since an explanation is always generated.
merge_finding_explanation : Finding → FindingExplanation → FindingExplanation
unfolding merge_own
merge_finding_explanation finding generated =
    let merged = merge_own finding.explanation generated in
    record merged { suggestion = prefer finding.suggestion merged.suggestion }

enrich_finding : List CatalogEntry → Option Statement → Finding → Finding
unfolding explanation_for_finding merge_finding_explanation
enrich_finding entries statement f = record f {
  explanation = some (merge_finding_explanation f (explanation_for_finding entries f statement));
}

-- `enrichFindings`
unfoldable pub enrich_findings : List CatalogEntry → List Finding → Option Statement → List Finding
unfolding enrich_finding
enrich_findings entries findings statement = map (enrich_finding entries statement) findings
