-- ===== src/QueryAccess/Proof/Tests.antt =====
-- A proof that succeeds, and the theorems at it.
use delta_scope.Prelude.{
  pos, int_lt, ◌/◌, ◌≡◌, ◌≢◌, refl, false, List, [], ◌∷◌, All, text_beq, codes, some, none, sort_by,
}
use delta_scope.QueryAccess.Normalize.{valid_identity_status}
use delta_scope.QueryAccess.Effect.Context.{
  session_complete, contexts_valid, session_compatible, has_unqualified_candidates,
  search_path_compatible, facts_match_resolution, oids_equal,
}
use delta_scope.QueryAccess.Effect.{
  function_kind, explicitly_qualified, canonical_name, valid_volatility, EffectCandidate,
  ResolutionContext,
}
use delta_scope.QueryAccess.Effect.Batches.{
  Batch, normalize_batch, first_items, sanitize, complete_batch,
}
use delta_scope.QueryAccess.Effect.Binding.{
  batch_ordinals_valid, ordinals_known, bind_facts, bind_item, fact_matches_candidate, bind_types,
  bind_types_item, operand_types_fit, uses_column_type, has_zero_oid,
}
use delta_scope.QueryAccess.Effect.Eligibility.{
  Folding, validate_phase1_candidates, phase1_function_eligible, unary_function_eligible,
}
use delta_scope.QueryAccess.Effect.Samples.{lower_call, session, lower_item}
use delta_scope.QueryAccess.Trust.{
  TrustManifest, is_trusted, decide_from, item_proof, proven, matches_entry,
}
use delta_scope.QueryAccess.Trust.Sound.{IsProvenItem, is_trusted-IsProven}
use delta_scope.QueryAccess.Trust.Pg17.{pg17_entries, pg17_manifest}
use delta_scope.QueryAccess.Trust.Pg17.Catalog.{IsCatalogItem, is_trusted-IsCatalogItem}
use delta_scope.QueryAccess.Proof.{
  TrustedBundle, resolve_and_prove, prove_in, prove_answer, checked_batch, pin_item, server_version,
}
use delta_scope.QueryAccess.Proof.Sound.{IsSound, resolve_and_prove-IsSound}

abbrev manifest : TrustManifest
manifest = record {
  schema_version = codes "1";
  major_min = pos 17;
  major_max = pos 17;
  entries =
      record {
        kind = function_kind;
        aggregate_class = [];
        object_oid = 870;
        namespace_oid = 11;
        operand_type_oids = 25 ∷ [];
        result_type_oid = 25;
        implementation_oid = 0;
        volatility = codes "i";
        canonical_signature = codes "pg_catalog.lower(25)";
        audit_notes = [];
      }
      ∷ [];
  hash = [];
}

abbrev batch : Batch
batch = lower_item ∷ []

is_trusted-IsProven_example :
    (batch ≢ [])
    × (int_lt (pos (170002 / 10000)) manifest.major_min ≡ false)
    × (int_lt manifest.major_max (pos (170002 / 10000)) ≡ false)
    × All (IsProvenItem manifest 170002) batch
unfolding is_trusted text_beq oids_equal
is_trusted-IsProven_example = is_trusted-IsProven manifest batch 170002 refl

abbrev folding : Folding
folding = record { to_lower = λ t. t; equal_fold = text_beq }

abbrev calls : List EffectCandidate
calls = lower_call (pos 0) ∷ []

abbrev bundle : TrustedBundle
bundle = record {
  effect_resolver = record {
    capture = some session;
    atomic = some (λ cs req. some ((pos 0, 25 ∷ []) ∷ [], (batch, session)));
  };
  trust_policy = manifest;
  schema_resolver = λ dialect schema name. none;
}

resolve_and_prove-IsSound_example :
    (validate_phase1_candidates folding calls ≡ none)
    × ((initial : ResolutionContext) × (some session ≡ some initial)
        × IsSound bundle
            (codes "postgresql")
            calls
            initial
            (resolve_and_prove folding bundle (codes "postgresql") calls))
unfolding resolve_and_prove validate_phase1_candidates phase1_function_eligible
    unary_function_eligible prove_in session_complete prove_answer contexts_valid session_compatible
    has_unqualified_candidates explicitly_qualified search_path_compatible batch_ordinals_valid
    ordinals_known checked_batch pin_item facts_match_resolution bind_facts bind_item
    fact_matches_candidate canonical_name normalize_batch first_items sanitize bind_types
    bind_types_item operand_types_fit uses_column_type has_zero_oid complete_batch server_version
    is_trusted decide_from item_proof proven matches_entry text_beq oids_equal sort_by
    valid_identity_status valid_volatility
resolve_and_prove-IsSound_example =
    resolve_and_prove-IsSound folding bundle (codes "postgresql") calls refl

is_trusted-IsCatalogItem_example : (170002 / 10000 ≡ 17) × All IsCatalogItem batch
unfolding is_trusted text_beq oids_equal pg17_manifest pg17_entries
is_trusted-IsCatalogItem_example = is_trusted-IsCatalogItem (λ es. []) batch 170002 refl
