-- ===== src/QueryAccess/Effect/Context.antt =====
-- identity_resolver.go: the execution-bound resolution contexts, and what is pinned to them.
use delta_scope.Prelude.{
  ℕ, ℤ, comparable_int, comparable_nat, comparable_text, Bool, true, false, not, ◌&&◌, ◌||◌, List,
  [], ◌∷◌, text_beq, Option, none, some, nat_beq, ltb, length, if◌then◌else◌, contains,
}
use delta_scope.QueryAccess.Effect.{
  EffectCandidate, ResolutionContext, IdentityFacts, IdentityRequest, valid_kind,
  explicitly_qualified,
}

-- `ResolutionContextSessionComplete`
unfoldable pub session_complete : ResolutionContext → Bool
session_complete rc =
    if not rc.bound
    then false
    else if text_beq rc.session_binding []
    then false
    else if nat_beq rc.path_epoch 0
    then false
    else if nat_beq rc.database_oid 0
    then false
    else if nat_beq rc.role_oid 0
    then false
    else not (nat_beq rc.server_version_num 0)

-- `ResolutionContextUsableForUnqualified`
unfoldable pub usable_for_unqualified : ResolutionContext → Bool
unfolding session_complete
usable_for_unqualified rc =
    if not (session_complete rc) then false else ltb 0 (length rc.namespace_search_oids)

-- `ResolutionContextSessionCompatible`
unfoldable pub session_compatible : ResolutionContext → ResolutionContext → Bool
session_compatible a b =
    if not (session_complete a) || not (session_complete b)
    then false
    else if not (text_beq a.session_binding b.session_binding)
    then false
    else if not (nat_beq a.path_epoch b.path_epoch)
    then false
    else if not (nat_beq a.database_oid b.database_oid)
    then false
    else if not (nat_beq a.role_oid b.role_oid)
    then false
    else nat_beq a.server_version_num b.server_version_num

-- `uint32SliceEqual`, and the loop of `resolutionContextSearchPathCompatible`.
unfoldable pub oids_equal : List ℕ → List ℕ → Bool
oids_equal [] [] = true
oids_equal (x ∷ xs) (y ∷ ys) = nat_beq x y && oids_equal xs ys
oids_equal _ _ = false

unfoldable pub search_path_compatible : ResolutionContext → ResolutionContext → Bool
search_path_compatible a b = oids_equal a.namespace_search_oids b.namespace_search_oids

-- `resolutionContextsCompatible`
contexts_compatible : ResolutionContext → ResolutionContext → Bool
contexts_compatible a b =
    if not (usable_for_unqualified a) || not (usable_for_unqualified b)
    then false
    else if not (session_compatible a b)
    then false
    else search_path_compatible a b

-- `hasUnqualifiedEffectCandidates` of service.go
unfoldable pub has_unqualified_candidates : List EffectCandidate → Bool
has_unqualified_candidates [] = false
has_unqualified_candidates (c ∷ cs) = not (explicitly_qualified c) || has_unqualified_candidates cs

-- `validateResolutionContextForPromotion`, true where it returns no error.
unfoldable pub contexts_valid : ResolutionContext → ResolutionContext → List EffectCandidate → Bool
contexts_valid initial final candidates =
    if not (session_complete initial)
    then false
    else if not (session_complete final)
    then false
    else if not (session_compatible initial final)
    then false
    else if has_unqualified_candidates candidates
    then search_path_compatible initial final
    else true

-- `StampFactsFromResolution`, of facts that are there.
stamp_facts : IdentityFacts → ResolutionContext → IdentityFacts
stamp_facts facts rc = record facts {
  database_oid = rc.database_oid;
  server_version_num = rc.server_version_num;
}

-- `factsMatchResolution` and `validateFactPinning`
unfoldable pub facts_match_resolution : Option IdentityFacts → ResolutionContext → Bool
facts_match_resolution none rc = false
facts_match_resolution (some facts) rc =
    if not (session_complete rc)
    then false
    else if nat_beq facts.database_oid 0 || nat_beq facts.server_version_num 0
    then false
    else if not (nat_beq facts.database_oid rc.database_oid)
    then false
    else nat_beq facts.server_version_num rc.server_version_num

-- `EffectIdentityResolutionMode` and `classifyCandidateResolutionMode`
data ResolutionMode : Type 0 where
  explicit_mode unqualified_bound unqualified_unbound : ResolutionMode

classify_resolution_mode : EffectCandidate → ResolutionContext → ResolutionMode
classify_resolution_mode c rc =
    if explicitly_qualified c
    then explicit_mode
    else if usable_for_unqualified rc
    then unqualified_bound
    else unqualified_unbound

-- The errors of `ValidateEffectIdentityRequest`.
data RequestError : Type 0 where
  duplicate_ordinal : ℤ → RequestError
  invalid_kind invalid_context : RequestError

-- Its loop, with the ordinals of `seen`.
validate_candidates : List ℤ → List EffectCandidate → Option RequestError
validate_candidates seen [] = none
validate_candidates seen (c ∷ cs) =
    let rest = validate_candidates (c.ordinal ∷ seen) cs in
    if contains c.ordinal seen
    then some (duplicate_ordinal c.ordinal)
    else if not (valid_kind c.kind)
    then some invalid_kind
    else rest

validate_identity_request : IdentityRequest → Option RequestError
unfolding validate_candidates
validate_identity_request req = elim (validate_candidates [] req.candidates) [
  | some e ↦ some e
  | none ↦
      if req.resolution.bound && not (session_complete req.resolution)
      then some invalid_context
      else none
]
