-- ===== src/QueryAccess/Proof/Sound.antt =====
-- What a successful proof of the effects of a PostgreSQL query has shown.
use delta_scope.Prelude.{
  ℤ, ◌≡◌, refl, sym, ap, ◌∙◌, subst, true, List, [], ◌∷◌, ◌||◌, Text, arith, Option, none, some,
  inl, inr, Bool-cases, Option-cases, All, All-imp, All-map, All-const, map, contains,
  comparable_int, ◌==◌, ==_refl, int_beq_iff,
}
use delta_scope.QueryAccess.{IdentityStatus}
use delta_scope.QueryAccess.Effect.{
  EffectCandidate, ResolutionContext, IdentityFacts, IdentityItem, IdentityRequest,
}
use delta_scope.QueryAccess.Effect.Context.{
  session_complete, contexts_valid, facts_match_resolution,
}
use delta_scope.QueryAccess.Effect.Batches.{Batch, is_resolved, item_at, ordinals}
use delta_scope.QueryAccess.Effect.Binding.{bind_facts, TypeOids, bind_types, batch_ordinals_valid}
use delta_scope.QueryAccess.Effect.Batches.Vouched.{
  Statement, Holds, Vouched, Checks, Both, IsBoundIn, AreTypesBound, bind_facts-Vouched,
  bind_types-Vouched, complete_batch-Vouched, item_at-All,
}
use delta_scope.QueryAccess.Effect.Batches.Complete.{complete_batch_lem}
use delta_scope.QueryAccess.Effect.Eligibility.{Folding, validate_phase1_candidates}
use delta_scope.QueryAccess.Trust.{all_proven, TrustManifest}
use delta_scope.QueryAccess.Trust.Sound.{IsProven, IsProvenItem, is_trusted-IsProven}
use delta_scope.QueryAccess.Proof.{
  AtomicAnswer, TrustedBundle, ProofResult, server_version, pin_item, checked_batch, prove_answer,
  prove_in, resolve_and_prove,
}

-- The facts are pinned to the context that the resolver returned, fit the candidate of their ordinal,
-- and have the operand types that were resolved for it.
abbrev pub IsChecked : ResolutionContext → TypeOids → List EffectCandidate → Statement
IsChecked final types cs =
    Both (Both (λ ordinal facts. facts_match_resolution (some facts) final ≡ true) (IsBoundIn cs))
      (AreTypesBound types cs)

abbrev Pinned : ResolutionContext → Statement
Pinned final ordinal facts = facts_match_resolution (some facts) final ≡ true

pin_item-Checks :
    (final : ResolutionContext) (ordinal : ℤ) (status : IdentityStatus)
    (facts : Option IdentityFacts)
    → Checks
        (Pinned final)
        (pin_item final)
        (record { ordinal = ordinal; status = status; facts = facts })
unfolding pin_item
pin_item-Checks final ordinal status none h = (ground arith, tt)
pin_item-Checks final ordinal status (some facts) h = (ground arith, ground arith)

pin_item-Pinned :
    (final : ResolutionContext) (it : IdentityItem) → Vouched (Pinned final) (pin_item final it)
pin_item-Pinned final it h =
    let (same, k) = pin_item-Checks final it.ordinal it.status it.facts h in
    subst (λ i. Holds (Pinned final) i.ordinal i.facts) same k

checked_batch-IsChecked :
    (final : ResolutionContext) (types : TypeOids) (cs : List EffectCandidate) (batch : Batch)
    → All (Vouched (IsChecked final types cs)) (checked_batch final types cs batch)
unfolding checked_batch
checked_batch-IsChecked final types cs batch =
    let pinned = map (pin_item final) batch in
    let bound = bind_facts cs pinned in
    complete_batch-Vouched (IsChecked final types cs) cs (bind_types types cs bound) (
      bind_types-Vouched (Both (Pinned final) (IsBoundIn cs)) types cs bound (
        bind_facts-Vouched (Pinned final) cs pinned (
          All-map (Vouched (Pinned final)) (pin_item final) batch (
            All-const (λ it. Vouched (Pinned final) (pin_item final it)) (pin_item-Pinned final)
              batch))))

-- What is shown of one candidate, with the manifest and the version of the server.
abbrev pub IsShown :
    TrustManifest
    → ResolutionContext
    → TypeOids
    → List EffectCandidate
    → Batch
    → EffectCandidate
    → Type 0
IsShown m final types cs batch c =
    (it : IdentityItem) × (facts : IdentityFacts) × (item_at c.ordinal batch ≡ some it)
    × (is_resolved it.status ≡ true)
    × (it.facts ≡ some facts)
    × IsProven m (server_version batch) facts
    × IsChecked final types cs c.ordinal facts

int_beq_sym : (a b : ℤ) → (a == b) ≡ (b == a)
int_beq_sym a b = ground arith

item_at-there :
    (o : ℤ) (batch : Batch)
    → contains o (ordinals batch) ≡ true
    → (it : IdentityItem) × (item_at o batch ≡ some it) × (it.ordinal ≡ o)
item_at-there o [] h = ground arith
item_at-there o (i ∷ batch) h = elim (Bool-cases (i.ordinal == o)) [
  | inl same ↦ (i, rw same refl, (int_beq_iff i.ordinal o).0 same)
  | inr other ↦
      let later =
        ap (λ b. b || contains o (ordinals batch)) (sym (int_beq_sym o i.ordinal ∙ other)) ∙ h in
      let (it, found, at) = item_at-there o batch later in (it, ground (arith, other, found), at)
]

candidates_there :
    (cs : List EffectCandidate)
    → All
        (λ (c : EffectCandidate).
          contains c.ordinal (map (λ (d : EffectCandidate). d.ordinal) cs) ≡ true)
        cs
candidates_there [] = tt
candidates_there (c ∷ cs) =
    (ground (arith, ==_refl c.ordinal), All-imp cs (λ d h. ground (arith, h)) (candidates_there cs))

shown :
    (m : TrustManifest) (final : ResolutionContext) (types : TypeOids) (cs : List EffectCandidate)
    (batch : Batch) (c : EffectCandidate)
    → contains c.ordinal (ordinals batch) ≡ true
    → All (IsProvenItem m (server_version batch)) batch
    → All (Vouched (IsChecked final types cs)) batch
    → IsShown m final types cs batch c
shown m final types cs batch c there proven checked =
    let (it, found, at) = item_at-there c.ordinal batch there in
    let (resolved, (facts, e, p)) =
      item_at-All (IsProvenItem m (server_version batch)) c.ordinal batch it found proven in
    let v =
      item_at-All (Vouched (IsChecked final types cs)) c.ordinal batch it found checked resolved in
    let G = IsChecked final types cs in
    let of_facts = subst (λ f. Holds G it.ordinal f) e v in
    (it, facts, found, resolved, e, p, subst (λ o. G o facts) at of_facts)

checked_batch-IsShown :
    (m : TrustManifest) (final : ResolutionContext) (types : TypeOids) (cs : List EffectCandidate)
    (raw : Batch)
    → let batch = checked_batch final types cs raw in
      All (IsProvenItem m (server_version batch)) batch → All (IsShown m final types cs batch) cs
unfolding checked_batch
checked_batch-IsShown m final types cs raw proven =
    let batch = checked_batch final types cs raw in
    let bound = bind_types types cs (bind_facts cs (map (pin_item final) raw)) in
    let (ascending, covers) = complete_batch_lem cs bound in
    All-imp cs
      (λ c there.
        shown m final types cs batch c (covers c.ordinal ∙ there) proven
          (checked_batch-IsChecked final types cs raw))
      (candidates_there cs)

-- What the answer of the resolver has shown: its context is in accord with the one captured before,
-- its batch has the ordinals of the candidates, and the facts of every candidate are shown with that
-- context and the types of the answer.
pub record IsShownBy (m : TrustManifest) (initial : ResolutionContext) (cs : List EffectCandidate)
    (answer : AtomicAnswer) (p : ProofResult) : Type 0 where
  pub final : ResolutionContext
  pub types : TypeOids
  pub raw : Batch
  pub answered : answer ≡ some (types, (raw, final))
  pub contexts : contexts_valid initial final cs ≡ true
  pub ordered : batch_ordinals_valid raw cs ≡ true
  pub candidates : All (IsShown m final types cs p.batch) cs

-- What a proof has shown in a context captured before: its session is complete, and the atomic method
-- of the resolver, asked for the candidates in that context, has answered with what is shown.
pub record IsSound (bundle : TrustedBundle) (dialect : Text) (cs : List EffectCandidate)
    (initial : ResolutionContext) (p : ProofResult) : Type 0 where
  pub resolve : List EffectCandidate → IdentityRequest → AtomicAnswer
  pub atomic : bundle.effect_resolver.atomic ≡ some resolve
  pub session : session_complete initial ≡ true
  pub shown :
      IsShownBy bundle.trust_policy initial cs
        (resolve cs (record { dialect = dialect; candidates = cs; resolution = initial }))
        p

prove_answer-IsShownBy :
    (m : TrustManifest) (initial : ResolutionContext) (cs : List EffectCandidate)
    (answer : AtomicAnswer)
    → (prove_answer m initial cs answer).decision ≡ all_proven
    → IsShownBy m initial cs answer (prove_answer m initial cs answer)
unfolding prove_answer
prove_answer-IsShownBy m initial cs none h = ground arith
prove_answer-IsShownBy m initial cs (some (types, (batch, final))) h =
    elim (Bool-cases (contexts_valid initial final cs)) [
      | inr e ↦ ground (arith, e, h)
      | inl e ↦ elim (Bool-cases (batch_ordinals_valid batch cs)) [
        | inr f ↦ ground (arith, e, f, h)
        | inl f ↦
            let checked = checked_batch final types cs batch in
            let (full, low, high, proven) =
              is_trusted-IsProven m checked (server_version checked) (ground (arith, e, f, h)) in
            rw (e, f)
              (record {
                final = final;
                types = types;
                raw = batch;
                answered = refl;
                contexts = e;
                ordered = f;
                candidates = checked_batch-IsShown m final types cs batch proven;
              })
      ]
    ]

prove_in-IsSound :
    (bundle : TrustedBundle) (dialect : Text) (cs : List EffectCandidate)
    (initial : ResolutionContext)
    → (prove_in bundle dialect cs initial).decision ≡ all_proven
    → IsSound bundle dialect cs initial (prove_in bundle dialect cs initial)
unfolding prove_in
prove_in-IsSound bundle dialect cs initial h = elim (Bool-cases (session_complete initial)) [
  | inr e ↦ ground (arith, e, h)
  | inl e ↦ elim (Option-cases bundle.effect_resolver.atomic) [
    | inl f ↦ ground (arith, e, f, h)
    | inr (resolve, f) ↦
        let answer =
          resolve cs (record { dialect = dialect; candidates = cs; resolution = initial }) in
        let same : prove_in bundle dialect cs initial
            ≡ prove_answer bundle.trust_policy initial cs answer =
          rw (e, f) refl in
        record {
          resolve = resolve;
          atomic = f;
          session = e;
          shown = subst (IsShownBy bundle.trust_policy initial cs answer) (sym same) (
              prove_answer-IsShownBy bundle.trust_policy initial cs answer
                (ap (λ (p : ProofResult). p.decision) (sym same) ∙ h));
        }
  ]
]

-- When the proof of the effects succeeds, every candidate may be proven at all, the context captured
-- before has a complete session, and the atomic resolver, asked for the candidates in that context,
-- has answered with a context in accord with it, a batch of the candidates' ordinals, and operand
-- types; and for every candidate there is a resolved item with facts that agree with an entry of the
-- manifest, are pinned to the context of the answer, fit the candidate, and have the operand types of
-- the answer.
pub resolve_and_prove-IsSound :
    (folding : Folding) (bundle : TrustedBundle) (dialect : Text) (cs : List EffectCandidate)
    → (resolve_and_prove folding bundle dialect cs).decision ≡ all_proven
    → (validate_phase1_candidates folding cs ≡ none)
      × ((initial : ResolutionContext) × (bundle.effect_resolver.capture ≡ some initial)
          × IsSound bundle dialect cs initial (resolve_and_prove folding bundle dialect cs))
unfolding resolve_and_prove
resolve_and_prove-IsSound folding bundle dialect cs h =
    elim (Option-cases (validate_phase1_candidates folding cs)) [
      | inr (reason, e) ↦ ground (arith, e, h)
      | inl e ↦ elim (Option-cases bundle.effect_resolver.capture) [
        | inl f ↦ ground (arith, e, f, h)
        | inr (initial, f) ↦
            let same : resolve_and_prove folding bundle dialect cs
                ≡ prove_in bundle dialect cs initial =
              ground (arith, e, f) in
            let sound =
              prove_in-IsSound bundle dialect cs initial
                (ap (λ (p : ProofResult). p.decision) (sym same) ∙ h) in
            (e, (initial, f, subst (IsSound bundle dialect cs initial) (sym same) sound))
      ]
    ]
