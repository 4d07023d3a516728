-- ===== src/QueryAccess/Builtin/Native.antt =====
-- What a successful proof of the calls of a MySQL or TiDB query has shown.
use delta_scope.Prelude.{
  ℕ, suc, ◌≡◌, refl, ◌∙◌, subst, Bool, true, false, not, ◌&&◌, List, [], ◌∷◌, Text, arith, Option,
  none, some, ◌⊎◌, inl, inr, Bool-cases, Option-cases, Sum-cases, All, All-imp, All-and, any,
}
use delta_scope.QueryAccess.{AccessResult, Requirement}
use delta_scope.QueryAccess.Effect.{EffectCandidate}
use delta_scope.QueryAccess.Effect.Eligibility.{Folding}
use delta_scope.QueryAccess.Profile.{
  AnalysisProfile, empty_profile, profile_beq, profile_beq-eq, validate_analysis_profile,
}
use delta_scope.QueryAccess.Builtin.{
  BuiltinEntry, Manifest, BuiltinRegistry, other_profile_entry, manifest_at, validate_builtin,
  validate_builtins, new_manifest, new_builtin_registry, manifest_of, entry_key,
}
use delta_scope.QueryAccess.Builtin.Gateway.{
  wrong_profile, physical_complete, literal_complete, ordinals_closed, plain_call, entry_matches,
  builtin_candidate_matches, all_of, prove_builtin,
}

any-found {ℓ κ} :
    {A : Type ℓ} (Q : A → Type κ) (p : A → Bool) (xs : List A)
    → any p xs ≡ true
    → All Q xs
    → (x : A) × (p x ≡ true) × Q x
any-found Q p [] h _ = ground arith
any-found Q p (x ∷ xs) h (q, k) = elim (Bool-cases (p x)) [
  | inl e ↦ (x, e, q)
  | inr e ↦ any-found Q p xs (ground (arith, e, h)) k
]

all_of-All {ℓ} :
    {A : Type ℓ} (p : A → Bool) (xs : List A) → all_of p xs ≡ true → All (λ x. p x ≡ true) xs
all_of-All p [] h = tt
all_of-All p (x ∷ xs) h = (ground (arith, h), all_of-All p xs (ground (arith, h)))

-- Entries that all belong to one profile.
abbrev IsOwn : AnalysisProfile → BuiltinEntry → Type 0
IsOwn profile e = e.profile ≡ profile

other_profile_entry-IsOwn :
    (profile : AnalysisProfile) (m : Manifest)
    → other_profile_entry profile m ≡ false
    → All (IsOwn profile) m
other_profile_entry-IsOwn profile [] h = tt
other_profile_entry-IsOwn profile (e ∷ m) h = (
  profile_beq-eq e.profile profile (ground (arith, h)),
  other_profile_entry-IsOwn profile m (ground (arith, h)),
)

module _ (to_lower : Text → Text) where
  abbrev IsValid : BuiltinEntry → Type 0
  IsValid e = validate_builtin to_lower e ≡ none

  validate_builtins-IsValid :
      (i : ℕ) (seen : List Text) (m : Manifest)
      → validate_builtins to_lower i seen m ≡ none
      → All IsValid m
  unfolding validate_builtins
  validate_builtins-IsValid i seen [] h = tt
  validate_builtins-IsValid i seen (e ∷ m) h = elim (Option-cases (validate_builtin to_lower e)) [
    | inr (err, k) ↦ ground (arith, h, k)
    | inl k ↦ (k, validate_builtins-IsValid (suc i) (entry_key e ∷ seen) m (ground (arith, h, k)))
  ]

  new_manifest-IsValid :
      (es m : Manifest) → new_manifest to_lower es ≡ inr m → (es ≡ m) × All IsValid m
  unfolding new_manifest
  new_manifest-IsValid es m h = elim (Option-cases (validate_builtins to_lower 0 [] es)) [
    | inr (err, k) ↦ ground (arith, h, k)
    | inl k ↦
        let same : es ≡ m = ground (arith, h, k) in
        (same, subst (All IsValid) same (validate_builtins-IsValid 0 [] es k))
  ]

  abbrev OwnManifest : AnalysisProfile × Manifest → Type 0
  OwnManifest entry = All (IsOwn entry.0) entry.1

  new_builtin_registry-IsOwn :
      (given : List (AnalysisProfile × Option Manifest)) (registry : BuiltinRegistry)
      → new_builtin_registry to_lower given ≡ inr registry
      → All OwnManifest registry
  unfolding new_builtin_registry
  new_builtin_registry-IsOwn [] registry h =
      let same : [] ≡ registry = ground arith in subst (All OwnManifest) same tt
  new_builtin_registry-IsOwn ((profile, none) ∷ rest) registry h = ground arith
  new_builtin_registry-IsOwn ((profile, some m) ∷ rest) registry h =
      elim (Bool-cases (profile_beq profile empty_profile)) [
        | inl e ↦ ground (arith, e, h)
        | inr e ↦ elim (Bool-cases (other_profile_entry profile m)) [
          | inl f ↦ ground (arith, e, f, h)
          | inr f ↦ elim (Sum-cases (new_manifest to_lower m)) [
            | inl (err, g) ↦ ground (arith, e, f, g, h)
            | inr (copy, g) ↦ elim (Sum-cases (new_builtin_registry to_lower rest)) [
              | inl (err, k) ↦ ground (arith, e, f, g, k, h)
              | inr (others, k) ↦
                  let same : (profile, copy) ∷ others ≡ registry = ground (arith, e, f, g, k, h) in
                  let own =
                    subst (All (IsOwn profile)) (new_manifest-IsValid m copy g).0
                      (other_profile_entry-IsOwn profile m f) in
                  subst (All OwnManifest) same (own, new_builtin_registry-IsOwn rest others k)
            ]
          ]
        ]
      ]

  manifest_at-IsOwn :
      (profile : AnalysisProfile) (registry : BuiltinRegistry) (m : Manifest)
      → manifest_at profile registry ≡ some m
      → All OwnManifest registry
      → All (IsOwn profile) m
  manifest_at-IsOwn profile [] m h _ = ground arith
  manifest_at-IsOwn profile ((p, own) ∷ rest) m h (k, ks) =
      elim (Bool-cases (profile_beq p profile)) [
        | inl e ↦
            let same : own ≡ m = ground (arith, e, h) in
            subst (λ q. All (IsOwn q) m) (profile_beq-eq p profile e) (subst (All (IsOwn p)) same k)
        | inr e ↦ manifest_at-IsOwn profile rest m (ground (arith, e, h)) ks
      ]

  -- The manifest that a registry has for a profile: entries of that profile, all valid.
  manifest_of-IsOwn :
      (profile : AnalysisProfile) (registry : BuiltinRegistry) (m : Manifest)
      → manifest_of to_lower registry profile ≡ some m
      → All OwnManifest registry
      → All (IsOwn profile) m × All IsValid m
  unfolding manifest_of
  manifest_of-IsOwn profile registry m h own = elim (Option-cases (manifest_at profile registry)) [
    | inl e ↦ ground (arith, e, h)
    | inr (found, e) ↦ elim (Sum-cases (new_manifest to_lower found)) [
      | inl (err, g) ↦ ground (arith, e, g, h)
      | inr (copy, g) ↦
          let same : copy ≡ m = ground (arith, e, g, h) in
          let (kept, valid) = new_manifest-IsValid found copy g in
          (
            subst (All (IsOwn profile)) (kept ∙ same)
                (manifest_at-IsOwn profile registry found e own),
            subst (All IsValid) same valid,
          )
    ]
  ]

-- A candidate that is a plain call and fits a valid entry of the profile.
abbrev pub IsNative : Folding → AnalysisProfile → EffectCandidate → Type 0
IsNative folding profile c =
    (plain_call folding c ≡ true)
    × ((e : BuiltinEntry) × (entry_matches c e ≡ true)
        × (e.profile ≡ profile)
        × (validate_builtin folding.to_lower e ≡ none))

candidate-IsNative :
    (folding : Folding) (profile : AnalysisProfile) (m : Manifest) (c : EffectCandidate)
    → All
        (λ (e : BuiltinEntry). (e.profile ≡ profile) × (validate_builtin folding.to_lower e ≡ none))
        m
    → builtin_candidate_matches folding c m ≡ true
    → IsNative folding profile c
unfolding builtin_candidate_matches
candidate-IsNative folding profile m c own h =
    let (e, fits, (p, v)) = any-found _ (entry_matches c) m (ground (arith, h)) own in
    (ground (arith, h), (e, fits, p, v))

complete_cases : (a b : Bool) → (not a && not b) ≡ false → (a ≡ true) ⊎ (b ≡ true)
complete_cases true b h = inl refl
complete_cases false true h = inr refl
complete_cases false false h = ground arith

wrong_profile-fits :
    (profile : AnalysisProfile) (dialect : Text)
    → wrong_profile profile dialect ≡ false
    → validate_analysis_profile profile dialect ≡ none
wrong_profile-fits profile dialect h =
    elim (Option-cases (validate_analysis_profile profile dialect)) [
      | inl e ↦ e
      | inr (err, e) ↦ ground (arith, e, h)
    ]

-- With a registry that was accepted, a successful proof means that the profile fits the dialect, the
-- requirements are complete, the candidates stand at their positions, and every one of them is a
-- plain call that fits a valid entry of this very profile.
pub prove_builtin-IsNative :
    (folding : Folding) (given : List (AnalysisProfile × Option Manifest))
    (registry : BuiltinRegistry) (profile : AnalysisProfile) (dialect : Text)
    (cs : List EffectCandidate) (result : AccessResult) (reqs : List Requirement)
    → new_builtin_registry folding.to_lower given ≡ inr registry
    → prove_builtin folding profile dialect cs result reqs registry ≡ true
    → (validate_analysis_profile profile dialect ≡ none)
      × ((physical_complete result reqs cs ≡ true) ⊎ (literal_complete result reqs cs ≡ true))
      × (ordinals_closed cs ≡ true)
      × All (IsNative folding profile) cs
unfolding prove_builtin
prove_builtin-IsNative folding given registry profile dialect cs result reqs accepted h =
    elim (Bool-cases (wrong_profile profile dialect)) [
      | inl e ↦ ground (arith, e, h)
      | inr e ↦ elim (Option-cases (manifest_of folding.to_lower registry profile)) [
        | inl f ↦ ground (arith, e, f, h)
        | inr (m, f) ↦
            let own = new_builtin_registry-IsOwn folding.to_lower given registry accepted in
            let (mine, valid) = manifest_of-IsOwn folding.to_lower profile registry m f own in
            let entries =
              All-and (λ (b : BuiltinEntry). b.profile ≡ profile)
                (λ b. validate_builtin folding.to_lower b ≡ none) m mine valid in
            let matched : all_of (λ c. builtin_candidate_matches folding c m) cs ≡ true =
              ground (arith, e, f, h) in
            (
              wrong_profile-fits profile dialect e,
              complete_cases (physical_complete result reqs cs) (literal_complete result reqs cs)
                  (ground (arith, e, f, h)),
              ground (arith, e, f, h),
              All-imp cs (λ c fits. candidate-IsNative folding profile m c entries fits)
                  (all_of-All (λ c. builtin_candidate_matches folding c m) cs matched),
            )
      ]
    ]
