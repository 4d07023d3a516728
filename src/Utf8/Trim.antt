-- ===== src/Utf8/Trim.antt =====
-- Trimming takes bytes off the ends and changes nothing between.
use delta_scope.Prelude.{
  ℕ, zero, suc, ◌-◌, ◌≡◌, refl, ap, sym, ◌∙◌, [], ◌∷◌, ◌++◌, Text, reverse, Bool-cases, inl, inr,
}
use mathlib.Core.List.{reverse-append, reverse-reverse}
use delta_scope.Utf8.{
  trim_left, trim_right, trim_space, trim_left_from, trim_right_from, decode_rune, decode_last_rune,
  is_space,
}

trim_left_from-suffix : (k : ℕ) (s : Text) → (cut : Text) × (cut ++ trim_left_from k s ≡ s)
unfolding trim_left_from
trim_left_from-suffix k [] = ([], refl)
trim_left_from-suffix (suc k) (c ∷ s) =
    let (cut, e) = trim_left_from-suffix k s in (c ∷ cut, ap (λ t. c ∷ t) e)
trim_left_from-suffix zero (c ∷ s) =
    let width = (decode_rune (c ∷ s)).1 in
    elim (Bool-cases (is_space (decode_rune (c ∷ s)).0)) [
      | inl e ↦
          let (cut, e') = trim_left_from-suffix (width - 1) s in
          (c ∷ cut, rw e (ap (λ t. c ∷ t) e'))
      | inr e ↦ ([], rw e)
    ]

trim_right_from-suffix : (k : ℕ) (s : Text) → (cut : Text) × (cut ++ trim_right_from k s ≡ s)
unfolding trim_right_from
trim_right_from-suffix k [] = ([], refl)
trim_right_from-suffix (suc k) (c ∷ s) =
    let (cut, e) = trim_right_from-suffix k s in (c ∷ cut, ap (λ t. c ∷ t) e)
trim_right_from-suffix zero (c ∷ s) =
    let width = (decode_last_rune (c ∷ s)).1 in
    elim (Bool-cases (is_space (decode_last_rune (c ∷ s)).0)) [
      | inl e ↦
          let (cut, e') = trim_right_from-suffix (width - 1) s in
          (c ∷ cut, rw e (ap (λ t. c ∷ t) e'))
      | inr e ↦ ([], rw e)
    ]

pub trim_left-suffix : (s : Text) → (cut : Text) × (cut ++ trim_left s ≡ s)
unfolding trim_left
trim_left-suffix s = trim_left_from-suffix 0 s

pub trim_right-prefix : (s : Text) → (cut : Text) × (trim_right s ++ cut ≡ s)
unfolding trim_right
trim_right-prefix s =
    let (cut, e) = trim_right_from-suffix 0 (reverse s) in
    (reverse cut, sym (reverse-append cut _) ∙ ap reverse e ∙ reverse-reverse s)

-- A text is what trimming leaves, between what it takes off the two ends.
pub trim_space-infix : (s : Text) → (l r : Text) × (l ++ (trim_space s ++ r) ≡ s)
unfolding trim_space
trim_space-infix s =
    let (l, e) = trim_left-suffix s in
    let (r, e') = trim_right-prefix (trim_left s) in (l, r, ap (λ t. l ++ t) e' ∙ e)

trim_left_from-stable :
    (k : ℕ) (s : Text) → trim_left_from 0 (trim_left_from k s) ≡ trim_left_from k s
unfolding trim_left_from
trim_left_from-stable k [] = refl
trim_left_from-stable (suc k) (c ∷ s) = trim_left_from-stable k s
trim_left_from-stable zero (c ∷ s) = elim (Bool-cases (is_space (decode_rune (c ∷ s)).0)) [
  | inl e ↦ rw e (trim_left_from-stable ((decode_rune (c ∷ s)).1 - 1) s)
  | inr e ↦ rw e (rw e refl)
]

-- Trimming on the left twice is trimming once.
pub trim_left-trim_left : (s : Text) → trim_left (trim_left s) ≡ trim_left s
unfolding trim_left
trim_left-trim_left s = trim_left_from-stable 0 s

pub trim_space-trim_left : (s : Text) → trim_space (trim_left s) ≡ trim_space s
unfolding trim_space
trim_space-trim_left s = ap trim_right (trim_left-trim_left s)

-- What is trimmed on the left already stands at the front of its text.
pub trim_space-prefix : (s : Text) → (cut : Text) × (trim_space (trim_left s) ++ cut ≡ trim_left s)
unfolding trim_space
trim_space-prefix s =
    let (cut, e) = trim_right-prefix (trim_left s) in
    (cut, ap (λ t. trim_right t ++ cut) (trim_left-trim_left s) ∙ e)
