-- ===== src/Mask/Tests.antt =====
-- Sample sources through the masking.
use delta_scope.Prelude.{List, [], drop, ◌≡◌, refl, ◌∷◌, ◌++◌, codes, Text, arith}
use delta_scope.Mask.{mask_literals_and_comments}
use delta_scope.Mask.Laws.{
  BlanksOf, mask_literals_and_comments-BlanksOf, mask_literals_and_comments_idempotent,
  mask_from-literal, Piece, plain, doubled, literal, blanked, place_after,
}

abbrev sample : Text
sample = codes "a 'x;' -- b"

masked : mask_literals_and_comments sample ≡ codes "a '  ' --  "
unfolding mask_literals_and_comments
masked = refl

mask_literals_and_comments-BlanksOf_example : BlanksOf sample (mask_literals_and_comments sample)
mask_literals_and_comments-BlanksOf_example = mask_literals_and_comments-BlanksOf sample

mask_literals_and_comments_idempotent_example :
    mask_literals_and_comments (mask_literals_and_comments sample)
    ≡ mask_literals_and_comments sample
mask_literals_and_comments_idempotent_example = mask_literals_and_comments_idempotent sample

-- The literal 'x;''' in `SELECT 'x;'''`, which ends the source.
abbrev pieces : List Piece
pieces = plain b'x' ∷ plain b';' ∷ doubled ∷ []

mask_from-literal_example :
    drop 7 (mask_literals_and_comments (codes "SELECT " ++ literal pieces []))
    ≡ b'\'' ∷ blanked pieces ++ b'\'' ∷ mask_literals_and_comments []
unfolding place_after
mask_from-literal_example =
    mask_from-literal (codes "SELECT ") pieces [] refl
      ((omega arith, omega arith), ((omega arith, omega arith), (tt, tt))) tt
