-- ===== src/Boundary/Lines.antt =====
-- The positions that `lineColumnAt` reports, against the text before the offset.
use delta_scope.Prelude.{
  ℕ, ◌+◌, ◌≡◌, refl, [], ◌∷◌, ◌++◌, Text, nat_beq, if◌then◌else◌, length, arith,
}
use delta_scope.Boundary.{line_column_at, line_column_from}

unfoldable pub newlines : Text → ℕ
newlines [] = 0
newlines (c ∷ s) = if nat_beq c 10 then newlines s + 1 else newlines s

-- What stands after the last newline, or the whole text where there is none.
unfoldable pub last_line : Text → Text
unfolding newlines
last_line [] = []
last_line (c ∷ s) =
    let later = last_line s in
    if nat_beq (newlines s) 0 then (if nat_beq c 10 then s else c ∷ s) else later

line_column_from_lem :
    (l k : ℕ) (s t : Text)
    → line_column_from l k (s ++ t) (length s)
      ≡ (l + newlines s, if nat_beq (newlines s) 0 then k + length s else length (last_line s) + 1)
unfolding line_column_from newlines last_line
line_column_from_lem l k [] [] = ground arith
line_column_from_lem l k [] (d ∷ t) = ground arith
line_column_from_lem l k (c ∷ s) t =
    ground (arith, line_column_from_lem (l + 1) 1 s t, line_column_from_lem l (k + 1) s t)

no_newline : (s : Text) → newlines s ≡ 0 → last_line s ≡ s
unfolding newlines last_line
no_newline [] h = refl
no_newline (c ∷ s) h = ground arith

-- At the end of `s` the line is one more than the newlines of `s`, and the column one more than the
-- bytes after its last newline, whatever follows.
pub line_column_at_lem :
    (s t : Text) → line_column_at (s ++ t) (length s) ≡ (newlines s + 1, length (last_line s) + 1)
unfolding line_column_at
line_column_at_lem s t = ground (arith, line_column_from_lem 1 1 s t, no_newline s)
