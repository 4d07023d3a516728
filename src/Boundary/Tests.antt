-- ===== src/Boundary/Tests.antt =====
-- Sample sources through the statement scanner.
use delta_scope.Prelude.{
  suc, arith, ℕ, ◌+◌, ◌≤◌, ◌≡◌, refl, Bool, ◌&&◌, ◌||◌, List, [], ◌∷◌, ◌++◌, codes, leb, Text, map,
  text_beq, has_prefix, length, All, concat,
}
use delta_scope.Utf8.{trim_space}
use delta_scope.Spec.{mysql, postgresql}
use delta_scope.Boundary.{
  StatementChunk, Scan, single_quote, normal, block_comment, initial, run, step_by, line_column_at,
  split_sql_statements,
}
use delta_scope.Boundary.Lines.{newlines, last_line, line_column_at_lem}
use delta_scope.Boundary.Literals.{plain, doubled, push, run-literal, step_by-in_bounds, IsOpen}
use delta_scope.Boundary.Cover.{statements, IsClosed, IsPlaced, split_sql_statements-covers}

abbrev ascii_letter : ℕ → Bool
ascii_letter c = leb b'a' c && leb c b'z' || leb b'A' c && leb c b'Z'

abbrev texts : List StatementChunk → List Text
texts chunks = map (λ c. c.sql) chunks

abbrev two_statements : Text
two_statements = codes "a ';' ; b -- ;"

two :
    texts (split_sql_statements ascii_letter mysql two_statements)
    ≡ codes "a ';' ;" ∷ codes "b -- ;" ∷ []
unfolding split_sql_statements text_beq has_prefix trim_space
two = refl

dollar :
    texts (split_sql_statements ascii_letter postgresql (codes " do $x$ a;b $$ $x$; c"))
    ≡ codes "do $x$ a;b $$ $x$;" ∷ codes "c" ∷ []
unfolding split_sql_statements text_beq has_prefix trim_space
dollar = refl

split_sql_statements-covers_example :
    (segs : List Text) × (last : Text) × (concat segs ++ last ≡ two_statements)
    × All IsClosed segs
    × (texts (split_sql_statements ascii_letter mysql two_statements)
        ≡ statements (segs ++ last ∷ []))
    × All (IsPlaced two_statements) (split_sql_statements ascii_letter mysql two_statements)
split_sql_statements-covers_example = split_sql_statements-covers ascii_letter mysql two_statements

line_column_at_example :
    line_column_at (codes "ab" ++ codes "cd") 2
    ≡ (newlines (codes "ab") + 1, length (last_line (codes "ab")) + 1)
line_column_at_example = line_column_at_lem (codes "ab") (codes "cd")

abbrev in_literal : Scan
in_literal = record initial { state = single_quote }

run-literal_example :
    run ascii_letter mysql two_statements 0 in_literal [] (codes "a;''b' x")
    ≡ run ascii_letter mysql two_statements 0
        (record in_literal { state = normal })
        (b'\'' ∷ push (codes "a;''b") [])
        (codes " x")
run-literal_example =
    run-literal ascii_letter mysql two_statements single_quote in_literal []
      (plain b'a' ∷ plain b';' ∷ doubled ∷ plain b'b' ∷ []) (codes " x") tt refl
      ((refl, refl), ((refl, refl), (refl, ((refl, refl), tt)))) refl

abbrev commented : Scan
commented = record initial { state = block_comment; block_depth = 1 }

step_by-in_bounds_example :
    (suc
        (step_by ascii_letter postgresql two_statements block_comment commented [] b'*'
          (codes "/ x")).1
      ≤ 4)
    × IsOpen
        (step_by ascii_letter postgresql two_statements block_comment commented [] b'*'
          (codes "/ x")).0
step_by-in_bounds_example =
    step_by-in_bounds ascii_letter postgresql two_statements commented [] b'*' (codes "/ x")
      ((λ e. omega arith), (λ e. ground arith))
