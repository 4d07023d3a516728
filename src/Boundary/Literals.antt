-- ===== src/Boundary/Literals.antt =====
-- Quoted literals and identifiers: `scanQuoted` passes over a well-formed body and leaves the cuts
-- alone; and no turn of the loop moves the position past the end of the source.
use delta_scope.Prelude.{
  text_beq, ℕ, zero, suc, ◌+◌, ◌-◌, ◌≤◌, ◌≡◌, refl, ◌∙◌, Bool, true, false, not, ◌&&◌, List, [],
  ◌∷◌, ◌++◌, Text, nat_beq, if◌then◌else◌, length, arith, All, has_prefix, length-reverse,
}
use delta_scope.Spec.{Dialect, is_postgresql}
use delta_scope.Boundary.{
  Mode, normal, single_quote, double_quote, backtick, line_comment, block_comment, dollar_quote,
  Scan, scan_quoted, step_by, step_normal, run, tag_from, dollar_quote_delimiter,
  starts_line_comment, starts_with_two,
}
use delta_scope.Utf8.{decode_rune}

-- A part of the body of a literal: a byte for itself, a doubled quote, or a backslash and a byte.
pub data Piece : Type 0 where
  plain : ℕ → Piece
  doubled : Piece
  escaped : ℕ → Piece

abbrev pub render : ℕ → List Piece → Text
render quote [] = []
render quote (plain c ∷ ps) = c ∷ render quote ps
render quote (doubled ∷ ps) = quote ∷ quote ∷ render quote ps
render quote (escaped c ∷ ps) = b'\\' ∷ c ∷ render quote ps

-- Whether the piece reads as it is meant in a literal with this quote and this use of backslashes.
abbrev pub IsPiece : ℕ → Bool → Piece → Type 0
IsPiece quote escapes (plain c) = (nat_beq c quote ≡ false) × ((escapes && nat_beq c b'\\') ≡ false)
IsPiece quote escapes doubled = (escapes && nat_beq quote b'\\') ≡ false
IsPiece quote escapes (escaped c) = escapes ≡ true

abbrev pub IsQuoted : Mode → Type 0
IsQuoted single_quote = Unit
IsQuoted double_quote = Unit
IsQuoted backtick = Unit
IsQuoted _ = ⊥

abbrev pub quote_of : Mode → ℕ
quote_of single_quote = b'\''
quote_of double_quote = b'"'
quote_of _ = b'`'

abbrev pub escapes_in : Dialect → Scan → Mode → Bool
escapes_in dialect s single_quote = s.backslash_escapes
escapes_in dialect s double_quote = not (is_postgresql dialect)
escapes_in dialect s _ = true

-- The bytes read, last first.
abbrev pub push : Text → Text → Text
push [] seen = seen
push (c ∷ s) seen = push s (c ∷ seen)

abbrev pub StartsNot : ℕ → Text → Type 0
StartsNot quote [] = Unit
StartsNot quote (c ∷ s) = nat_beq c quote ≡ false

module _ (is_letter : ℕ → Bool) (dialect : Dialect) (sql : Text) where
  -- In a quoted mode a turn is `scanQuoted` with the mode's quote.
  turn_quoted :
      (m : Mode) (s : Scan) (seen : Text) (c : ℕ) (rest : Text)
      → IsQuoted m
      → step_by is_letter dialect sql m s seen c rest ≡ (
          let (ends, k) = scan_quoted (quote_of m) (escapes_in dialect s m) c rest in
          (if ends then record s { state = normal } else s, k))
  unfolding step_by
  turn_quoted single_quote s seen c rest q = refl
  turn_quoted double_quote s seen c rest q = refl
  turn_quoted backtick s seen c rest q = refl
  turn_quoted normal s seen c rest q = elim q [ ]
  turn_quoted line_comment s seen c rest q = elim q [ ]
  turn_quoted block_comment s seen c rest q = elim q [ ]
  turn_quoted dollar_quote s seen c rest q = elim q [ ]

  scan_quoted_plain :
      (quote : ℕ) (escapes : Bool) (c : ℕ) (rest : Text)
      → IsPiece quote escapes (plain c)
      → scan_quoted quote escapes c rest ≡ (false, 0)
  unfolding scan_quoted
  scan_quoted_plain quote escapes c [] h = ground arith
  scan_quoted_plain quote escapes c (d ∷ rest) h = ground arith

  scan_quoted_doubled :
      (quote : ℕ) (escapes : Bool) (rest : Text)
      → IsPiece quote escapes doubled
      → scan_quoted quote escapes quote (quote ∷ rest) ≡ (false, 1)
  unfolding scan_quoted
  scan_quoted_doubled quote escapes rest h = ground arith

  scan_quoted_escaped :
      (quote : ℕ) (escapes : Bool) (c : ℕ) (rest : Text)
      → IsPiece quote escapes (escaped c)
      → scan_quoted quote escapes b'\\' (c ∷ rest) ≡ (false, 1)
  unfolding scan_quoted
  scan_quoted_escaped quote escapes c rest h = ground arith

  scan_quoted_close :
      (quote : ℕ) (escapes : Bool) (rest : Text)
      → (escapes && nat_beq quote b'\\') ≡ false
      → StartsNot quote rest
      → scan_quoted quote escapes quote rest ≡ (true, 0)
  unfolding scan_quoted
  scan_quoted_close quote escapes [] h k = ground arith
  scan_quoted_close quote escapes (d ∷ rest) h k = ground arith

  quote_plain :
      (m : Mode) (escapes : Bool) → IsQuoted m → (escapes && nat_beq (quote_of m) b'\\') ≡ false
  quote_plain single_quote true q = refl
  quote_plain single_quote false q = refl
  quote_plain double_quote true q = refl
  quote_plain double_quote false q = refl
  quote_plain backtick true q = refl
  quote_plain backtick false q = refl
  quote_plain normal escapes q = elim q [ ]
  quote_plain line_comment escapes q = elim q [ ]
  quote_plain block_comment escapes q = elim q [ ]
  quote_plain dollar_quote escapes q = elim q [ ]

  -- A turn in a quoted mode, by what `scanQuoted` answers.
  run_quoted :
      (m : Mode) (s : Scan) (seen : Text) (c : ℕ) (rest : Text) (ends : Bool) (k : ℕ)
      → IsQuoted m
      → s.state ≡ m
      → scan_quoted (quote_of m) (escapes_in dialect s m) c rest ≡ (ends, k)
      → run is_letter dialect sql 0 s seen (c ∷ rest)
        ≡ run is_letter dialect sql k
            (if ends then record s { state = normal } else s)
            (c ∷ seen)
            rest
  unfolding run
  run_quoted m s seen c rest ends k q e answer = simp (e, turn_quoted m s seen c rest q, answer)

  run_skip :
      (s : Scan) (seen : Text) (c : ℕ) (rest : Text)
      → run is_letter dialect sql 1 s seen (c ∷ rest)
        ≡ run is_letter dialect sql 0 s (c ∷ seen) rest
  unfolding run
  run_skip s seen c rest = refl

  run_body :
      (m : Mode) (s : Scan) (seen : Text) (ps : List Piece) (rest : Text)
      → IsQuoted m
      → s.state ≡ m
      → All (IsPiece (quote_of m) (escapes_in dialect s m)) ps
      → run is_letter dialect sql 0 s seen (render (quote_of m) ps ++ rest)
        ≡ run is_letter dialect sql 0 s (push (render (quote_of m) ps) seen) rest
  run_body m s seen [] rest q e h = refl
  run_body m s seen (plain c ∷ ps) rest q e (p, h) =
      run_quoted m s seen c _ false 0 q e (scan_quoted_plain _ _ c _ p)
      ∙ run_body m s (c ∷ seen) ps rest q e h
  run_body m s seen (doubled ∷ ps) rest q e (p, h) =
      run_quoted m s seen (quote_of m) _ false 1 q e (scan_quoted_doubled _ _ _ p)
      ∙ run_skip s _ _ _
      ∙ run_body m s (quote_of m ∷ quote_of m ∷ seen) ps rest q e h
  run_body m s seen (escaped c ∷ ps) rest q e (p, h) =
      run_quoted m s seen b'\\' _ false 1 q e (scan_quoted_escaped _ _ c _ p)
      ∙ run_skip s _ _ _
      ∙ run_body m s (c ∷ b'\\' ∷ seen) ps rest q e h

  -- A literal or a quoted identifier whose body is made of plain bytes, doubled quotes and, where
  -- backslashes escape, escaped bytes, is passed over as a whole: the scanner comes out behind the
  -- closing quote in the normal state, with the cuts and all other variables as they were.
  pub run-literal :
      (m : Mode) (s : Scan) (seen : Text) (ps : List Piece) (rest : Text)
      → IsQuoted m
      → s.state ≡ m
      → All (IsPiece (quote_of m) (escapes_in dialect s m)) ps
      → StartsNot (quote_of m) rest
      → run is_letter dialect sql 0 s seen (render (quote_of m) ps ++ quote_of m ∷ rest)
        ≡ run is_letter dialect sql 0
            (record s { state = normal })
            (quote_of m ∷ push (render (quote_of m) ps) seen)
            rest
  run-literal m s seen ps rest q e h k =
      run_body m s seen ps (quote_of m ∷ rest) q e h
      ∙ run_quoted m s _ (quote_of m) rest true 0 q e
          (scan_quoted_close _ _ rest (quote_plain m _ q) k)

-- The depth of an open block comment is positive, and the delimiter of an open dollar quote is not
-- empty.
abbrev pub IsOpen : Scan → Type 0
IsOpen s =
    (s.state ≡ block_comment → 1 ≤ s.block_depth)
    × (s.state ≡ dollar_quote → text_beq s.delimiter [] ≡ false)

-- How far a turn moves, and what it keeps.
has_prefix-length : (s p : Text) → has_prefix s p ≡ true → length p ≤ length s
unfolding has_prefix
has_prefix-length s [] h = omega arith
has_prefix-length [] (b ∷ p) h = cc
has_prefix-length (c ∷ s) (b ∷ p) h = ground (arith, has_prefix-length s p)

module _ (is_letter : ℕ → Bool) (dialect : Dialect) (sql : Text) where
  tag_from-length :
      (k : ℕ) (acc rest : Text) → length (tag_from is_letter k acc rest) ≤ length acc + length rest
  unfolding tag_from
  tag_from-length k acc [] = omega arith
  tag_from-length (suc k) acc (c ∷ rest) = omega (arith, tag_from-length k (c ∷ acc) rest)
  tag_from-length zero acc (c ∷ rest) = ground (
    arith,
    length-reverse (c ∷ acc),
    tag_from-length ((decode_rune (c ∷ rest)).1 - 1) (c ∷ acc) rest,
  )

  delimiter-length :
      (seen rest : Text) → length (dollar_quote_delimiter is_letter seen rest) ≤ suc (length rest)
  unfolding dollar_quote_delimiter
  delimiter-length seen [] = omega arith
  delimiter-length seen (d ∷ rest) =
      let named = tag_from-length (decode_rune (d ∷ rest)).1 (b'$' ∷ []) (d ∷ rest) in ground arith

  line_comment-length :
      (c : ℕ) (rest : Text) → starts_line_comment dialect c rest ≡ true → 1 ≤ length rest
  unfolding starts_line_comment
  line_comment-length c [] h = cc
  line_comment-length c (d ∷ rest) h = omega arith

  starts_with_two-length :
      (a b c : ℕ) (rest : Text) → starts_with_two a b c rest ≡ true → 1 ≤ length rest
  starts_with_two-length a b c [] h = cc
  starts_with_two-length a b c (d ∷ rest) h = omega arith

  step_normal-in_bounds :
      (s : Scan) (seen : Text) (c : ℕ) (rest : Text)
      → (step_normal is_letter dialect sql s seen c rest).1 ≤ length rest
  unfolding step_normal
  step_normal-in_bounds s seen c rest = ground (
    arith,
    delimiter-length seen rest,
    line_comment-length c rest,
    starts_with_two-length b'/' b'*' c rest,
  )

  scan_quoted-in_bounds :
      (quote : ℕ) (escapes : Bool) (c : ℕ) (rest : Text)
      → (scan_quoted quote escapes c rest).1 ≤ length rest
  unfolding scan_quoted
  scan_quoted-in_bounds quote escapes c [] = ground arith
  scan_quoted-in_bounds quote escapes c (d ∷ rest) = ground arith

  step_by-length :
      (m : Mode) (s : Scan) (seen : Text) (c : ℕ) (rest : Text)
      → (step_by is_letter dialect sql m s seen c rest).1 ≤ length rest
  unfolding step_by
  step_by-length normal s seen c rest = step_normal-in_bounds s seen c rest
  step_by-length single_quote s seen c rest = scan_quoted-in_bounds b'\'' s.backslash_escapes c rest
  step_by-length double_quote s seen c rest = scan_quoted-in_bounds b'"' _ c rest
  step_by-length backtick s seen c rest = scan_quoted-in_bounds b'`' true c rest
  step_by-length line_comment s seen c rest = omega arith
  step_by-length block_comment s seen c rest =
      ground
        (arith, starts_with_two-length b'/' b'*' c rest, starts_with_two-length b'*' b'/' c rest)
  step_by-length dollar_quote s seen c rest = ground (
    arith,
    has_prefix-length (c ∷ rest) s.delimiter,
    step_normal-in_bounds (record s { state = normal }) seen c rest,
  )

  step_normal-IsOpen :
      (s : Scan) (seen : Text) (c : ℕ) (rest : Text)
      → s.state ≡ normal
      → IsOpen (step_normal is_letter dialect sql s seen c rest).0
  unfolding step_normal
  step_normal-IsOpen s seen c rest e = ground arith

  step_by-IsOpen :
      (m : Mode) (s : Scan) (seen : Text) (c : ℕ) (rest : Text)
      → s.state ≡ m
      → IsOpen s
      → IsOpen (step_by is_letter dialect sql m s seen c rest).0
  unfolding step_by
  step_by-IsOpen normal s seen c rest e h = step_normal-IsOpen s seen c rest e
  step_by-IsOpen dollar_quote s seen c rest e h =
      ground (arith, step_normal-IsOpen (record s { state = normal }) seen c rest refl)
  step_by-IsOpen _ s seen c rest e h = ground arith

  -- From variables where the depth of an open block comment is positive and the delimiter of an open
  -- dollar quote is not empty, a turn of the loop moves the position to the end of the source at most
  -- and leaves such variables again.
  pub step_by-in_bounds :
      (s : Scan) (seen : Text) (c : ℕ) (rest : Text)
      → IsOpen s
      → (suc (step_by is_letter dialect sql s.state s seen c rest).1 ≤ length (c ∷ rest))
        × IsOpen (step_by is_letter dialect sql s.state s seen c rest).0
  step_by-in_bounds s seen c rest h =
      let within = step_by-length s.state s seen c rest in
      (omega arith, step_by-IsOpen s.state s seen c rest refl h)
