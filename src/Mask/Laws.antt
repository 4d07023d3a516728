-- ===== src/Mask/Laws.antt =====
-- What masking keeps, what it hides, and that it settles.
use delta_scope.Prelude.{
  List, nat_beq, if◌then◌else◌, drop, length, ◌∙◌, ℕ, ◌≡◌, refl, ap, ◌≢◌, ◌⊎◌, [], ◌∷◌, ◌++◌, Text,
  arith, All,
}
use delta_scope.Mask.{
  Place, code, single, block, escaped, step, mask_from, mask_literals_and_comments,
}

-- Two texts of one length, byte by byte the same or a blank for a byte that is no newline.
abbrev pub BlanksOf : Text → Text → Type 0
BlanksOf [] [] = Unit
BlanksOf (c ∷ s) (b ∷ t) = ((b ≡ c) ⊎ ((b ≡ b' ') × (c ≢ 10))) × BlanksOf s t
BlanksOf _ _ = ⊥

step-blank :
    (p : Place) (c : ℕ) (rest : Text)
    → ((step p c rest).0 ≡ c) ⊎ (((step p c rest).0 ≡ b' ') × (c ≢ 10))
unfolding step
step-blank code c rest = ground arith
step-blank _ c rest = ground arith

mask_from-BlanksOf : (p : Place) (s : Text) → BlanksOf s (mask_from p s)
unfolding mask_from
mask_from-BlanksOf p [] = tt
mask_from-BlanksOf p (c ∷ s) = (step-blank p c s, mask_from-BlanksOf (step p c s).1 s)

-- Masking keeps the length and every newline, and writes nothing but blanks: a position in the
-- masked text is the same position, on the same line, in the source.
pub mask_literals_and_comments-BlanksOf :
    (sql : Text) → BlanksOf sql (mask_literals_and_comments sql)
unfolding mask_literals_and_comments
mask_literals_and_comments-BlanksOf sql = mask_from-BlanksOf code sql

-- Where a second pass reads a byte: a blank is no backslash, so it is never in `escaped`.
abbrev settle : Place → Place
settle escaped = single
settle p = p

step-again :
    (p : Place) (c : ℕ) (rest : Text)
    → step (settle p) (step p c rest).0 (mask_from (step p c rest).1 rest)
      ≡ ((step p c rest).0, settle (step p c rest).1)
unfolding step mask_from
step-again code c [] = ground arith
step-again single c [] = ground arith
step-again block c [] = ground arith
step-again code c (d ∷ rest) = ground arith
step-again single c (d ∷ rest) = ground arith
step-again block c (d ∷ rest) = ground arith
step-again _ c rest = ground arith

mask_from-mask_from : (p : Place) (s : Text) → mask_from (settle p) (mask_from p s) ≡ mask_from p s
unfolding mask_from
mask_from-mask_from p [] = refl
mask_from-mask_from p (c ∷ s) =
    rw (step-again p c s) (ap (λ t. (step p c s).0 ∷ t) (mask_from-mask_from (step p c s).1 s))

-- Masking a masked text changes nothing.
pub mask_literals_and_comments_idempotent :
    (sql : Text)
    → mask_literals_and_comments (mask_literals_and_comments sql) ≡ mask_literals_and_comments sql
unfolding mask_literals_and_comments
mask_literals_and_comments_idempotent sql = mask_from-mask_from code sql

-- A part of the body of a literal: a byte for itself, a doubled quote, or a backslash and a byte.
pub data Piece : Type 0 where
  plain : ℕ → Piece
  doubled : Piece
  backslashed : ℕ → Piece

abbrev pub IsPiece : Piece → Type 0
IsPiece (plain c) = (c ≢ b'\'') × (c ≢ b'\\')
IsPiece _ = Unit

abbrev pub render : List Piece → Text
render [] = []
render (plain c ∷ ps) = c ∷ render ps
render (doubled ∷ ps) = b'\'' ∷ b'\'' ∷ render ps
render (backslashed c ∷ ps) = b'\\' ∷ c ∷ render ps

abbrev pub blank_but_newline : ℕ → ℕ
blank_but_newline c = if nat_beq c 10 then 10 else b' '

abbrev pub blanked : List Piece → Text
blanked [] = []
blanked (plain c ∷ ps) = blank_but_newline c ∷ blanked ps
blanked (doubled ∷ ps) = b'\'' ∷ b'\'' ∷ blanked ps
blanked (backslashed c ∷ ps) = b' ' ∷ blank_but_newline c ∷ blanked ps

abbrev pub literal : List Piece → Text → Text
literal ps rest = b'\'' ∷ render ps ++ b'\'' ∷ rest

abbrev pub StartsNoQuote : Text → Type 0
StartsNoQuote [] = Unit
StartsNoQuote (c ∷ s) = c ≢ b'\''

-- Where the pass reads the byte behind `before`, when `rest` follows.
unfoldable pub place_after : Place → Text → Text → Place
unfolding step
place_after p [] rest = p
place_after p (c ∷ before) rest = place_after (step p c (before ++ rest)).1 before rest

mask_from-behind :
    (p : Place) (before rest : Text)
    → drop (length before) (mask_from p (before ++ rest))
      ≡ mask_from (place_after p before rest) rest
unfolding mask_from place_after
mask_from-behind p [] rest = refl
mask_from-behind p (c ∷ before) rest = mask_from-behind (step p c (before ++ rest)).1 before rest

mask_close :
    (rest : Text)
    → StartsNoQuote rest
    → mask_from single (b'\'' ∷ rest) ≡ b'\'' ∷ mask_from code rest
unfolding mask_from step
mask_close [] h = ground arith
mask_close (c ∷ rest) h = ground arith

mask_single :
    (ps : List Piece) (rest : Text)
    → All IsPiece ps
    → StartsNoQuote rest
    → mask_from single (render ps ++ b'\'' ∷ rest) ≡ blanked ps ++ b'\'' ∷ mask_from code rest
unfolding mask_from step
mask_single [] rest h n = mask_close rest n
mask_single (plain c ∷ ps) rest (p, h) n = ground (arith, mask_single ps rest h n)
mask_single (doubled ∷ ps) rest (p, h) n = ground (arith, mask_single ps rest h n)
mask_single (backslashed c ∷ ps) rest (p, h) n = ground (arith, mask_single ps rest h n)

mask_literal :
    (ps : List Piece) (rest : Text)
    → All IsPiece ps
    → StartsNoQuote rest
    → mask_from code (literal ps rest) ≡ b'\'' ∷ blanked ps ++ b'\'' ∷ mask_from code rest
unfolding mask_from step
mask_literal ps rest h n = ap (λ t. b'\'' ∷ t) (mask_single ps rest h n)

-- A single-quoted literal that the pass reaches as code, made of plain bytes, doubled quotes and
-- backslashes with a byte, is masked to its quotes and newlines with blanks for all else, whatever
-- is before it; and what follows it, the end included, is masked as code.
pub mask_from-literal :
    (before : Text) (ps : List Piece) (rest : Text)
    → place_after code before (literal ps rest) ≡ code
    → All IsPiece ps
    → StartsNoQuote rest
    → drop (length before) (mask_literals_and_comments (before ++ literal ps rest))
      ≡ b'\'' ∷ blanked ps ++ b'\'' ∷ mask_literals_and_comments rest
unfolding mask_literals_and_comments
mask_from-literal before ps rest reached h n =
    mask_from-behind code before (literal ps rest)
    ∙ ap (λ p. mask_from p (literal ps rest)) reached
    ∙ mask_literal ps rest h n
