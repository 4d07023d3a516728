-- ===== src/Boundary.antt =====
-- internal/application/audit/statement_boundary.go: the lexical scanner that cuts a SQL source
-- into top-level statements before a dialect parser sees them. The position `i` in `sql` is kept
-- as the bytes before it, last first (`seen`), and the bytes from it on; `sql[i-1]` is the head of
-- `seen`. `unicode.IsLetter` is a parameter, since its table is not in the repository.
pub mod Lines
pub mod Literals
pub mod Cover
mod Tests
use delta_scope.Prelude.{
  ℕ, zero, suc, ◌+◌, ◌-◌, Bool, true, false, not, ◌&&◌, ◌||◌, List, [], ◌∷◌, ◌++◌, Text, codes, leb,
  ltb, nat_beq, if◌then◌else◌, reverse, length, take, drop, has_prefix, text_beq,
}
use delta_scope.Spec.{Dialect, is_postgresql}
use delta_scope.Utf8.{decode_rune, decode_last_rune, trim_left, trim_space}

pub record StatementChunk : Type 0 where
  pub sql : Text
  pub line : ℕ
  pub column : ℕ

pub data Mode : Type 0 where
  normal single_quote double_quote backtick line_comment block_comment dollar_quote : Mode

-- The variables of the loop, but for `i`.
pub record Scan : Type 0 where
  pub state : Mode
  pub start : ℕ
  pub block_depth : ℕ
  pub delimiter : Text
  pub backslash_escapes : Bool
  pub chunks : List StatementChunk

-- `lineColumnAt`: the loop over `source[:offset]`, with its two counters.
line_column_from : ℕ → ℕ → Text → ℕ → ℕ × ℕ
line_column_from line column [] offset = (line, column)
line_column_from line column (c ∷ s) zero = (line, column)
line_column_from line column (c ∷ s) (suc n) =
    line_column_from (if nat_beq c 10 then line + 1 else line)
      (if nat_beq c 10 then 1 else column + 1) s n

pub line_column_at : Text → ℕ → ℕ × ℕ
unfolding line_column_from
line_column_at source offset = line_column_from 1 1 source offset

-- `source[start:end]`
abbrev pub slice : Text → ℕ → ℕ → Text
slice source start end = take (end - start) (drop start source)

pub append_statement_chunk : List StatementChunk → Text → ℕ → ℕ → List StatementChunk
append_statement_chunk chunks source start end =
    let raw = slice source start end in
    let trimmed_left = trim_left raw in
    let statement = trim_space trimmed_left in
    let offset = start + length raw - length trimmed_left in
    let (line, column) = line_column_at source offset in
    if text_beq statement []
    then chunks
    else chunks ++ record { sql = statement; line = line; column = column } ∷ []

-- `sql[i:i+2]` is the two bytes `a`, `b`, where `i` is at `c` and `rest` follows.
abbrev pub starts_with_two : ℕ → ℕ → ℕ → Text → Bool
starts_with_two a b c [] = false
starts_with_two a b c (d ∷ rest) = nat_beq c a && nat_beq d b

-- `startsLineComment`
starts_line_comment : Dialect → ℕ → Text → Bool
starts_line_comment dialect c [] = false
starts_line_comment dialect c (d ∷ []) = nat_beq c b'-' && nat_beq d b'-'
starts_line_comment dialect c (d ∷ e ∷ rest) =
    nat_beq c b'-' && nat_beq d b'-' && (is_postgresql dialect || leb e b' ')

-- `scanQuoted`: whether the literal ends at `c`, and how far `i` moves beyond the next byte.
scan_quoted : ℕ → Bool → ℕ → Text → Bool × ℕ
scan_quoted quote escapes c [] = (nat_beq c quote, 0)
scan_quoted quote escapes c (d ∷ rest) =
    if escapes && nat_beq c b'\\'
    then (false, 1)
    else if not (nat_beq c quote)
    then (false, 0)
    else if nat_beq d quote
    then (false, 1)
    else (true, 0)

abbrev pub leave : Scan → Bool → Scan
leave s ends = if ends then record s { state = normal } else s

abbrev pub initial : Scan
initial = record {
  state = normal;
  start = 0;
  block_depth = 0;
  delimiter = [];
  backslash_escapes = false;
  chunks = [];
}

module _ (is_letter : ℕ → Bool) where
  is_dollar_tag_start : ℕ → Bool
  is_dollar_tag_start char = nat_beq char b'_' || is_letter char

  is_dollar_tag_part : ℕ → Bool
  unfolding is_dollar_tag_start
  is_dollar_tag_part char = is_dollar_tag_start char || leb b'0' char && leb char b'9'

  -- `isPostgreSQLEscapeString`
  is_escape_string : Text → Bool
  unfolding is_dollar_tag_part decode_last_rune
  is_escape_string [] = false
  is_escape_string (e ∷ []) = nat_beq e b'E' || nat_beq e b'e'
  is_escape_string (e ∷ b ∷ before) =
      (nat_beq e b'E' || nat_beq e b'e')
      && (let previous = (decode_last_rune (b ∷ before)).0 in
          not (is_dollar_tag_part previous) && not (nat_beq previous b'$'))

  -- The loop of `dollarQuoteDelimiter`: `acc` is `sql[start:i]` from the end, and the first argument
  -- counts the bytes left of a rune that is known to belong to the tag.
  tag_from : ℕ → Text → Text → Text
  tag_from k acc [] = []
  tag_from (suc k) acc (c ∷ rest) = tag_from k (c ∷ acc) rest
  tag_from zero acc (c ∷ rest) =
      let (char, width) = decode_rune (c ∷ rest) in
      let further = tag_from (width - 1) (c ∷ acc) rest in
      if nat_beq c b'$' then reverse (c ∷ acc) else if is_dollar_tag_part char then further else []

  abbrev tag_may_start : Text → Bool
  tag_may_start [] = true
  tag_may_start (b ∷ before) =
      let previous = (decode_last_rune (b ∷ before)).0 in
      not (is_dollar_tag_part previous || nat_beq previous b'$')

  -- `dollarQuoteDelimiter` at a dollar sign; empty when no delimiter starts there.
  dollar_quote_delimiter : Text → Text → Text
  unfolding tag_from is_dollar_tag_part decode_rune decode_last_rune
  dollar_quote_delimiter seen [] = []
  dollar_quote_delimiter seen (d ∷ rest) =
      let (first, width) = decode_rune (d ∷ rest) in
      let named = tag_from width (b'$' ∷ []) (d ∷ rest) in
      if not (tag_may_start seen)
      then []
      else if nat_beq d b'$'
      then codes "$$"
      else if is_dollar_tag_start first
      then named
      else []

  module _ (dialect : Dialect) (sql : Text) where
    -- One turn in state `scanNormal`, at byte `c`: the new variables, and how many bytes beyond `c`
    -- the position moves.
    step_normal : Scan → Text → ℕ → Text → Scan × ℕ
    unfolding append_statement_chunk starts_line_comment is_escape_string dollar_quote_delimiter
        is_postgresql
    step_normal s seen c rest =
        let pg = is_postgresql dialect in
        let i = length seen in
        let tag = dollar_quote_delimiter seen rest in
        if nat_beq c b';'
        then (
          record s { chunks = append_statement_chunk s.chunks sql s.start (i + 1); start = i + 1 },
          0,
        )
        else if nat_beq c b'\''
        then (
          record s { state = single_quote; backslash_escapes = not pg || is_escape_string seen },
          0,
        )
        else if nat_beq c b'"'
        then (record s { state = double_quote }, 0)
        else if nat_beq c b'`' && not pg
        then (record s { state = backtick }, 0)
        else if starts_line_comment dialect c rest
        then (record s { state = line_comment }, 1)
        else if nat_beq c b'#' && not pg
        then (record s { state = line_comment }, 0)
        else if starts_with_two b'/' b'*' c rest
        then (record s { state = block_comment; block_depth = 1 }, 1)
        else if pg && nat_beq c b'$'
        then (if text_beq tag []
            then (s, 0)
            else (record s { state = dollar_quote; delimiter = tag }, length tag - 1))
        else (s, 0)

    -- One turn of the loop, by state. With an empty delimiter the position stays where it is, so that
    -- the next turn, in the normal state, is taken at once.
    pub step_by : Mode → Scan → Text → ℕ → Text → Scan × ℕ
    unfolding step_normal scan_quoted
    step_by normal s seen c rest = step_normal s seen c rest
    step_by single_quote s seen c rest =
        let (ends, k) = scan_quoted b'\'' s.backslash_escapes c rest in (leave s ends, k)
    step_by double_quote s seen c rest =
        let (ends, k) = scan_quoted b'"' (not (is_postgresql dialect)) c rest in (leave s ends, k)
    step_by backtick s seen c rest =
        let (ends, k) = scan_quoted b'`' true c rest in (leave s ends, k)
    step_by line_comment s seen c rest = (leave s (nat_beq c 10), 0)
    step_by block_comment s seen c rest =
        if is_postgresql dialect && starts_with_two b'/' b'*' c rest
        then (record s { block_depth = s.block_depth + 1 }, 1)
        else if starts_with_two b'*' b'/' c rest
        then (
          leave (record s { block_depth = s.block_depth - 1 }) (nat_beq (s.block_depth - 1) 0),
          1,
        )
        else (s, 0)
    step_by dollar_quote s seen c rest =
        let opened = step_normal (record s { state = normal }) seen c rest in
        if text_beq s.delimiter []
        then opened
        else if has_prefix (c ∷ rest) s.delimiter
        then (record s { state = normal }, length s.delimiter - 1)
        else (s, 0)

    -- The loop. The first argument counts the bytes that the last turn still moves over.
    pub run : ℕ → Scan → Text → Text → Scan
    unfolding step_by
    run k s seen [] = s
    run (suc k) s seen (c ∷ rest) = run k s (c ∷ seen) rest
    run zero s seen (c ∷ rest) =
        let (s', k) = step_by s.state s seen c rest in run k s' (c ∷ seen) rest

  -- `splitSQLStatements`
  pub split_sql_statements : Dialect → Text → List StatementChunk
  unfolding run
  split_sql_statements dialect sql =
      let s = run dialect sql 0 initial [] sql in
      append_statement_chunk s.chunks sql s.start (length sql)
