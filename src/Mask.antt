-- ===== src/Mask.antt =====
-- internal/application/audit/mismatch.go: literals, quoted identifiers and comments are blanked
-- before a MySQL or TiDB source that failed to parse is searched for PostgreSQL syntax. The nested
-- loops over `i` are one pass whose mode says in which loop a byte is read. The regular expressions
-- are parameters: a candidate is a test of the masked text and the token that it stands for.
pub mod Laws
mod Tests
use delta_scope.Prelude.{
  ℕ, Bool, true, false, ◌&&◌, List, [], ◌∷◌, Text, nat_beq, if◌then◌else◌, Option, none, some,
  text_beq,
}
use delta_scope.Utf8.{trim_space}

pub data Place : Type 0 where
  code single double backtick line block : Place
  -- the byte after a backslash in a single-quoted literal
  escaped : Place
  -- a byte that the loop moved over without a write; then in code, a literal, or a comment
  over_to_single over_to_code over_to_line over_to_block : Place

abbrev blank : ℕ → ℕ
blank c = if nat_beq c 10 then c else b' '

abbrev next_is : ℕ → Text → Bool
next_is b [] = false
next_is b (d ∷ rest) = nat_beq d b

abbrev has_next : Text → Bool
has_next [] = false
has_next (d ∷ rest) = true

-- The byte written for `c`, and where the next one is read.
step : Place → ℕ → Text → ℕ × Place
step code c rest =
    if nat_beq c b'\''
    then (c, single)
    else if nat_beq c b'"'
    then (c, double)
    else if nat_beq c b'`'
    then (c, backtick)
    else if nat_beq c b'-' && next_is b'-' rest
    then (c, over_to_line)
    else if nat_beq c b'/' && next_is b'*' rest
    then (c, over_to_block)
    else (c, code)
step single c rest =
    if nat_beq c b'\\' && has_next rest
    then (b' ', escaped)
    else if nat_beq c b'\''
    then (c, if next_is b'\'' rest then over_to_single else code)
    else (blank c, single)
step escaped c rest = (blank c, single)
step double c rest = if nat_beq c b'"' then (c, code) else (blank c, double)
step backtick c rest = if nat_beq c b'`' then (c, code) else (blank c, backtick)
step line c rest = if nat_beq c 10 then (c, code) else (b' ', line)
step block c rest =
    if nat_beq c b'*' && next_is b'/' rest then (c, over_to_code) else (blank c, block)
step over_to_single c rest = (c, single)
step over_to_code c rest = (c, code)
step over_to_line c rest = (c, line)
step over_to_block c rest = (c, block)

mask_from : Place → Text → Text
unfolding step
mask_from p [] = []
mask_from p (c ∷ rest) = let (b, p') = step p c rest in b ∷ mask_from p' rest

-- `maskLiteralsAndComments`
pub mask_literals_and_comments : Text → Text
unfolding mask_from
mask_literals_and_comments sql = mask_from code sql

pub record Candidate : Type 0 where
  pub matches : Text → Bool
  pub token : Text

first_token : List Candidate → Text → Option Text
first_token [] masked = none
first_token (candidate ∷ candidates) masked =
    if candidate.matches masked then some candidate.token else first_token candidates masked

-- `possiblePostgreSQLMismatch`
unfoldable pub possible_postgresql_mismatch : List Candidate → Text → Option Text
unfolding first_token mask_literals_and_comments
possible_postgresql_mismatch candidates sql =
    let trimmed = trim_space sql in
    if text_beq trimmed []
    then none
    else first_token candidates (mask_literals_and_comments trimmed)
