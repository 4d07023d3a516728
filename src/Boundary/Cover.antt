-- ===== src/Boundary/Cover.antt =====
-- The statements are the trimmed pieces of the source between top-level semicolons, in order, and
-- each is reported where it stands.
use mathlib.Core.Path.{subst}
use mathlib.Core.Bool.{false≢true}
use delta_scope.Prelude.{
  ℕ, zero, suc, ◌+◌, ◌-◌, ◌≡◌, refl, sym, ap, ◌∙◌, ◌≢◌, ◌⊎◌, inl, inr, Bool, false, List, [], ◌∷◌,
  ◌++◌, Text, if◌then◌else◌, length, arith, map, map-append, append-nil, append_assoc, All,
  All-append, concat, concat_last, drop-append, take-append, length-append, text_beq, text_beq_iff,
  Bool-cases,
}
use delta_scope.Spec.{Dialect}
use delta_scope.Utf8.{trim_left, trim_space}
use delta_scope.Utf8.Trim.{trim_left-suffix, trim_space-trim_left, trim_space-prefix}
use delta_scope.Boundary.{
  StatementChunk, Mode, normal, Scan, slice, line_column_at, append_statement_chunk, step_normal,
  step_by, run, initial, split_sql_statements,
}
use delta_scope.Boundary.Lines.{newlines, last_line, line_column_at_lem}

-- The trimmed pieces that are not blank.
pub statements : List Text → List Text
statements [] = []
statements (raw ∷ segs) =
    if text_beq (trim_space raw) [] then statements segs else trim_space raw ∷ statements segs

-- A piece that a semicolon closes.
abbrev pub IsClosed : Text → Type 0
IsClosed seg = (body : Text) × (seg ≡ body ++ b';' ∷ [])

-- The chunk stands in the source at the line and the column that it carries, and is not empty.
pub record IsPlaced (sql : Text) (chunk : StatementChunk) : Type 0 where
  pub before : Text
  pub after : Text
  pub stands : before ++ (chunk.sql ++ after) ≡ sql
  pub line : chunk.line ≡ newlines before + 1
  pub column : chunk.column ≡ length (last_line before) + 1
  pub nonempty : chunk.sql ≢ []

abbrev texts : List StatementChunk → List Text
texts chunks = map (λ c. c.sql) chunks

slice_lem : (a b c : Text) → slice (a ++ (b ++ c)) (length a) (length a + length b) ≡ b
slice_lem a b c =
    let e : length a + length b - length a ≡ length b = omega arith in
    rw (e, drop-append a (b ++ c)) (take-append b c)

statements-append : (xs ys : List Text) → statements (xs ++ ys) ≡ statements xs ++ statements ys
unfolding statements
statements-append [] ys = refl
statements-append (x ∷ xs) ys = ground (arith, statements-append xs ys)

abbrev source : Text → Text → Text → Text
source done raw rest = done ++ (raw ++ rest)

module _ (done raw rest : Text) (chunks : List StatementChunk) where
  abbrev appended : List StatementChunk
  appended =
      append_statement_chunk chunks (source done raw rest) (length done) (length done + length raw)

  texts-appended : texts appended ≡ texts chunks ++ statements (raw ∷ [])
  unfolding append_statement_chunk statements
  texts-appended =
      rw (slice_lem done raw rest, trim_space-trim_left raw)
        (elim (Bool-cases (text_beq (trim_space raw) [])) [
          | inl blank ↦ rw blank (sym (append-nil _))
          | inr full ↦ rw full (map-append (λ (c : StatementChunk). c.sql) chunks _)
        ])

  placed :
      text_beq (trim_space raw) [] ≡ false
      → (chunk : StatementChunk) → chunk.sql ≡ trim_space raw
      → (chunk.line, chunk.column)
        ≡ line_column_at (source done raw rest) (length done + length raw - length (trim_left raw))
      → IsPlaced (source done raw rest) chunk
  placed full chunk e at =
      let (cut, cut_e) = trim_left-suffix raw in
      let (after, after_e) = trim_space-prefix raw in
      let before = done ++ cut in
      let offset : length done + length raw - length (trim_left raw) ≡ length before =
        omega (arith, ap length cut_e, length-append cut (trim_left raw), length-append done cut) in
      let split : before ++ (trim_left raw ++ rest) ≡ source done raw rest =
        append_assoc done cut (trim_left raw ++ rest)
        ∙ ap (λ t. done ++ t)
            (sym (append_assoc cut (trim_left raw) rest) ∙ ap (λ t. t ++ rest) cut_e) in
      let position : (chunk.line, chunk.column)
          ≡ (newlines before + 1, length (last_line before) + 1) =
        at
        ∙ ap (line_column_at (source done raw rest)) offset
        ∙ ap (λ t. line_column_at t (length before)) (sym split)
        ∙ line_column_at_lem before (trim_left raw ++ rest) in
      record {
        before = before;
        after = after ++ rest;
        stands =
            ap (λ t. before ++ (t ++ (after ++ rest))) (e ∙ sym (trim_space-trim_left raw))
            ∙ ap (λ t. before ++ t) (sym (append_assoc _ after rest) ∙ ap (λ t. t ++ rest) after_e)
            ∙ split;
        line = ap (λ p. p.0) position;
        column = ap (λ p. p.1) position;
        nonempty =
            λ empty. false≢true (sym full ∙ (text_beq_iff (trim_space raw) []).1 (sym e ∙ empty));
      }

  appended-IsPlaced :
      All (IsPlaced (source done raw rest)) chunks → All (IsPlaced (source done raw rest)) appended
  unfolding append_statement_chunk
  appended-IsPlaced h =
      rw (slice_lem done raw rest, trim_space-trim_left raw)
        (elim (Bool-cases (text_beq (trim_space raw) [])) [
          | inl blank ↦ rw blank h
          | inr full ↦ rw full (
              All-append (IsPlaced (source done raw rest)) chunks _ h (placed full _ refl refl, tt))
        ])

-- One turn of the loop cuts after a semicolon or leaves the cuts alone.
module _ (is_letter : ℕ → Bool) (dialect : Dialect) (sql : Text) where
  abbrev Effect : Scan → Text → ℕ → Scan → Type 0
  Effect s seen c s' =
      ((s'.start ≡ s.start) × (s'.chunks ≡ s.chunks))
      ⊎ ((c ≡ b';')
          × (s'.start ≡ length seen + 1)
          × (s'.chunks ≡ append_statement_chunk s.chunks sql s.start (length seen + 1)))

  step_normal-Effect :
      (s : Scan) (seen : Text) (c : ℕ) (rest : Text)
      → Effect s seen c (step_normal is_letter dialect sql s seen c rest).0
  unfolding step_normal
  step_normal-Effect s seen c rest = ground arith

  step_by-Effect :
      (m : Mode) (s : Scan) (seen : Text) (c : ℕ) (rest : Text)
      → Effect s seen c (step_by is_letter dialect sql m s seen c rest).0
  unfolding step_by
  step_by-Effect normal s seen c rest = step_normal-Effect s seen c rest
  step_by-Effect _ s seen c rest = ground arith

-- The cuts made so far: `segs` are closed pieces, `cur` the bytes read since the last cut, `rest`
-- the bytes to come.
record Cut (sql : Text) (start : ℕ) (chunks : List StatementChunk) (segs : List Text)
    (cur rest : Text) : Type 0 where
  joined : concat segs ++ (cur ++ rest) ≡ sql
  at_start : start ≡ length (concat segs)
  closed : All IsClosed segs
  reads : texts chunks ≡ statements segs
  places : All (IsPlaced sql) chunks

module _ {sql : Text} {start : ℕ} {chunks : List StatementChunk} {segs : List Text} where
  Cut-read :
      {cur : Text} {c : ℕ} {rest : Text}
      → Cut sql start chunks segs cur (c ∷ rest)
      → Cut sql start chunks segs (cur ++ c ∷ []) rest
  Cut-read {cur} {c} {rest} h = record {
    joined = ap (λ t. concat segs ++ t) (append_assoc cur (c ∷ []) rest) ∙ h.joined;
    at_start = h.at_start;
    closed = h.closed;
    reads = h.reads;
    places = h.places;
  }

  -- Closing the current piece, at a semicolon or at the end of the source.
  Cut-append :
      (raw rest : Text)
      → Cut sql start chunks segs raw rest
      → (texts (append_statement_chunk chunks sql start (start + length raw))
          ≡ statements (segs ++ raw ∷ []))
        × All (IsPlaced sql) (append_statement_chunk chunks sql start (start + length raw))
  Cut-append raw rest h =
      let P : Text → ℕ → Type 0 = λ q n.
        (texts (append_statement_chunk chunks q n (n + length raw)) ≡ statements (segs ++ raw ∷ []))
        × All (IsPlaced q) (append_statement_chunk chunks q n (n + length raw)) in
      let places : All (IsPlaced (source (concat segs) raw rest)) chunks =
        subst (λ q. All (IsPlaced q) chunks) (sym h.joined) h.places in
      let here : P (source (concat segs) raw rest) (length (concat segs)) = (
        texts-appended (concat segs) raw rest chunks
            ∙ ap (λ t. t ++ statements (raw ∷ [])) h.reads
            ∙ sym (statements-append segs (raw ∷ [])),
        appended-IsPlaced (concat segs) raw rest chunks places,
      ) in
      subst (λ q. P q start) h.joined
        (subst (P (source (concat segs) raw rest)) (sym h.at_start) here)

  Cut-close :
      (cur rest : Text)
      → Cut sql start chunks segs cur (b';' ∷ rest)
      → Cut sql
          (start + length cur + 1)
          (append_statement_chunk chunks sql start (start + length cur + 1))
          (segs ++ (cur ++ b';' ∷ []) ∷ [])
          []
          rest
  Cut-close cur rest h =
      let raw = cur ++ b';' ∷ [] in
      let all_raw : concat (segs ++ raw ∷ []) ≡ concat segs ++ raw = concat_last segs raw in
      let size : start + length cur + 1 ≡ start + length raw =
        omega (arith, length-append cur (b';' ∷ [])) in
      let (reads, places) = Cut-append raw rest (Cut-read h) in
      record {
        joined =
            ap (λ t. t ++ rest) all_raw ∙ append_assoc (concat segs) raw rest ∙ (Cut-read h).joined;
        at_start = omega (
          arith,
          h.at_start,
          ap length all_raw,
          length-append (concat segs) raw,
          length-append cur (b';' ∷ []),
        );
        closed = All-append IsClosed segs _ h.closed ((cur, refl), tt);
        reads = rw size reads;
        places = rw size places;
      }

-- The loop keeps the cuts, however far a turn moves.
module _ (is_letter : ℕ → Bool) (dialect : Dialect) (sql : Text) where
  abbrev Done : Scan → Type 0
  Done s = (segs : List Text) × (cur : Text) × Cut sql s.start s.chunks segs cur []

  turn-Cut :
      (s : Scan) (seen : Text) (c : ℕ) (s' : Scan) {segs : List Text} {cur rest : Text}
      → Cut sql s.start s.chunks segs cur (c ∷ rest)
      → length seen ≡ s.start + length cur
      → Effect is_letter dialect sql s seen c s'
      → (segs' : List Text) × (cur' : Text) × Cut sql s'.start s'.chunks segs' cur' rest
        × (suc (length seen) ≡ s'.start + length cur')
  turn-Cut s seen c s' {segs} {cur} {rest} h size (inl (same_start, same_chunks)) = (
    segs,
    cur ++ c ∷ [],
    rw (same_start, same_chunks) (Cut-read h),
    omega (arith, same_start, length-append cur (c ∷ [])),
  )
  turn-Cut s seen c s' {segs} {cur} {rest} h size (inr (is_semi, new_start, new_chunks)) =
      let h' : Cut sql s.start s.chunks segs cur (b';' ∷ rest) = rw is_semi at h in
      (
        segs ++ (cur ++ b';' ∷ []) ∷ [],
        [],
        rw (new_start, new_chunks, size) (Cut-close cur rest h'),
        omega (arith, new_start),
      )

  run-Done :
      (k : ℕ) (s : Scan) (seen rest : Text) (segs : List Text) (cur : Text)
      → Cut sql s.start s.chunks segs cur rest
      → length seen ≡ s.start + length cur
      → Done (run is_letter dialect sql k s seen rest)
  unfolding run
  run-Done k s seen [] segs cur h size = (segs, cur, h)
  run-Done (suc k) s seen (c ∷ rest) segs cur h size =
      run-Done k s (c ∷ seen) rest segs (cur ++ c ∷ []) (Cut-read h)
        (omega (arith, length-append cur (c ∷ [])))
  run-Done zero s seen (c ∷ rest) segs cur h size =
      let turn = step_by is_letter dialect sql s.state s seen c rest in
      let (segs', cur', h', size') =
        turn-Cut s seen c turn.0 h size
          (step_by-Effect is_letter dialect sql s.state s seen c rest) in
      run-Done turn.1 turn.0 (c ∷ seen) rest segs' cur' h' size'

-- For every source and dialect: the source is a run of pieces, each closed by a semicolon, and a
-- last one; the statements are these pieces, trimmed, in order, without the blank ones; and each
-- statement is not empty and stands in the source at the line and the column that it carries.
pub split_sql_statements-covers :
    (is_letter : ℕ → Bool) (dialect : Dialect) (sql : Text)
    → (segs : List Text) × (last : Text) × (concat segs ++ last ≡ sql)
      × All IsClosed segs
      × (texts (split_sql_statements is_letter dialect sql) ≡ statements (segs ++ last ∷ []))
      × All (IsPlaced sql) (split_sql_statements is_letter dialect sql)
unfolding split_sql_statements statements
split_sql_statements-covers is_letter dialect sql =
    let s = run is_letter dialect sql 0 initial [] sql in
    let start : Cut sql 0 [] [] [] sql = record {
      joined = refl;
      at_start = refl;
      closed = tt;
      reads = refl;
      places = tt;
    } in
    let (segs, last, h) =
      run-Done is_letter dialect sql 0 initial [] sql [] [] start (omega arith) in
    let joined : concat segs ++ last ≡ sql =
      ap (λ t. concat segs ++ t) (sym (append-nil last)) ∙ h.joined in
    let size : length sql ≡ s.start + length last =
      omega (arith, h.at_start, ap length joined, length-append (concat segs) last) in
    let (reads, places) = Cut-append last [] h in
    (segs, last, joined, h.closed, rw size reads, rw size places)
