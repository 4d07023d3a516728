-- ===== src/Rule/Registry/Ids.antt =====
-- Registration keeps the rule IDs of a registry unique, set and listed.
use delta_scope.Prelude.{
  ◌≡◌, refl, sym, ◌∙◌, false, ◌||◌, List, [], ◌∷◌, ◌++◌, Text, comparable_text, text_beq_iff, ◌==◌,
  contains, contains-append, Unique, arith, map, map-append,
}
use delta_scope.Rule.{ok}
use delta_scope.Rule.Registry.{
  StatementRule, GlobalRule, Registry, register_statement, register_global,
}

abbrev pub ids : List StatementRule → List Text
ids rules = map (λ r. r.id) rules

abbrev pub all_ids : List GlobalRule → List Text
all_ids rules = map (λ r. r.id) rules

-- The two lists of rules have IDs that are set and stand once, and the maps know exactly these.
pub record IsConsistent (r : Registry) : Type 0 where
  pub unique : Unique (ids r.statement_rules)
  pub global_unique : Unique (all_ids r.global_rules)
  pub named : contains [] (ids r.statement_rules) ≡ false
  pub global_named : contains [] (all_ids r.global_rules) ≡ false
  pub known : (x : Text) → contains x r.statement_ids ≡ contains x (ids r.statement_rules)
  pub global_known : (x : Text) → contains x r.global_ids ≡ contains x (all_ids r.global_rules)

Unique-last :
    (xs : List Text) (x : Text) → Unique xs → contains x xs ≡ false → Unique (xs ++ x ∷ [])
Unique-last [] x h n = (refl, tt)
Unique-last (y ∷ xs) x (p, h) n = (
  rw (contains-append y xs (x ∷ [])) (ground (arith, text_beq_iff x y, text_beq_iff y x)),
  Unique-last xs x h (ground arith),
)

-- `ids` of a list with one more rule.
contains-last :
    (x y : Text) (xs : List Text) → contains x (xs ++ y ∷ []) ≡ (x == y || contains x xs)
contains-last x y xs = rw (contains-append x xs (y ∷ [])) (ground arith)

register_statement-eq-ok :
    (r : Registry) (rule : StatementRule) {r' : Registry}
    → register_statement r rule ≡ ok r'
    → ((rule.id == []) ≡ false)
      × (contains rule.id r.statement_ids ≡ false)
      × (r' ≡ record r {
        statement_rules = r.statement_rules ++ rule ∷ [];
        statement_ids = rule.id ∷ r.statement_ids;
      })
unfolding register_statement
register_statement-eq-ok r rule h = ground arith

register_global-eq-ok :
    (r : Registry) (rule : GlobalRule) {r' : Registry}
    → register_global r rule ≡ ok r'
    → ((rule.id == []) ≡ false)
      × (contains rule.id r.global_ids ≡ false)
      × (r' ≡ record r {
        global_rules = r.global_rules ++ rule ∷ [];
        global_ids = rule.id ∷ r.global_ids;
      })
unfolding register_global
register_global-eq-ok r rule h = ground arith

-- A registration of a statement rule that succeeds keeps the registry consistent: the rules of
-- either kind have unique IDs that are not empty, and the sets of known IDs hold these.
pub register_statement-IsConsistent :
    (r : Registry) (rule : StatementRule) {r' : Registry}
    → IsConsistent r
    → register_statement r rule ≡ ok r'
    → IsConsistent r'
register_statement-IsConsistent r rule c h =
    let (set, fresh, e) = register_statement-eq-ok r rule h in
    let last : ids (r.statement_rules ++ rule ∷ []) ≡ ids r.statement_rules ++ rule.id ∷ [] =
      map-append (λ (s : StatementRule). s.id) r.statement_rules _ in
    rw e (record {
      unique = rw last (Unique-last _ rule.id c.unique (sym (c.known rule.id) ∙ fresh));
      global_unique = c.global_unique;
      named =
          rw (last, contains-last [] rule.id (ids r.statement_rules), c.named)
            (ground (arith, set, text_beq_iff rule.id [], text_beq_iff [] rule.id));
      global_named = c.global_named;
      known = λ x.
          rw (last, contains-last x rule.id (ids r.statement_rules)) (ground (arith, c.known x));
      global_known = c.global_known;
    })

-- A registration of a global rule that succeeds keeps the registry consistent: the rules of
-- either kind have unique IDs that are not empty, and the sets of known IDs hold these.
pub register_global-IsConsistent :
    (r : Registry) (rule : GlobalRule) {r' : Registry}
    → IsConsistent r
    → register_global r rule ≡ ok r'
    → IsConsistent r'
register_global-IsConsistent r rule c h =
    let (set, fresh, e) = register_global-eq-ok r rule h in
    let last : all_ids (r.global_rules ++ rule ∷ []) ≡ all_ids r.global_rules ++ rule.id ∷ [] =
      map-append (λ (s : GlobalRule). s.id) r.global_rules _ in
    rw e (record {
      unique = c.unique;
      global_unique =
          rw last (Unique-last _ rule.id c.global_unique (sym (c.global_known rule.id) ∙ fresh));
      named = c.named;
      global_named =
          rw (last, contains-last [] rule.id (all_ids r.global_rules), c.global_named)
            (ground (arith, set, text_beq_iff rule.id [], text_beq_iff [] rule.id));
      known = c.known;
      global_known = λ x.
          rw (last, contains-last x rule.id (all_ids r.global_rules))
            (ground (arith, c.global_known x));
    })
