-- ===== src/Lib.antt =====
-- DeltaScope: an auditor of SQL scripts for MySQL, TiDB and PostgreSQL. This library models the
-- core of the audit, from the text of a script to the report, and the query access analysis, from
-- the extracted query to the admission.
--
-- How the parts work together. A script is cut into statements with their positions; each statement
-- is parsed to a description (the input of the later parts here); the registry runs its
-- rules on every description and collects findings; findings are explained from the rule catalog;
-- the results are aggregated into a report with a verdict, which an action summary groups by rule.
--
--   Boundary   internal/application/audit/statement_boundary.go: splitSQLStatements is
--              `split_sql_statements`; its loop is `run`, one turn of it `step_by`, the variables
--              of the loop the record `Scan`, and its states `Mode`.
--   Mask       internal/application/audit/mismatch.go: maskLiteralsAndComments is
--              `mask_literals_and_comments`, whose nested loops are one pass with a `Place`;
--              possiblePostgreSQLMismatch takes the compiled regular expressions as candidates.
--   Spec       internal/domain/spec: the statement as the modelled parts read it.
--   Rule       internal/domain/rule/rule.go and registry.go: findings, the registry as a record, its
--              methods as functions on it (RegisterStatement is `register_statement`).
--   Report     internal/domain/report/result.go (Aggregate) and, in Report/Actions,
--              action_summary.go (BuildActionSummary).
--   Audit      internal/application/audit/explain.go (Audit/Explain) and evaluate.go
--              (Audit/Evaluate, `evaluate_statements`), with Lookup of
--              internal/domain/rule/catalog/catalog.go.
--   QueryAccess  internal/domain/queryaccess/model.go; its Normalize is normalize.go of the same
--              folder. All else is of internal/application/queryaccess: Requirements is
--              requirements.go, Resolve is resolve.go (resolveMetadata is `resolve_metadata`), Effect
--              the types of contracts.go and identity_resolver.go with its Context (contexts of a
--              session), Batches (NormalizeEffectIdentityBatch is `normalize_batch`), Binding (what facts
--              must fit: validateCandidateFactBinding is `bind_facts`) and
--              Eligibility (phase1_effect_eligibility.go, count_integer_one_proof.go), Trust is
--              trust_policy.go (IsTrusted is `is_trusted`), its Pg17 the manifest in
--              trust_manifest_pg17.go (pg17Entries is `pg17_entries`), Profile profile.go, Builtin
--              builtin_semantic_manifest.go with Production, the entries of the four profiles, and
--              Gateway, builtin_semantic_gateway.go (proveBuiltinSemantics is `prove_builtin`). Proof
--              is resolveAndProveEffects of service.go (`resolve_and_prove`), its Orchestrate
--              proof_orchestration.go; State holds the barriers and the end of Service.Analyze, and
--              Service the whole of it (`analyze`).
--   Utf8       what unicode/utf8 and strings.TrimSpace do on bytes: the standard library as the
--              sources use it.
--   Prelude    shared notation and lemmas on lists, texts and sorting.
--
-- Conventions. A string is the list of its bytes in UTF-8 (`Text`). A Go string type with named
-- constants is a data type with these constants, the empty string and, where the code
-- distinguishes it, any other; in QueryAccess, one that is sorted or compared with free text is
-- `Text`. A nil slice and an empty one are the same list. A context is the sequence of the
-- answers its Err method gives. A float64 is its bit pattern. sort.Slice is a stable insertion
-- sort, which is one of the orders the library may return. A Go map is an association list in
-- the order of first insertion. An int that may be negative is an integer of Prelude/Ints. Errors are values of `Result`, of an option or of a sum. Numbers
-- are natural numbers: lengths and counts that a process can hold do not reach the bound of int.
--
-- Every loop is structural recursion on the rest of the input: the scanner of Boundary walks the
-- source byte by byte and skips what a turn has consumed. Only `decimal` has fuel: the number plus
-- one, which is never smaller than the number of its digits.
--
-- Not modelled: the parsers, whose syntax trees are third-party; rules of DDL and DML, which are
-- independent predicates on descriptions; metadata providers and online sessions, which are database
-- I/O; output encoders; the command line, HTTP and MCP interfaces.
-- Also not modelled: the audit service around these parts, the impact estimates, the policies and the
-- resolution of connections. Of the query access analysis, the extractors, the metadata of a database
-- and the effect resolver of a session are parameters, and so are strings.ToLower and
-- strings.EqualFold, and the hash of a manifest.
pub mod Prelude
pub mod Utf8
pub mod Spec
pub mod Boundary
pub mod Mask
pub mod Rule
pub mod Report
pub mod Audit
pub mod QueryAccess
