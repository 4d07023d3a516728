-- ===== src/QueryAccess/Trust/Pg17/Functions.antt =====
-- trust_manifest_pg17.go: the functions of pg17Entries, in the order of the source.
use delta_scope.Prelude.{ℕ, List, [], ◌∷◌, Text, codes}
use delta_scope.QueryAccess.Effect.{function_kind}
use delta_scope.QueryAccess.Trust.{TrustedEntry}

-- The fields that all functions share: an immutable one of pg_catalog.
abbrev function_entry : ℕ → List ℕ → ℕ → Text → Text → TrustedEntry
function_entry object operands result signature notes = record {
  kind = function_kind;
  aggregate_class = [];
  object_oid = object;
  namespace_oid = 11;
  operand_type_oids = operands;
  result_type_oid = result;
  implementation_oid = 0;
  volatility = codes "i";
  canonical_signature = signature;
  audit_notes = notes;
}

unfoldable pub pg17_aggregates : List TrustedEntry
pg17_aggregates =
    function_entry 2100 (20 ∷ []) 1700 (codes "pg_catalog.avg(20)")
      (codes "avg(bigint); immutable built-in aggregate; dependency is the input column")
    ∷ function_entry 2101 (23 ∷ []) 1700 (codes "pg_catalog.avg(23)")
        (codes "avg(integer); immutable built-in aggregate; dependency is the input column")
    ∷ function_entry 2102 (21 ∷ []) 1700 (codes "pg_catalog.avg(21)")
        (codes "avg(smallint); immutable built-in aggregate; dependency is the input column")
    ∷ function_entry 2103 (1700 ∷ []) 1700 (codes "pg_catalog.avg(1700)")
        (codes "avg(numeric); immutable built-in aggregate; dependency is the input column")
    ∷ function_entry 2104 (700 ∷ []) 701 (codes "pg_catalog.avg(700)")
        (codes "avg(real); immutable built-in aggregate; dependency is the input column")
    ∷ function_entry 2105 (701 ∷ []) 701 (codes "pg_catalog.avg(701)") (
        codes "avg(double precision); immutable built-in aggregate; dependency is the input column")
    ∷ function_entry 2106 (1186 ∷ []) 1186 (codes "pg_catalog.avg(1186)")
        (codes "avg(interval); immutable built-in aggregate; dependency is the input column")
    ∷ function_entry 2107 (20 ∷ []) 1700 (codes "pg_catalog.sum(20)")
        (codes "sum(bigint); immutable built-in aggregate; dependency is the input column")
    ∷ function_entry 2108 (23 ∷ []) 20 (codes "pg_catalog.sum(23)")
        (codes "sum(integer); immutable built-in aggregate; dependency is the input column")
    ∷ function_entry 2109 (21 ∷ []) 20 (codes "pg_catalog.sum(21)")
        (codes "sum(smallint); immutable built-in aggregate; dependency is the input column")
    ∷ function_entry 2110 (700 ∷ []) 700 (codes "pg_catalog.sum(700)")
        (codes "sum(real); immutable built-in aggregate; dependency is the input column")
    ∷ function_entry 2111 (701 ∷ []) 701 (codes "pg_catalog.sum(701)") (
        codes "sum(double precision); immutable built-in aggregate; dependency is the input column")
    ∷ function_entry 2112 (790 ∷ []) 790 (codes "pg_catalog.sum(790)")
        (codes "sum(money); immutable built-in aggregate; dependency is the input column")
    ∷ function_entry 2113 (1186 ∷ []) 1186 (codes "pg_catalog.sum(1186)")
        (codes "sum(interval); immutable built-in aggregate; dependency is the input column")
    ∷ function_entry 2114 (1700 ∷ []) 1700 (codes "pg_catalog.sum(1700)")
        (codes "sum(numeric); immutable built-in aggregate; dependency is the input column")
    ∷ []

unfoldable pub pg17_extremes_and_rankings : List TrustedEntry
pg17_extremes_and_rankings =
    function_entry 2115 (20 ∷ []) 20 (codes "pg_catalog.max(20)")
      (codes "max(bigint); immutable built-in aggregate; dependency is the input column")
    ∷ function_entry 2116 (23 ∷ []) 23 (codes "pg_catalog.max(23)")
        (codes "max(integer); immutable built-in aggregate; dependency is the input column")
    ∷ function_entry 2117 (21 ∷ []) 21 (codes "pg_catalog.max(21)")
        (codes "max(smallint); immutable built-in aggregate; dependency is the input column")
    ∷ function_entry 2119 (700 ∷ []) 700 (codes "pg_catalog.max(700)")
        (codes "max(real); immutable built-in aggregate; dependency is the input column")
    ∷ function_entry 2120 (701 ∷ []) 701 (codes "pg_catalog.max(701)") (
        codes "max(double precision); immutable built-in aggregate; dependency is the input column")
    ∷ function_entry 2122 (1082 ∷ []) 1082 (codes "pg_catalog.max(1082)")
        (codes "max(date); immutable built-in aggregate; dependency is the input column")
    ∷ function_entry 2126 (1114 ∷ []) 1114 (codes "pg_catalog.max(1114)")
        (codes "max(timestamp); immutable built-in aggregate; dependency is the input column")
    ∷ function_entry 2127 (1184 ∷ []) 1184 (codes "pg_catalog.max(1184)")
        (codes "max(timestamptz); immutable built-in aggregate; dependency is the input column")
    ∷ function_entry 2129 (25 ∷ []) 25 (codes "pg_catalog.max(25)")
        (codes "max(text); immutable built-in aggregate; dependency is the input column")
    ∷ function_entry 2130 (1700 ∷ []) 1700 (codes "pg_catalog.max(1700)")
        (codes "max(numeric); immutable built-in aggregate; dependency is the input column")
    ∷ function_entry 2131 (20 ∷ []) 20 (codes "pg_catalog.min(20)")
        (codes "min(bigint); immutable built-in aggregate; dependency is the input column")
    ∷ function_entry 2132 (23 ∷ []) 23 (codes "pg_catalog.min(23)")
        (codes "min(integer); immutable built-in aggregate; dependency is the input column")
    ∷ function_entry 2133 (21 ∷ []) 21 (codes "pg_catalog.min(21)")
        (codes "min(smallint); immutable built-in aggregate; dependency is the input column")
    ∷ function_entry 2135 (700 ∷ []) 700 (codes "pg_catalog.min(700)")
        (codes "min(real); immutable built-in aggregate; dependency is the input column")
    ∷ function_entry 2136 (701 ∷ []) 701 (codes "pg_catalog.min(701)") (
        codes "min(double precision); immutable built-in aggregate; dependency is the input column")
    ∷ function_entry 2138 (1082 ∷ []) 1082 (codes "pg_catalog.min(1082)")
        (codes "min(date); immutable built-in aggregate; dependency is the input column")
    ∷ function_entry 2142 (1114 ∷ []) 1114 (codes "pg_catalog.min(1114)")
        (codes "min(timestamp); immutable built-in aggregate; dependency is the input column")
    ∷ function_entry 2143 (1184 ∷ []) 1184 (codes "pg_catalog.min(1184)")
        (codes "min(timestamptz); immutable built-in aggregate; dependency is the input column")
    ∷ function_entry 2145 (25 ∷ []) 25 (codes "pg_catalog.min(25)")
        (codes "min(text); immutable built-in aggregate; dependency is the input column")
    ∷ function_entry 2146 (1700 ∷ []) 1700 (codes "pg_catalog.min(1700)")
        (codes "min(numeric); immutable built-in aggregate; dependency is the input column")
    ∷ function_entry 2244 (1042 ∷ []) 1042 (codes "pg_catalog.max(1042)")
        (codes "max(bpchar); immutable built-in aggregate; dependency is the input column")
    ∷ function_entry 2245 (1042 ∷ []) 1042 (codes "pg_catalog.min(1042)")
        (codes "min(bpchar); immutable built-in aggregate; dependency is the input column")
    ∷ function_entry 3100 [] 20 (codes "pg_catalog.row_number()")
        (codes "row_number window function; immutable ranking over query row sources")
    ∷ function_entry 3101 [] 20 (codes "pg_catalog.rank()")
        (codes "rank window function; immutable ranking over query row sources")
    ∷ function_entry 3102 [] 20 (codes "pg_catalog.dense_rank()")
        (codes "dense_rank window function; immutable ranking over query row sources")
    ∷ []

unfoldable pub pg17_counts : List TrustedEntry
pg17_counts =
    function_entry 2803 [] 20 (codes "pg_catalog.count()")
      (codes "count(*) aggregate; unique data dep = query row sources; no hidden reads")
    ∷ function_entry 2147 (2276 ∷ []) 20 (codes "pg_catalog.count(2276)") (
        codes
          "count(any) aggregate; catalog arg = any OID 2276; unique data dep = query row sources")
    ∷ []

unfoldable pub pg17_scalars : List TrustedEntry
pg17_scalars =
    function_entry 870 (25 ∷ []) 25 (codes "pg_catalog.lower(25)")
      (codes "lower(text); immutable builtin; dependency is the input column")
    ∷ function_entry 871 (25 ∷ []) 25 (codes "pg_catalog.upper(25)")
        (codes "upper(text); immutable builtin; dependency is the input column")
    ∷ function_entry 1317 (25 ∷ []) 23 (codes "pg_catalog.length(25)")
        (codes "length(text); immutable builtin; dependency is the input column")
    ∷ function_entry 1369 (25 ∷ []) 23 (codes "pg_catalog.character_length(25)")
        (codes "character_length(text); immutable builtin; dependency is the input column")
    ∷ function_entry 1381 (25 ∷ []) 23 (codes "pg_catalog.char_length(25)")
        (codes "char_length(text); immutable builtin; dependency is the input column")
    ∷ function_entry 1394 (700 ∷ []) 700 (codes "pg_catalog.abs(700)")
        (codes "abs(real); immutable builtin; dependency is the input column")
    ∷ function_entry 1395 (701 ∷ []) 701 (codes "pg_catalog.abs(701)")
        (codes "abs(double precision); immutable builtin; dependency is the input column")
    ∷ function_entry 1396 (20 ∷ []) 20 (codes "pg_catalog.abs(20)")
        (codes "abs(bigint); immutable builtin; dependency is the input column")
    ∷ function_entry 1397 (23 ∷ []) 23 (codes "pg_catalog.abs(23)")
        (codes "abs(integer); immutable builtin; dependency is the input column")
    ∷ function_entry 1398 (21 ∷ []) 21 (codes "pg_catalog.abs(21)")
        (codes "abs(smallint); immutable builtin; dependency is the input column")
    ∷ function_entry 1705 (1700 ∷ []) 1700 (codes "pg_catalog.abs(1700)")
        (codes "abs(numeric); immutable builtin; dependency is the input column")
    ∷ function_entry 1711 (1700 ∷ []) 1700 (codes "pg_catalog.ceil(1700)")
        (codes "ceil(numeric); immutable builtin; dependency is the input column")
    ∷ function_entry 1712 (1700 ∷ []) 1700 (codes "pg_catalog.floor(1700)")
        (codes "floor(numeric); immutable builtin; dependency is the input column")
    ∷ function_entry 2167 (1700 ∷ []) 1700 (codes "pg_catalog.ceiling(1700)")
        (codes "ceiling(numeric); immutable builtin; dependency is the input column")
    ∷ function_entry 2308 (701 ∷ []) 701 (codes "pg_catalog.ceil(701)")
        (codes "ceil(double precision); immutable builtin; dependency is the input column")
    ∷ function_entry 2309 (701 ∷ []) 701 (codes "pg_catalog.floor(701)")
        (codes "floor(double precision); immutable builtin; dependency is the input column")
    ∷ function_entry 2320 (701 ∷ []) 701 (codes "pg_catalog.ceiling(701)")
        (codes "ceiling(double precision); immutable builtin; dependency is the input column")
    ∷ []

unfoldable pub pg17_null_handling : List TrustedEntry
pg17_null_handling =
    function_entry 840 (2276 ∷ []) 2276 (codes "pg_catalog.coalesce(2276)") (
      codes
        "coalesce(variadic any); immutable builtin; polymorphic variadic; dependency is the input columns")
    ∷ function_entry 1706 (2276 ∷ 2276 ∷ []) 2276 (codes "pg_catalog.nullif(2276,2276)") (
        codes
          "nullif(any, any); immutable builtin; polymorphic 2-arg; dependency is the input columns")
    ∷ []
