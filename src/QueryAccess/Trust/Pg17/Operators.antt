-- ===== src/QueryAccess/Trust/Pg17/Operators.antt =====
-- trust_manifest_pg17.go: the comparison operators of pg17Entries, in the order of the source.
use delta_scope.Prelude.{ℕ, List, [], ◌∷◌, Text, codes}
use delta_scope.QueryAccess.Effect.{operator_kind}
use delta_scope.QueryAccess.Trust.{TrustedEntry}

-- The fields that all operators share: an immutable one of pg_catalog, with a Boolean result.
abbrev operator_entry : ℕ → List ℕ → ℕ → Text → Text → TrustedEntry
operator_entry object operands implementation signature notes = record {
  kind = operator_kind;
  aggregate_class = [];
  object_oid = object;
  namespace_oid = 11;
  operand_type_oids = operands;
  result_type_oid = 16;
  implementation_oid = implementation;
  volatility = codes "i";
  canonical_signature = signature;
  audit_notes = notes;
}

unfoldable pub pg17_bool_comparisons : List TrustedEntry
pg17_bool_comparisons =
    operator_entry 91 (16 ∷ 16 ∷ []) 60 (codes "pg_catalog.=(16,16)")
      (codes "bool = bool; impl booleq; pure C builtin")
    ∷ operator_entry 92 (16 ∷ 16 ∷ []) 61 (codes "pg_catalog.<>(16,16)")
        (codes "bool <> bool; impl boolne; pure C builtin")
    ∷ operator_entry 58 (16 ∷ 16 ∷ []) 58 (codes "pg_catalog.<(16,16)")
        (codes "bool < bool; impl boollt; pure C builtin")
    ∷ operator_entry 59 (16 ∷ 16 ∷ []) 59 (codes "pg_catalog.>(16,16)")
        (codes "bool > bool; impl boolgt; pure C builtin")
    ∷ operator_entry 1694 (16 ∷ 16 ∷ []) 1694 (codes "pg_catalog.<=(16,16)")
        (codes "bool <= bool; impl boolle; pure C builtin")
    ∷ operator_entry 1695 (16 ∷ 16 ∷ []) 1695 (codes "pg_catalog.>=(16,16)")
        (codes "bool >= bool; impl boolge; pure C builtin")
    ∷ []

unfoldable pub pg17_int2_comparisons : List TrustedEntry
pg17_int2_comparisons =
    operator_entry 412 (21 ∷ 21 ∷ []) 77 (codes "pg_catalog.=(21,21)")
      (codes "int2 = int2; impl int2eq; pure C builtin")
    ∷ operator_entry 414 (21 ∷ 21 ∷ []) 79 (codes "pg_catalog.<>(21,21)")
        (codes "int2 <> int2; impl int2ne; pure C builtin")
    ∷ operator_entry 410 (21 ∷ 21 ∷ []) 76 (codes "pg_catalog.<(21,21)")
        (codes "int2 < int2; impl int2lt; pure C builtin")
    ∷ operator_entry 411 (21 ∷ 21 ∷ []) 78 (codes "pg_catalog.>(21,21)")
        (codes "int2 > int2; impl int2gt; pure C builtin")
    ∷ operator_entry 413 (21 ∷ 21 ∷ []) 80 (codes "pg_catalog.<=(21,21)")
        (codes "int2 <= int2; impl int2le; pure C builtin")
    ∷ operator_entry 415 (21 ∷ 21 ∷ []) 81 (codes "pg_catalog.>=(21,21)")
        (codes "int2 >= int2; impl int2ge; pure C builtin")
    ∷ []

unfoldable pub pg17_int4_comparisons : List TrustedEntry
pg17_int4_comparisons =
    operator_entry 96 (23 ∷ 23 ∷ []) 65 (codes "pg_catalog.=(23,23)")
      (codes "int4 = int4; impl int4eq; pure C builtin")
    ∷ operator_entry 518 (23 ∷ 23 ∷ []) 1852 (codes "pg_catalog.<>(23,23)")
        (codes "int4 <> int4; impl int4ne; pure C builtin")
    ∷ operator_entry 97 (23 ∷ 23 ∷ []) 66 (codes "pg_catalog.<(23,23)")
        (codes "int4 < int4; impl int4lt; pure C builtin")
    ∷ operator_entry 520 (23 ∷ 23 ∷ []) 67 (codes "pg_catalog.>(23,23)")
        (codes "int4 > int4; impl int4gt; pure C builtin")
    ∷ operator_entry 521 (23 ∷ 23 ∷ []) 1850 (codes "pg_catalog.<=(23,23)")
        (codes "int4 <= int4; impl int4le; pure C builtin")
    ∷ operator_entry 522 (23 ∷ 23 ∷ []) 1851 (codes "pg_catalog.>=(23,23)")
        (codes "int4 >= int4; impl int4ge; pure C builtin")
    ∷ []

unfoldable pub pg17_int8_comparisons : List TrustedEntry
pg17_int8_comparisons =
    operator_entry 410 (20 ∷ 20 ∷ []) 467 (codes "pg_catalog.=(20,20)")
      (codes "int8 = int8; impl int8eq; pure C builtin")
    ∷ operator_entry 414 (20 ∷ 20 ∷ []) 469 (codes "pg_catalog.<>(20,20)")
        (codes "int8 <> int8; impl int8ne; pure C builtin")
    ∷ operator_entry 412 (20 ∷ 20 ∷ []) 466 (codes "pg_catalog.<(20,20)")
        (codes "int8 < int8; impl int8lt; pure C builtin")
    ∷ operator_entry 413 (20 ∷ 20 ∷ []) 468 (codes "pg_catalog.>(20,20)")
        (codes "int8 > int8; impl int8gt; pure C builtin")
    ∷ operator_entry 842 (20 ∷ 20 ∷ []) 1854 (codes "pg_catalog.<=(20,20)")
        (codes "int8 <= int8; impl int8le; pure C builtin")
    ∷ operator_entry 843 (20 ∷ 20 ∷ []) 1855 (codes "pg_catalog.>=(20,20)")
        (codes "int8 >= int8; impl int8ge; pure C builtin")
    ∷ []

unfoldable pub pg17_float4_comparisons : List TrustedEntry
pg17_float4_comparisons =
    operator_entry 622 (700 ∷ 700 ∷ []) 631 (codes "pg_catalog.=(700,700)")
      (codes "float4 = float4; impl float4eq; pure C builtin")
    ∷ operator_entry 624 (700 ∷ 700 ∷ []) 633 (codes "pg_catalog.<>(700,700)")
        (codes "float4 <> float4; impl float4ne; pure C builtin")
    ∷ operator_entry 620 (700 ∷ 700 ∷ []) 630 (codes "pg_catalog.<(700,700)")
        (codes "float4 < float4; impl float4lt; pure C builtin")
    ∷ operator_entry 621 (700 ∷ 700 ∷ []) 632 (codes "pg_catalog.>(700,700)")
        (codes "float4 > float4; impl float4gt; pure C builtin")
    ∷ operator_entry 623 (700 ∷ 700 ∷ []) 634 (codes "pg_catalog.<=(700,700)")
        (codes "float4 <= float4; impl float4le; pure C builtin")
    ∷ operator_entry 625 (700 ∷ 700 ∷ []) 635 (codes "pg_catalog.>=(700,700)")
        (codes "float4 >= float4; impl float4ge; pure C builtin")
    ∷ []

unfoldable pub pg17_float8_comparisons : List TrustedEntry
pg17_float8_comparisons =
    operator_entry 672 (701 ∷ 701 ∷ []) 670 (codes "pg_catalog.=(701,701)")
      (codes "float8 = float8; impl float8eq; pure C builtin")
    ∷ operator_entry 673 (701 ∷ 701 ∷ []) 671 (codes "pg_catalog.<>(701,701)")
        (codes "float8 <> float8; impl float8ne; pure C builtin")
    ∷ operator_entry 674 (701 ∷ 701 ∷ []) 668 (codes "pg_catalog.<(701,701)")
        (codes "float8 < float8; impl float8lt; pure C builtin")
    ∷ operator_entry 675 (701 ∷ 701 ∷ []) 669 (codes "pg_catalog.>(701,701)")
        (codes "float8 > float8; impl float8gt; pure C builtin")
    ∷ operator_entry 676 (701 ∷ 701 ∷ []) 672 (codes "pg_catalog.<=(701,701)")
        (codes "float8 <= float8; impl float8le; pure C builtin")
    ∷ operator_entry 677 (701 ∷ 701 ∷ []) 673 (codes "pg_catalog.>=(701,701)")
        (codes "float8 >= float8; impl float8ge; pure C builtin")
    ∷ []

unfoldable pub pg17_numeric_comparisons : List TrustedEntry
pg17_numeric_comparisons =
    operator_entry 1752 (1700 ∷ 1700 ∷ []) 1718 (codes "pg_catalog.=(1700,1700)")
      (codes "numeric = numeric; impl numeric_eq; pure C builtin")
    ∷ operator_entry 1754 (1700 ∷ 1700 ∷ []) 1720 (codes "pg_catalog.<>(1700,1700)")
        (codes "numeric <> numeric; impl numeric_ne; pure C builtin")
    ∷ operator_entry 1756 (1700 ∷ 1700 ∷ []) 1716 (codes "pg_catalog.<(1700,1700)")
        (codes "numeric < numeric; impl numeric_lt; pure C builtin")
    ∷ operator_entry 1753 (1700 ∷ 1700 ∷ []) 1719 (codes "pg_catalog.>(1700,1700)")
        (codes "numeric > numeric; impl numeric_gt; pure C builtin")
    ∷ operator_entry 1755 (1700 ∷ 1700 ∷ []) 1721 (codes "pg_catalog.<=(1700,1700)")
        (codes "numeric <= numeric; impl numeric_le; pure C builtin")
    ∷ operator_entry 1757 (1700 ∷ 1700 ∷ []) 1722 (codes "pg_catalog.>=(1700,1700)")
        (codes "numeric >= numeric; impl numeric_ge; pure C builtin")
    ∷ []

unfoldable pub pg17_text_comparisons : List TrustedEntry
pg17_text_comparisons =
    operator_entry 98 (25 ∷ 25 ∷ []) 67 (codes "pg_catalog.=(25,25)")
      (codes "text = text; impl texteq; pure C builtin")
    ∷ operator_entry 531 (25 ∷ 25 ∷ []) 86 (codes "pg_catalog.<>(25,25)")
        (codes "text <> text; impl textne; pure C builtin")
    ∷ operator_entry 664 (25 ∷ 25 ∷ []) 87 (codes "pg_catalog.<(25,25)")
        (codes "text < text; impl text_lt; pure C builtin")
    ∷ operator_entry 665 (25 ∷ 25 ∷ []) 88 (codes "pg_catalog.>(25,25)")
        (codes "text > text; impl text_gt; pure C builtin")
    ∷ operator_entry 666 (25 ∷ 25 ∷ []) 89 (codes "pg_catalog.<=(25,25)")
        (codes "text <= text; impl text_le; pure C builtin")
    ∷ operator_entry 667 (25 ∷ 25 ∷ []) 90 (codes "pg_catalog.>=(25,25)")
        (codes "text >= text; impl text_ge; pure C builtin")
    ∷ []

unfoldable pub pg17_oid_comparisons : List TrustedEntry
pg17_oid_comparisons =
    operator_entry 608 (26 ∷ 26 ∷ []) 1856 (codes "pg_catalog.=(26,26)")
      (codes "oid = oid; impl oideq; pure C builtin")
    ∷ operator_entry 609 (26 ∷ 26 ∷ []) 1857 (codes "pg_catalog.<>(26,26)")
        (codes "oid <> oid; impl oidne; pure C builtin")
    ∷ operator_entry 604 (26 ∷ 26 ∷ []) 1858 (codes "pg_catalog.<(26,26)")
        (codes "oid < oid; impl oidlt; pure C builtin")
    ∷ operator_entry 605 (26 ∷ 26 ∷ []) 1859 (codes "pg_catalog.>(26,26)")
        (codes "oid > oid; impl oidgt; pure C builtin")
    ∷ operator_entry 606 (26 ∷ 26 ∷ []) 1860 (codes "pg_catalog.<=(26,26)")
        (codes "oid <= oid; impl oidle; pure C builtin")
    ∷ operator_entry 607 (26 ∷ 26 ∷ []) 1861 (codes "pg_catalog.>=(26,26)")
        (codes "oid >= oid; impl oidge; pure C builtin")
    ∷ []
