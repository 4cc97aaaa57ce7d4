-- ===== src/Commands/Labels.antt =====
-- internal/serialization/serialization_consts.go: the labels of the types.
use hazelcast_commandline_cl.Prelude.{
  ℕ, zero, suc, ◌/◌, ◌%◌, ◌+◌, Bool, false, List, [], ◌∷◌, ◌++◌, Text, codes, ◌==◌, if◌then◌else◌,
}
use hazelcast_commandline_cl.Prelude.Int.{ℤ, pos, negsuc}

abbrev pub same_int : ℤ → ℤ → Bool
same_int (pos a) (pos b) = a == b
same_int (negsuc a) (negsuc b) = a == b
same_int _ _ = false

-- The decimal digits of a number that has at most `fuel` more of them, before `rest`.
abbrev pub decimal_onto : ℕ → ℕ → Text → Text
decimal_onto zero n rest = rest
decimal_onto (suc fuel) n rest =
    let more = decimal_onto fuel (n / 10) ((b'0' + n % 10) ∷ rest) in
    if n / 10 == 0 then (b'0' + n % 10) ∷ rest else more

-- %d of a 64-bit number, which has at most twenty digits
unfoldable pub format_int : ℤ → Text
format_int (pos n) = decimal_onto 20 n []
format_int (negsuc n) = b'-' ∷ decimal_onto 20 (suc n) []

unfoldable pub type_labels : List (ℤ × Text)
type_labels =
    (pos 0, codes "NIL")
    ∷ (negsuc 0, codes "PORTABLE")
    ∷ (negsuc 1, codes "DATA_SERIALIZABLE")
    ∷ (negsuc 2, codes "BYTE")
    ∷ (negsuc 3, codes "BOOL")
    ∷ (negsuc 4, codes "UINT16")
    ∷ (negsuc 5, codes "INT16")
    ∷ (negsuc 6, codes "INT32")
    ∷ (negsuc 7, codes "INT64")
    ∷ (negsuc 8, codes "FLOAT32")
    ∷ (negsuc 9, codes "FLOAT64")
    ∷ (negsuc 10, codes "STRING")
    ∷ (negsuc 11, codes "BYTE_ARRAY")
    ∷ (negsuc 12, codes "BOOL_ARRAY")
    ∷ (negsuc 13, codes "UINT16_ARRAY")
    ∷ (negsuc 14, codes "INT16_ARRAY")
    ∷ (negsuc 15, codes "INT32_ARRAY")
    ∷ (negsuc 16, codes "INT64_ARRAY")
    ∷ (negsuc 17, codes "FLOAT32_ARRAY")
    ∷ (negsuc 18, codes "FLOAT64_ARRAY")
    ∷ (negsuc 19, codes "STRING_ARRAY")
    ∷ (negsuc 20, codes "UUID")
    ∷ (negsuc 21, codes "SIMPLE_ENTRY")
    ∷ (negsuc 22, codes "SIMPLE_IMMUTABLE_ENTRY")
    ∷ (negsuc 23, codes "JAVA_CLASS")
    ∷ (negsuc 24, codes "JAVA_DATE")
    ∷ (negsuc 25, codes "BIG_INTEGER")
    ∷ (negsuc 26, codes "DECIMAL")
    ∷ (negsuc 27, codes "JAVA_ARRAY")
    ∷ (negsuc 28, codes "JAVA_ARRAY_LIST")
    ∷ (negsuc 29, codes "JAVA_LINKED_LIST")
    ∷ (negsuc 30, codes "JAVA_COPY_ON_WRITE_ARRAY_LIST")
    ∷ (negsuc 31, codes "JAVA_HASHMAP")
    ∷ (negsuc 32, codes "JAVA_CONCURRENT_SKIP_LIST_MAP")
    ∷ (negsuc 33, codes "JAVA_CONCURRENT_HASH_MAP")
    ∷ (negsuc 34, codes "JAVA_LINKED_HASH_MAP")
    ∷ (negsuc 35, codes "JAVA_TREE_MAP")
    ∷ (negsuc 36, codes "JAVA_HASH_SET")
    ∷ (negsuc 37, codes "JAVA_TREE_SET")
    ∷ (negsuc 38, codes "JAVA_LINKED_HASH_SET")
    ∷ (negsuc 39, codes "JAVA_COPY_ON_WRITE_ARRAY_SET")
    ∷ (negsuc 40, codes "JAVA_CONCURRENT_SKIP_LIST_SET")
    ∷ (negsuc 41, codes "JAVA_ARRAY_DEQUE")
    ∷ (negsuc 42, codes "JAVA_LINKED_BLOCKING_QUEUE")
    ∷ (negsuc 43, codes "JAVA_ARRAY_BLOCKING_QUEUE")
    ∷ (negsuc 44, codes "JAVA_PRIORITY_BLOCKING_QUEUE")
    ∷ (negsuc 45, codes "JAVA_DELAY_QUEUE")
    ∷ (negsuc 46, codes "JAVA_SYNCHRONOUS_QUEUE")
    ∷ (negsuc 47, codes "JAVA_LINKED_TRANSFER_QUEUE")
    ∷ (negsuc 48, codes "JAVA_PRIORITY_QUEUE")
    ∷ (negsuc 49, codes "JAVA_OPTIONAL")
    ∷ (negsuc 50, codes "LOCALDATE")
    ∷ (negsuc 51, codes "LOCALTIME")
    ∷ (negsuc 52, codes "LOCALDATETIME")
    ∷ (negsuc 53, codes "OFFSETDATETIME")
    ∷ (negsuc 54, codes "COMPACT")
    ∷ (negsuc 55, codes "COMPACT_WITH_SCHEMA")
    ∷ (negsuc 99, codes "JAVA_SERIALIZABLE")
    ∷ (negsuc 100, codes "JAVA_EXTERNALIZABLE")
    ∷ (negsuc 109, codes "NET_CLR")
    ∷ (negsuc 119, codes "PYTHON_PICKLE")
    ∷ (negsuc 129, codes "JSON")
    ∷ (negsuc 139, codes "GO_GOB_SERIALIZATION")
    ∷ (negsuc 199, codes "HIBERNATE3_CACHE_KEY")
    ∷ (negsuc 200, codes "HIBERNATE3_CACHE_ENTRY")
    ∷ (negsuc 201, codes "HIBERNATE4_CACHE_KEY")
    ∷ (negsuc 202, codes "HIBERNATE4_CACHE_ENTRY")
    ∷ (negsuc 203, codes "HIBERNATE5_CACHE_KEY")
    ∷ (negsuc 204, codes "HIBERNATE5_CACHE_ENTRY")
    ∷ (negsuc 205, codes "HIBERNATE5_NATURAL_ID_KEY")
    ∷ (negsuc 299, codes "JET_SERIALIZER_FIRST")
    ∷ (negsuc 398, codes "JET_SERIALIZER_LAST")
    ∷ (negsuc 499, codes "DECIMAL_ARRAY")
    ∷ (negsuc 500, codes "LOCALTIME_ARRAY")
    ∷ (negsuc 501, codes "LOCALDATE_ARRAY")
    ∷ (negsuc 502, codes "LOCALDATETIME_ARRAY")
    ∷ (negsuc 503, codes "OFFSETDATETIME_ARRAY")
    ∷ (negsuc 504, codes "COMPACT_ARRAY")
    ∷ (negsuc 507, codes "PORTABLE_ARRAY")
    ∷ (negsuc 2021, codes "UNKNOWN")
    ∷ (negsuc 2022, codes ">")
    ∷ (negsuc 2023, codes "?")
    ∷ []

abbrev pub label_in : ℤ → List (ℤ × Text) → Text
label_in t [] = codes "UNKNOWN_TYPE:" ++ format_int t
label_in t ((type, label) ∷ labels) =
    let rest = label_in t labels in if same_int type t then label else rest

-- TypeToLabel
unfoldable pub type_to_label : ℤ → Text
unfolding type_labels format_int
type_to_label t = label_in t type_labels

abbrev pub type_bool : ℤ
type_bool = negsuc 3

abbrev pub type_int32 : ℤ
type_int32 = negsuc 6

abbrev pub type_string : ℤ
type_string = negsuc 10
