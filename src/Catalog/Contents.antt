-- ===== src/Catalog/Contents.antt =====
-- internal/proxy/postgresql/catalog.go: the rows that the catalog has of itself, and the names of the
-- columns of every table.
use agentx_proxy.Prelude.{ℕ, ◌-◌, ◌^◌, true, false, List, [], ◌∷◌, Bytes, codes}
use agentx_proxy.Pgwire.Backend.{Value, null, text, signed, boolean, format_uint}

-- A whole number among the floats of an answer.
abbrev real : ℕ → Value
real n = Value.float (format_uint n) (format_uint n)

unfoldable pub pg_type_columns : List Bytes
pg_type_columns =
    codes "oid"
    ∷ codes "typname"
    ∷ codes "typnamespace"
    ∷ codes "typtype"
    ∷ codes "typcategory"
    ∷ codes "typrelid"
    ∷ codes "typelem"
    ∷ codes "typarray"
    ∷ codes "typinput"
    ∷ codes "typoutput"
    ∷ codes "typreceive"
    ∷ codes "typsend"
    ∷ codes "typmod_in"
    ∷ codes "typmod_out"
    ∷ codes "typalign"
    ∷ codes "typstorage"
    ∷ codes "typnotnull"
    ∷ codes "typbasetype"
    ∷ codes "typtypmod"
    ∷ codes "typndims"
    ∷ codes "typcollation"
    ∷ codes "typdefaultbin"
    ∷ codes "typdefault"
    ∷ codes "typacl"
    ∷ []

unfoldable pub pg_class_columns : List Bytes
pg_class_columns =
    codes "oid"
    ∷ codes "relname"
    ∷ codes "relnamespace"
    ∷ codes "reltype"
    ∷ codes "reloftype"
    ∷ codes "relowner"
    ∷ codes "relam"
    ∷ codes "relfilenode"
    ∷ codes "reltablespace"
    ∷ codes "relpages"
    ∷ codes "reltuples"
    ∷ codes "relallvisible"
    ∷ codes "reltoastrelid"
    ∷ codes "relhasindex"
    ∷ codes "relisshared"
    ∷ codes "relpersistence"
    ∷ codes "relkind"
    ∷ codes "relnatts"
    ∷ codes "relchecks"
    ∷ codes "relhasoids"
    ∷ codes "relhaspkey"
    ∷ codes "relhasrules"
    ∷ codes "relhastriggers"
    ∷ codes "relhassubclass"
    ∷ codes "relrowsecurity"
    ∷ codes "relforcerowsecurity"
    ∷ codes "relispopulated"
    ∷ codes "relreplident"
    ∷ codes "relispartition"
    ∷ []

unfoldable pub pg_attribute_columns : List Bytes
pg_attribute_columns =
    codes "attrelid"
    ∷ codes "attname"
    ∷ codes "atttypid"
    ∷ codes "attstattarget"
    ∷ codes "attlen"
    ∷ codes "attnum"
    ∷ codes "attndims"
    ∷ codes "attcacheoff"
    ∷ codes "atttypmod"
    ∷ codes "attbyval"
    ∷ codes "attstorage"
    ∷ codes "attalign"
    ∷ codes "attnotnull"
    ∷ codes "atthasdef"
    ∷ codes "atthasmissing"
    ∷ codes "attidentity"
    ∷ codes "attgenerated"
    ∷ codes "attisdropped"
    ∷ codes "attislocal"
    ∷ codes "attinhcount"
    ∷ codes "attcollation"
    ∷ codes "attacl"
    ∷ codes "attoptions"
    ∷ codes "attfdwoptions"
    ∷ []

unfoldable pub pg_namespace_columns : List Bytes
pg_namespace_columns = codes "oid" ∷ codes "nspname" ∷ codes "nspowner" ∷ codes "nspacl" ∷ []

unfoldable pub pg_index_columns : List Bytes
pg_index_columns =
    codes "indexrelid"
    ∷ codes "indrelid"
    ∷ codes "indnatts"
    ∷ codes "indnkeyatts"
    ∷ codes "indisunique"
    ∷ codes "indisprimary"
    ∷ codes "indisexclusion"
    ∷ codes "indimmediate"
    ∷ codes "indisclustered"
    ∷ codes "indisvalid"
    ∷ codes "indcheckxmin"
    ∷ codes "indisready"
    ∷ codes "indislive"
    ∷ codes "indisreplident"
    ∷ codes "indkey"
    ∷ codes "indcollation"
    ∷ codes "indclass"
    ∷ codes "indoption"
    ∷ codes "indexprs"
    ∷ codes "indpred"
    ∷ []

unfoldable pub pg_proc_columns : List Bytes
pg_proc_columns =
    codes "oid"
    ∷ codes "proname"
    ∷ codes "pronamespace"
    ∷ codes "proowner"
    ∷ codes "prolang"
    ∷ codes "procost"
    ∷ codes "prorows"
    ∷ codes "provariadic"
    ∷ codes "prosupport"
    ∷ codes "prokind"
    ∷ codes "prosecdef"
    ∷ codes "proleakproof"
    ∷ codes "proisstrict"
    ∷ codes "proretset"
    ∷ codes "provolatile"
    ∷ codes "proparallel"
    ∷ codes "pronargs"
    ∷ codes "pronargdefaults"
    ∷ codes "prorettype"
    ∷ codes "proargtypes"
    ∷ codes "proallargtypes"
    ∷ codes "proargmodes"
    ∷ codes "proargnames"
    ∷ codes "proargdefaults"
    ∷ codes "protrftypes"
    ∷ codes "prosrc"
    ∷ codes "probin"
    ∷ codes "proconfig"
    ∷ codes "proacl"
    ∷ []

unfoldable pub pg_enum_columns : List Bytes
pg_enum_columns = codes "oid" ∷ codes "enumtypid" ∷ codes "enumsortorder" ∷ codes "enumlabel" ∷ []

unfoldable pub pg_constraint_columns : List Bytes
pg_constraint_columns =
    codes "oid"
    ∷ codes "conname"
    ∷ codes "connamespace"
    ∷ codes "contype"
    ∷ codes "condeferrable"
    ∷ codes "condeferred"
    ∷ codes "convalidated"
    ∷ codes "conrelid"
    ∷ codes "contypid"
    ∷ codes "conindid"
    ∷ codes "conparentid"
    ∷ codes "confrelid"
    ∷ codes "confupdtype"
    ∷ codes "confdeltype"
    ∷ codes "confmatchtype"
    ∷ codes "conislocal"
    ∷ codes "coninhcount"
    ∷ codes "connoinherit"
    ∷ codes "conkey"
    ∷ codes "confkey"
    ∷ codes "conpfeqop"
    ∷ codes "conppeqop"
    ∷ codes "conffeqop"
    ∷ codes "conexclop"
    ∷ codes "conbin"
    ∷ []

unfoldable pub pg_description_columns : List Bytes
pg_description_columns =
    codes "objoid" ∷ codes "classoid" ∷ codes "objsubid" ∷ codes "description" ∷ []

unfoldable pub pg_database_columns : List Bytes
pg_database_columns =
    codes "oid"
    ∷ codes "datname"
    ∷ codes "datdba"
    ∷ codes "encoding"
    ∷ codes "datcollate"
    ∷ codes "datctype"
    ∷ codes "datistemplate"
    ∷ codes "datallowconn"
    ∷ codes "datconnlimit"
    ∷ codes "datfrozenxid"
    ∷ codes "datminmxid"
    ∷ codes "dattablespace"
    ∷ []

unfoldable pub pg_extension_columns : List Bytes
pg_extension_columns =
    codes "oid"
    ∷ codes "extname"
    ∷ codes "extowner"
    ∷ codes "extnamespace"
    ∷ codes "extrelocatable"
    ∷ codes "extversion"
    ∷ codes "extconfig"
    ∷ codes "extcondition"
    ∷ []

-- A type, by what its row does not share with the others: the OID, the name, the category, the column
-- typrelid, the OID of its arrays, its input and output, its alignment and its storage.
abbrev type_row : ℕ → Bytes → Bytes → ℕ → ℕ → Bytes → Bytes → Bytes → Bytes → List Value
type_row oid name category relid array input output align storage =
    signed oid
    ∷ text name
    ∷ signed 11
    ∷ text (codes "b")
    ∷ text category
    ∷ signed relid
    ∷ signed 0
    ∷ signed array
    ∷ text input
    ∷ text output
    ∷ text (codes "-")
    ∷ text (codes "-")
    ∷ text (codes "-")
    ∷ text (codes "-")
    ∷ text align
    ∷ text storage
    ∷ boolean false
    ∷ signed 0
    ∷ signed (2 ^ 64 - 1)
    ∷ signed 0
    ∷ signed 0
    ∷ null
    ∷ null
    ∷ null
    ∷ []

unfoldable pub pg_types : List (List Value)
pg_types =
    type_row 16 (codes "bool") (codes "B") 0 1000 (codes "boolin") (codes "boolout") (codes "c")
      (codes "p")
    ∷ type_row 17 (codes "bytea") (codes "U") 0 1001 (codes "byteain") (codes "byteaout")
        (codes "i") (codes "x")
    ∷ type_row 18 (codes "char") (codes "C") 0 1002 (codes "charin") (codes "charout") (codes "c")
        (codes "p")
    ∷ type_row 19 (codes "name") (codes "C") 0 1003 (codes "namein") (codes "nameout") (codes "c")
        (codes "p")
    ∷ type_row 20 (codes "int8") (codes "N") 0 1016 (codes "int8in") (codes "int8out") (codes "d")
        (codes "p")
    ∷ type_row 21 (codes "int2") (codes "N") 0 1005 (codes "int2in") (codes "int2out") (codes "s")
        (codes "p")
    ∷ type_row 23 (codes "int4") (codes "N") 0 1007 (codes "int4in") (codes "int4out") (codes "i")
        (codes "p")
    ∷ type_row 25 (codes "text") (codes "S") 0 1009 (codes "textin") (codes "textout") (codes "i")
        (codes "x")
    ∷ type_row 26 (codes "oid") (codes "N") 0 1028 (codes "oidin") (codes "oidout") (codes "i")
        (codes "p")
    ∷ type_row 700 (codes "float4") (codes "N") 0 1021 (codes "float4in") (codes "float4out")
        (codes "i") (codes "p")
    ∷ type_row 701 (codes "float8") (codes "N") 0 1022 (codes "float8in") (codes "float8out")
        (codes "d") (codes "p")
    ∷ type_row 1043 (codes "varchar") (codes "C") 0 1015 (codes "varcharin") (codes "varcharout")
        (codes "i") (codes "x")
    ∷ type_row 1082 (codes "date") (codes "D") 0 1182 (codes "date_in") (codes "date_out")
        (codes "d") (codes "p")
    ∷ type_row 1083 (codes "time") (codes "D") 0 1183 (codes "time_in") (codes "time_out")
        (codes "d") (codes "p")
    ∷ type_row 1114 (codes "timestamp") (codes "D") 0 1115 (codes "timestamp_in")
        (codes "timestamp_out") (codes "d") (codes "p")
    ∷ type_row 1184 (codes "timestamptz") (codes "D") 0 1185 (codes "timestamptz_in")
        (codes "timestamptz_out") (codes "d") (codes "p")
    ∷ type_row 1700 (codes "numeric") (codes "N") 0 1231 (codes "numeric_in") (codes "numeric_out")
        (codes "m") (codes "m")
    ∷ type_row 2950 (codes "uuid") (codes "U") 0 2951 (codes "uuid_in") (codes "uuid_out")
        (codes "c") (codes "p")
    ∷ type_row 3802 (codes "jsonb") (codes "U") 0 3807 (codes "jsonb_in") (codes "jsonb_out")
        (codes "i") (codes "m")
    ∷ type_row 114 (codes "json") (codes "U") 0 199 (codes "json_in") (codes "json_out") (codes "i")
        (codes "m")
    ∷ type_row 2951 (codes "_uuid") (codes "A") 2950 0 (codes "array_in") (codes "array_out")
        (codes "i") (codes "m")
    ∷ type_row 1009 (codes "_text") (codes "A") 25 0 (codes "array_in") (codes "array_out")
        (codes "i") (codes "x")
    ∷ type_row 1007 (codes "_int4") (codes "A") 23 0 (codes "array_in") (codes "array_out")
        (codes "i") (codes "m")
    ∷ type_row 1016 (codes "_int8") (codes "A") 20 0 (codes "array_in") (codes "array_out")
        (codes "d") (codes "m")
    ∷ type_row 1000 (codes "_bool") (codes "A") 16 0 (codes "array_in") (codes "array_out")
        (codes "i") (codes "m")
    ∷ type_row 1005 (codes "_int2") (codes "A") 21 0 (codes "array_in") (codes "array_out")
        (codes "s") (codes "m")
    ∷ type_row 1002 (codes "_char") (codes "A") 18 0 (codes "array_in") (codes "array_out")
        (codes "c") (codes "p")
    ∷ []

abbrev enum_row : ℕ → ℕ → ℕ → Bytes → List Value
enum_row oid type order label = signed oid ∷ signed type ∷ real order ∷ text label ∷ []

unfoldable pub pg_enums : List (List Value)
pg_enums =
    enum_row 50001 40001 1 (codes "OWNER")
    ∷ enum_row 50002 40001 2 (codes "ADMIN")
    ∷ enum_row 50003 40001 3 (codes "MEMBER")
    ∷ enum_row 50004 40001 4 (codes "VIEWER")
    ∷ enum_row 50005 40001 5 (codes "NONE")
    ∷ enum_row 50011 40002 1 (codes "ORGANIZATION")
    ∷ enum_row 50012 40002 2 (codes "PROJECT")
    ∷ enum_row 50021 40003 1 (codes "ACTIVE")
    ∷ enum_row 50022 40003 2 (codes "ARCHIVED")
    ∷ enum_row 50031 40004 1 (codes "TRACE")
    ∷ enum_row 50032 40004 2 (codes "OBSERVATION")
    ∷ enum_row 50033 40004 3 (codes "SESSION")
    ∷ enum_row 50034 40004 4 (codes "PROMPT")
    ∷ enum_row 50041 40005 1 (codes "EMAIL")
    ∷ enum_row 50046 40006 1 (codes "COMMENT_MENTION")
    ∷ enum_row 50051 40007 1 (codes "WEBHOOK")
    ∷ enum_row 50052 40007 2 (codes "SLACK")
    ∷ enum_row 50053 40007 3 (codes "GITHUB_DISPATCH")
    ∷ enum_row 50061 40008 1 (codes "COMPLETED")
    ∷ enum_row 50062 40008 2 (codes "ERROR")
    ∷ enum_row 50063 40008 3 (codes "PENDING")
    ∷ enum_row 50064 40008 4 (codes "CANCELLED")
    ∷ enum_row 50065 40008 5 (codes "DELAYED")
    ∷ enum_row 50071 40009 1 (codes "NUMERIC")
    ∷ enum_row 50072 40009 2 (codes "BOOLEAN")
    ∷ enum_row 50073 40009 3 (codes "CATEGORICAL")
    ∷ enum_row 50081 40010 1 (codes "PENDING")
    ∷ enum_row 50082 40010 2 (codes "COMPLETED")
    ∷ enum_row 50083 40010 3 (codes "SKIPPED")
    ∷ enum_row 50091 40011 1 (codes "TRACE")
    ∷ enum_row 50092 40011 2 (codes "OBSERVATION")
    ∷ enum_row 50093 40011 3 (codes "SESSION")
    ∷ enum_row 50101 40012 1 (codes "EVAL")
    ∷ enum_row 50111 40013 1 (codes "ACTIVE")
    ∷ enum_row 50112 40013 2 (codes "INACTIVE")
    ∷ enum_row 50121 40014 1 (codes "COMPLETED")
    ∷ enum_row 50122 40014 2 (codes "ERROR")
    ∷ enum_row 50123 40014 3 (codes "PENDING")
    ∷ enum_row 50124 40014 4 (codes "CANCELLED")
    ∷ enum_row 50125 40014 5 (codes "DELAYED")
    ∷ enum_row 50131 40015 1 (codes "FEEDBACK")
    ∷ enum_row 50132 40015 2 (codes "SATISFACTION")
    ∷ enum_row 50141 40016 1 (codes "SPAN")
    ∷ enum_row 50142 40016 2 (codes "EVENT")
    ∷ enum_row 50143 40016 3 (codes "GENERATION")
    ∷ enum_row 50144 40016 4 (codes "AGENT")
    ∷ enum_row 50145 40016 5 (codes "TOOL")
    ∷ enum_row 50146 40016 6 (codes "CHAIN")
    ∷ enum_row 50147 40016 7 (codes "RETRIEVER")
    ∷ enum_row 50148 40016 8 (codes "EVALUATOR")
    ∷ enum_row 50149 40016 9 (codes "EMBEDDING")
    ∷ enum_row 50150 40016 10 (codes "GUARDRAIL")
    ∷ enum_row 50151 40017 1 (codes "DEBUG")
    ∷ enum_row 50152 40017 2 (codes "DEFAULT")
    ∷ enum_row 50153 40017 3 (codes "WARNING")
    ∷ enum_row 50154 40017 4 (codes "ERROR")
    ∷ enum_row 50161 40018 1 (codes "ANNOTATION")
    ∷ enum_row 50162 40018 2 (codes "API")
    ∷ enum_row 50163 40018 3 (codes "EVAL")
    ∷ enum_row 50171 40019 1 (codes "SCORE_THRESHOLD")
    ∷ enum_row 50172 40019 2 (codes "MODEL_RESPONSE")
    ∷ enum_row 50173 40019 3 (codes "TIMEOUT")
    ∷ enum_row 50174 40019 4 (codes "ERROR")
    ∷ enum_row 50175 40019 5 (codes "MANUAL")
    ∷ enum_row 50176 40019 6 (codes "OTHER")
    ∷ enum_row 50181 40020 1 (codes "S3")
    ∷ enum_row 50182 40020 2 (codes "S3_COMPATIBLE")
    ∷ enum_row 50183 40020 3 (codes "AZURE_BLOB_STORAGE")
    ∷ enum_row 50191 40021 1 (codes "FULL_HISTORY")
    ∷ enum_row 50192 40021 2 (codes "FROM_TODAY")
    ∷ enum_row 50193 40021 3 (codes "FROM_CUSTOM_DATE")
    ∷ enum_row 50201 40022 1 (codes "JSON")
    ∷ enum_row 50202 40022 2 (codes "CSV")
    ∷ enum_row 50203 40022 3 (codes "JSONL")
    ∷ enum_row 50211 40023 1 (codes "TRACES_OBSERVATIONS")
    ∷ enum_row 50212 40023 2 (codes "TRACES_OBSERVATIONS_EVENTS")
    ∷ enum_row 50213 40023 3 (codes "EVENTS")
    ∷ []

abbrev proc_row : ℕ → Bytes → ℕ → ℕ → Bytes → List Value
proc_row oid name rows args source =
    signed oid
    ∷ text name
    ∷ signed 11
    ∷ signed 10
    ∷ signed 0
    ∷ signed 1
    ∷ signed rows
    ∷ signed 0
    ∷ null
    ∷ text (codes "f")
    ∷ boolean false
    ∷ boolean false
    ∷ boolean false
    ∷ boolean false
    ∷ text (codes "s")
    ∷ text (codes "s")
    ∷ signed args
    ∷ signed 0
    ∷ signed 25
    ∷ null
    ∷ null
    ∷ null
    ∷ null
    ∷ null
    ∷ null
    ∷ text source
    ∷ null
    ∷ null
    ∷ null
    ∷ []

unfoldable pub pg_procs : List (List Value)
pg_procs =
    proc_row 2100 (codes "version") 0 0 (codes "SELECT VERSION()")
    ∷ proc_row 2101 (codes "current_database") 1 0 (codes "SELECT DATABASE()")
    ∷ proc_row 2102 (codes "current_user") 1 0 (codes "SELECT CURRENT_USER()")
    ∷ proc_row 2103 (codes "current_schema") 1 0 (codes "SELECT 'public'")
    ∷ proc_row 2104 (codes "pg_get_expr") 0 2 (codes "pg_get_expr")
    ∷ proc_row 2105 (codes "pg_get_userbyid") 1 1 (codes "pg_get_userbyid")
    ∷ proc_row 2106 (codes "format_type") 1 2 (codes "format_type")
    ∷ proc_row 2107 (codes "obj_description") 1 1 (codes "obj_description")
    ∷ proc_row 2108 (codes "pg_get_constraintdef") 1 1 (codes "pg_get_constraintdef")
    ∷ proc_row 2109 (codes "pg_get_indexdef") 1 1 (codes "pg_get_indexdef")
    ∷ []

unfoldable pub pg_namespaces : List (List Value)
pg_namespaces =
    (signed 11 ∷ text (codes "pg_catalog") ∷ signed 10 ∷ null ∷ [])
    ∷ (signed 2200 ∷ text (codes "public") ∷ signed 10 ∷ null ∷ [])
    ∷ (signed 13179 ∷ text (codes "pg_toast") ∷ signed 10 ∷ null ∷ [])
    ∷ []

unfoldable pub pg_databases : List (List Value)
pg_databases =
    (signed 1
      ∷ text (codes "langfuse")
      ∷ signed 10
      ∷ signed 6
      ∷ text (codes "en_US.UTF-8")
      ∷ text (codes "en_US.UTF-8")
      ∷ boolean false
      ∷ boolean true
      ∷ signed (2 ^ 64 - 1)
      ∷ signed 0
      ∷ signed 1
      ∷ signed 1663
      ∷ [])
    ∷ []

unfoldable pub pg_extensions : List (List Value)
pg_extensions =
    (signed 100
      ∷ text (codes "plpgsql")
      ∷ signed 10
      ∷ signed 11
      ∷ boolean false
      ∷ text (codes "1.0")
      ∷ null
      ∷ null
      ∷ [])
    ∷ []
