-- ===== src/MysqlPool/Tests.antt =====
-- A driver that answers every query alike, and calls of the pool on it.
use agentx_proxy.Prelude.{Bytes, List, true, none, some, [], ◌∷◌, ◌≡◌, refl, ok, codes}
use agentx_proxy.Arrays.{Arg}
use agentx_proxy.Pgwire.Backend.{text, signed, Value}
use agentx_proxy.MysqlPool.{Driver, get_table_columns, table_exists, query}

abbrev answering : List (List Value) → (Bytes → Arg) → Driver
answering rows text_arg = record {
  Db = Unit {0};
  exec_context = λ q args d. (ok 0, d);
  query_context = λ q args d. (ok (record { columns = []; rows = rows; failure = none }), d);
  text_arg = text_arg;
  scan_int = λ v. some 2;
}

described_columns :
    (a : Bytes → Arg)
    → (get_table_columns
        (answering ((text (codes "id") ∷ text (codes "int") ∷ text (codes "yes") ∷ []) ∷ []) a)
        (codes "t")
        tt).0
      ≡ ok (record { name = codes "id"; database_type = codes "int"; nullable = true } ∷ [])
unfolding get_table_columns query
described_columns a = refl

found_table :
    (a : Bytes → Arg)
    → (table_exists (answering ((signed 2 ∷ []) ∷ []) a) (codes "t") tt).0 ≡ ok true
unfolding table_exists query
found_table a = refl
