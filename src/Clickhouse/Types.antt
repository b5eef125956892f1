-- ===== src/Clickhouse/Types.antt =====
-- The types of the columns, for the names of types that the MySQL driver gives, which are in capitals.
use agentx_proxy.Prelude.{
  ℕ, ◌+◌, ◌≤◌, ◌≡◌, refl, arith, false, none, List, [], ◌∷◌, Bytes, codes, All, ◌==◌,
}
use agentx_proxy.Prelude.Strings.{upper_byte, to_upper, has_prefix, index_from, index, contains}
use agentx_proxy.Clickhouse.{type_table, first_type, mysql_to_ch_type}

upper_byte-ne : (c d : ℕ) → b'a' ≤ d → d ≤ b'z' → (upper_byte c == d) ≡ false
unfolding upper_byte
upper_byte-ne c d l h = ground arith

-- A text that starts with a small letter is nowhere in a text in capitals.
index_from-to_upper :
    (i d : ℕ) (s p : Bytes) → b'a' ≤ d → d ≤ b'z' → index_from i (to_upper s) (d ∷ p) ≡ none
unfolding index_from to_upper has_prefix
index_from-to_upper i d [] p l h = refl
index_from-to_upper i d (c ∷ s) p l h =
    rw (upper_byte-ne c d l h, index_from-to_upper (i + 1) d s p l h)

contains-to_upper :
    (s : Bytes) (d : ℕ) (p : Bytes) → b'a' ≤ d → d ≤ b'z' → contains (to_upper s) (d ∷ p) ≡ false
unfolding contains index
contains-to_upper s d p l h = rw (contains, index_from-to_upper 0 d s p l h)

abbrev Small : Bytes → Type 0
Small [] = ⊥
Small (d ∷ p) = (b'a' ≤ d) × (d ≤ b'z')

first_type-to_upper :
    (cases : List (Bytes × Bytes)) (s : Bytes)
    → All (λ c. Small c.0) cases
    → first_type cases (to_upper s) ≡ codes "String"
unfolding first_type
first_type-to_upper [] s h = refl
first_type-to_upper (([], t) ∷ cases) s h = absurd h.0
first_type-to_upper ((d ∷ p, t) ∷ cases) s h =
    rw (contains-to_upper s d p h.0.0 h.0.1, first_type-to_upper cases s h.1)

small : All (λ c. Small c.0) type_table
unfolding type_table
small = search arith

-- Every name of a type in capitals is given the type String.
pub mysql_to_ch_type-to_upper : (s : Bytes) → mysql_to_ch_type (to_upper s) ≡ codes "String"
unfolding mysql_to_ch_type
mysql_to_ch_type-to_upper s = first_type-to_upper type_table s small
