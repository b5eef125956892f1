-- ===== src/Postgres/Quotes/Pieces.antt =====
-- What `translateDoubleQuotes` makes of a statement, by the pieces that it is made of: texts without
-- quotes, texts between single quotes, and names between double quotes.
use agentx_proxy.Prelude.{
  ◌==◌, ◌||◌, if◌then◌else◌, ℕ, Bool, true, false, List, [], ◌∷◌, ◌++◌, ◌≡◌, ◌≢◌, refl, sym, ap,
  ◌∙◌, arith, append_assoc, append-nil, Bytes, codes,
}
use agentx_proxy.Prelude.Strings.{replace_all}
use agentx_proxy.Postgres.Quotes.{
  outside, in_string, after_quote, in_name, backticked, quote_step, scan_quotes,
  translate_double_quotes,
}

-- A character of a text between single quotes: a byte, a quote that is written twice, or a byte behind
-- a backslash.
pub data Char : Type 0 where
  byte : ℕ → Char
  twice : Char
  slashed : ℕ → Char

pub data Piece : Type 0 where
  bare : Bytes → Piece
  literal : List Char → Piece
  name : Bytes → Piece

unfoldable pub char_text : Char → Bytes
char_text (byte c) = c ∷ []
char_text twice = b'\'' ∷ b'\'' ∷ []
char_text (slashed c) = b'\\' ∷ c ∷ []

unfoldable pub chars_text : List Char → Bytes
unfolding char_text
chars_text [] = []
chars_text (c ∷ cs) = char_text c ++ chars_text cs

-- The text of a piece in PostgreSQL, and in MySQL.
unfoldable pub pg_text : List Piece → Bytes
unfolding chars_text
pg_text [] = []
pg_text (bare s ∷ ps) = s ++ pg_text ps
pg_text (literal cs ∷ ps) = b'\'' ∷ (chars_text cs ++ (b'\'' ∷ pg_text ps))
pg_text (name s ∷ ps) = b'"' ∷ (s ++ (b'"' ∷ pg_text ps))

unfoldable pub mysql_text : List Piece → Bytes
unfolding chars_text backticked
mysql_text [] = []
mysql_text (bare s ∷ ps) = s ++ mysql_text ps
mysql_text (literal cs ∷ ps) = b'\'' ∷ (chars_text cs ++ (b'\'' ∷ mysql_text ps))
mysql_text (name s ∷ ps) = backticked s ++ mysql_text ps

pub data NoQuotes : Bytes → Type 0 where
  none_left : NoQuotes []
  unquoted : {c : ℕ} → {s : Bytes} → c ≢ b'\'' → c ≢ b'"' → NoQuotes s → NoQuotes (c ∷ s)

unfoldable pub no_quotes : Bytes → Bool
no_quotes [] = true
no_quotes (c ∷ s) = let rest = no_quotes s in if c == b'\'' || c == b'"' then false else rest

pub no_quotes-NoQuotes : (s : Bytes) → no_quotes s ≡ true → NoQuotes s
unfolding no_quotes
no_quotes-NoQuotes [] h = none_left
no_quotes-NoQuotes (c ∷ s) h =
    unquoted (ground arith) (ground arith) (no_quotes-NoQuotes s (ground arith))

pub data NoDouble : Bytes → Type 0 where
  ended : NoDouble []
  other_byte : {c : ℕ} → {s : Bytes} → c ≢ b'"' → NoDouble s → NoDouble (c ∷ s)

abbrev pub IsChar : Char → Type 0
IsChar (byte c) = (c ≢ b'\'') × (c ≢ b'\\')
IsChar twice = Unit {0}
IsChar (slashed c) = Unit {0}

pub data AreChars : List Char → Type 0 where
  no_char : AreChars []
  char : {c : Char} → {cs : List Char} → IsChar c → AreChars cs → AreChars (c ∷ cs)

pub data ArePieces : List Piece → Type 0 where
  no_piece : ArePieces []
  bare_piece : {s : Bytes} → {ps : List Piece} → NoQuotes s → ArePieces ps → ArePieces (bare s ∷ ps)
  literal_piece :
      {cs : List Char}
      → {ps : List Piece} → AreChars cs
      → ArePieces ps
      → ArePieces (literal cs ∷ ps)
  name_piece : {s : Bytes} → {ps : List Piece} → NoDouble s → ArePieces ps → ArePieces (name s ∷ ps)

-- Behind a quote that ends a text, the scan goes on as it does outside of quotes.
scan-after_quote : (s : Bytes) → scan_quotes after_quote s ≡ scan_quotes outside s
unfolding scan_quotes quote_step
scan-after_quote [] = refl
scan-after_quote (c ∷ s) = ground arith

pub scan-NoQuotes :
    (s rest : Bytes) → NoQuotes s → scan_quotes outside (s ++ rest) ≡ s ++ scan_quotes outside rest
unfolding scan_quotes quote_step
scan-NoQuotes [] rest h = refl
scan-NoQuotes (c ∷ s) rest (unquoted q d h) = ground (arith, scan-NoQuotes s rest h)

scan-NoDouble :
    (s read rest : Bytes)
    → NoDouble s
    → scan_quotes (in_name read) (s ++ (b'"' ∷ rest))
      ≡ backticked (read ++ s) ++ scan_quotes outside rest
unfolding scan_quotes quote_step
scan-NoDouble [] read rest h =
    ap (λ s. backticked s ++ scan_quotes outside rest) (sym (append-nil read))
scan-NoDouble (c ∷ s) read rest (other_byte d h) =
    ground (arith, scan-NoDouble s (read ++ c ∷ []) rest h, append_assoc read (c ∷ []) s)

scan-char :
    (c : Char) (rest : Bytes)
    → IsChar c
    → scan_quotes in_string (char_text c ++ rest) ≡ char_text c ++ scan_quotes in_string rest
unfolding scan_quotes quote_step char_text
scan-char (byte c) rest h = ground arith
scan-char twice rest h = refl
scan-char (slashed c) rest h = refl

scan-AreChars :
    (cs : List Char) (rest : Bytes)
    → AreChars cs
    → scan_quotes in_string (chars_text cs ++ (b'\'' ∷ rest))
      ≡ chars_text cs ++ (b'\'' ∷ scan_quotes outside rest)
unfolding chars_text
scan-AreChars [] rest h =
    unfold scan_quotes quote_step in ap (λ s. b'\'' ∷ s) (scan-after_quote rest)
scan-AreChars (c ∷ cs) rest (char h hs) = rw (append_assoc (char_text c) (chars_text cs)) (
    scan-char c _ h
    ∙ ap (λ s. char_text c ++ s) (scan-AreChars cs rest hs)
    ∙ sym (append_assoc (char_text c) (chars_text cs) _))

scan-literal :
    (cs : List Char) (rest : Bytes)
    → AreChars cs
    → scan_quotes outside (b'\'' ∷ (chars_text cs ++ (b'\'' ∷ rest)))
      ≡ b'\'' ∷ (chars_text cs ++ (b'\'' ∷ scan_quotes outside rest))
scan-literal cs rest h =
    unfold scan_quotes quote_step in ap (λ t. b'\'' ∷ t) (scan-AreChars cs rest h)

scan-name :
    (s rest : Bytes)
    → NoDouble s
    → scan_quotes outside (b'"' ∷ (s ++ (b'"' ∷ rest))) ≡ backticked s ++ scan_quotes outside rest
scan-name s rest h = unfold scan_quotes quote_step in scan-NoDouble s [] rest h

scan-ArePieces : (ps : List Piece) → ArePieces ps → scan_quotes outside (pg_text ps) ≡ mysql_text ps
unfolding pg_text mysql_text
scan-ArePieces [] h = unfold scan_quotes in refl
scan-ArePieces (bare s ∷ ps) (bare_piece q h) =
    scan-NoQuotes s _ q ∙ ap (λ t. s ++ t) (scan-ArePieces ps h)
scan-ArePieces (literal cs ∷ ps) (literal_piece q h) =
    scan-literal cs (pg_text ps) q
    ∙ ap (λ t. b'\'' ∷ (chars_text cs ++ (b'\'' ∷ t))) (scan-ArePieces ps h)
scan-ArePieces (name s ∷ ps) (name_piece q h) =
    scan-name s (pg_text ps) q ∙ ap (λ t. backticked s ++ t) (scan-ArePieces ps h)

-- Names between double quotes are given in backticks, without the schema public; texts between single
-- quotes, with their doubled quotes and backslashes, and all that is outside of quotes, are kept. What
-- then reads as a name of the schema public in backticks loses the schema.
pub translate_double_quotes-pg_text :
    (ps : List Piece)
    → ArePieces ps
    → translate_double_quotes (pg_text ps) ≡ replace_all (mysql_text ps) (codes "`public`.") []
unfolding translate_double_quotes
translate_double_quotes-pg_text ps h =
    ap (λ s. replace_all s (codes "`public`.") []) (scan-ArePieces ps h)
