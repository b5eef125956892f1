-- ===== src/Postgres/Parameters.antt =====
-- What `translateDollarParams` does, read off the text: a dollar sign and the digits behind it become a
-- question mark.
use agentx_proxy.Prelude.{
  ℕ, zero, suc, ◌+◌, ◌-◌, Bool, true, false, ◌&&◌, ◌||◌, Option, none, some, List, [], ◌∷◌, ◌≡◌,
  refl, ap, ◌∙◌, arith, Bytes, codes, leb, ◌==◌, length, if◌then◌else◌, Bool-cases, inl, inr,
}
use agentx_proxy.Regex.{Regex, Pos, seq, eps, star, byte_in, match_at, one_byte}
use agentx_proxy.Regex.Pattern.{compile, escape_class, folded}
use agentx_proxy.Regex.Runs.{run_length, run_end, passed-run_end, rounds-run_end}
use agentx_proxy.Regex.Replaced.{whole, replace_none, replace_some}
use agentx_proxy.Regex.Replace.{replace_matches, replace_pattern, expand}
use agentx_proxy.Postgres.Operators.{translate_dollar_params}

abbrev pub is_digit : ℕ → Bool
is_digit c = leb b'0' c && leb c b'9'

abbrev pub is_dollar : ℕ → Bool
is_dollar c = c == b'$'

-- Each byte of the class `sign` with a run of the class `digit` behind it becomes a question mark; `skip`
-- bytes of a run are still to be passed.
unfoldable pub mark_runs : (ℕ → Bool) → (ℕ → Bool) → ℕ → Bytes → Bytes
unfolding run_length
mark_runs sign digit skip [] = []
mark_runs sign digit (suc skip) (c ∷ s) = mark_runs sign digit skip s
mark_runs sign digit zero (c ∷ s) = elim (sign c && leb 1 (run_length digit s)) as (λ _. Bytes) [
  | false ↦ c ∷ mark_runs sign digit 0 s
  | true ↦ b'?' ∷ mark_runs sign digit (run_length digit s) s
]

abbrev pub mark_params : Bytes → Bytes
mark_params s = mark_runs is_dollar is_digit 0 s

or_false : (b : Bool) → (b || false) ≡ b
or_false true = refl
or_false false = refl

abbrev param : (ℕ → Bool) → (ℕ → Bool) → Regex
param sign digit = seq (byte_in sign) (seq (seq (byte_in digit) (star true (byte_in digit))) eps)

compile-param : compile (codes "\\$\\d+") ≡ param is_dollar is_digit
unfolding compile
compile-param =
    ap (λ p. param p (folded false (escape_class b'd'))) (λ i c. or_false (is_dollar c) i)
    ∙ ap (param is_dollar) (λ i c. or_false (is_digit c) i)

at_least_one : (n : ℕ) → leb 1 (suc n) ≡ true
at_least_one n = ground arith

-- A match of the pattern ends behind the digits.
match_param :
    (sign digit : ℕ → Bool) (f : Pos → Pos) (before : Option ℕ) (n c : ℕ) (s : Bytes)
    (groups : List (ℕ × Bytes))
    → match_at
        (param sign digit)
        (record { before = before; passed = n; rest = c ∷ s; groups = groups })
        (λ t. some (f t))
      ≡ (if sign c && leb 1 (run_length digit s)
          then some (f (run_end digit (some c) (n + 1) s groups))
          else none)
unfolding match_at one_byte run_length run_end
match_param sign digit f before n c [] groups = elim (Bool-cases (sign c)) [
  | inr y ↦ rw (y, match_at, one_byte) refl
  | inl y ↦ rw (y, match_at, one_byte) refl
]
match_param sign digit f before n c (d ∷ s) groups = elim (Bool-cases (sign c)) [
  | inr y ↦ rw (y, match_at, one_byte) refl
  | inl y ↦ elim (Bool-cases (digit d)) [
    | inr z ↦ rw (y, z, match_at, one_byte, run_length) refl
    | inl z ↦
        rw (y, z, match_at, one_byte, run_length, run_end, at_least_one)
          (rounds-run_end digit f (length s) (some d) (n + 1 + 1) s groups (omega arith))
  ]
]

abbrev mark : (ℕ → Bytes) → Bytes
mark groups = b'?' ∷ []

replace-mark_runs :
    (sign digit : ℕ → Bool) (skip : ℕ) (before : Option ℕ) (n : ℕ) (s : Bytes)
    → replace_matches mark (param sign digit) skip before n s ≡ mark_runs sign digit skip s
unfolding mark_runs
replace-mark_runs sign digit skip before n [] = unfold replace_matches in refl
replace-mark_runs sign digit (suc skip) before n (c ∷ s) =
    next skip (replace-mark_runs sign digit skip (some c) (n + 1) s)
  where
    next :
        (k : ℕ)
        → replace_matches mark (param sign digit) k (some c) (n + 1) s ≡ mark_runs sign digit k s
        → replace_matches mark (param sign digit) (suc k) before n (c ∷ s)
          ≡ mark_runs sign digit k s
    next k h = unfold replace_matches in h
replace-mark_runs sign digit zero before n (c ∷ s) =
    let found = match_param sign digit (whole n (c ∷ s)) before n c s [] in
    elim (Bool-cases (sign c && leb 1 (run_length digit s))) [
      | inr y ↦
          replace_none mark (param sign digit) before n c s (found ∙ rw (y) refl)
          ∙ ap (λ x. c ∷ x) (replace-mark_runs sign digit 0 (some c) (n + 1) s)
          ∙ rw (y, mark_runs) refl
      | inl y ↦
          let size : (run_end digit (some c) (n + 1) s []).passed - (n + 1) ≡ run_length digit s =
            omega (arith, passed-run_end digit (some c) (n + 1) s []) in
          let stop = run_end digit (some c) (n + 1) s [] in
          replace_some mark (param sign digit) before n c s {t = whole n (c ∷ s) stop}
            (found ∙ rw (y) refl)
          ∙ ap (λ k. b'?' ∷ replace_matches mark (param sign digit) k (some c) (n + 1) s) size
          ∙ ap (λ x. b'?' ∷ x)
              (replace-mark_runs sign digit (run_length digit s) (some c) (n + 1) s)
          ∙ rw (y, mark_runs) refl
    ]

-- Each dollar sign with digits behind it becomes a question mark, with all of these digits, whatever
-- they say; every other byte is kept.
pub translate_dollar_params-mark_params :
    (sql : Bytes) → translate_dollar_params sql ≡ mark_params sql
unfolding translate_dollar_params replace_pattern expand
translate_dollar_params-mark_params sql =
    ap (λ r. replace_matches mark r 0 none 0 sql) compile-param
    ∙ replace-mark_runs is_dollar is_digit 0 none 0 sql
