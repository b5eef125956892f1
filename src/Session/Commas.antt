-- ===== src/Session/Commas.antt =====
-- A list of columns is split where it was joined.
use agentx_proxy.Prelude.{
  ℕ, zero, suc, ◌+◌, ◌^◌, ◌<◌, ◌≡◌, ◌≢◌, refl, sym, ◌∙◌, ap, arith, Bool, true, false, Bool-cases,
  inl, inr, ◌&&◌, List, [], ◌∷◌, ◌++◌, append-nil, append_assoc, Bytes, codes, length, All, ◌==◌,
}
use agentx_proxy.Prelude.Strings.{equal, join}
use agentx_proxy.Session.Columns.{
  deeper, shallower, depth_after, split_top, drop_empty_last, split_column_list,
}

-- The parentheses close each other, from `depth` open ones on, and no comma is outside them.
unfoldable pub balanced : ℕ → Bytes → Bool
balanced zero [] = true
balanced (suc d) [] = false
balanced d (c ∷ s) = elim (c == b'(') as (λ _. Bool) [
  | true ↦ balanced (suc d) s
  | false ↦ elim (c == b')') as (λ _. Bool) [
    | true ↦ elim d as (λ _. Bool) [ zero ↦ false | suc e ↦ balanced e s ]
    | false ↦ elim (c == b',' && d == 0) as (λ _. Bool) [ true ↦ false | false ↦ balanced d s ]
  ]
]

opens : (c d : ℕ) → (c == b'(') ≡ true → d + 1 < 2 ^ 64 → depth_after c d ≡ suc d
unfolding depth_after deeper shallower
opens c d y h = rw y (omega arith)

closes :
    (c e : ℕ)
    → (c == b'(') ≡ false
    → (c == b')') ≡ true
    → suc e < 2 ^ 64
    → depth_after c (suc e) ≡ e
unfolding depth_after deeper shallower
closes c e n y h = rw (n, y) (omega arith)

stays : (c d : ℕ) → (c == b'(') ≡ false → (c == b')') ≡ false → depth_after c d ≡ d
unfolding depth_after deeper shallower
stays c d n m = rw (n, m) refl

no_comma : (c d x : ℕ) → (c == x) ≡ true → (x == b',') ≡ false → (c == b',' && d == 0) ≡ false
no_comma c d x y n = ground arith

balanced-open : (d c : ℕ) (s : Bytes) → (c == b'(') ≡ true → balanced d (c ∷ s) ≡ balanced (suc d) s
unfolding balanced
balanced-open zero c s y = rw (balanced, y) refl
balanced-open (suc d) c s y = rw (balanced, y) refl

balanced-close :
    (e c : ℕ) (s : Bytes)
    → (c == b'(') ≡ false
    → (c == b')') ≡ true
    → balanced (suc e) (c ∷ s) ≡ balanced e s
unfolding balanced
balanced-close e c s n y = rw (balanced, n, y) refl

balanced-close_zero :
    (c : ℕ) (s : Bytes) → (c == b'(') ≡ false → (c == b')') ≡ true → balanced zero (c ∷ s) ≡ false
unfolding balanced
balanced-close_zero c s n y = rw (balanced, n, y) refl

balanced-comma :
    (d c : ℕ) (s : Bytes)
    → (c == b'(') ≡ false
    → (c == b')') ≡ false
    → (c == b',' && d == 0) ≡ true
    → balanced d (c ∷ s) ≡ false
unfolding balanced
balanced-comma zero c s n m y = rw (balanced, n, m, y) refl
balanced-comma (suc d) c s n m y = rw (balanced, n, m, y) refl

balanced-plain :
    (d c : ℕ) (s : Bytes)
    → (c == b'(') ≡ false
    → (c == b')') ≡ false
    → (c == b',' && d == 0) ≡ false
    → balanced d (c ∷ s) ≡ balanced d s
unfolding balanced
balanced-plain zero c s n m y = rw (balanced, n, m, y) refl
balanced-plain (suc d) c s n m y = rw (balanced, n, m, y) refl

-- A byte that is no comma outside parentheses goes to the part that is being read.
split_top-step :
    (d e c : ℕ) (cur s : Bytes)
    → (c == b',' && d == 0) ≡ false
    → depth_after c d ≡ e
    → split_top d cur (c ∷ s) ≡ split_top e (cur ++ c ∷ []) s
unfolding split_top
split_top-step d e c cur s n h = rw (split_top, n, h) refl

open_end : (d : ℕ) → balanced (suc d) [] ≢ true
unfolding balanced
open_end d h = ground arith

at_close :
    (d c : ℕ) (cur s rest : Bytes)
    → (c == b'(') ≡ false
    → (c == b')') ≡ true
    → balanced d (c ∷ s) ≡ true
    → d < 2 ^ 64
    → ((e : ℕ)
        → e < d
        → balanced e s ≡ true
        → split_top e (cur ++ c ∷ []) (s ++ rest) ≡ split_top 0 ((cur ++ c ∷ []) ++ s) rest)
    → split_top d cur (c ∷ (s ++ rest)) ≡ split_top 0 (cur ++ c ∷ s) rest
at_close zero c cur s rest n y h l k = absurd (ground (arith, balanced-close_zero c s n y, h))
at_close (suc e) c cur s rest n y h l k =
    split_top-step (suc e) e c cur (s ++ rest) (no_comma c (suc e) b')' y refl) (closes c e n y l)
    ∙ (k e (omega arith) (sym (balanced-close e c s n y) ∙ h) ∙ rw append_assoc refl)

split_top-balanced :
    (d : ℕ) (cur s rest : Bytes)
    → balanced d s ≡ true
    → d + length s < 2 ^ 64
    → split_top d cur (s ++ rest) ≡ split_top 0 (cur ++ s) rest
split_top-balanced zero cur [] rest h l = rw (append-nil cur)
split_top-balanced (suc d) cur [] rest h l = absurd (open_end d h)
split_top-balanced d cur (c ∷ s) rest h l = elim (Bool-cases (c == b'(')) [
  | inl y ↦
      split_top-step d (suc d) c cur (s ++ rest) (no_comma c d b'(' y refl)
        (opens c d y (omega arith))
      ∙ (split_top-balanced (suc d) (cur ++ c ∷ []) s rest (sym (balanced-open d c s y) ∙ h)
            (omega arith)
          ∙ rw append_assoc refl)
  | inr n ↦ elim (Bool-cases (c == b')')) [
    | inl y ↦
        at_close d c cur s rest n y h (omega arith)
          (λ e q b. split_top-balanced e (cur ++ c ∷ []) s rest b (omega arith))
    | inr m ↦ elim (Bool-cases (c == b',' && d == 0)) [
      | inl k ↦ absurd (ground (arith, balanced-comma d c s n m k, h))
      | inr k ↦
          split_top-step d d c cur (s ++ rest) k (stays c d n m)
          ∙ (split_top-balanced d (cur ++ c ∷ []) s rest (sym (balanced-plain d c s n m k) ∙ h)
                (omega arith)
              ∙ rw append_assoc refl)
    ]
  ]
]

-- A column with its parentheses closed and no comma outside them, which is not empty.
abbrev pub Column : Bytes → Type 0
Column c = (balanced 0 c ≡ true) × ((equal c [] ≡ false) × (length c < 2 ^ 64))

split_top-comma : (p rest : Bytes) → split_top 0 p (b',' ∷ rest) ≡ p ∷ split_top 0 [] rest
unfolding split_top
split_top-comma p rest = refl

split_top-nil : (p : Bytes) → split_top 0 p [] ≡ p ∷ []
unfolding split_top
split_top-nil p = refl

split_top-join :
    (p : Bytes) (ps : List Bytes)
    → All Column (p ∷ ps)
    → split_top 0 [] (join (p ∷ ps) (codes ",")) ≡ p ∷ ps
unfolding join
split_top-join p [] h =
    ap (split_top 0 []) (sym (append-nil p))
    ∙ (split_top-balanced 0 [] p [] h.0.0 (omega (arith, h.0.1.1)) ∙ split_top-nil p)
split_top-join p (q ∷ ps) h =
    ap (split_top 0 []) (append_assoc p (codes ",") (join (q ∷ ps) (codes ",")))
    ∙ (split_top-balanced 0 [] p (b',' ∷ join (q ∷ ps) (codes ",")) h.0.0 (omega (arith, h.0.1.1))
        ∙ (split_top-comma p (join (q ∷ ps) (codes ","))
            ∙ ap (λ r. p ∷ r) (split_top-join q ps h.1)))

drop_empty_last-full :
    (p : Bytes) (ps : List Bytes) → All Column (p ∷ ps) → drop_empty_last (p ∷ ps) ≡ p ∷ ps
unfolding drop_empty_last
drop_empty_last-full p [] h = rw (h.0.1.0) refl
drop_empty_last-full p (q ∷ ps) h = ap (λ r. p ∷ r) (drop_empty_last-full q ps h.1)

-- Columns that are not empty, with their parentheses closed and no comma outside them, are found again
-- in the list that has commas between them.
pub split_column_list-join :
    (p : Bytes) (ps : List Bytes)
    → All Column (p ∷ ps)
    → split_column_list (join (p ∷ ps) (codes ",")) ≡ p ∷ ps
unfolding split_column_list
split_column_list-join p ps h =
    ap drop_empty_last (split_top-join p ps h) ∙ drop_empty_last-full p ps h
