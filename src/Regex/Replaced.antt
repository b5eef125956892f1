-- ===== src/Regex/Replaced.antt =====
-- What a replacement does at the place where it stands.
use agentx_proxy.Prelude.{
  ℕ, ◌+◌, ◌-◌, Option, none, some, [], ◌∷◌, ◌++◌, ◌≡◌, refl, ap, ◌∙◌, Bytes, take,
}
use agentx_proxy.Regex.{Regex, Pos, match_at, find_match, if_none}
use agentx_proxy.Regex.Replace.{replace_matches, texts_of}

abbrev pub start_of : Option ℕ → ℕ → Bytes → Pos
start_of before n s = record { before = before; passed = n; rest = s; groups = [] }

-- The end of a match that started at `n`, with the text of it as the group 0.
abbrev pub whole : ℕ → Bytes → Pos → Pos
whole n s t = record t { groups = (0, take (t.passed - n) s) ∷ t.groups }

module _ (f : (ℕ → Bytes) → Bytes) (r : Regex) (before : Option ℕ) (n c : ℕ) (s : Bytes) where
  pub replace_none :
      match_at r (start_of before n (c ∷ s)) (λ t. some (whole n (c ∷ s) t)) ≡ none
      → replace_matches f r 0 before n (c ∷ s) ≡ c ∷ replace_matches f r 0 (some c) (n + 1) s
  unfolding replace_matches match_at
  replace_none e = rw (e, replace_matches) refl

  pub replace_some :
      {t : Pos}
      → match_at r (start_of before n (c ∷ s)) (λ t. some (whole n (c ∷ s) t)) ≡ some t
      → replace_matches f r 0 before n (c ∷ s)
        ≡ f (texts_of t) ++ replace_matches f r (t.passed - (n + 1)) (some c) (n + 1) s
  unfolding replace_matches match_at
  replace_some e = rw (e, replace_matches) refl

pub both_none :
    (o : Option Pos) (k : Unit {0} → Option Pos) → if_none o k ≡ none → (o ≡ none) × (k tt ≡ none)
both_none none k e = (refl, e)
both_none (some t) k e = absurd cc

-- A text in which the pattern is not found is left alone.
pub replace_unfound :
    (f : (ℕ → Bytes) → Bytes) (r : Regex) (before : Option ℕ) (n : ℕ) (s : Bytes)
    → find_match r before n s ≡ none
    → replace_matches f r 0 before n s ≡ s
unfolding find_match
replace_unfound f r before n [] h = unfold replace_matches in refl
replace_unfound f r before n (c ∷ s) h =
    let (here, later) = both_none _ _ h in
    replace_none f r before n c s here
    ∙ ap (λ x. c ∷ x) (replace_unfound f r (some c) (n + 1) s later)
