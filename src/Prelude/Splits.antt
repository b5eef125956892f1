-- ===== src/Prelude/Splits.antt =====
-- Splitting what was joined.
use Prim.Native.Nat.{ℕ}
use mathlib.Core.Path.{◌≡◌, refl}
use mathlib.Core.Bool.{true, false}
use mathlib.Core.List.{List, [], ◌∷◌, ◌++◌, append-nil, append_assoc}
use agentx_proxy.Prelude.Tests.{◌==◌, ==_iff}
use agentx_proxy.Prelude.Lists.{Bytes, All, All-append}
use agentx_proxy.Prelude.Strings.{split_from, split, join}

-- A text without a separator of one byte.
abbrev pub Lacks : ℕ → Bytes → Type 0
Lacks sep = All (λ c. (c == sep) ≡ false)

same : (c : ℕ) → (c == c) ≡ true
same c = (==_iff c c).1 refl

split_from-sep :
    (sep : ℕ) (cur s rest : Bytes)
    → Lacks sep s
    → split_from sep cur (s ++ sep ∷ rest) ≡ (cur ++ s) ∷ split_from sep [] rest
unfolding split_from
split_from-sep sep cur [] rest h = rw (split_from, same sep, append-nil cur)
split_from-sep sep cur (c ∷ s) rest h =
    rw (split_from, h.0, split_from-sep sep (cur ++ c ∷ []) s rest h.1, append_assoc)

split_from-last : (sep : ℕ) (cur s : Bytes) → Lacks sep s → split_from sep cur s ≡ (cur ++ s) ∷ []
unfolding split_from
split_from-last sep cur [] h = rw (append-nil cur)
split_from-last sep cur (c ∷ s) h =
    rw (split_from, h.0, split_from-last sep (cur ++ c ∷ []) s h.1, append_assoc)

-- A text up to the first separator, and the split of the others.
pub split-sep :
    (sep : ℕ) (s rest : Bytes) → Lacks sep s → split (s ++ sep ∷ rest) sep ≡ s ∷ split rest sep
unfolding split
split-sep sep s rest h = split_from-sep sep [] s rest h

pub split-join :
    (sep : ℕ) (p : Bytes) (ps : List Bytes)
    → All (Lacks sep) (p ∷ ps)
    → split (join (p ∷ ps) (sep ∷ [])) sep ≡ p ∷ ps
unfolding split join
split-join sep p [] h = split_from-last sep [] p h.0
split-join sep p (q ∷ ps) h =
    rw (append_assoc, split_from-sep sep [] p _ h.0, split-join sep q ps h.1)

pub join-Lacks :
    (c d : ℕ) (ps : List Bytes) → (c == d) ≡ false → All (Lacks d) ps → Lacks d (join ps (c ∷ []))
unfolding join
join-Lacks c d [] n h = tt
join-Lacks c d (p ∷ []) n h = h.0
join-Lacks c d (p ∷ q ∷ ps) n h =
    All-append (λ b. (b == d) ≡ false) (p ++ c ∷ []) _
      (All-append (λ b. (b == d) ≡ false) p (c ∷ []) h.0 (n, tt)) (join-Lacks c d (q ∷ ps) n h.1)
