-- ===== src/Regex/Runs.antt =====
-- What the repetition of a class of bytes matches, which takes all that it can: the longest run of them.
use agentx_proxy.Prelude.{
  ℕ, zero, suc, ◌+◌, ◌≤◌, Bool, true, false, Option, some, List, [], ◌∷◌, ◌≡◌, refl, arith, Bytes,
  length, leb, Bool-cases, inl, inr, if◌then◌else◌,
}
use agentx_proxy.Regex.{Pos, byte_in, one_byte, rounds, match_at}

-- How many bytes of the class the text starts with.
unfoldable pub run_length : (ℕ → Bool) → Bytes → ℕ
run_length p [] = 0
run_length p (c ∷ s) = let rest = run_length p s in if p c then suc rest else 0

-- The place behind the run.
unfoldable pub run_end : (ℕ → Bool) → Option ℕ → ℕ → Bytes → List (ℕ × Bytes) → Pos
run_end p before n [] groups = record { before = before; passed = n; rest = []; groups = groups }
run_end p before n (c ∷ s) groups = elim (p c) as (λ _. Pos) [
  | true ↦ run_end p (some c) (n + 1) s groups
  | false ↦ record { before = before; passed = n; rest = c ∷ s; groups = groups }
]

pub passed-run_end :
    (p : ℕ → Bool) (before : Option ℕ) (n : ℕ) (s : Bytes) (groups : List (ℕ × Bytes))
    → (run_end p before n s groups).passed ≡ n + run_length p s
unfolding run_end run_length
passed-run_end p before n [] groups = omega arith
passed-run_end p before n (c ∷ s) groups =
    elim (p c)
      as (λ b.
        (elim b as (λ _. Pos) [
          | true ↦ run_end p (some c) (n + 1) s groups
          | false ↦ record { before = before; passed = n; rest = c ∷ s; groups = groups }
        ]).passed
        ≡ n + (if b then suc (run_length p s) else 0)) [
          | true ↦ omega (arith, passed-run_end p (some c) (n + 1) s groups)
          | false ↦ omega arith
        ]

longer : (n : ℕ) → leb (n + 1) n ≡ false
longer n = ground arith

pub rounds-run_end :
    (p : ℕ → Bool) (f : Pos → Pos) (fuel : ℕ) (before : Option ℕ) (n : ℕ) (s : Bytes)
    (groups : List (ℕ × Bytes))
    → length s ≤ fuel
    → rounds
        (match_at (byte_in p))
        true
        fuel
        (record { before = before; passed = n; rest = s; groups = groups })
        (λ t. some (f t))
      ≡ some (f (run_end p before n s groups))
unfolding rounds match_at one_byte run_end
rounds-run_end p f zero before n [] groups h = refl
rounds-run_end p f zero before n (c ∷ s) groups h = ground arith
rounds-run_end p f (suc fuel) before n [] groups h = refl
rounds-run_end p f (suc fuel) before n (c ∷ s) groups h =
    let next = rounds-run_end p f fuel (some c) (n + 1) s groups (omega (arith, h)) in
    elim (Bool-cases (p c)) [
      | inl y ↦ rw (y, rounds, match_at, one_byte, run_end, longer n, next)
      | inr y ↦ rw (y, rounds, match_at, one_byte, run_end)
    ]
