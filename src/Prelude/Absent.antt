-- ===== src/Prelude/Absent.antt =====
-- `ReplaceAll` of a text that is not there.
use Prim.Native.Nat.{ℕ, ◌+◌}
use mathlib.Core.Path.{◌≡◌, refl, ap}
use mathlib.Core.Logic.{inl, inr}
use mathlib.Core.List.{[], ◌∷◌}
use mathlib.Core.Option.{none}
use native.Mathlib.Omega.{arith}
use agentx_proxy.Prelude.Tests.{Bool-cases}
use agentx_proxy.Prelude.Lists.{Bytes}
use agentx_proxy.Prelude.Strings.{has_prefix, index, index_from, replace_from, replace_all}

pub replace_from-absent :
    (i : ℕ) (s old new : Bytes) → index_from i s old ≡ none → replace_from 0 s old new ≡ s
unfolding index_from replace_from
replace_from-absent i [] old new h = refl
replace_from-absent i (c ∷ s) old new h = elim (Bool-cases (has_prefix (c ∷ s) old)) [
  | inl y ↦ ground (arith)
  | inr y ↦
      rw (y, replace_from)
        (ap (λ t. c ∷ t) (replace_from-absent (i + 1) s old new (rw (y, index_from) at h)))
]

pub replace_all-absent : (s old new : Bytes) → index s old ≡ none → replace_all s old new ≡ s
unfolding replace_all index
replace_all-absent s old new h = replace_from-absent 0 s old new h
