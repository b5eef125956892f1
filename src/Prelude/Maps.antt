-- ===== src/Prelude/Maps.antt =====
-- A Go map with string keys, as an association list with one entry for each key.
use mathlib.Core.Path.{◌≡◌, refl, sym, ◌∙◌}
use mathlib.Core.Logic.{◌↔◌, ◌⊎◌, inl, inr}
use mathlib.Core.Bool.{true}
use mathlib.Core.List.{List, [], ◌∷◌}
use mathlib.Core.Option.{Option, none, some}
use native.Mathlib.Omega.{arith}
use agentx_proxy.Prelude.Tests.{if◌then◌else◌, Bool-cases}
use agentx_proxy.Prelude.Lists.{Bytes}
use agentx_proxy.Prelude.Strings.{equal}

pub equal→eq : (s t : Bytes) → equal s t ≡ true → s ≡ t
unfolding equal
equal→eq [] [] h = refl
equal→eq [] (d ∷ t) h = cc
equal→eq (c ∷ s) [] h = cc
equal→eq (c ∷ s) (d ∷ t) h = ground (arith, equal→eq s t)

pub equal_refl : (s : Bytes) → equal s s ≡ true
unfolding equal
equal_refl [] = refl
equal_refl (c ∷ s) = ground (arith, equal_refl s)

pub equal_iff : (s t : Bytes) → (equal s t ≡ true) ↔ (s ≡ t)
equal_iff s t = (equal→eq s t, λ e. rw e (equal_refl t))

module _ {ℓ} {V : Type ℓ} where
  unfoldable pub lookup : Bytes → List (Bytes × V) → Option V
  lookup k [] = none
  lookup k ((j, v) ∷ m) = if equal j k then some v else lookup k m

  unfoldable pub insert : Bytes → V → List (Bytes × V) → List (Bytes × V)
  insert k v [] = (k, v) ∷ []
  insert k v ((j, w) ∷ m) = if equal j k then (k, v) ∷ m else (j, w) ∷ insert k v m

  unfoldable pub delete : Bytes → List (Bytes × V) → List (Bytes × V)
  delete k [] = []
  delete k ((j, w) ∷ m) = if equal j k then delete k m else (j, w) ∷ delete k m

module _ {ℓ} {V : Type ℓ} where
  pub lookup-insert :
      (k j : Bytes) (v : V) (m : List (Bytes × V))
      → lookup j (insert k v m) ≡ (if equal k j then some v else lookup j m)
  unfolding lookup insert
  lookup-insert k j v [] = refl
  lookup-insert k j v ((i, w) ∷ m) =
      ground (arith, equal_iff k j, equal_iff i k, equal_iff i j, lookup-insert k j v m)

  pub lookup-delete :
      (k j : Bytes) (m : List (Bytes × V))
      → lookup j (delete k m) ≡ (if equal k j then none else lookup j m)
  unfolding lookup delete
  lookup-delete k j [] = ground arith
  lookup-delete k j ((i, w) ∷ m) =
      ground (arith, equal_iff k j, equal_iff i k, equal_iff i j, lookup-delete k j m)

module _ {ℓ} {V : Type ℓ} where
  -- What is found after an insertion is the new value or was there before.
  pub lookup-insert_cases :
      (k j : Bytes) (v w : V) (m : List (Bytes × V))
      → lookup j (insert k v m) ≡ some w
      → ((k ≡ j) × (v ≡ w)) ⊎ (lookup j m ≡ some w)
  lookup-insert_cases k j v w m h =
      let e : (if equal k j then some v else lookup j m) ≡ some w =
        sym (lookup-insert k j v m) ∙ h in
      elim (Bool-cases (equal k j)) [ inl y ↦ inl (equal→eq k j y, cc) | inr n ↦ inr cc ]

  pub lookup-delete_was :
      (k j : Bytes) (w : V) (m : List (Bytes × V))
      → lookup j (delete k m) ≡ some w
      → lookup j m ≡ some w
  lookup-delete_was k j w m h =
      let e : (if equal k j then none else lookup j m) ≡ some w = sym (lookup-delete k j m) ∙ h in
      elim (Bool-cases (equal k j)) [ inl y ↦ absurd cc | inr n ↦ cc ]
