-- ===== src/Prelude/Maps.antt =====
-- Go maps whose keys are ids, as lists of entries without a repeated key, and membership in a list
-- of ids.
use Prim.Native.Nat.{ℕ}
use mathlib.Core.Path.{◌≡◌, refl}
use mathlib.Core.Logic.{◌≢◌, ◌↔◌, ◌⊎◌, inl, inr}
use mathlib.Core.Bool.{Bool, true, false}
use mathlib.Core.Option.{Option, none, some}
use mathlib.Core.List.{List, [], ◌∷◌, ◌++◌}
use native.Mathlib.Omega.{arith}
use spaceempire_back.Prelude.Tests.{◌==◌, if◌then◌else◌, Bool-cases, ==_refl}

infix 40 ◌∈◌
abbrev pub ◌∈◌ : ℕ → List ℕ → Type 0
a ∈ [] = ⊥
a ∈ x ∷ xs = (a ≡ x) ⊎ (a ∈ xs)

pub ∈-append : (a : ℕ) (xs ys : List ℕ) → (a ∈ (xs ++ ys)) ↔ ((a ∈ xs) ⊎ (a ∈ ys))
∈-append a [] ys = (inr, λ m. ground arith)
∈-append a (x ∷ xs) ys = ground (arith, ∈-append a xs ys)

abbrev pub has_key : List ℕ → ℕ → Bool
has_key [] a = false
has_key (x ∷ xs) a = let rest = has_key xs a in if a == x then true else rest

module _ {ℓ} {V : Type ℓ} where
  abbrev pub lookup : ℕ → List (ℕ × V) → Option V
  lookup k [] = none
  lookup k ((j, v) ∷ m) = let rest = lookup k m in if k == j then some v else rest

  abbrev pub delete : ℕ → List (ℕ × V) → List (ℕ × V)
  delete k [] = []
  delete k ((j, v) ∷ m) = let rest = delete k m in if k == j then rest else (j, v) ∷ rest

  -- `m[k] = v`
  abbrev pub put : ℕ → V → List (ℕ × V) → List (ℕ × V)
  put k v m = (k, v) ∷ delete k m

  abbrev pub keys : List (ℕ × V) → List ℕ
  keys [] = []
  keys ((j, v) ∷ m) = j ∷ keys m

  lookup-delete : (k j : ℕ) (m : List (ℕ × V)) → (j ≢ k) → lookup j (delete k m) ≡ lookup j m
  lookup-delete k j [] h = refl
  lookup-delete k j ((i, v) ∷ m) h = ground (arith, lookup-delete k j m h)

  pub lookup-put_self : (k : ℕ) (v : V) (m : List (ℕ × V)) → lookup k (put k v m) ≡ some v
  lookup-put_self k v m = rw (==_refl k) refl

  pub lookup-put_ne :
      (k j : ℕ) (v : V) (m : List (ℕ × V)) → j ≢ k → lookup j (put k v m) ≡ lookup j m
  lookup-put_ne k j v m h = ground (arith, lookup-delete k j m h)

  -- A key is listed exactly where the lookup finds a value.
  pub keys_of_lookup : (k : ℕ) (v : V) (m : List (ℕ × V)) → lookup k m ≡ some v → k ∈ keys m
  keys_of_lookup k v [] h = cc
  keys_of_lookup k v ((j, w) ∷ m) h = ground (arith, keys_of_lookup k v m)

  pub lookup_of_keys : (k : ℕ) (m : List (ℕ × V)) → k ∈ keys m → (v : V) × (lookup k m ≡ some v)
  lookup_of_keys k [] h = absurd h
  lookup_of_keys k ((j, w) ∷ m) h = elim (Bool-cases (k == j)) [
    | inl same ↦ (w, rw same refl)
    | inr other ↦ rw other (lookup_of_keys k m (ground arith))
  ]
