-- ===== src/Prelude/Dict.antt =====
-- A Python dict with text keys, in insertion order.
use Prim.Native.String.{String}
use mathlib.Core.Path.{◌≡◌, refl}
use mathlib.Core.List.{List, [], ◌∷◌}
use mathlib.Core.Option.{Option, none, some}
use mathlib.Core.Logic.{◌≢◌, ◌⊎◌, inl, inr}
use native.Mathlib.Omega.{arith}
use text.Mathlib.Text.{◌==◌ as str_eq}
use text.Mathlib.TextEquality.{eq_iff}
use ai_routing.Prelude.Tests.{if◌then◌else◌, Bool-cases}

abbrev pub Dict {ℓ} : Type ℓ → Type ℓ
Dict V = List (String × V)

module _ {ℓ} {V : Type ℓ} where
  -- `d.get(k)`
  unfoldable pub lookup : String → Dict V → Option V
  lookup k [] = none
  lookup k ((j, v) ∷ d) = if str_eq k j then some v else lookup k d

  -- `d[k] = v`
  unfoldable pub insert : String → V → Dict V → Dict V
  insert k v [] = (k, v) ∷ []
  insert k v ((j, w) ∷ d) = if str_eq k j then (k, v) ∷ d else (j, w) ∷ insert k v d

  pub lookup-insert :
      (j k : String) (v : V) (d : Dict V)
      → lookup j (insert k v d) ≡ (if str_eq j k then some v else lookup j d)
  unfolding lookup insert
  lookup-insert j k v [] = refl
  lookup-insert j k v ((i, w) ∷ d) =
      ground (arith, eq_iff j k, eq_iff k i, eq_iff j i, lookup-insert j k v d)

  pub lookup-insert_self : (k : String) (v : V) (d : Dict V) → lookup k (insert k v d) ≡ some v
  lookup-insert_self k v d = ground (arith, eq_iff k k, lookup-insert k k v d)

  pub lookup-insert_ne :
      (j k : String) (v : V) (d : Dict V) → j ≢ k → lookup j (insert k v d) ≡ lookup j d
  lookup-insert_ne j k v d ne = ground (arith, eq_iff j k, lookup-insert j k v d)

pub String-cases : (j k : String) → (j ≡ k) ⊎ (j ≢ k)
String-cases j k = elim (Bool-cases (str_eq j k)) [
  | inl same ↦ inl ((eq_iff j k).0 same)
  | inr other ↦ inr (λ e. cc ((eq_iff j k).1 e))
]
