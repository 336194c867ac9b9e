-- ===== src/Base/Assoc.antt =====
-- Go maps as association lists. A map is read by key here; code that ranges over a map takes its
-- entries in the list's order, which stands for the order that the runtime happens to choose.

use mathlib.Core.Path.{◌≡◌, refl, ◌∙◌}
use mathlib.Core.Bool.{Bool, true, false}
use mathlib.Core.List.{List, [], ◌∷◌, map}
use mathlib.Core.Option.{Option, none, some}
use native.Mathlib.Omega.{arith}
use tsf_go.Base.Tests.{Comparable, ◌==◌, if◌then◌else◌, same_self}

module _ {ℓ κ} {K : Type ℓ} {V : Type κ} where
  abbrev pub keys : List (K × V) → List K
  keys m = map (λ e. e.0) m

  abbrev pub values : List (K × V) → List V
  values m = map (λ e. e.1) m

module _ {ℓ κ} {K : Type ℓ} {V : Type κ} ⦃c : Comparable K⦄ where
  -- `v, ok := m[key]`
  unfoldable pub lookup : K → List (K × V) → Option V
  lookup key [] = none
  lookup key (entry ∷ m) = if key == entry.0 then some entry.1 else lookup key m

  -- `m[key] = v`
  unfoldable pub insert : K → V → List (K × V) → List (K × V)
  insert key v [] = (key, v) ∷ []
  insert key v (entry ∷ m) =
      let rest = insert key v m in if key == entry.0 then (key, v) ∷ m else entry ∷ rest

  -- `delete(m, key)`
  unfoldable pub delete : K → List (K × V) → List (K × V)
  delete key [] = []
  delete key (entry ∷ m) = let rest = delete key m in if key == entry.0 then rest else entry ∷ rest

  -- `_, ok := m[key]`
  unfoldable pub has_key : K → List (K × V) → Bool
  has_key key [] = false
  has_key key (entry ∷ m) = if key == entry.0 then true else has_key key m

  pub lookup-insert :
      (new key : K) (v : V) (m : List (K × V))
      → lookup key (insert new v m) ≡ (if key == new then some v else lookup key m)
  unfolding lookup insert
  lookup-insert new key v [] = refl
  lookup-insert new key v (entry ∷ m) = ground (
    arith,
    lookup-insert new key v m,
    c.same_iff key new,
    c.same_iff new entry.0,
    c.same_iff key entry.0,
  )

  pub lookup-insert_self :
      (key : K) (v : V) (m : List (K × V)) → lookup key (insert key v m) ≡ some v
  lookup-insert_self key v m = lookup-insert key key v m ∙ rw (same_self key) refl

  pub lookup-delete :
      (gone key : K) (m : List (K × V))
      → lookup key (delete gone m) ≡ (if key == gone then none else lookup key m)
  unfolding lookup delete
  lookup-delete gone key [] = ground arith
  lookup-delete gone key (entry ∷ m) = ground (
    arith,
    lookup-delete gone key m,
    c.same_iff key gone,
    c.same_iff gone entry.0,
    c.same_iff key entry.0,
  )

  pub has_key-insert :
      (new key : K) (v : V) (m : List (K × V))
      → has_key key (insert new v m) ≡ (if key == new then true else has_key key m)
  unfolding has_key insert
  has_key-insert new key v [] = refl
  has_key-insert new key v (entry ∷ m) = ground (
    arith,
    has_key-insert new key v m,
    c.same_iff key new,
    c.same_iff new entry.0,
    c.same_iff key entry.0,
  )
