-- ===== src/Base/Dict.antt =====
-- A Python dict in insertion order, as an association list over any comparable key.
use signal_count.Base.Tests.{if◌then◌else◌}
use signal_count.Base.Keys.{Eq, ◌==◌, is_mem}
use mathlib.Core.Path.{◌≡◌, refl}
use mathlib.Core.Option.{Option, none, some}
use mathlib.Core.List.{List, [], ◌∷◌}
use native.Mathlib.Omega.{arith}

abbrev pub Dict {ℓ κ} : Type ℓ → Type κ → Type (ℓ ⊔ κ)
Dict K V = List (K × V)

module _ {ℓ κ} {K : Type ℓ} {V : Type κ} ⦃e : Eq K⦄ where
  -- `d.get(k)`
  abbrev pub lookup : K → Dict K V → Option V
  lookup k [] = none
  lookup k ((j, v) ∷ d) = if j == k then some v else lookup k d

  -- `d[k] = v`
  abbrev pub insert : K → V → Dict K V → Dict K V
  insert k v [] = (k, v) ∷ []
  insert k v ((j, w) ∷ d) = if j == k then (j, v) ∷ d else (j, w) ∷ insert k v d

  -- `{k: v for k in ks}`, on top of `d`
  abbrev pub add_keys : V → List K → Dict K V → Dict K V
  add_keys v [] d = d
  add_keys v (k ∷ ks) d = add_keys v ks (insert k v d)

  pub lookup-insert :
      (k j : K) (v : V) (d : Dict K V)
      → lookup j (insert k v d) ≡ (if k == j then some v else lookup j d)
  lookup-insert k j v [] = refl
  lookup-insert k j v ((i, w) ∷ d) =
      ground (arith, e.beq_iff k j, e.beq_iff i k, e.beq_iff i j, lookup-insert k j v d)

  pub lookup-add_keys :
      (v : V) (ks : List K) (j : K) (d : Dict K V)
      → lookup j (add_keys v ks d) ≡ (if is_mem j ks then some v else lookup j d)
  lookup-add_keys v [] j d = refl
  lookup-add_keys v (k ∷ ks) j d =
      ground (arith, lookup-add_keys v ks j (insert k v d), lookup-insert k j v d)

-- `del d[k]`
abbrev pub remove {ℓ κ} : {K : Type ℓ} {V : Type κ} ⦃e : Eq K⦄ → K → Dict K V → Dict K V
remove k [] = []
remove k ((j, v) ∷ d) = if j == k then remove k d else (j, v) ∷ remove k d

pub lookup-remove {ℓ κ} :
    {K : Type ℓ} {V : Type κ} ⦃e : Eq K⦄ (k j : K) (d : Dict K V)
    → lookup j (remove k d) ≡ (if k == j then none else lookup j d)
lookup-remove k j [] = ground arith
lookup-remove ⦃e⦄ k j ((i, w) ∷ d) =
    ground (arith, e.beq_iff k j, e.beq_iff i k, e.beq_iff i j, lookup-remove k j d)
