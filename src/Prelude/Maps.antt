-- ===== src/Prelude/Maps.antt =====
-- Go's maps, as association lists. `insert` overwrites in place, so a key stands at most once in
-- a map that the operations below have built.
use Prim.Native.Nat.{◌+◌}
use mathlib.Core.Path.{◌≡◌, refl}
use mathlib.Core.Bool.{Bool, true, false}
use mathlib.Core.Option.{Option, none, some}
use mathlib.Core.List.{List, [], ◌∷◌}
use native.Mathlib.Omega.{arith}
use swarm_cracker.Prelude.Tests.{Eq, ◌==◌, if◌then◌else◌}
use swarm_cracker.Prelude.Lists.{length}

abbrev pub Map {ℓ} : Type ℓ → Type ℓ → Type ℓ
Map K V = List (K × V)

module _ {ℓ} {K V : Type ℓ} ⦃e : Eq K⦄ where
  -- `v, exists := m[k]`
  unfoldable pub lookup : K → Map K V → Option V
  lookup wanted [] = none
  lookup wanted ((key, value) ∷ others) = if key == wanted then some value else lookup wanted others

  -- `_, exists := m[k]`
  abbrev pub has : K → Map K V → Bool
  has k m = elim (lookup k m) [ none ↦ false | some v ↦ true ]

  -- `m[k] = v`
  unfoldable pub insert : K → V → Map K V → Map K V
  insert wanted value [] = (wanted, value) ∷ []
  insert wanted value ((key, old) ∷ others) =
      if key == wanted then (wanted, value) ∷ others else (key, old) ∷ insert wanted value others

  -- `delete(m, k)`
  unfoldable pub erase : K → Map K V → Map K V
  erase k [] = []
  erase k ((j, v) ∷ m) = let rest = erase k m in if j == k then rest else (j, v) ∷ rest

  pub lookup-insert :
      (written read : K) (value : V) (m : Map K V)
      → lookup read (insert written value m)
        ≡ (if written == read then some value else lookup read m)
  unfolding lookup insert
  lookup-insert written read value [] = refl
  lookup-insert written read value ((key, old) ∷ others) = ground (
    arith,
    e.same_iff written read,
    e.same_iff key written,
    e.same_iff key read,
    lookup-insert written read value others,
  )

  pub lookup-erase :
      (k j : K) (m : Map K V) → lookup j (erase k m) ≡ (if k == j then none else lookup j m)
  unfolding lookup erase
  lookup-erase k j [] = ground arith
  lookup-erase k j ((i, w) ∷ m) =
      ground (arith, e.same_iff k j, e.same_iff i k, e.same_iff i j, lookup-erase k j m)

  pub has-insert :
      (k j : K) (v : V) (m : Map K V) → has j (insert k v m) ≡ (if k == j then true else has j m)
  has-insert k j v m = ground (arith, lookup-insert k j v m)

  pub has-erase : (k j : K) (m : Map K V) → has j (erase k m) ≡ (if k == j then false else has j m)
  has-erase k j m = ground (arith, lookup-erase k j m)

  -- A fresh key makes the map longer by one.
  pub length-insert_fresh :
      (k : K) (v : V) (m : Map K V) → has k m ≡ false → length (insert k v m) ≡ length m + 1
  unfolding lookup insert
  length-insert_fresh k v [] h = omega arith
  length-insert_fresh k v ((j, w) ∷ m) h = ground (arith, length-insert_fresh k v m)

pub beq_refl {ℓ} : {K : Type ℓ} ⦃e : Eq K⦄ (k : K) → (k == k) ≡ true
beq_refl ⦃e⦄ k = (e.same_iff k k).1 refl

pub ruleset map_laws = (lookup-insert, lookup-erase, has-insert, has-erase)
