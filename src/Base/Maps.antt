-- ===== src/Base/Maps.antt =====
-- Go maps as association lists in order of insertion, over keys with decidable equality.
use mathlib.Core.Path.{◌≡◌, refl}
use mathlib.Core.Logic.{ite, ◌≢◌}
use mathlib.Core.Bool.{Bool}
use mathlib.Core.List.{List, [], ◌∷◌, ◌++◌}
use mathlib.Core.Option.{Option, none, some}
use native.Mathlib.Omega.{arith}
use galaxy.Base.Tests.{if◌then◌else◌}
use galaxy.Base.Lists.{In, Distinct, filter, length}

module _ {ℓ} {K V : Type ℓ} (eq : Discrete K) where
  -- `m[k]` with its second result.
  unfoldable pub lookup : K → List (K × V) → Option V
  lookup k [] = none
  lookup k ((j, v) ∷ m) = ite (eq j k) (some v) (lookup k m)

  -- `m[k] = v`.
  unfoldable pub insert : K → V → List (K × V) → List (K × V)
  insert k v [] = (k, v) ∷ []
  insert k v ((j, w) ∷ m) = ite (eq j k) ((k, v) ∷ m) ((j, w) ∷ insert k v m)

  pub lookup-insert :
      (k j : K) (v : V) (m : List (K × V))
      → lookup j (insert k v m) ≡ ite (eq k j) (some v) (lookup j m)
  unfolding lookup insert
  lookup-insert k j v [] = refl
  lookup-insert k j v ((i, w) ∷ m) = ground (arith, lookup-insert k j v m)

  pub lookup-insert_self : (k : K) (v : V) (m : List (K × V)) → lookup k (insert k v m) ≡ some v
  lookup-insert_self k v m = ground (arith, lookup-insert k k v m)

  pub lookup-insert_ne :
      (k j : K) (v : V) (m : List (K × V)) → j ≢ k → lookup j (insert k v m) ≡ lookup j m
  lookup-insert_ne k j v m n = ground (arith, lookup-insert k j v m)

abbrev pub keys {ℓ κ} : {K : Type ℓ} {V : Type κ} → List (K × V) → List K
keys [] = []
keys ((k, v) ∷ m) = k ∷ keys m

abbrev pub vals {ℓ κ} : {K : Type ℓ} {V : Type κ} → List (K × V) → List V
vals [] = []
vals ((k, v) ∷ m) = v ∷ vals m

-- A key is found where it stands among the keys; writing an absent key puts it at the end.
module _ {K V : Type 0} (eq : Discrete K) where
  pub lookup-absent : (k : K) (m : List (K × V)) → lookup eq k m ≡ none → ¬ In k (keys m)
  unfolding lookup
  lookup-absent k [] h i = i
  lookup-absent k ((j, v) ∷ m) h i = ground (arith, lookup-absent k m)

  pub lookup-present : (k : K) (m : List (K × V)) (v : V) → lookup eq k m ≡ some v → In k (keys m)
  unfolding lookup
  lookup-present k [] v h = cc
  lookup-present k ((j, w) ∷ m) v h = ground (arith, lookup-present k m v)

  pub lookup-In_vals : (k : K) (m : List (K × V)) (v : V) → lookup eq k m ≡ some v → In v (vals m)
  unfolding lookup
  lookup-In_vals k [] v h = cc
  lookup-In_vals k ((j, w) ∷ m) v h = ground (arith, lookup-In_vals k m v)

  pub keys-insert :
      (k : K) (v : V) (m : List (K × V))
      → lookup eq k m ≡ none
      → keys (insert eq k v m) ≡ keys m ++ k ∷ []
  unfolding lookup insert
  keys-insert k v [] h = refl
  keys-insert k v ((j, w) ∷ m) h = ground (arith, keys-insert k v m)

  pub vals-insert :
      (k : K) (v : V) (m : List (K × V))
      → lookup eq k m ≡ none
      → vals (insert eq k v m) ≡ vals m ++ v ∷ []
  unfolding lookup insert
  vals-insert k v [] h = refl
  vals-insert k v ((j, w) ∷ m) h = ground (arith, vals-insert k v m)

  pub keys-overwrite :
      (k : K) (v w : V) (m : List (K × V))
      → lookup eq k m ≡ some w
      → keys (insert eq k v m) ≡ keys m
  unfolding lookup insert
  keys-overwrite k v w [] h = cc
  keys-overwrite k v w ((j, u) ∷ m) h = ground (arith, keys-overwrite k v w m)

  pub lookup-none : (k : K) (m : List (K × V)) → ¬ In k (keys m) → lookup eq k m ≡ none
  unfolding lookup
  lookup-none k [] n = refl
  lookup-none k ((j, v) ∷ m) n = ground (arith, lookup-none k m)

  -- What is left of an entry where those that fail the test are deleted.
  abbrev pub kept : (K × V → Bool) → K → Option V → Option V
  kept p k none = none
  kept p k (some v) = if p (k, v) then some v else none

  In-keys-filter :
      (p : K × V → Bool) (k : K) (m : List (K × V)) → In k (keys (filter p m)) → In k (keys m)
  In-keys-filter p k [] h = h
  In-keys-filter p k ((j, v) ∷ m) h = ground (arith, In-keys-filter p k m)

  -- `delete` in a loop over the map: the entries that pass the test stay, unchanged.
  pub lookup-filter :
      (p : K × V → Bool) (k : K) (m : List (K × V))
      → Distinct (keys m)
      → lookup eq k (filter p m) ≡ kept p k (lookup eq k m)
  unfolding lookup
  lookup-filter p k [] d = refl
  lookup-filter p k ((j, v) ∷ m) d = elim (eq j k) [
    | yes e ↦
        let gone : lookup eq k (filter p m) ≡ none =
          lookup-none k (filter p m) (λ i. d.0 (rw e (In-keys-filter p k m i))) in
        ground (arith, gone)
    | no n ↦ ground (arith, lookup-filter p k m d.1)
  ]

  pub Distinct-filter :
      (p : K × V → Bool) (m : List (K × V)) → Distinct (keys m) → Distinct (keys (filter p m))
  Distinct-filter p [] d = tt
  Distinct-filter p ((j, v) ∷ m) d = ground (arith, Distinct-filter p m d.1, In-keys-filter p j m)

pub length-keys {ℓ κ} :
    {K : Type ℓ} {V : Type κ} (m : List (K × V)) → length (keys m) ≡ length (vals m)
length-keys [] = refl
length-keys ((k, v) ∷ m) = omega (arith, length-keys m)
