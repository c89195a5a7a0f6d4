-- ===== src/Prelude/Maps.antt =====
-- `HashMap`, as an association list.
use Prim.Native.Nat.{suc}
use mathlib.Core.Path.{◌≡◌, refl, ap}
use mathlib.Core.Bool.{true, false, ◌||◌}
use mathlib.Core.Option
use mathlib.Core.Option.{Option, none, some}
use mathlib.Core.List.{List, [], ◌∷◌}
use native.Mathlib.Omega.{arith}
use sai3_bench.Prelude.Tests.{if◌then◌else◌}
use sai3_bench.Prelude.Lists.{length}
use sai3_bench.Prelude.Keys.{Key, key_eq}
use sai3_bench.Prelude.Assoc.{contains, IsNodup, key_eq_refl}

module _ {ℓ κ} {K : Type ℓ} {V : Type κ} ⦃e : Key K⦄ where
  -- HashMap::get
  unfoldable pub lookup : K → List (K × V) → Option V
  lookup k [] = none
  lookup k ((j, v) ∷ m) = if key_eq j k then some v else lookup k m

  -- HashMap::insert
  unfoldable pub insert : K → V → List (K × V) → List (K × V)
  insert k v [] = (k, v) ∷ []
  insert k v ((j, w) ∷ m) = if key_eq j k then (j, v) ∷ m else (j, w) ∷ insert k v m

  -- HashMap::get_mut and an assignment through it
  unfoldable pub update : K → (V → V) → List (K × V) → List (K × V)
  update k f [] = []
  update k f ((j, w) ∷ m) = if key_eq j k then (j, f w) ∷ m else (j, w) ∷ update k f m

  -- HashMap::keys
  abbrev pub keys : List (K × V) → List K
  keys [] = []
  keys ((j, w) ∷ m) = j ∷ keys m

  -- HashMap::values
  abbrev pub values : List (K × V) → List V
  values [] = []
  values ((j, w) ∷ m) = w ∷ values m

  -- HashMap::iter_mut and an assignment through each
  abbrev pub map_values : (V → V) → List (K × V) → List (K × V)
  map_values f [] = []
  map_values f ((j, w) ∷ m) = (j, f w) ∷ map_values f m

  pub lookup-insert :
      (k j : K) (v : V) (m : List (K × V))
      → lookup j (insert k v m) ≡ (if key_eq k j then some v else lookup j m)
  unfolding lookup insert
  lookup-insert k j v [] = refl
  lookup-insert k j v ((i, w) ∷ m) =
      ground (arith, lookup-insert k j v m, e.beq_iff k j, e.beq_iff i k, e.beq_iff i j)

  pub lookup-insert_self : (k : K) (v : V) (m : List (K × V)) → lookup k (insert k v m) ≡ some v
  lookup-insert_self k v m = rw (lookup-insert, key_eq_refl k)

  pub contains-keys-insert :
      (k j : K) (v : V) (m : List (K × V))
      → contains j (keys (insert k v m)) ≡ (key_eq k j || contains j (keys m))
  unfolding insert contains
  contains-keys-insert k j v [] = refl
  contains-keys-insert k j v ((i, w) ∷ m) =
      ground (arith, contains-keys-insert k j v m, e.beq_iff k j, e.beq_iff i k, e.beq_iff i j)

  pub IsNodup-keys-insert :
      (k : K) (v : V) (m : List (K × V)) → IsNodup (keys m) → IsNodup (keys (insert k v m))
  unfolding insert contains
  IsNodup-keys-insert k v [] h = (refl, tt)
  IsNodup-keys-insert k v ((i, w) ∷ m) h = ground (
    arith,
    IsNodup-keys-insert k v m h.1,
    contains-keys-insert k i v m,
    e.beq_iff k i,
    e.beq_iff i k,
  )

  pub lookup-update :
      (k j : K) (f : V → V) (m : List (K × V))
      → lookup j (update k f m) ≡ (if key_eq k j then Option.map f (lookup j m) else lookup j m)
  unfolding lookup update
  lookup-update k j f [] = ground arith
  lookup-update k j f ((i, w) ∷ m) =
      ground (arith, lookup-update k j f m, e.beq_iff k j, e.beq_iff i k, e.beq_iff i j)

  pub keys-update : (k : K) (f : V → V) (m : List (K × V)) → keys (update k f m) ≡ keys m
  unfolding update
  keys-update k f [] = refl
  keys-update k f ((i, w) ∷ m) = ground (arith, keys-update k f m)

  pub keys-map_values : (f : V → V) (m : List (K × V)) → keys (map_values f m) ≡ keys m
  keys-map_values f [] = refl
  keys-map_values f ((i, w) ∷ m) = ap (λ r. i ∷ r) (keys-map_values f m)

  pub length-keys : (m : List (K × V)) → length (keys m) ≡ length m
  length-keys [] = refl
  length-keys ((i, w) ∷ m) = ap suc (length-keys m)

  pub lookup-contains :
      (k : K) (v : V) (m : List (K × V)) → lookup k m ≡ some v → contains k (keys m) ≡ true
  unfolding lookup contains
  lookup-contains k v [] h = cc
  lookup-contains k v ((i, w) ∷ m) h = ground (arith, lookup-contains k v m)

  pub lookup_absent : (k : K) (m : List (K × V)) → lookup k m ≡ none → contains k (keys m) ≡ false
  unfolding lookup contains
  lookup_absent k [] h = refl
  lookup_absent k ((i, w) ∷ m) h = ground (arith, lookup_absent k m)
