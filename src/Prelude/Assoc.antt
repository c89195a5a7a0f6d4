-- ===== src/Prelude/Assoc.antt =====
-- `HashSet` and `HashMap`. A set is a list without repeats, a map an association list with at most
-- one entry for a key. The order of entries means nothing, as in the source.
use sai3_bench.Prelude.Keys.{Key, key_eq}
use sai3_bench.Prelude.Tests.{if◌then◌else◌, Bool-cases}
use sai3_bench.Prelude.Lists.{length, All}
use Prim.Native.Nat.{suc, ◌≤◌}
use mathlib.Core.Path.{◌≡◌, refl, sym, ap, ◌∙◌}
use mathlib.Core.Logic.{inl, inr}
use mathlib.Core.Bool.{Bool, true, false, ◌||◌}
use mathlib.Core.List.{List, [], ◌∷◌}
use native.Mathlib.Omega.{arith}

module _ {ℓ} {K : Type ℓ} ⦃e : Key K⦄ where
  -- HashSet::contains
  unfoldable pub contains : K → List K → Bool
  contains k [] = false
  contains k (x ∷ xs) = key_eq x k || contains k xs

  -- HashSet::insert
  unfoldable pub set_insert : K → List K → List K
  set_insert k xs = if contains k xs then xs else k ∷ xs

  erase : K → List K → List K
  erase k [] = []
  erase k (x ∷ xs) = if key_eq x k then xs else x ∷ erase k xs

  abbrev pub IsNodup : List K → Type 0
  IsNodup [] = Unit {0}
  IsNodup (x ∷ xs) = (contains x xs ≡ false) × IsNodup xs

  abbrev pub Subset : List K → List K → Type 0
  Subset xs ys = All (λ x. contains x ys ≡ true) xs

  pub key_eq_refl : (k : K) → key_eq k k ≡ true
  key_eq_refl k = (e.beq_iff k k).1 refl

  pub key_eq-ne : (k j : K) → key_eq k j ≡ false → key_eq j k ≡ false
  key_eq-ne k j h = ground (arith, e.beq_iff k j, e.beq_iff j k)

  pub contains-eq : (k j : K) (xs : List K) → key_eq k j ≡ true → contains j xs ≡ contains k xs
  contains-eq k j xs h = ap (λ i. contains i xs) (sym ((e.beq_iff k j).0 h))

  pub contains-set_insert :
      (k j : K) (xs : List K) → contains j (set_insert k xs) ≡ (key_eq k j || contains j xs)
  unfolding contains set_insert
  contains-set_insert k j xs = ground (arith, contains-eq k j xs)

  pub IsNodup-set_insert : (k : K) (xs : List K) → IsNodup xs → IsNodup (set_insert k xs)
  unfolding set_insert
  IsNodup-set_insert k xs h = ground arith

  pub length-set_insert :
      (k : K) (xs : List K)
      → length (set_insert k xs) ≡ (if contains k xs then length xs else suc (length xs))
  unfolding set_insert
  length-set_insert k xs = ground arith

  pub Subset-cons : (x : K) (xs ys : List K) → Subset xs ys → Subset xs (x ∷ ys)
  unfolding contains
  Subset-cons x [] ys h = tt
  Subset-cons x (z ∷ xs) ys h = (ground (arith, h.0), Subset-cons x xs ys h.1)

  pub Subset-refl : (xs : List K) → Subset xs xs
  unfolding contains
  Subset-refl [] = tt
  Subset-refl (x ∷ xs) = (ground (arith, key_eq_refl x), Subset-cons x xs xs (Subset-refl xs))

  pub contains-Subset :
      (k : K) (xs ys : List K) → Subset xs ys → contains k xs ≡ true → contains k ys ≡ true
  unfolding contains
  contains-Subset k [] ys h c = cc
  contains-Subset k (x ∷ xs) ys h c =
      ground (arith, contains-Subset k xs ys h.1, contains-eq x k ys, h.0)

  -- A subset, from a statement about each member.
  pub Subset-intro :
      (xs ys : List K) → ((k : K) → contains k xs ≡ true → contains k ys ≡ true) → Subset xs ys
  unfolding contains
  Subset-intro [] ys h = tt
  Subset-intro (x ∷ xs) ys h =
      (h x (ground (arith, key_eq_refl x)), Subset-intro xs ys (λ k c. h k (ground arith)))

  contains-erase :
      (k j : K) (xs : List K) → key_eq k j ≡ false → contains j (erase k xs) ≡ contains j xs
  unfolding contains erase
  contains-erase k j [] h = refl
  contains-erase k j (x ∷ xs) h =
      ground (arith, contains-erase k j xs h, e.beq_iff x k, e.beq_iff x j, e.beq_iff k j)

  length-erase :
      (k : K) (xs : List K) → contains k xs ≡ true → suc (length (erase k xs)) ≡ length xs
  unfolding contains erase
  length-erase k [] h = cc
  length-erase k (x ∷ xs) h = ground (arith, length-erase k xs)

  Subset-erase :
      (k : K) (xs ys : List K) → contains k xs ≡ false → Subset xs ys → Subset xs (erase k ys)
  unfolding contains
  Subset-erase k [] ys c h = tt
  Subset-erase k (x ∷ xs) ys c h = (
    contains-erase k x ys (ground (arith, key_eq-ne x k)) ∙ h.0,
    Subset-erase k xs ys (ground arith) h.1,
  )

  -- A set is no longer than a list that has all its members.
  pub length-Subset : (xs ys : List K) → IsNodup xs → Subset xs ys → length xs ≤ length ys
  length-Subset [] ys d h = omega arith
  length-Subset (x ∷ xs) ys d h = omega (
    arith,
    length-erase x ys h.0,
    length-Subset xs (erase x ys) d.1 (Subset-erase x xs ys d.0 h.1),
  )

  -- A set that is as long as a list around it has all the list's members.
  pub contains_of_full :
      (xs ys : List K)
      → IsNodup xs
      → Subset xs ys
      → length ys ≤ length xs
      → (k : K) → contains k ys ≡ true
      → contains k xs ≡ true
  unfolding contains
  contains_of_full [] [] d h l k c = cc
  contains_of_full [] (y ∷ ys) d h l k c = absurd (omega arith)
  contains_of_full (x ∷ xs) ys d h l k c = elim (Bool-cases (key_eq x k)) [
    | inl same ↦ ground arith
    | inr other ↦ ground (
      arith,
      contains_of_full xs (erase x ys) d.1 (Subset-erase x xs ys d.0 h.1)
          (omega (arith, length-erase x ys h.0)) k (contains-erase x k ys other ∙ c),
    )
  ]
