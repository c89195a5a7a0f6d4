-- ===== src/MetadataCache/Keys.antt =====
-- The keys of objects in src/metadata_cache.rs name one object each.
use mathlib.Core.List.{append_cancel_right}
use sai3_bench.Prelude.{
  ℕ, String, ◌≡◌, sym, ap, ◌∙◌, subst, true, ◌&&◌, ◌==◌, inl, inr, some, ◌∷◌, ◌++◌, arith,
  Bool-cases,
}
use sai3_bench.Prelude.Keys.{list_eq, list_eq_refl, list_eq-eq}
use sai3_bench.Prelude.Text.{codes, decimal_8, digits_value, digits_value-decimal_8}
use sai3_bench.Routing.{after_last}
use sai3_bench.Routing.Paths.{after_last-append, no_such}
use sai3_bench.MetadataCache.{object_key}

number_of_key : (h : String) (i : ℕ) → after_last 58 (object_key h i) ≡ some (decimal_8 i)
unfolding object_key
number_of_key h i = after_last-append 58 (codes h) (decimal_8 i) (no_such 58 i (inr (omega arith)))

decimal_8_injective : (i j : ℕ) → decimal_8 i ≡ decimal_8 j → i ≡ j
decimal_8_injective i j e =
    sym (digits_value-decimal_8 i) ∙ ap (digits_value 0) e ∙ digits_value-decimal_8 j

same_number : (h k : String) (i j : ℕ) → object_key h i ≡ object_key k j → i ≡ j
same_number h k i j e =
    let numbers : some (decimal_8 i) ≡ some (decimal_8 j) =
      sym (number_of_key h i) ∙ ap (after_last 58) e ∙ number_of_key k j in
    decimal_8_injective i j (ground (arith, numbers))

same_hash : (h k : String) (i j : ℕ) → object_key h i ≡ object_key k j → codes h ≡ codes k
unfolding object_key
same_hash h k i j e =
    let same = same_number h k i j e in
    append_cancel_right (codes h) (codes k) (58 ∷ decimal_8 j)
      (subst (λ n. codes h ++ 58 ∷ decimal_8 n ≡ codes k ++ 58 ∷ decimal_8 j) same e)

pub object_key-list_eq :
    (h k : String) (i j : ℕ)
    → list_eq (object_key h i) (object_key k j) ≡ (list_eq (codes h) (codes k) && (i == j))
object_key-list_eq h k i j = elim (Bool-cases (list_eq (object_key h i) (object_key k j))) [
  | inl e ↦
      let keys = list_eq-eq (object_key h i) (object_key k j) e in
      let hashes : list_eq (codes h) (codes k) ≡ true =
        subst (λ t. list_eq (codes h) t ≡ true) (same_hash h k i j keys) (list_eq_refl (codes h)) in
      ground (arith, e, hashes, same_number h k i j keys)
  | inr e ↦ elim (Bool-cases (list_eq (codes h) (codes k) && (i == j))) [
    | inl both ↦ absurd (ground (arith, e, from_both both))
    | inr f ↦ e ∙ sym f
  ]
]
  where
    from_both :
        (list_eq (codes h) (codes k) && (i == j)) ≡ true
        → list_eq (object_key h i) (object_key k j) ≡ true
    from_both both =
        let same : codes h ≡ codes k = list_eq-eq (codes h) (codes k) (ground (arith, both)) in
        let n : i ≡ j = ground (arith, both) in
        let keys : object_key h i ≡ object_key k j =
          unfold object_key in (λ x. same x ++ 58 ∷ decimal_8 (n x)) in
        subst (λ t. list_eq (object_key h i) t ≡ true) keys (list_eq_refl (object_key h i))
