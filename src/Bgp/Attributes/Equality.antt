-- ===== src/Bgp/Attributes/Equality.antt =====
-- `BaseAttributes.Equal` of pkg/bgp/bgp-base-attributes.go. The merge sort of the tools library is a
-- parameter; a nil slice and an empty one are both the empty list.
use Prim.Native.String.{String}
use Prim.Native.String.{◌++◌ as join_text}
use text.Mathlib.Text.{◌==◌ as str_eq}
use text.Mathlib.TextPositions.{eq_refl}
use gobmp.Prelude.{
  ℕ, ◌≡◌, refl, Bool, true, false, not, ◌&&◌, List, [], ◌∷◌, ◌++◌, ◌==◌, ==_iff, if◌then◌else◌,
}
use gobmp.Bgp.Attributes.{BaseAttributes}

numbers_eq : List ℕ → List ℕ → Bool
numbers_eq [] [] = true
numbers_eq (x ∷ xs) (y ∷ ys) = x == y && numbers_eq xs ys
numbers_eq _ _ = false

texts_eq : List String → List String → Bool
texts_eq [] [] = true
texts_eq (x ∷ xs) (y ∷ ys) = str_eq x y && texts_eq xs ys
texts_eq _ _ = false

numbers_eq_refl : (xs : List ℕ) → numbers_eq xs xs ≡ true
unfolding numbers_eq
numbers_eq_refl [] = refl
numbers_eq_refl (x ∷ xs) = rw ((==_iff x x).1 refl, numbers_eq_refl xs)

texts_eq_refl : (xs : List String) → texts_eq xs xs ≡ true
unfolding texts_eq
texts_eq_refl [] = refl
texts_eq_refl (x ∷ xs) = rw (eq_refl x, texts_eq_refl xs)

-- The library functions that the comparison calls.
pub record Sorting : Type 0 where
  pub sort_numbers : List ℕ → List ℕ
  pub sort_texts : List String → List String
  pub decimal : ℕ → String

-- One `if a != b { equal = false; diffs = append(diffs, text) }`.
abbrev check : Bool → String → Bool × List String → Bool × List String
check same text (equal, diffs) = if same then (equal, diffs) else (false, diffs ++ (text ∷ []))

infixr 65 ◌<>◌
abbrev ◌<>◌ : String → String → String
a <> b = join_text a b

bool_text : Bool → String
bool_text true = "true"
bool_text false = "false"

module _ (lib : Sorting) where
  abbrev between : String → String → String → String
  between label x y = label <> x <> " and " <> y

  -- The tests in the order of the source; the last one made is outermost.
  pub equal : BaseAttributes → BaseAttributes → Bool × List String
  equal ba oba =
      check (texts_eq (lib.sort_texts ba.lg_community_list) (lib.sort_texts oba.lg_community_list))
        "large_community_list mismatch"
        (check (numbers_eq ba.as4_aggregator oba.as4_aggregator) "as4_aggregator mismatch" (
          check (ba.as4_path_count == oba.as4_path_count)
            (between "as4_path_count mismatch: " (lib.decimal ba.as4_path_count)
              (lib.decimal oba.as4_path_count))
            (check (numbers_eq (lib.sort_numbers ba.as4_path) (lib.sort_numbers oba.as4_path))
              "as4_path mismatch"
              (check
                (texts_eq (lib.sort_texts ba.ext_community_list)
                  (lib.sort_texts oba.ext_community_list))
                "ext_community_list mismatch"
                (check (str_eq ba.cluster_list oba.cluster_list)
                  (between "cluster_list mismatch: " ba.cluster_list oba.cluster_list)
                  (check (str_eq ba.originator_id oba.originator_id)
                    (between "originator_id mismatch: " ba.originator_id oba.originator_id)
                    (check
                      (texts_eq (lib.sort_texts ba.community_list)
                        (lib.sort_texts oba.community_list))
                      "community_list mismatch"
                      (check (numbers_eq ba.aggregator oba.aggregator) "aggregator mismatch" (
                        check (not (ba.is_atomic_agg && not oba.is_atomic_agg))
                          (between "is_atomic_agg mismatch: " (bool_text ba.is_atomic_agg)
                            (bool_text oba.is_atomic_agg))
                          (check (ba.local_pref == oba.local_pref)
                            (between "local_pref mismatch: " (lib.decimal ba.local_pref)
                              (lib.decimal oba.local_pref))
                            (check (ba.med == oba.med)
                              (between "as_path_count mismatch: " (lib.decimal ba.med)
                                (lib.decimal oba.med))
                              (check (str_eq ba.nexthop oba.nexthop)
                                (between "nexthop mismatch: " ba.nexthop oba.nexthop)
                                (check (ba.as_path_count == oba.as_path_count)
                                  (between "as_path_count mismatch: " (lib.decimal ba.as_path_count)
                                    (lib.decimal oba.as_path_count))
                                  (check
                                    (numbers_eq (lib.sort_numbers ba.as_path)
                                      (lib.sort_numbers oba.as_path))
                                    "as_path mismatch"
                                    (check (str_eq ba.origin oba.origin)
                                      (between "origin mismatch: " ba.origin oba.origin)
                                      (true, []))))))))))))))))

  number_refl : (n : ℕ) → (n == n) ≡ true
  number_refl n = (==_iff n n).1 refl

  -- The comparison is not symmetric: two sets of attributes that differ in ATOMIC_AGGREGATE alone
  -- are equal from the side that lacks it, and differ from the side that has it.
  pub equal_atomic_agg :
      (ba : BaseAttributes)
      → (equal (record ba { is_atomic_agg = false }) (record ba { is_atomic_agg = true })
          ≡ (true, []))
        × (equal (record ba { is_atomic_agg = true }) (record ba { is_atomic_agg = false })
            ≡ (false, "is_atomic_agg mismatch: true and false" ∷ []))
  unfolding equal bool_text
  equal_atomic_agg ba = (
    simp (eq_refl, number_refl, numbers_eq_refl, texts_eq_refl),
    simp (eq_refl, number_refl, numbers_eq_refl, texts_eq_refl),
  )

  -- Attributes are equal to themselves, with no difference reported.
  pub equal_refl : (ba : BaseAttributes) → equal ba ba ≡ (true, [])
  unfolding equal
  equal_refl ba =
      simp (eq_refl, number_refl, numbers_eq_refl, texts_eq_refl, atomic ba.is_atomic_agg)
    where
      atomic : (b : Bool) → (b && not b) ≡ false
      atomic true = refl
      atomic false = refl
