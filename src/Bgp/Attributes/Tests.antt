-- ===== src/Bgp/Attributes/Tests.antt =====
-- ORIGIN and LOCAL_PREF of an attribute list, and a comparison with nothing sorted.
use gobmp.Prelude.{ℕ, All, arith, inr, map, ◌≡◌, ◌++◌, true, false, List, [], ◌∷◌, length}
use gobmp.Go.{ok}
use gobmp.Go.Scan.{encode_all}
use gobmp.Bgp.PathAttribute.RoundTrip.{encode_by_flags}
use gobmp.Bgp.Attributes.{BaseAttributes, no_attributes, unmarshal_base_attributes}
use gobmp.Bgp.Attributes.Samples.{plain_formats}
use gobmp.Bgp.Attributes.Meaning.{
  Value, origin_code, path_segment, med_number, community_pairs, unknown, attribute_of, IsSaid,
  unmarshal_base_attributes-told,
}
use gobmp.Bgp.Attributes.Equality.{Sorting, equal, equal_atomic_agg}

-- The order of the elements is kept.
abbrev unsorted : Sorting
unsorted = record { sort_numbers = λ xs. xs; sort_texts = λ xs. xs; decimal = λ n. "n" }

abbrev some_attributes : BaseAttributes
some_attributes = record no_attributes {
  as_path = 65000 ∷ 1 ∷ [];
  as_path_count = 2;
  origin = "igp";
  is_atomic_agg = true;
}

equal_atomic_agg_example :
    (equal unsorted
        (record some_attributes { is_atomic_agg = false })
        (record some_attributes { is_atomic_agg = true })
      ≡ (true, []))
    × (equal unsorted
          (record some_attributes { is_atomic_agg = true })
          (record some_attributes { is_atomic_agg = false })
        ≡ (false, "is_atomic_agg mismatch: true and false" ∷ []))
equal_atomic_agg_example = equal_atomic_agg unsorted some_attributes

-- EGP, a path of two numbers in four bytes, MED 258, two communities and an attribute of type 99, the MED
-- with a length of two bytes.
abbrev five_values : List (ℕ × Value)
five_values =
    (0x40, origin_code 1)
    ∷ (0x40, path_segment true 2 65001 (100 ∷ []))
    ∷ (0x90, med_number 258)
    ∷ (0xc0, community_pairs ((65000, 1) ∷ (65000, 2) ∷ []))
    ∷ (0xc0, unknown 99 (7 ∷ []))
    ∷ []

five_values-IsSaid : All IsSaid five_values
five_values-IsSaid = (
  (omega arith, tt),
  (
    (omega arith, tt),
    (
      (omega arith, tt),
      (
        (omega arith, ((omega arith, omega arith), ((omega arith, omega arith), tt))),
        (
          (
            omega arith,
            record {
              below = inr (omega arith);
              not_16 = λ e. omega arith;
              not_17 = λ e. omega arith;
              not_18 = λ e. omega arith;
              not_23 = λ e. omega arith;
              not_32 = λ e. omega arith;
            },
          ),
          tt,
        ),
      ),
    ),
  ),
)

unmarshal_base_attributes-told_example :
    unmarshal_base_attributes plain_formats (record {
      len = length (encode_all encode_by_flags (map attribute_of five_values));
      mem = encode_all encode_by_flags (map attribute_of five_values) ++ (9 ∷ []);
    })
    ≡ ok (record no_attributes {
      origin = "egp";
      as_path = 65001 ∷ 100 ∷ [];
      as_path_count = 2;
      med = 258;
      community_list = "n:n" ∷ "n:n" ∷ [];
      hash = "digest";
    })
unmarshal_base_attributes-told_example =
    unmarshal_base_attributes-told plain_formats five_values (9 ∷ []) five_values-IsSaid
