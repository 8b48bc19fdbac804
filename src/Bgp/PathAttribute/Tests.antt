-- ===== src/Bgp/PathAttribute/Tests.antt =====
-- ORIGIN and an MP_REACH_NLRI with a two-byte length.
use gobmp.Prelude.{arith, ◌≡◌, ◌++◌, List, [], ◌∷◌, refl, length}
use gobmp.Go.{ok}
use gobmp.Go.Scan.{encode_all}
use gobmp.Bgp.PathAttribute.{PathAttribute, unmarshal_path_attributes}
use gobmp.Bgp.PathAttribute.RoundTrip.{encode_by_flags, unmarshal_path_attributes-encode}

abbrev two_attributes : List PathAttribute
two_attributes =
    (record { flags = 0x40; attribute_type = 1; length = 1; attribute = 0 ∷ [] })
    ∷ (record { flags = 0x90; attribute_type = 14; length = 3; attribute = 0 ∷ 1 ∷ 1 ∷ [] })
    ∷ []

unmarshal_path_attributes-encode_example :
    unmarshal_path_attributes (record {
      len = length (encode_all encode_by_flags two_attributes);
      mem = encode_all encode_by_flags two_attributes ++ (9 ∷ []);
    })
    ≡ ok two_attributes
unmarshal_path_attributes-encode_example =
    unmarshal_path_attributes-encode two_attributes (9 ∷ [])
      ((omega arith, refl), ((omega arith, refl), tt))
