-- ===== src/Bgp/Update/Tests.antt =====
-- An UPDATE of 10.0.0.0/8 with ORIGIN and MED, and with a withdrawn prefix.
use gobmp.Prelude.{◌≡◌, ◌++◌, List, [], ◌∷◌, refl, length}
use gobmp.Go.{ok, index, slice, uint16_at}
use gobmp.Go.Scan.{encode_all}
use gobmp.Bgp.PathAttribute.{PathAttribute, is_extended}
use gobmp.Bgp.PathAttribute.RoundTrip.{encode_attribute}
use gobmp.Bgp.Attributes.{
  BaseAttributes, no_attributes, unmarshal_base_attributes, attributes_from, attribute_header,
  set_attribute, unmarshal_origin, unmarshal_number,
}
use gobmp.Bgp.Attributes.Samples.{plain_formats}
use gobmp.Bgp.Update.{unmarshal_update}
use gobmp.Bgp.Update.RoundTrip.{encode_update, unmarshal_update-encode}

abbrev origin_and_med : List PathAttribute
origin_and_med =
    (record { flags = 0x40; attribute_type = 1; length = 1; attribute = 1 ∷ [] })
    ∷ (record { flags = 0x80; attribute_type = 4; length = 4; attribute = 0 ∷ 0 ∷ 1 ∷ 2 ∷ [] })
    ∷ []

abbrev base_egp : BaseAttributes
base_egp = record no_attributes { origin = "egp"; med = 258; hash = "digest" }

reads_base :
    unmarshal_base_attributes plain_formats (record {
      len = length (encode_all encode_attribute origin_and_med);
      mem = encode_all encode_attribute origin_and_med ++ ((8 ∷ 10 ∷ []) ++ (0 ∷ []));
    })
    ≡ ok base_egp
unfolding unmarshal_base_attributes attributes_from attribute_header set_attribute unmarshal_origin
    unmarshal_number is_extended index slice uint16_at
reads_base = refl

unmarshal_update-encode_example :
    unmarshal_update plain_formats (record {
      len = length (encode_update (8 ∷ 11 ∷ []) origin_and_med (8 ∷ 10 ∷ []));
      mem = encode_update (8 ∷ 11 ∷ []) origin_and_med (8 ∷ 10 ∷ []) ++ (0 ∷ []);
    })
    ≡ ok (record {
      withdrawn_routes_length = 2;
      withdrawn_routes = 8 ∷ 11 ∷ [];
      total_path_attribute_length = 11;
      path_attributes = origin_and_med;
      nlri = 8 ∷ 10 ∷ [];
      base_attributes = base_egp;
    })
unfolding is_extended
unmarshal_update-encode_example =
    unmarshal_update-encode plain_formats (8 ∷ 11 ∷ []) (8 ∷ 10 ∷ []) (0 ∷ []) origin_and_med
      base_egp (refl, (refl, tt)) reads_base
