-- ===== src/Bgp/ExtCommunity/Text/Tests.antt =====
-- A route target and a flow specification's rate.
use Prim.Native.String.{String}
use gobmp.Prelude.{◌≡◌, List, [], ◌∷◌, ◌++◌, length}
use gobmp.Go.{ok}
use gobmp.Go.Scan.{encode_all}
use gobmp.Bgp.Attributes.Samples.{plain_texts}
use gobmp.Bgp.ExtCommunity.RoundTrip.{Raw, encode_raw}
use gobmp.Bgp.ExtCommunity.Text.{unmarshal_attr_ext_community}
use gobmp.Bgp.ExtCommunity.Text.Total.{unmarshal_attr_ext_community_total}

abbrev two : List Raw
two =
    record { t = 0; s = 2; a = 253; b = 232; c = 0; d = 0; e = 0; f = 100 }
    ∷ record { t = 128; s = 6; a = 0; b = 0; c = 1; d = 2; e = 3; f = 4 }
    ∷ []

unmarshal_attr_ext_community_total_example :
    (xs : List String) × (unmarshal_attr_ext_community plain_texts
        (record { len = 16; mem = encode_all encode_raw two ++ (9 ∷ []) })
      ≡ ok xs)
    × (length xs ≡ 2)
unmarshal_attr_ext_community_total_example =
    unmarshal_attr_ext_community_total plain_texts two (9 ∷ [])
