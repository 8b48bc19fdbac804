-- ===== src/Bgp/ExtCommunity/Tests.antt =====
-- A route target, an opaque community and one of an unknown type.
use gobmp.Prelude.{◌≡◌, List, [], ◌∷◌, ◌++◌, some, none}
use gobmp.Go.{ok}
use gobmp.Go.Scan.{encode_all}
use gobmp.Bgp.ExtCommunity.{unmarshal_ext_community}
use gobmp.Bgp.ExtCommunity.RoundTrip.{Raw, encode_raw, unmarshal_ext_community-encode}

abbrev three : List Raw
three =
    record { t = 0; s = 2; a = 253; b = 232; c = 0; d = 0; e = 0; f = 100 }
    ∷ record { t = 67; s = 1; a = 0; b = 0; c = 1; d = 2; e = 3; f = 4 }
    ∷ record { t = 9; s = 1; a = 2; b = 3; c = 4; d = 5; e = 6; f = 7 }
    ∷ []

unmarshal_ext_community-encode_example :
    unmarshal_ext_community (record { len = 24; mem = encode_all encode_raw three ++ (9 ∷ []) })
    ≡ ok (
        record { ext_type = 0; sub_type = some 2; value = 253 ∷ 232 ∷ 0 ∷ 0 ∷ 0 ∷ 100 ∷ [] }
        ∷ record { ext_type = 67; sub_type = some 1; value = 1 ∷ 2 ∷ 3 ∷ 4 ∷ 0 ∷ 0 ∷ [] }
        ∷ record { ext_type = 9; sub_type = none; value = 1 ∷ 2 ∷ 3 ∷ 4 ∷ 5 ∷ 6 ∷ 7 ∷ [] }
        ∷ [])
unmarshal_ext_community-encode_example = unmarshal_ext_community-encode three (9 ∷ [])
