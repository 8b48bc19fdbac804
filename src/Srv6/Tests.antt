-- ===== src/Srv6/Tests.antt =====
-- A service with a SID, its structure and an element of an unknown type.
use gobmp.Prelude.{◌++◌, ◌≡◌, List, [], ◌∷◌, length, suc, map, some, All, arith}
use gobmp.Go.{ok}
use gobmp.Go.Scan.{encode_all}
use gobmp.Bgp.Attributes.Samples.{plain_texts}
use gobmp.Srv6.{unmarshal_l3_service}
use gobmp.Srv6.ByType.{of_type}
use gobmp.Srv6.SubSub.{structure, other}
use gobmp.Srv6.RoundTrip.{
  Sub, IsSub, encode_sub, sub_of, info, other_sub, unmarshal_l3_service-encode,
}

abbrev two_subs : List Sub
two_subs =
    info (record {
      reserved = 0;
      sid = 32 ∷ 1 ∷ 13 ∷ 184 ∷ 0 ∷ 0 ∷ 0 ∷ 0 ∷ 0 ∷ 0 ∷ 0 ∷ 0 ∷ 0 ∷ 0 ∷ 0 ∷ 5 ∷ [];
      flags = 0;
      endpoint_behavior = 18;
      subs = some (
        0,
        structure (record {
          local_block_length = 40;
          local_node_length = 24;
          function_length = 16;
          argument_length = 0;
          transposition_length = 16;
          transposition_offset = 64;
        })
            ∷ other 7 (1 ∷ [])
            ∷ [],
      );
    })
    ∷ other_sub 9 (1 ∷ 2 ∷ [])
    ∷ []

two_subs-IsSub : All IsSub two_subs
two_subs-IsSub = omega arith

unmarshal_l3_service-encode_example :
    unmarshal_l3_service plain_texts (record {
      len = suc (length (encode_all encode_sub two_subs));
      mem = 0 ∷ (encode_all encode_sub two_subs ++ (255 ∷ []));
    })
    ≡ ok (of_type (map (sub_of plain_texts) two_subs))
unmarshal_l3_service-encode_example =
    unmarshal_l3_service-encode plain_texts 0 two_subs (255 ∷ []) two_subs-IsSub
