-- ===== src/PrefixSid/Tests.antt =====
-- A Prefix SID with a label index, an SRGB of one block and an SRv6 service.
use gobmp.Prelude.{◌++◌, ◌≡◌, List, [], ◌∷◌, length, map, some, none, All, arith}
use gobmp.Go.{ok}
use gobmp.Go.Scan.{encode_all}
use gobmp.Srv6.SubSub.{structure}
use gobmp.Srv6.RoundTrip.{Sub, info, other_sub}
use gobmp.PrefixSid.{unmarshal_prefix_sid}
use gobmp.PrefixSid.Items.{Wire, index_tlv, srgb_tlv, service_tlv, encode_wire, IsWire, item_of}
use gobmp.PrefixSid.RoundTrip.{
  last, label_of, originator_of, service_of, unmarshal_prefix_sid-encode,
}
use gobmp.Producer.Samples.{plain_services}

abbrev sub_tlvs : List Sub
sub_tlvs =
    info (record {
      reserved = 0;
      sid = 32 ∷ 1 ∷ 13 ∷ 184 ∷ 0 ∷ 0 ∷ 0 ∷ 0 ∷ 0 ∷ 0 ∷ 0 ∷ 0 ∷ 0 ∷ 0 ∷ 0 ∷ 5 ∷ [];
      flags = 0;
      endpoint_behavior = 18;
      subs = some (
        0,
        structure (record {
          local_block_length = 40;
          local_node_length = 24;
          function_length = 16;
          argument_length = 0;
          transposition_length = 16;
          transposition_offset = 64;
        })
            ∷ [],
      );
    })
    ∷ other_sub 9 (1 ∷ 2 ∷ [])
    ∷ []

abbrev elements : List Wire
elements =
    index_tlv 7 0 0 100
    ∷ srgb_tlv 0 (record { first = 16000; number = 8000 } ∷ [])
    ∷ service_tlv 0 sub_tlvs
    ∷ []

elements-IsWire : All IsWire elements
elements-IsWire = omega arith

unmarshal_prefix_sid-encode_example :
    unmarshal_prefix_sid plain_services.texts (record {
      len = length (encode_all encode_wire elements);
      mem = encode_all encode_wire elements ++ 255 ∷ [];
    })
    ≡ ok (record {
      label_index = last label_of (map (item_of plain_services.texts) elements) none;
      originator_srgb = last originator_of (map (item_of plain_services.texts) elements) none;
      srv6_l3_service = last service_of (map (item_of plain_services.texts) elements) none;
    })
unmarshal_prefix_sid-encode_example =
    unmarshal_prefix_sid-encode plain_services.texts elements (255 ∷ []) elements-IsWire
