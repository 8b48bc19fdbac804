-- ===== src/Bmp/Info/Tests.antt =====
-- Information elements: sysDescr and sysName, an element in a slice of 32771 bytes, and a Peer Down.
use gobmp.Prelude.{ℕ, arith, ◌≡◌, ◌++◌, List, [], ◌∷◌, refl, length, replicate, length-replicate}
use gobmp.Go.{bad_tlv_length, ok, err}
use gobmp.Go.Scan.{encode_all}
use gobmp.Bmp.Info.{InformationalTlv, unmarshal_tlv}
use gobmp.Bmp.Info.RoundTrip.{
  encode_information, unmarshal_information-encode, unmarshal_information_large,
}

abbrev sys_tlvs : List InformationalTlv
sys_tlvs =
    (record { information_type = 1; information_length = 2; information = 88 ∷ 82 ∷ [] })
    ∷ (record { information_type = 2; information_length = 1; information = 114 ∷ [] })
    ∷ []

unmarshal_information-encode_example :
    unmarshal_tlv (record {
      len = length (encode_all encode_information sys_tlvs);
      mem = encode_all encode_information sys_tlvs ++ (0 ∷ []);
    })
    ≡ ok sys_tlvs
unmarshal_information-encode_example =
    unmarshal_information-encode sys_tlvs (0 ∷ []) (refl, (refl, tt)) (omega arith)

-- An element of one byte, in front of 32767 more bytes.
abbrev small_tlv : InformationalTlv
small_tlv = record { information_type = 0; information_length = 1; information = 65 ∷ [] }

unmarshal_information_large_example :
    unmarshal_tlv (record {
      len = length (encode_information small_tlv ++ replicate 32767 0);
      mem = encode_information small_tlv ++ replicate 32767 0;
    })
    ≡ err bad_tlv_length
unmarshal_information_large_example =
    unmarshal_information_large small_tlv (replicate 32767 0) refl (omega arith)
      (omega (arith, length-replicate {A = ℕ} 32767 0))
      (omega (arith, length-replicate {A = ℕ} 32767 0))
