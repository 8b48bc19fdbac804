-- ===== src/Bgp/AsPath/Tests.antt =====
-- Paths of two segments.
use gobmp.Prelude.{arith, ℕ, ◌≢◌, ◌≡◌, ◌++◌, [], ◌∷◌, false, length}
use gobmp.Go.{ok, of_list}
use gobmp.Go.Scan.{encode_all}
use gobmp.Bgp.AsPath.{unmarshal_as_path}
use gobmp.Bgp.AsPath.Segments.{
  encode_segment, unmarshal_as_path_one_segment, unmarshal_as_path_misread,
}

unmarshal_as_path_one_segment_example :
    unmarshal_as_path (record {
      len = length (encode_segment false (record { segment_type = 2; numbers = 65000 ∷ 7 ∷ [] }));
      mem =
          encode_segment false (record { segment_type = 2; numbers = 65000 ∷ 7 ∷ [] }) ++ (1 ∷ []);
    })
    ≡ ok (65000 ∷ 7 ∷ [])
unmarshal_as_path_one_segment_example =
    unmarshal_as_path_one_segment false 2 65000 (7 ∷ []) (1 ∷ [])

unmarshal_as_path_misread_example :
    (x : ℕ) × (y : ℕ) × (unmarshal_as_path (
        of_list (
          encode_all (encode_segment false) (
            (record { segment_type = 2; numbers = 100 ∷ 200 ∷ [] })
            ∷ (record { segment_type = 1; numbers = 300 ∷ [] })
            ∷ [])))
      ≡ ok (x ∷ y ∷ []))
    × ((x ≢ 100) × (x ≢ 200) × (x ≢ 300))
    × ((y ≢ 100) × (y ≢ 200) × (y ≢ 300))
unmarshal_as_path_misread_example =
    unmarshal_as_path_misread 2 1 100 200 300 (omega arith) (omega arith) (omega arith)
      (omega arith)
