-- ===== src/Bgp/Open/Capability/Tests.antt =====
-- Two families and the four-byte AS number.
use gobmp.Prelude.{ℕ, arith, ◌≡◌, ◌++◌, inl, inr, List, [], ◌∷◌, length, map}
use gobmp.Go.{ok, ◌>>=◌}
use gobmp.Go.Scan.{encode_all}
use gobmp.Bgp.Attributes.Samples.{plain_formats}
use gobmp.Bgp.Open.Capability.{or_empty, unmarshal_capability}
use gobmp.Bgp.Open.Capability.RoundTrip.{
  encode_capability, entry, of_code, unmarshal_capability-encode,
}

abbrev three_capabilities : List (ℕ × List ℕ)
three_capabilities =
    (1, 0 ∷ 1 ∷ 0 ∷ 1 ∷ []) ∷ (65, 0 ∷ 0 ∷ 253 ∷ 232 ∷ []) ∷ (1, 0 ∷ 2 ∷ 0 ∷ 1 ∷ []) ∷ []

unmarshal_capability-encode_example :
    (unmarshal_capability plain_formats (record {
      len = length (encode_all encode_capability three_capabilities);
      mem = encode_all encode_capability three_capabilities ++ (7 ∷ []);
    })
      >>= λ caps. ok (or_empty (caps 1)))
    ≡ ok (of_code 1 (map (entry plain_formats) three_capabilities))
unmarshal_capability-encode_example =
    unmarshal_capability-encode plain_formats three_capabilities (7 ∷ []) 1
      (inr (omega arith), (inl (λ e. omega arith), (inr (omega arith), tt)))
