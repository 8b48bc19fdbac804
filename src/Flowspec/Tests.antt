-- ===== src/Flowspec/Tests.antt =====
-- The destination 10.0.0.0/8 and the protocols 6 and 17.
use gobmp.Prelude.{◌≡◌, refl, arith, List, [], ◌∷◌, map, ◌++◌, inl, All}
use gobmp.Go.{ok, err, bad_length, of_list}
use gobmp.Go.Scan.{encode_all}
use gobmp.Flowspec.{unmarshal_flowspec}
use gobmp.Flowspec.RoundTrip.{
  RawSpec, raw_prefix, raw_generic, encode_spec, spec_of, IsSpec, unmarshal_flowspec-encode,
  unmarshal_flowspec_long,
}

abbrev two_rules : List RawSpec
two_rules =
    raw_prefix 1 8 (10 ∷ [])
    ∷ raw_generic 3
        (record { operator = 0x01; val = 6 ∷ [] } ∷ record { operator = 0x81; val = 17 ∷ [] } ∷ [])
    ∷ []

two_rules-IsSpec : All IsSpec two_rules
two_rules-IsSpec = (
  (inl refl, refl),
  (
    (
      (omega arith, omega arith, λ e. omega arith),
      (omega arith, refl, refl, (omega arith, refl, refl)),
    ),
    tt,
  ),
)

unmarshal_flowspec-encode_example :
    unmarshal_flowspec
      (λ xs. "hash")
      (record { len = 9; mem = 8 ∷ (encode_all encode_spec two_rules ++ (1 ∷ [])) })
    ≡ ok (record { length = 8; spec = map spec_of two_rules; spec_hash = "hash" })
unmarshal_flowspec-encode_example =
    unmarshal_flowspec-encode (λ xs. "hash") two_rules (1 ∷ []) two_rules-IsSpec (omega arith)

unmarshal_flowspec_long_example :
    unmarshal_flowspec (λ xs. "hash") (of_list (0xf0 ∷ 0x03 ∷ 1 ∷ 8 ∷ 10 ∷ [])) ≡ err bad_length
unmarshal_flowspec_long_example =
    unmarshal_flowspec_long (λ xs. "hash") 0xf0 (0x03 ∷ 1 ∷ 8 ∷ 10 ∷ []) (omega arith) (omega arith)
      (omega arith)
