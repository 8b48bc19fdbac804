-- ===== src/Evpn/Routes/Tests.antt =====
-- An auto-discovery route with two labels.
use gobmp.Prelude.{◌≡◌, refl, arith, [], ◌∷◌, true, false, length}
use gobmp.Go.{err, bad_length}
use gobmp.Evpn.Routes.{EthAutoDiscovery, unmarshal_eth_auto_discovery}
use gobmp.Evpn.Routes.Discovery.{encode_auto_discovery, unmarshal_eth_auto_discovery_stack}

abbrev two_labels : EthAutoDiscovery
two_labels = record {
  rd = record { rd_type = 1; value = 10 ∷ 0 ∷ 0 ∷ 1 ∷ 0 ∷ 5 ∷ [] };
  esi = 0 ∷ 1 ∷ 2 ∷ 3 ∷ 4 ∷ 5 ∷ 6 ∷ 7 ∷ 8 ∷ 9 ∷ [];
  eth_tag = 0 ∷ 0 ∷ 0 ∷ 7 ∷ [];
  label =
      record { value = 100; exp = 0; bos = false }
      ∷ record { value = 200; exp = 0; bos = true }
      ∷ [];
}

unmarshal_eth_auto_discovery_stack_example :
    unmarshal_eth_auto_discovery (record {
      len = length (encode_auto_discovery two_labels []);
      mem = encode_auto_discovery two_labels (9 ∷ []);
    })
    ≡ err bad_length
unmarshal_eth_auto_discovery_stack_example =
    unmarshal_eth_auto_discovery_stack two_labels (9 ∷ [])
      (record {
        rd_known = record { known = omega arith; six = refl };
        esi_sized = refl;
        tag_sized = refl;
        labels_known = (
          record { value_bound = omega arith; exp_bound = omega arith },
          (record { value_bound = omega arith; exp_bound = omega arith }, tt),
        );
      })
      (omega arith)
