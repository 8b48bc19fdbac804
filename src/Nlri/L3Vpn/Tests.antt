-- ===== src/Nlri/L3Vpn/Tests.antt =====
-- 10.1.0.0/16 of the VPN 0:100:100 behind a label.
use gobmp.Prelude.{arith, ◌≡◌, ◌++◌, List, [], ◌∷◌, refl, true, false, some, length}
use gobmp.Go.{ok}
use gobmp.Go.Scan.{encode_all}
use gobmp.Base.Label.{Label}
use gobmp.Base.Rd.{Rd}
use gobmp.Nlri.L3Vpn.{unmarshal_l3vpn}
use gobmp.Nlri.L3Vpn.RoundTrip.{Vpn, IsVpn, encode_vpn, unmarshal_l3vpn-encode}

abbrev one_label : List Label
one_label = (record { value = 100; exp = 0; bos = true }) ∷ []

abbrev vpn_rd : Rd
vpn_rd = record { rd_type = 0; value = 0 ∷ 100 ∷ 0 ∷ 0 ∷ 0 ∷ 100 ∷ [] }

abbrev vpn_16 : Vpn
vpn_16 = record { path_id = 0; stack = one_label; rd = vpn_rd; bits = 16; prefix = 10 ∷ 1 ∷ [] }

vpn_16-IsVpn : IsVpn vpn_16
vpn_16-IsVpn = record {
  labels_known =
      ((record { value_bound = omega arith; exp_bound = omega arith }, refl), λ e. omega arith);
  rd_known = record { known = omega arith; six = refl };
  sized = refl;
  byte = omega arith;
}

unmarshal_l3vpn-encode_example :
    unmarshal_l3vpn 1 false
      (record {
        len = length (encode_all (encode_vpn false) (vpn_16 ∷ []));
        mem = encode_all (encode_vpn false) (vpn_16 ∷ []) ++ (1 ∷ []);
      })
      false
    ≡ ok (
        (record {
          path_id = 0;
          length = 16;
          label = one_label;
          rd = some vpn_rd;
          prefix = 10 ∷ 1 ∷ [];
        })
        ∷ [])
unmarshal_l3vpn-encode_example =
    unmarshal_l3vpn-encode false vpn_16 [] (1 ∷ []) 0 (vpn_16-IsVpn, tt)
