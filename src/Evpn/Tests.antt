-- ===== src/Evpn/Tests.antt =====
-- A MAC/IP advertisement, a multicast tag route and an IP prefix.
use gobmp.Prelude.{◌≡◌, refl, arith, List, [], ◌∷◌, true, length, ◌++◌, none, some, All, inl}
use gobmp.Go.{ok}
use gobmp.Go.Scan.{encode_all}
use gobmp.Base.Rd.{Rd}
use gobmp.Evpn.{mac_ip_advertisement, inclusive_multicast_eth_tag, ip_prefix, Nlri, unmarshal_evpn}
use gobmp.Evpn.RoundTrip.{encode_evpn, IsEvpn, unmarshal_evpn-encode}

abbrev site : Rd
site = record { rd_type = 1; value = 10 ∷ 0 ∷ 0 ∷ 1 ∷ 0 ∷ 5 ∷ [] }

abbrev first_route : Nlri
first_route = record {
  route_type = 2;
  length = 40;
  spec = mac_ip_advertisement (record {
    rd = site;
    esi = 0 ∷ 1 ∷ 2 ∷ 3 ∷ 4 ∷ 5 ∷ 6 ∷ 7 ∷ 8 ∷ 9 ∷ [];
    eth_tag = 0 ∷ 0 ∷ 0 ∷ 7 ∷ [];
    mac_addr_length = 48;
    mac_addr = some (2 ∷ 0 ∷ 0 ∷ 0 ∷ 0 ∷ 1 ∷ []);
    ip_addr_length = 32;
    ip_addr = some (10 ∷ 1 ∷ 1 ∷ 1 ∷ []);
    label =
        record { value = 100; exp = 0; bos = true }
        ∷ record { value = 200; exp = 0; bos = true }
        ∷ [];
  });
}

abbrev more_routes : List Nlri
more_routes =
    record {
      route_type = 3;
      length = 13;
      spec =
          inclusive_multicast_eth_tag (record {
            rd = site;
            eth_tag = 0 ∷ 0 ∷ 0 ∷ 7 ∷ [];
            ip_addr_length = 0;
            ip_addr = none;
          });
    }
    ∷ record {
      route_type = 5;
      length = 34;
      spec = ip_prefix (record {
        rd = site;
        esi = 0 ∷ 1 ∷ 2 ∷ 3 ∷ 4 ∷ 5 ∷ 6 ∷ 7 ∷ 8 ∷ 9 ∷ [];
        eth_tag = 0 ∷ 0 ∷ 0 ∷ 7 ∷ [];
        ip_addr_length = 24;
        ip_addr = 10 ∷ 1 ∷ 1 ∷ 0 ∷ [];
        gw_ip_addr = 0 ∷ 0 ∷ 0 ∷ 0 ∷ [];
        label = record { value = 100; exp = 0; bos = true } ∷ [];
      });
    }
    ∷ []

three_routes-IsEvpn : All IsEvpn (first_route ∷ more_routes)
three_routes-IsEvpn = (
  record {
    typed = refl;
    sized = refl;
    fields = record {
      rd_known = record { known = omega arith; six = refl };
      esi_sized = refl;
      tag_sized = refl;
      mac_sized = (refl, refl);
      ip_sized = ((λ e. omega arith), refl);
      labels_known = (
        record { value_bound = omega arith; exp_bound = omega arith },
        (record { value_bound = omega arith; exp_bound = omega arith }, tt),
      );
    };
  },
  (
    record {
      typed = refl;
      sized = refl;
      fields = record {
        rd_known = record { known = omega arith; six = refl };
        tag_sized = refl;
        ip_sized = refl;
      };
    },
    (
      record {
        typed = refl;
        sized = refl;
        fields = (
          4,
          record {
            width = inl refl;
            rd_known = record { known = omega arith; six = refl };
            esi_sized = refl;
            tag_sized = refl;
            ip_sized = refl;
            gw_sized = refl;
            labels_known = (record { value_bound = omega arith; exp_bound = omega arith }, tt);
            one_label = refl;
          },
        );
      },
      tt,
    ),
  ),
)

unmarshal_evpn-encode_example :
    unmarshal_evpn (record {
      len = length (encode_all encode_evpn (first_route ∷ more_routes));
      mem = encode_all encode_evpn (first_route ∷ more_routes) ++ (9 ∷ []);
    })
    ≡ ok (first_route ∷ more_routes)
unmarshal_evpn-encode_example =
    unmarshal_evpn-encode first_route more_routes (9 ∷ []) three_routes-IsEvpn
