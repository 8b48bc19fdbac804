-- ===== src/Producer/RouteMonitor/Evpn/Tests.antt =====
-- An update of a MAC/IP advertisement behind the next hop 192.0.2.1.
use gobmp.Prelude.{◌≡◌, refl, arith, [], ◌∷◌, some, true, false, map}
use gobmp.Go.{ok, slice_from}
use gobmp.Go.Scan.{encode_all}
use gobmp.Evpn.{Nlri, mac_ip_advertisement}
use gobmp.Evpn.RoundTrip.{IsEvpn, encode_evpn}
use gobmp.Bgp.Attributes.{no_attributes}
use gobmp.Bgp.PathAttribute.{get_nlri_type, nlri_type_from, has_prefix_sid}
use gobmp.Bgp.Update.{Update}
use gobmp.Bgp.MpReach.{MpReach}
use gobmp.Bgp.MpReach.RoundTrip.{encode_mp_reach}
use gobmp.Bgp.MpNlri.{reach, get_next_hop}
use gobmp.Producer.Samples.{plain_services, speaker, peer, peer_texts, no_other}
use gobmp.Producer.Evpn.Announced.{evpn_announced}
use gobmp.Producer.RouteMonitor.{evpn_prefix, attribute_at, produce_route_monitor_message}
use gobmp.Producer.RouteMonitor.Published.{published, topic_shown}
use gobmp.Producer.RouteMonitor.Evpn.{produce_route_monitor_message-evpn}

abbrev mac_route : Nlri
mac_route = record {
  route_type = 2;
  length = 37;
  spec = mac_ip_advertisement (record {
    rd = record { rd_type = 0; value = 0 ∷ 100 ∷ 0 ∷ 0 ∷ 0 ∷ 100 ∷ [] };
    esi = 0 ∷ 1 ∷ 2 ∷ 3 ∷ 4 ∷ 5 ∷ 6 ∷ 7 ∷ 8 ∷ 9 ∷ [];
    eth_tag = 0 ∷ 0 ∷ 0 ∷ 7 ∷ [];
    mac_addr_length = 48;
    mac_addr = some (2 ∷ 0 ∷ 0 ∷ 0 ∷ 0 ∷ 1 ∷ []);
    ip_addr_length = 32;
    ip_addr = some (10 ∷ 1 ∷ 1 ∷ 1 ∷ []);
    label = (record { value = 100; exp = 0; bos = true }) ∷ [];
  });
}

mac_route-IsEvpn : IsEvpn mac_route
mac_route-IsEvpn = record {
  typed = refl;
  sized = refl;
  fields = record {
    rd_known = record { known = omega arith; six = refl };
    esi_sized = refl;
    tag_sized = refl;
    mac_sized = (refl, refl);
    ip_sized = ((λ e. omega arith), refl);
    labels_known = (record { value_bound = omega arith; exp_bound = omega arith }, tt);
  };
}

abbrev evpn_reach : MpReach
evpn_reach = record {
  address_family_id = 25;
  sub_address_family_id = 70;
  next_hop_address_length = 4;
  next_hop_address = 192 ∷ 0 ∷ 2 ∷ 1 ∷ [];
  nlri = encode_all encode_evpn (mac_route ∷ []);
  srv6 = false;
  add_path = [];
}

abbrev evpn_update : Update
evpn_update = record {
  withdrawn_routes_length = 0;
  withdrawn_routes = [];
  total_path_attribute_length = 0;
  path_attributes =
      (record {
        flags = 128;
        attribute_type = 14;
        length = 48;
        attribute = encode_mp_reach 0 evpn_reach;
      })
      ∷ [];
  nlri = [];
  base_attributes = no_attributes;
}

produce_route_monitor_message-evpn_example :
    produce_route_monitor_message plain_services
      (λ sent m. true)
      no_other
      0
      speaker
      (some peer)
      (record { update = some evpn_update })
      []
    ≡ ok (
        published (topic_shown speaker) (
          map evpn_prefix (
            map
              (evpn_announced plain_services speaker peer peer_texts "add" evpn_update
                (reach evpn_reach)
                "ip4")
              (mac_route ∷ []))))
unfolding get_nlri_type nlri_type_from attribute_at has_prefix_sid get_next_hop
    gobmp.Bgp.MpReach.get_next_hop slice_from
produce_route_monitor_message-evpn_example =
    produce_route_monitor_message-evpn plain_services no_other speaker peer peer_texts evpn_update
      evpn_reach 0 0 "ip4" mac_route [] 0 [] refl refl refl refl refl refl refl refl
      (mac_route-IsEvpn, tt) refl
