-- ===== src/Producer/RouteMonitor/Tests.antt =====
-- Updates of 10.0.0.0/8 and 192.168.0.0/20 from the peer 10.0.0.1.
use gobmp.Prelude.{
  ℕ, ◌≡◌, refl, arith, List, [], ◌∷◌, ◌++◌, none, some, true, false, inl, map, All, Bool, length,
}
use gobmp.Go.{ok}
use gobmp.Go.Scan.{encode_all}
use gobmp.Base.Route.{Route}
use gobmp.Base.Route.Step.{encode_route, IsRoute}
use gobmp.Bgp.Attributes.{no_attributes}
use gobmp.Bgp.PathAttribute.{PathAttribute, get_nlri_type, nlri_type_from, has_prefix_sid}
use gobmp.Bgp.Update.{Update}
use gobmp.Bgp.Nlri.{nlri_message_type}
use gobmp.Bgp.MpReach.{MpReach, path_id_flag, get_afi_safi_type}
use gobmp.Bgp.MpReach.RoundTrip.{encode_mp_reach}
use gobmp.Bgp.MpNlri.{reach, get_next_hop, is_ipv6_nlri}
use gobmp.Bgp.Open.AddPath.{entry, lookup}
use gobmp.Producer.Samples.{plain_services, speaker, peer, peer_texts, no_other}
use gobmp.Producer.Unicast.Announced.{announced, no_routes}
use gobmp.Producer.RouteMonitor.{
  unicast_prefix, attribute_at, legacy_topic, produce_route_monitor_message,
}
use gobmp.Producer.RouteMonitor.Published.{published, topic_shown}
use gobmp.Producer.RouteMonitor.Unicast.{produce_route_monitor_message-reach}
use gobmp.Producer.RouteMonitor.Legacy.{
  path_ids, produce_route_monitor_message-legacy, produce_route_monitor_message-withdraw,
}

abbrev two_routes : List Route
two_routes =
    (record { path_id = 0; length = 8; label = []; rd = none; prefix = 10 ∷ [] })
    ∷ (record { path_id = 0; length = 20; label = []; rd = none; prefix = 192 ∷ 168 ∷ 0 ∷ [] })
    ∷ []

abbrev with_attributes : List PathAttribute → Update
with_attributes attrs = record {
  withdrawn_routes_length = 0;
  withdrawn_routes = [];
  total_path_attribute_length = 0;
  path_attributes = attrs;
  nlri = [];
  base_attributes = no_attributes;
}

abbrev legacy_update : List ℕ → List ℕ → Update
legacy_update gone new = record {
  withdrawn_routes_length = length gone;
  withdrawn_routes = gone;
  total_path_attribute_length = 0;
  path_attributes = [];
  nlri = new;
  base_attributes = no_attributes;
}

two_routes-IsRoute : (flag : Bool) → All (IsRoute flag) two_routes
two_routes-IsRoute flag = (
  record { sized = refl; no_label = refl; no_rd = refl; no_id = λ e. refl },
  (record { sized = refl; no_label = refl; no_rd = refl; no_id = λ e. refl }, tt),
)

no_path_ids : path_ids speaker ≡ false
unfolding entry lookup nlri_message_type
no_path_ids = refl

abbrev routes_code : List ℕ
routes_code = encode_all (encode_route false) two_routes

code_lem : routes_code ≡ encode_all (encode_route (path_ids speaker)) two_routes
code_lem = rw no_path_ids

produce_route_monitor_message-legacy_example :
    produce_route_monitor_message plain_services
      (λ sent m. true)
      no_other
      1
      speaker
      (some peer)
      (record { update = some (legacy_update routes_code routes_code) })
      []
    ≡ ok (
        published (legacy_topic speaker) (
          map unicast_prefix (
            map
              (announced plain_services speaker peer peer_texts "del"
                (legacy_update routes_code routes_code)
                false
                "")
              two_routes
            ++ map
                (announced plain_services speaker peer peer_texts "add"
                  (legacy_update routes_code routes_code)
                  false
                  "")
                two_routes)))
unfolding get_nlri_type nlri_type_from
produce_route_monitor_message-legacy_example =
    produce_route_monitor_message-legacy plain_services no_other speaker peer peer_texts
      (legacy_update routes_code routes_code) 0 two_routes two_routes 0 [] refl (λ e. omega arith)
      code_lem code_lem (omega arith) (omega arith) (two_routes-IsRoute _) (two_routes-IsRoute _)

produce_route_monitor_message-withdraw_example :
    produce_route_monitor_message plain_services
      (λ sent m. true)
      no_other
      1
      speaker
      (some peer)
      (record { update = some (legacy_update routes_code []) })
      []
    ≡ ok (
        published (legacy_topic speaker) (
          map unicast_prefix (
            map
              (announced plain_services speaker peer peer_texts "del"
                (legacy_update routes_code [])
                false
                "")
              two_routes
            ++ (no_routes plain_services speaker peer peer_texts "add" ∷ []))))
unfolding get_nlri_type nlri_type_from
produce_route_monitor_message-withdraw_example =
    produce_route_monitor_message-withdraw plain_services no_other speaker peer peer_texts
      (legacy_update routes_code []) 0 two_routes 0 [] refl (λ e. omega arith) code_lem refl
      (omega arith) (two_routes-IsRoute _)

-- The routes behind the next hop 192.0.2.1.
abbrev two_routes_reach : MpReach
two_routes_reach = record {
  address_family_id = 1;
  sub_address_family_id = 1;
  next_hop_address_length = 4;
  next_hop_address = 192 ∷ 0 ∷ 2 ∷ 1 ∷ [];
  nlri = routes_code;
  srv6 = false;
  add_path = [];
}

abbrev reach_update : Update
reach_update = with_attributes (
    (record {
      flags = 128;
      attribute_type = 14;
      length = 18;
      attribute = encode_mp_reach 0 two_routes_reach;
    })
    ∷ [])

no_flag : path_id_flag two_routes_reach ≡ false
unfolding path_id_flag get_afi_safi_type entry lookup nlri_message_type
no_flag = refl

produce_route_monitor_message-reach_example :
    produce_route_monitor_message plain_services
      (λ sent m. true)
      no_other
      1
      speaker
      (some peer)
      (record { update = some reach_update })
      []
    ≡ ok (
        published (topic_shown speaker) (
          map unicast_prefix (
            map
              (announced plain_services speaker peer peer_texts "add" reach_update
                (is_ipv6_nlri (reach two_routes_reach))
                "ip4")
              two_routes)))
unfolding get_nlri_type nlri_type_from attribute_at has_prefix_sid get_next_hop
    gobmp.Bgp.MpReach.get_next_hop
produce_route_monitor_message-reach_example =
    produce_route_monitor_message-reach plain_services no_other speaker peer peer_texts reach_update
      two_routes_reach 0 0 "ip4" two_routes 0 [] refl refl refl refl refl (inl refl) refl
      (rw no_flag) (omega arith) (two_routes-IsRoute _) refl
