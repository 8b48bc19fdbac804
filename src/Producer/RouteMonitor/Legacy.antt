-- ===== src/Producer/RouteMonitor/Legacy.antt =====
-- The messages for the IPv4 routes of an update's own fields.
use gobmp.Prelude.{
  ℕ, suc, ◌<◌, ◌≡◌, refl, ap, ◌∙◌, Bool, false, List, [], ◌∷◌, ◌++◌, some, map, length, All, ◌≢◌,
  ne→==,
}
use gobmp.Go.{Res, ok, of_list}
use gobmp.Go.Scan.{encode_all}
use gobmp.Base.Route.{Route, unmarshal_routes}
use gobmp.Base.Route.Passes.{unmarshal_routes-of_list}
use gobmp.Bgp.Nlri.{nlri_message_type}
use gobmp.Base.Route.Step.{encode_route, IsRoute}
use gobmp.Bgp.PathAttribute.{get_nlri_type}
use gobmp.Bgp.Update.{Update}
use gobmp.Bgp.Open.AddPath.{entry}
use gobmp.Bgp.MpNlri.{MpNlri}
use gobmp.Bmp.PeerHeader.{PeerHeader}
use gobmp.Producer.Services.{Services, Producer}
use gobmp.Producer.Unicast.{UnicastPrefix, nlri}
use gobmp.Bgp.PathAttribute.Queries.{get_nlri_type_any}
use gobmp.Producer.Unicast.Announced.{
  Peer, announced, no_routes, nlri-announced, nlri-no_routes, add_lem, del_lem,
}
use gobmp.Producer.RouteMonitor.{
  Sent, unicast_prefix, made, legacy_topic, publish_made, process_update, legacy_messages,
  produce_route_monitor_message,
}
use gobmp.Producer.RouteMonitor.Published.{published, takes_all, publish_all_accepted}

-- Whether the IPv4 routes of an update's own fields have path identifiers.
abbrev pub path_ids : Producer → Bool
path_ids p = entry p.add_path_capable (nlri_message_type 1 1)

module _ (s : Services) (other : MpNlri → ℕ → PeerHeader → Update → Sent → Res Sent) where
  -- Withdrawn routes, and then new ones or the message of an update without routes.
  legacy_messages-announced :
      (p : Producer) (ph : PeerHeader) (t : Peer s ph) (u : Update) (rs : List Route)
      (new : List UnicastPrefix) (depth : ℕ)
      → u.withdrawn_routes_length ≢ 0
      → u.withdrawn_routes ≡ encode_all (encode_route (path_ids p)) rs
      → 0 < length rs
      → All (IsRoute (path_ids p)) rs
      → nlri s (suc depth) p 0 ph u ≡ ok new
      → legacy_messages s takes_all other (suc depth) p ph u
        ≡ ok (map (announced s p ph t "del" u false u.base_attributes.nexthop) rs ++ new)
  unfolding legacy_messages
  legacy_messages-announced p ph t u rs new depth z e k w h =
      let gone =
        nlri-announced s p ph t (suc depth) 1 "del" u rs del_lem
          (ap (λ (m : List ℕ). unmarshal_routes (suc depth) (of_list m) (path_ids p)) e
            ∙ unmarshal_routes-of_list (path_ids p) rs depth w)
          k in
      rw (ne→== u.withdrawn_routes_length 0 z, gone, h)

  -- An update without MP attributes, of withdrawn and of new IPv4 routes, one at least of each, with
  -- path identifiers where they are agreed on, from a peer whose texts can be made, and with a
  -- publisher that takes every message, is published as a message for each, the withdrawn ones first,
  -- both in order.
  pub produce_route_monitor_message-legacy :
      (p : Producer) (ph : PeerHeader) (t : Peer s ph) (u : Update) (i : ℕ) (rs ns : List Route)
      (depth : ℕ) (sent : Sent)
      → get_nlri_type u.path_attributes ≡ (0, i)
      → u.withdrawn_routes_length ≢ 0
      → u.withdrawn_routes ≡ encode_all (encode_route (path_ids p)) rs
      → u.nlri ≡ encode_all (encode_route (path_ids p)) ns
      → 0 < length rs
      → 0 < length ns
      → All (IsRoute (path_ids p)) rs
      → All (IsRoute (path_ids p)) ns
      → produce_route_monitor_message s takes_all other
          (suc depth)
          p
          (some ph)
          (record { update = some u })
          sent
        ≡ ok (
            sent
            ++ published (legacy_topic p) (
                map unicast_prefix (
                  map (announced s p ph t "del" u false u.base_attributes.nexthop) rs
                  ++ map (announced s p ph t "add" u false u.base_attributes.nexthop) ns)))
  unfolding produce_route_monitor_message process_update publish_made made
  produce_route_monitor_message-legacy p ph t u i rs ns depth sent a z e f k l v w =
      let new =
        nlri-announced s p ph t (suc depth) 0 "add" u ns add_lem
          (ap (λ (m : List ℕ). unmarshal_routes (suc depth) (of_list m) (path_ids p)) f
            ∙ unmarshal_routes-of_list (path_ids p) ns depth w)
          l in
      rw
        (
          get_nlri_type_any u.path_attributes,
          a,
          legacy_messages-announced p ph t u rs _ depth z e k v new,
        )
        (ap ok (publish_all_accepted takes_all (legacy_topic p) (λ a m. refl) sent _))

  -- An update without MP attributes that withdraws IPv4 routes, one at least, and has no new ones, from
  -- a peer whose texts can be made, and with a publisher that takes every message, is published as a
  -- message for each route, in order, and then an
  -- "add" message with the mark of the end of a table.
  pub produce_route_monitor_message-withdraw :
      (p : Producer) (ph : PeerHeader) (t : Peer s ph) (u : Update) (i : ℕ) (rs : List Route)
      (depth : ℕ) (sent : Sent)
      → get_nlri_type u.path_attributes ≡ (0, i)
      → u.withdrawn_routes_length ≢ 0
      → u.withdrawn_routes ≡ encode_all (encode_route (path_ids p)) rs
      → u.nlri ≡ []
      → 0 < length rs
      → All (IsRoute (path_ids p)) rs
      → produce_route_monitor_message s takes_all other
          (suc depth)
          p
          (some ph)
          (record { update = some u })
          sent
        ≡ ok (
            sent
            ++ published (legacy_topic p) (
                map unicast_prefix (
                  map (announced s p ph t "del" u false u.base_attributes.nexthop) rs
                  ++ (no_routes s p ph t "add" ∷ []))))
  unfolding produce_route_monitor_message process_update publish_made made
  produce_route_monitor_message-withdraw p ph t u i rs depth sent a z e f k v =
      let new = nlri-no_routes s p ph t (suc depth) 0 "add" u add_lem (
        ap (λ (m : List ℕ). unmarshal_routes (suc depth) (of_list m) (path_ids p)) f
        ∙ unmarshal_routes-of_list (path_ids p) [] depth tt) in
      rw
        (
          get_nlri_type_any u.path_attributes,
          a,
          legacy_messages-announced p ph t u rs _ depth z e k v new,
        )
        (ap ok (publish_all_accepted takes_all (legacy_topic p) (λ a m. refl) sent _))
