-- ===== src/Producer/RouteMonitor/Unicast.antt =====
-- The messages that an update of unicast routes is published as.
use Prim.Native.String.{String}
use gobmp.Prelude.{
  ℕ, suc, ◌+◌, ◌<◌, ◌≡◌, refl, ap, ◌∙◌, List, [], ◌∷◌, ◌++◌, some, map, length, All, ◌⊎◌, inl, inr,
  ◌*◌, arith,
}
use gobmp.Go.{empty_nlri, Res, ok, panic, of_list}
use gobmp.Go.Scan.{encode_all}
use gobmp.Base.Route.{Route}
use gobmp.Bgp.MpUnreach.{MpUnreach}
use gobmp.Base.Route.Step.{encode_route, IsRoute}
use gobmp.Bgp.PathAttribute.{get_nlri_type, has_prefix_sid}
use gobmp.Bgp.Update.{Update}
use gobmp.Bgp.MpReach.{MpReach, path_id_flag}
use gobmp.Bgp.MpReach.RoundTrip.{encode_mp_reach, get_nlri_unicast-routes, unicast_type}
use gobmp.Bgp.MpReach.RoundTrip.{unmarshal_mp_reach_nil}
use gobmp.Bgp.MpUnreach.Meaning.{unmarshal_mp_unreach-meaning, get_nlri_unicast_empty}
use gobmp.Bgp.MpNlri.{
  get_nlri_unicast-unreach, get_afi_safi_type-unreach, get_nlri_unicast-reach,
  get_afi_safi_type-reach, MpNlri, reach, unreach, get_next_hop, is_ipv6_nlri,
}
use gobmp.Bmp.PeerHeader.{PeerHeader}
use gobmp.Producer.Services.{Services, Producer}
use gobmp.Bgp.PathAttribute.Queries.{get_nlri_type_any}
use gobmp.Producer.Unicast.Announced.{
  Peer, announced, unicast-announced, unicast-fails, add_lem, del_lem,
}
use gobmp.Producer.RouteMonitor.{
  Sent, unicast_prefix, made, attribute_at, nil_interface, publish_made, process_mp_update,
  process_update, produce_route_monitor_message,
}
use gobmp.Producer.RouteMonitor.Published.{
  published, topic_shown, takes_all, publish_all-published, decode_reach,
}

module _ (s : Services) (other : MpNlri → ℕ → PeerHeader → Update → Sent → Res Sent) where
  process_mp_update-reach :
      (p : Producer) (ph : PeerHeader) (t : Peer s ph) (u : Update) (mp : MpReach) (hop : String)
      (rs : List Route) (depth : ℕ) (sent : Sent)
      → (mp.address_family_id ≡ 1) ⊎ (mp.address_family_id ≡ 2)
      → mp.sub_address_family_id ≡ 1
      → mp.nlri ≡ encode_all (encode_route (path_id_flag mp)) rs
      → 0 < length rs
      → All (IsRoute (path_id_flag mp)) rs
      → get_next_hop s.texts (reach mp) ≡ ok hop
      → process_mp_update s takes_all other (suc depth) p (reach mp) 0 ph u sent
        ≡ ok (
            sent
            ++ published (topic_shown p) (
                map unicast_prefix
                  (map (announced s p ph t "add" u (is_ipv6_nlri (reach mp)) hop) rs)))
  unfolding process_mp_update publish_made made
  process_mp_update-reach p ph t u mp hop rs depth sent f c e k r z =
      let made =
        unicast-announced s p ph t (suc depth) (reach mp) 0 "add" hop u rs add_lem z
          (get_nlri_unicast-reach (suc depth) mp ∙ get_nlri_unicast-routes mp rs depth f c e k r)
          k in
      elim (unicast_type mp f c) [
        | inl y ↦ rw (get_afi_safi_type-reach mp, y, made) (ap ok (publish_all-published p sent _))
        | inr y ↦ rw (get_afi_safi_type-reach mp, y, made) (ap ok (publish_all-published p sent _))
      ]

  -- Where the publisher takes every message, the first MP_REACH_NLRI or MP_UNREACH_NLRI attribute is
  -- an MP_REACH_NLRI of unicast routes, one at least, in IPv4 or IPv6, with path identifiers where
  -- they are agreed on for the family, and the texts of the peer and of the next hop can be made, a
  -- message for each route is published, in order.
  pub produce_route_monitor_message-reach :
      (p : Producer) (ph : PeerHeader) (t : Peer s ph) (u : Update) (mp : MpReach) (reserved i : ℕ)
      (hop : String) (rs : List Route) (depth : ℕ) (sent : Sent)
      → get_nlri_type u.path_attributes ≡ (14, i)
      → attribute_at u.path_attributes i ≡ ok (of_list (encode_mp_reach reserved mp))
      → mp.next_hop_address_length ≡ length mp.next_hop_address
      → mp.srv6 ≡ has_prefix_sid u.path_attributes
      → mp.add_path ≡ p.add_path_capable
      → (mp.address_family_id ≡ 1) ⊎ (mp.address_family_id ≡ 2)
      → mp.sub_address_family_id ≡ 1
      → mp.nlri ≡ encode_all (encode_route (path_id_flag mp)) rs
      → 0 < length rs
      → All (IsRoute (path_id_flag mp)) rs
      → get_next_hop s.texts (reach mp) ≡ ok hop
      → produce_route_monitor_message s takes_all other
          (suc depth)
          p
          (some ph)
          (record { update = some u })
          sent
        ≡ ok (
            sent
            ++ published (topic_shown p) (
                map unicast_prefix
                  (map (announced s p ph t "add" u (is_ipv6_nlri (reach mp)) hop) rs)))
  unfolding produce_route_monitor_message process_update
  produce_route_monitor_message-reach p ph t u mp reserved i hop rs depth sent a b h v w f c e k r
        z =
      rw (get_nlri_type_any u.path_attributes, a, b, decode_reach mp reserved _ _ h v w)
        (process_mp_update-reach p ph t u mp hop rs depth sent f c e k r z)

  -- Where the first MP_REACH_NLRI or MP_UNREACH_NLRI attribute of an update has no byte, the producer
  -- crashes.
  produce_route_monitor_message_empty_attribute :
      (p : Producer) (ph : PeerHeader) (u : Update) (k i depth : ℕ) (sent : Sent)
      → (k ≡ 14) ⊎ (k ≡ 15)
      → get_nlri_type u.path_attributes ≡ (k, i)
      → attribute_at u.path_attributes i ≡ ok (of_list [])
      → produce_route_monitor_message s takes_all other depth p
          (some ph)
          (record { update = some u })
          sent
        ≡ panic
  unfolding produce_route_monitor_message process_update nil_interface
  produce_route_monitor_message_empty_attribute p ph u k i depth sent (inl e) a b =
      rw (get_nlri_type_any u.path_attributes, a, e, b, unmarshal_mp_reach_nil _ _)
  produce_route_monitor_message_empty_attribute p ph u k i depth sent (inr e) a b =
      rw (get_nlri_type_any u.path_attributes, a, e, b, unmarshal_mp_unreach-meaning [] _)

  process_mp_update-unreach_empty :
      (p : Producer) (ph : PeerHeader) (u : Update) (mp : MpUnreach) (depth : ℕ) (sent : Sent)
      → (mp.address_family_id ≡ 1) ⊎ (mp.address_family_id ≡ 2)
      → mp.sub_address_family_id ≡ 1
      → mp.withdrawn_routes ≡ []
      → (t : Peer s ph)
      → process_mp_update s takes_all other depth p (unreach mp) 1 ph u sent ≡ ok sent
  unfolding process_mp_update publish_made made
  process_mp_update-unreach_empty p ph u mp depth sent f c e t =
      let made =
        unicast-fails s p ph t depth (unreach mp) 1 "del" u empty_nlri del_lem
          (get_nlri_unicast-unreach depth mp ∙ get_nlri_unicast_empty mp depth f c e) in
      elim (gobmp.Bgp.MpUnreach.Meaning.unicast_type mp f c) [
        | inl y ↦ rw (get_afi_safi_type-unreach mp, y, made)
        | inr y ↦ rw (get_afi_safi_type-unreach mp, y, made)
      ]

  -- The end of a table of unicast routes of IPv4 or IPv6, an MP_UNREACH_NLRI attribute with its family
  -- and no route, from a peer whose texts can be made, is not published.
  produce_route_monitor_message_end_of_table :
      (p : Producer) (ph : PeerHeader) (u : Update) (family i depth : ℕ) (sent : Sent)
      → (family ≡ 1) ⊎ (family ≡ 2)
      → get_nlri_type u.path_attributes ≡ (15, i)
      → attribute_at u.path_attributes i ≡ ok (of_list (0 ∷ family ∷ 1 ∷ []))
      → (t : Peer s ph)
      → produce_route_monitor_message s takes_all other depth p
          (some ph)
          (record { update = some u })
          sent
        ≡ ok sent
  unfolding produce_route_monitor_message process_update nil_interface
  produce_route_monitor_message_end_of_table p ph u family i depth sent f a b t =
      rw
        (
          get_nlri_type_any u.path_attributes,
          a,
          b,
          unmarshal_mp_unreach-meaning (0 ∷ family ∷ 1 ∷ []) _,
        )
        (process_mp_update-unreach_empty p ph u
          (record {
            address_family_id = 0 * 256 + family;
            sub_address_family_id = 1;
            withdrawn_routes = [];
            add_path = p.add_path_capable;
          })
          depth sent (elim f [ inl e ↦ inl (omega arith) | inr e ↦ inr (omega arith) ]) refl refl t)
