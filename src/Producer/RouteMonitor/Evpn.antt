-- ===== src/Producer/RouteMonitor/Evpn.antt =====
-- The messages that an update of EVPN routes is published as.
mod Tests
use Prim.Native.String.{String}
use gobmp.Prelude.{ℕ, ◌≡◌, refl, ap, ◌∙◌, Bool, true, List, [], ◌∷◌, ◌++◌, some, map, length, All}
use gobmp.Go.{Res, ok, of_list}
use gobmp.Go.Scan.{encode_all}
use gobmp.Evpn.{Nlri}
use gobmp.Evpn.RoundTrip.{IsEvpn, encode_evpn}
use gobmp.Bgp.PathAttribute.{get_nlri_type, has_prefix_sid}
use gobmp.Bgp.PathAttribute.Queries.{get_nlri_type_any}
use gobmp.Bgp.Update.{Update}
use gobmp.Bgp.MpReach.{MpReach}
use gobmp.Bgp.MpReach.RoundTrip.{encode_mp_reach}
use gobmp.Bgp.MpReach.Vpn.{get_nlri_evpn-encode, evpn_type}
use gobmp.Bgp.MpNlri.{get_afi_safi_type-reach, MpNlri, reach, get_next_hop}
use gobmp.Bmp.PeerHeader.{PeerHeader}
use gobmp.Producer.Services.{Services, Producer}
use gobmp.Producer.Unicast.Announced.{Peer, add_lem}
use gobmp.Producer.Evpn.Announced.{evpn_announced, evpn-evpn_announced}
use gobmp.Producer.RouteMonitor.{
  Topic, Sent, RouteMessage, evpn_prefix, made, attribute_at, publish_made, process_mp_update,
  process_update, produce_route_monitor_message,
}
use gobmp.Producer.RouteMonitor.Published.{
  published, topic_shown, takes_all, publish_all-published, decode_reach,
}

module _ (s : Services) (other : MpNlri → ℕ → PeerHeader → Update → Sent → Res Sent) where
  module _ (p : Producer) (ph : PeerHeader) (t : Peer s ph) (u : Update) (mp : MpReach)
      (hop : String) (x : Nlri) (xs : List Nlri) (depth : ℕ) (sent : Sent)
      (family : mp.address_family_id ≡ 25) (sub : mp.sub_address_family_id ≡ 70)
      (code : mp.nlri ≡ encode_all encode_evpn (x ∷ xs)) (good : All IsEvpn (x ∷ xs))
      (has_hop : get_next_hop s.texts (reach mp) ≡ ok hop) where
    process_mp_update-evpn :
        process_mp_update s takes_all other depth p (reach mp) 0 ph u sent
        ≡ ok (
            sent
            ++ published
                (topic_shown p)
                (map evpn_prefix (map (evpn_announced s p ph t "add" u (reach mp) hop) (x ∷ xs))))
    unfolding process_mp_update publish_made made
    process_mp_update-evpn =
        rw
          (
            get_afi_safi_type-reach mp,
            evpn_type mp family sub,
            evpn-evpn_announced s p ph t "add" u (reach mp) hop has_hop 0 (x ∷ xs) add_lem
                (get_nlri_evpn-encode mp x xs family sub code good) good,
          )
          (ap ok (publish_all-published p sent _))

  -- Where the publisher takes every message, the first MP_REACH_NLRI or MP_UNREACH_NLRI attribute is
  -- an MP_REACH_NLRI of well-formed EVPN routes, one at least, and the texts of the peer and of the
  -- next hop can be made, a message for each route is published, in order, with the fields that its
  -- type has: the text of its route distinguisher, its segment, labels, addresses and MAC address, but
  -- not the tag of a MAC/IP advertisement or of an IP prefix.
  pub produce_route_monitor_message-evpn :
      (p : Producer) (ph : PeerHeader) (t : Peer s ph) (u : Update) (mp : MpReach) (reserved i : ℕ)
      (hop : String) (x : Nlri) (xs : List Nlri) (depth : ℕ) (sent : Sent)
      → get_nlri_type u.path_attributes ≡ (14, i)
      → attribute_at u.path_attributes i ≡ ok (of_list (encode_mp_reach reserved mp))
      → mp.next_hop_address_length ≡ length mp.next_hop_address
      → mp.srv6 ≡ has_prefix_sid u.path_attributes
      → mp.add_path ≡ p.add_path_capable
      → mp.address_family_id ≡ 25
      → mp.sub_address_family_id ≡ 70
      → mp.nlri ≡ encode_all encode_evpn (x ∷ xs)
      → All IsEvpn (x ∷ xs)
      → get_next_hop s.texts (reach mp) ≡ ok hop
      → produce_route_monitor_message s takes_all other depth p
          (some ph)
          (record { update = some u })
          sent
        ≡ ok (
            sent
            ++ published
                (topic_shown p)
                (map evpn_prefix (map (evpn_announced s p ph t "add" u (reach mp) hop) (x ∷ xs))))
  unfolding produce_route_monitor_message process_update
  produce_route_monitor_message-evpn p ph t u mp reserved i hop x xs depth sent a b h v w f c e k
        z =
      rw
        (
          get_nlri_type_any u.path_attributes,
          a,
          b,
          decode_reach mp reserved (has_prefix_sid u.path_attributes) p.add_path_capable h v w,
        )
        (process_mp_update-evpn p ph t u mp hop x xs depth sent f c e k z)
