-- ===== src/Producer/RouteMonitor/Vpn.antt =====
-- The messages that an update of VPN routes is published as.
mod Tests
use Prim.Native.String.{String}
use gobmp.Prelude.{
  ℕ, suc, ◌≡◌, refl, ap, ◌∙◌, Bool, true, false, List, [], ◌∷◌, ◌++◌, some, map, length, All, ◌⊎◌,
  inl, inr,
}
use gobmp.Go.{Res, ok, of_list}
use gobmp.Go.Scan.{encode_all}
use gobmp.Nlri.L3Vpn.RoundTrip.{Vpn, IsVpn, encode_vpn}
use gobmp.Bgp.PathAttribute.{get_nlri_type, has_prefix_sid}
use gobmp.Bgp.PathAttribute.Queries.{get_nlri_type_any}
use gobmp.Bgp.Update.{Update}
use gobmp.Bgp.MpReach.{MpReach, path_id_flag}
use gobmp.Bgp.MpReach.RoundTrip.{encode_mp_reach}
use gobmp.Bgp.MpReach.Vpn.{get_nlri_l3vpn-encode, vpn_type}
use gobmp.Bgp.MpNlri.{get_afi_safi_type-reach, get_nlri_l3vpn-reach, MpNlri, reach, get_next_hop}
use gobmp.Bmp.PeerHeader.{PeerHeader}
use gobmp.Producer.Services.{Services, Producer}
use gobmp.Producer.Unicast.Announced.{Peer, add_lem}
use gobmp.Producer.L3Vpn.Announced.{vpn_announced, l3vpn-vpn_announced}
use gobmp.Producer.RouteMonitor.{
  Topic, Sent, RouteMessage, l3vpn_prefix, made, attribute_at, publish_made, process_mp_update,
  process_update, produce_route_monitor_message,
}
use gobmp.Producer.RouteMonitor.Published.{
  published, topic_shown, takes_all, publish_all-published, decode_reach,
}

module _ (s : Services) (other : MpNlri → ℕ → PeerHeader → Update → Sent → Res Sent) where
  module _ (p : Producer) (ph : PeerHeader) (t : Peer s ph) (u : Update) (mp : MpReach)
      (hop : String) (x : Vpn) (xs : List Vpn) (depth : ℕ) (sent : Sent)
      (family : (mp.address_family_id ≡ 1) ⊎ (mp.address_family_id ≡ 2))
      (vpn : mp.sub_address_family_id ≡ 128) (no_sid : has_prefix_sid u.path_attributes ≡ false)
      (plain : mp.srv6 ≡ false)
      (code : mp.nlri ≡ encode_all (encode_vpn (path_id_flag mp)) (x ∷ xs))
      (good : All IsVpn (x ∷ xs)) (has_hop : get_next_hop s.texts (reach mp) ≡ ok hop) where
    process_mp_update-vpn :
        process_mp_update s takes_all other (suc depth) p (reach mp) 0 ph u sent
        ≡ ok (
            sent
            ++ published (topic_shown p) (
                map l3vpn_prefix
                  (map (vpn_announced s p ph t "add" u (reach mp) hop (path_id_flag mp)) (x ∷ xs))))
    unfolding process_mp_update publish_made made
    process_mp_update-vpn =
        let all =
          l3vpn-vpn_announced s p ph t "add" u (reach mp) hop (path_id_flag mp) no_sid has_hop
            (suc depth) 0 (x ∷ xs) add_lem
            (get_nlri_l3vpn-reach (suc depth) mp
              ∙ get_nlri_l3vpn-encode mp x xs depth family vpn plain code good)
            good in
        elim (vpn_type mp family vpn) [
          | inl y ↦ rw (get_afi_safi_type-reach mp, y, all) (ap ok (publish_all-published p sent _))
          | inr y ↦ rw (get_afi_safi_type-reach mp, y, all) (ap ok (publish_all-published p sent _))
        ]

  -- Where the publisher takes every message, the first MP_REACH_NLRI or MP_UNREACH_NLRI attribute is
  -- an MP_REACH_NLRI of well-formed VPN routes, one at least, in IPv4 or IPv6, with path identifiers
  -- where they are agreed on for the family, no attribute is a Prefix SID, and the texts of the peer
  -- and of the next hop can be made, a message for each route is published, in order, with the text of
  -- its route distinguisher and the values of its labels.
  pub produce_route_monitor_message-vpn :
      (p : Producer) (ph : PeerHeader) (t : Peer s ph) (u : Update) (mp : MpReach) (reserved i : ℕ)
      (hop : String) (x : Vpn) (xs : List Vpn) (depth : ℕ) (sent : Sent)
      → get_nlri_type u.path_attributes ≡ (14, i)
      → attribute_at u.path_attributes i ≡ ok (of_list (encode_mp_reach reserved mp))
      → mp.next_hop_address_length ≡ length mp.next_hop_address
      → has_prefix_sid u.path_attributes ≡ false
      → mp.srv6 ≡ false
      → mp.add_path ≡ p.add_path_capable
      → (mp.address_family_id ≡ 1) ⊎ (mp.address_family_id ≡ 2)
      → mp.sub_address_family_id ≡ 128
      → mp.nlri ≡ encode_all (encode_vpn (path_id_flag mp)) (x ∷ xs)
      → All IsVpn (x ∷ xs)
      → get_next_hop s.texts (reach mp) ≡ ok hop
      → produce_route_monitor_message s takes_all other
          (suc depth)
          p
          (some ph)
          (record { update = some u })
          sent
        ≡ ok (
            sent
            ++ published (topic_shown p) (
                map l3vpn_prefix
                  (map (vpn_announced s p ph t "add" u (reach mp) hop (path_id_flag mp)) (x ∷ xs))))
  unfolding produce_route_monitor_message process_update
  produce_route_monitor_message-vpn p ph t u mp reserved i hop x xs depth sent a b h ns v w f c e k
        z =
      rw
        (
          get_nlri_type_any u.path_attributes,
          a,
          b,
          ns,
          decode_reach mp reserved false p.add_path_capable h v w,
        )
        (process_mp_update-vpn p ph t u mp hop x xs depth sent f c ns v e k z)
