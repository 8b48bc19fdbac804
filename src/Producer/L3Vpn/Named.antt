-- ===== src/Producer/L3Vpn/Named.antt =====
-- The speaker that VPN messages name.
use Prim.Native.String.{String}
use gobmp.Prelude.{ℕ, ◌≡◌, All}
use gobmp.Go.Gives.{Gives, Gives-ok, Gives-then}
use gobmp.Base.Route.{Route}
use gobmp.Bgp.Update.{Update}
use gobmp.Bgp.MpNlri.{MpNlri, get_next_hop, get_nlri_l3vpn}
use gobmp.Bmp.PeerHeader.{PeerHeader}
use gobmp.Producer.Services.{
  Services, Producer, get_peer_timestamp, get_peer_addr_string, some_or_none,
}
use gobmp.PrefixSid.{get_attr_prefix_sid}
use gobmp.Producer.Unicast.{operation}
use gobmp.Producer.Unicast.Named.{IsSpeaker, each-All}
use gobmp.Producer.L3Vpn.{L3VpnPrefix, l3vpn, l3vpn_message, rd_parts}

abbrev pub IsNamed : Services → L3VpnPrefix → Type 0
IsNamed s m = m.router_hash ≡ s.md5_text m.router_ip

module _ (s : Services) (p : Producer) (w : IsSpeaker s p) where
  l3vpn_message-IsNamed :
      (action : String) (n : MpNlri) (ph : PeerHeader) (u : Update) (r : Route)
      → Gives (IsNamed s) (l3vpn_message s p action n ph u r)
  unfolding l3vpn_message
  l3vpn_message-IsNamed action n ph u r = Gives-then (IsNamed s) (get_peer_timestamp s ph) _ (λ ts.
      Gives-then (IsNamed s) (get_next_hop s.texts n) _ (λ hop.
        Gives-then (IsNamed s) (get_peer_addr_string s ph) _ (λ ip.
          Gives-then (IsNamed s) (rd_parts s.texts r.rd) _ (λ rd.
            Gives-then (IsNamed s) (some_or_none (get_attr_prefix_sid s.texts u)) _
              (λ sid. Gives-ok _ _ w)))))

  pub l3vpn-All :
      (depth : ℕ) (n : MpNlri) (op : ℕ) (ph : PeerHeader) (u : Update)
      → Gives (All (IsNamed s)) (l3vpn s depth p n op ph u)
  unfolding l3vpn
  l3vpn-All depth n op ph u = Gives-then (All (IsNamed s)) (get_nlri_l3vpn depth n) _ (λ rs.
      Gives-then (All (IsNamed s)) (operation op) _
        (λ action. each-All (IsNamed s) _ (l3vpn_message-IsNamed action n ph u) rs))
