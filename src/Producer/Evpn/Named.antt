-- ===== src/Producer/Evpn/Named.antt =====
-- The speaker that EVPN messages name.
use Prim.Native.String.{String}
use gobmp.Prelude.{ℕ, ◌/◌, ◌≡◌, All}
use gobmp.Go.Gives.{Gives, Gives-ok, Gives-then}
use gobmp.Evpn.{Nlri}
use gobmp.Bgp.Update.{Update}
use gobmp.Bgp.MpNlri.{MpNlri, get_next_hop, get_nlri_evpn}
use gobmp.Bmp.PeerHeader.{PeerHeader}
use gobmp.Producer.Services.{Services, Producer, get_peer_timestamp, get_peer_addr_string}
use gobmp.Evpn.Accessors.{get_evpn_rd, get_evpn_mac, get_evpn_mac_length}
use gobmp.Producer.Unicast.{operation}
use gobmp.Producer.Unicast.Named.{IsSpeaker, each-All}
use gobmp.Producer.Evpn.{EvpnPrefix, evpn, evpn_message, mac_bytes, or_zero}

abbrev pub IsNamed : Services → EvpnPrefix → Type 0
IsNamed s m = m.router_hash ≡ s.md5_text m.router_ip

module _ (s : Services) (p : Producer) (w : IsSpeaker s p) where
  evpn_message-IsNamed :
      (action : String) (n : MpNlri) (ph : PeerHeader) (u : Update) (e : Nlri)
      → Gives (IsNamed s) (evpn_message s p action n ph u e)
  unfolding evpn_message
  evpn_message-IsNamed action n ph u e = Gives-then (IsNamed s) (get_peer_timestamp s ph) _ (λ ts.
      Gives-then (IsNamed s) (get_next_hop s.texts n) _ (λ hop.
        Gives-then (IsNamed s) (get_peer_addr_string s ph) _ (λ ip.
          Gives-then (IsNamed s) (get_evpn_rd s.texts e) _ (λ rd.
            Gives-then (IsNamed s)
              (mac_bytes (or_zero (get_evpn_mac_length e) / 8) (get_evpn_mac e)) _
              (λ mac. Gives-ok _ _ w)))))

  pub evpn-All :
      (n : MpNlri) (op : ℕ) (ph : PeerHeader) (u : Update)
      → Gives (All (IsNamed s)) (evpn s p n op ph u)
  unfolding evpn
  evpn-All n op ph u = Gives-then (All (IsNamed s)) (get_nlri_evpn n) _ (λ ns.
      Gives-then (All (IsNamed s)) (operation op) _
        (λ action. each-All (IsNamed s) _ (evpn_message-IsNamed action n ph u) ns))
