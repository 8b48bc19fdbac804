-- ===== src/Producer/Peer/Named.antt =====
-- The speaker that the messages of Peer Up and Peer Down name.
use gobmp.Prelude.{◌≡◌, refl}
use gobmp.Go.Gives.{Gives, Gives-ok, Gives-then}
use gobmp.Bmp.Info.{PeerDown}
use gobmp.Bmp.PeerUp.{PeerUp, get_local_address_string}
use gobmp.Bmp.PeerHeader.{PeerHeader}
use gobmp.Producer.Services.{
  Services, Producer, get_peer_timestamp, get_peer_addr_string, get_peer_distinguisher_string,
}
use gobmp.Producer.Unicast.Named.{IsSpeaker}
use gobmp.Producer.Peer.{PeerStateChange, produce_peer_up, produce_peer_down, learn, local_asn_of}

abbrev pub IsNamed : Services → PeerStateChange → Type 0
IsNamed s m = m.router_hash ≡ s.md5_text m.router_ip

abbrev Learned : Services → Producer × PeerStateChange → Type 0
Learned s (p, m) = IsSpeaker s p × IsNamed s m

module _ (s : Services) (ph : PeerHeader) (p : Producer) where
  -- After a Peer Up the producer's hash is that of its address, and so is the message's.
  pub produce_peer_up-Learned :
      (m : PeerUp)
      → Gives
          (λ (r : Producer × PeerStateChange). IsSpeaker s r.0 × IsNamed s r.1)
          (produce_peer_up s ph m p)
  unfolding produce_peer_up learn
  produce_peer_up-Learned m = Gives-then _ (get_peer_distinguisher_string s ph) _ (λ rd.
      Gives-then _ (get_peer_timestamp s ph) _ (λ ts.
        Gives-then _ (get_peer_addr_string s ph) _ (λ remote.
          Gives-then _ (get_local_address_string s.texts m) _
            (λ ip. Gives-then _ (local_asn_of m.sent_open) _ (λ asn. Gives-ok _ _ (refl, refl))))))

  pub produce_peer_down-IsNamed :
      (m : PeerDown) → IsSpeaker s p → Gives (IsNamed s) (produce_peer_down s ph m p)
  unfolding produce_peer_down
  produce_peer_down-IsNamed m w = Gives-then _ (get_peer_distinguisher_string s ph) _ (λ rd.
      Gives-then _ (get_peer_timestamp s ph) _
        (λ ts. Gives-then _ (get_peer_addr_string s ph) _ (λ remote. Gives-ok _ _ w)))
