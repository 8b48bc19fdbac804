-- ===== src/Producer/Stats/Counting.antt =====
-- The speaker that the message of a Statistics Report names.
use gobmp.Prelude.{◌≡◌, List, [], ◌∷◌, Option, none, some}
use gobmp.Go.{ok, ◌>>=◌}
use gobmp.Go.Gives.{Gives, Gives-ok, Gives-then}
use gobmp.Bmp.Info.{InformationalTlv, StatsReport}
use gobmp.Bmp.PeerHeader.{PeerHeader}
use gobmp.Producer.Services.{
  Services, Producer, get_peer_timestamp, get_peer_addr_string, get_peer_bgp_id_string,
  get_peer_distinguisher_string,
}
use gobmp.Producer.Unicast.Named.{IsSpeaker}
use gobmp.Producer.Stats.{Stats, no_counters, count, produce_stats_message}

abbrev pub IsNamed : Services → Option Stats → Type 0
IsNamed s none = Unit
IsNamed s (some m) = m.router_hash ≡ s.md5_text m.router_ip

pub produce_stats_message-IsNamed :
    (s : Services) (ph : PeerHeader) (m : StatsReport) (p : Producer)
    → IsSpeaker s p
    → Gives (IsNamed s) (produce_stats_message s ph m p)
unfolding produce_stats_message
produce_stats_message-IsNamed s ph m p w = go m.stats_tlv
  where
    go :
        (vs : List InformationalTlv)
        → Gives (IsNamed s) (elim vs [
          | [] ↦ ok none
          | v ∷ vs ↦ do
            rd ← get_peer_distinguisher_string s ph
            ts ← get_peer_timestamp s ph
            remote ← get_peer_addr_string s ph
            c ← count (v ∷ vs) no_counters
            ok (
                some (record {
                  router_hash = p.speaker_hash;
                  router_ip = p.speaker_ip;
                  peer_type = ph.peer_type;
                  remote_bgp_id = get_peer_bgp_id_string s ph;
                  remote_asn = ph.peer_as;
                  remote_ip = remote;
                  peer_rd = rd;
                  timestamp = ts;
                  counters = c;
                }))
        ])
    go [] = Gives-ok (IsNamed s) none tt
    go (v ∷ vs) = Gives-then (IsNamed s) (get_peer_distinguisher_string s ph) _ (λ rd.
        Gives-then (IsNamed s) (get_peer_timestamp s ph) _ (λ ts.
          Gives-then (IsNamed s) (get_peer_addr_string s ph) _ (λ remote.
            Gives-then (IsNamed s) (count (v ∷ vs) no_counters) _ (λ c. Gives-ok (IsNamed s) _ w))))
