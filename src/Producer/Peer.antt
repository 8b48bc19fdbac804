-- ===== src/Producer/Peer.antt =====
-- pkg/message/peer.go: the messages for Peer Up and Peer Down, and what the producer keeps of a Peer
-- Up.
pub mod Named
use Prim.Native.String.{String}
use gobmp.Prelude.{ℕ, Bool, true, false, not, List, [], Option, none, some, if◌then◌else◌}
use gobmp.Go.{Res, ok, ◌>>=◌}
use gobmp.Bgp.Open.{OpenMessage, Capabilities, is_4bytes_as_capable}
use gobmp.Bmp.Info.{PeerDown}
use gobmp.Bmp.PeerUp.{PeerUp, get_local_address_string}
use gobmp.Bmp.PeerHeader.{
  PeerHeader, PeerType, is_adj_rib_in_post, is_adj_rib_out_post, is_loc_rib_filtered,
  is_remote_peer_ipv6,
}
use gobmp.Producer.{agree_add_path}
use gobmp.Producer.Services.{
  Services, Producer, get_peer_timestamp, get_peer_addr_string, get_peer_bgp_id_string,
  get_peer_distinguisher_string, flag_or_false,
}

-- `PeerStateChange`, without the fields that no code sets. The hold times are int16 in the source: here
-- their 16 bits. `none` is a capability that is nil.
pub record PeerStateChange : Type 0 where
  pub action : String
  pub router_hash : String
  pub remote_bgp_id : String
  pub router_ip : String
  pub timestamp : String
  pub remote_asn : ℕ
  pub remote_ip : String
  pub peer_type : PeerType
  pub peer_rd : String
  pub remote_port : ℕ
  pub local_asn : ℕ
  pub local_ip : String
  pub local_port : ℕ
  pub local_bgp_id : String
  pub info_data : List ℕ
  pub adv_capabilities : Option Capabilities
  pub rcv_capabilities : Option Capabilities
  pub remote_holddown : ℕ
  pub adv_holddown : ℕ
  pub bmp_reason : ℕ
  pub is_ipv4 : Bool
  pub is_adj_rib_in_post : Bool
  pub is_adj_rib_out_post : Bool
  pub is_loc_rib_filtered : Bool

-- `if lasn, ok := Is4BytesASCapable(); ok { m.LocalASN = lasn }`
pub local_asn_of : OpenMessage → Res ℕ
local_asn_of o = do (asn, capable) ← is_4bytes_as_capable o; ok (if capable then asn else o.my_as)

module _ (s : Services) where
  -- What the producer keeps of a Peer Up: the speaker and the families with path identifiers.
  pub learn : PeerUp → String → Producer → Producer
  learn m ip p = record p {
    speaker_ip = ip;
    speaker_hash = s.md5_text ip;
    add_path_capable = agree_add_path m.sent_open m.received_open p.add_path_capable;
  }

  -- `producePeerMessage(peerUP, msg)`
  pub produce_peer_up : PeerHeader → PeerUp → Producer → Res (Producer × PeerStateChange)
  produce_peer_up ph m p = do
    rd ← get_peer_distinguisher_string s ph
    ts ← get_peer_timestamp s ph
    remote ← get_peer_addr_string s ph
    ip ← get_local_address_string s.texts m
    asn ← local_asn_of m.sent_open
    let p' = learn m ip p
    ok (
      p',
      record {
        action = "add";
        router_hash = p'.speaker_hash;
        remote_bgp_id = get_peer_bgp_id_string s ph;
        router_ip = p'.speaker_ip;
        timestamp = ts;
        remote_asn = ph.peer_as;
        remote_ip = remote;
        peer_type = ph.peer_type;
        peer_rd = rd;
        remote_port = m.remote_port;
        local_asn = asn;
        local_ip = ip;
        local_port = m.local_port;
        local_bgp_id = s.texts.ip4 m.sent_open.bgp_id;
        info_data = [];
        adv_capabilities = some m.sent_open.capabilities;
        rcv_capabilities = some m.received_open.capabilities;
        remote_holddown = m.received_open.hold_time;
        adv_holddown = m.sent_open.hold_time;
        bmp_reason = 0;
        is_ipv4 = not (is_remote_peer_ipv6 ph);
        is_adj_rib_in_post = flag_or_false (is_adj_rib_in_post ph);
        is_adj_rib_out_post = flag_or_false (is_adj_rib_out_post ph);
        is_loc_rib_filtered = flag_or_false (is_loc_rib_filtered ph);
      },
    )

  -- `producePeerMessage(peerDown, msg)`
  pub produce_peer_down : PeerHeader → PeerDown → Producer → Res PeerStateChange
  produce_peer_down ph m p = do
    rd ← get_peer_distinguisher_string s ph
    ts ← get_peer_timestamp s ph
    remote ← get_peer_addr_string s ph
    ok (record {
      action = "down";
      router_hash = p.speaker_hash;
      remote_bgp_id = get_peer_bgp_id_string s ph;
      router_ip = p.speaker_ip;
      timestamp = ts;
      remote_asn = ph.peer_as;
      remote_ip = remote;
      peer_type = ph.peer_type;
      peer_rd = rd;
      remote_port = 0;
      local_asn = 0;
      local_ip = "";
      local_port = 0;
      local_bgp_id = "";
      info_data = m.info;
      adv_capabilities = none;
      rcv_capabilities = none;
      remote_holddown = 0;
      adv_holddown = 0;
      bmp_reason = m.reason;
      is_ipv4 = not (is_remote_peer_ipv6 ph);
      is_adj_rib_in_post = false;
      is_adj_rib_out_post = false;
      is_loc_rib_filtered = false;
    })
