-- ===== src/Producer/Evpn.antt =====
-- pkg/message/evpn.go: a message for each EVPN route of an update.
pub mod Named
pub mod Announced
use Prim.Native.String.{String}
use gobmp.Prelude.{
  ℕ, zero, suc, ◌/◌, Bool, not, List, [], ◌∷◌, Option, none, some, map, take, length, ltb, leb,
  ◌==◌, if◌then◌else◌,
}
use gobmp.Go.{Res, ok, panic, ◌>>=◌}
use gobmp.Base.Label.{Label, get_raw_value}
use gobmp.Bgp.Texts.{Texts, ◌<>◌}
use gobmp.Bgp.Attributes.{BaseAttributes}
use gobmp.Bgp.Update.{Update}
use gobmp.Bgp.MpNlri.{MpNlri, get_nlri_evpn, get_next_hop, is_ipv6_nlri, is_next_hop_ipv6}
use gobmp.Bmp.PeerHeader.{
  PeerHeader, PeerType, is_adj_rib_in_post, is_adj_rib_out_post, is_loc_rib_filtered,
}
use gobmp.Evpn.{Nlri, get_evpn_esi, get_evpn_tag, get_evpn_label}
use gobmp.Evpn.Accessors.{
  get_evpn_rd, get_evpn_mac, get_evpn_mac_length, get_evpn_ip_addr, get_evpn_ip_length,
  get_evpn_gw_addr,
}
use gobmp.Producer.Services.{
  Services, Producer, get_peer_hash, get_peer_timestamp, get_peer_addr_string,
  get_peer_bgp_id_string, flag_or_false,
}
use gobmp.Producer.Unicast.{operation, origin_as, each, label_values}

-- `EVPNPrefix`, without the fields that no code sets; the int32 field by its 32 bits.
pub record EvpnPrefix : Type 0 where
  pub action : String
  pub router_hash : String
  pub router_ip : String
  pub base_attributes : BaseAttributes
  pub peer_hash : String
  pub remote_bgp_id : String
  pub peer_ip : String
  pub peer_type : PeerType
  pub peer_asn : ℕ
  pub timestamp : String
  pub is_ipv4 : Bool
  pub origin_as : ℕ
  pub nexthop : String
  pub is_nexthop_ipv4 : Bool
  pub labels : List ℕ
  pub raw_labels : List ℕ
  pub vpn_rd : String
  pub esi : String
  pub eth_tag : Option (List ℕ)
  pub ip_address : String
  pub ip_length : ℕ
  pub gw_address : String
  pub mac : String
  pub mac_length : ℕ
  pub route_type : ℕ
  pub is_adj_rib_in_post : Bool
  pub is_adj_rib_out_post : Bool
  pub is_loc_rib_filtered : Bool

-- Texts with ":" between them.
pub colon_join : List String → String
colon_join [] = ""
colon_join (x ∷ []) = x
colon_join (x ∷ (y ∷ ys)) = x <> ":" <> colon_join (y ∷ ys)

pub raw_values : List Label → List ℕ
raw_values [] = []
raw_values (l ∷ ls) = get_raw_value l ∷ raw_values ls

-- The loop over the bytes of a MAC address; a nil pointer or an index past its end panics.
pub mac_bytes : ℕ → Option (List ℕ) → Res (List ℕ)
mac_bytes zero v = ok []
mac_bytes (suc n) none = panic
mac_bytes (suc n) (some v) = if leb (suc n) (length v) then ok (take (suc n) v) else panic

-- An address after both tests on the length: the second writes over what the first wrote.
pub address_text : Texts → ℕ → Option (List ℕ) → String
address_text t l none = ""
address_text t l (some a) =
    let first = if leb l 32 then t.ip4 a else "" in if leb l 128 then t.ip16 a else first

-- The addresses, where the type of route has a length of an address.
pub address_of : Texts → Option ℕ → Option (List ℕ) → String
address_of t none a = ""
address_of t (some l) a = address_text t l a

pub or_zero : Option ℕ → ℕ
or_zero none = 0
or_zero (some l) = l

module _ (s : Services) where
  pub esi_text : Option (List ℕ) → String
  esi_text none = ""
  esi_text (some e) = colon_join (map s.two_digits (take 10 e))

  -- One turn of the loop of `evpn`; a route of the decoder is never nil.
  pub evpn_message : Producer → String → MpNlri → PeerHeader → Update → Nlri → Res EvpnPrefix
  evpn_message p action n ph u e = do
    ts ← get_peer_timestamp s ph
    hop ← get_next_hop s.texts n
    ip ← get_peer_addr_string s ph
    rd ← get_evpn_rd s.texts e
    mac ← mac_bytes (or_zero (get_evpn_mac_length e) / 8) (get_evpn_mac e)
    ok (record {
      action = action;
      router_hash = p.speaker_hash;
      router_ip = p.speaker_ip;
      base_attributes = u.base_attributes;
      peer_hash = get_peer_hash s ph;
      remote_bgp_id = get_peer_bgp_id_string s ph;
      peer_ip = ip;
      peer_type = ph.peer_type;
      peer_asn = ph.peer_as;
      timestamp = ts;
      is_ipv4 = not (is_ipv6_nlri n);
      origin_as = origin_as u.base_attributes.as_path;
      nexthop = hop;
      is_nexthop_ipv4 = not (is_next_hop_ipv6 n);
      labels = label_values (get_evpn_label e);
      raw_labels = raw_values (get_evpn_label e);
      vpn_rd = rd;
      esi = esi_text (get_evpn_esi e);
      eth_tag = get_evpn_tag e;
      ip_address = address_of s.texts (get_evpn_ip_length e) (get_evpn_ip_addr e);
      ip_length = or_zero (get_evpn_ip_length e);
      gw_address = address_of s.texts (get_evpn_ip_length e) (get_evpn_gw_addr e);
      mac = colon_join (map s.two_hex mac);
      mac_length = or_zero (get_evpn_mac_length e);
      route_type = e.route_type;
      is_adj_rib_in_post = flag_or_false (is_adj_rib_in_post ph);
      is_adj_rib_out_post = flag_or_false (is_adj_rib_out_post ph);
      is_loc_rib_filtered = flag_or_false (is_loc_rib_filtered ph);
    })

  pub evpn : Producer → MpNlri → ℕ → PeerHeader → Update → Res (List EvpnPrefix)
  evpn p n op ph u = do
    ns ← get_nlri_evpn n
    action ← operation op
    each (evpn_message p action n ph u) ns
