-- ===== src/Producer/Evpn/Announced.antt =====
-- The messages that EVPN routes become, written out by the type of route.
use Prim.Native.String.{String}
use gobmp.Prelude.{
  ◌∷◌, ℕ, ◌/◌, ◌≡◌, refl, not, List, [], Option, none, some, All, map, length, take_all, leb,
  if◌then◌else◌, arith,
}
use gobmp.Go.{ok}
use gobmp.Base.Rd.{Rd}
use gobmp.Base.Rd.Words.{rd_words, rd_text-rd_words}
use gobmp.Base.Label.{Label, get_raw_value}
use gobmp.Bgp.Texts.{Texts}
use gobmp.Bgp.Update.{Update}
use gobmp.Bgp.MpNlri.{MpNlri, get_nlri_evpn, get_next_hop, is_ipv6_nlri, is_next_hop_ipv6}
use gobmp.Bmp.PeerHeader.{PeerHeader, is_adj_rib_in_post, is_adj_rib_out_post, is_loc_rib_filtered}
use gobmp.Evpn.{
  RouteTypeSpec, eth_auto_discovery, mac_ip_advertisement, inclusive_multicast_eth_tag,
  ethernet_segment, ip_prefix, Nlri,
}
use gobmp.Evpn.Routes.Fields.{IsMac, of_option}
use gobmp.Evpn.RoundTrip.{IsSpec, IsEvpn}
use gobmp.Producer.Services.{
  Services, Producer, get_peer_hash, get_peer_bgp_id_string, flag_or_false,
}
use gobmp.Producer.Unicast.{operation, origin_as}
use gobmp.Producer.Unicast.Announced.{Peer, each_good, label_values-map, label_values-nil}
use gobmp.Producer.Evpn.{
  EvpnPrefix, colon_join, raw_values, mac_bytes, address_text, address_of, or_zero, esi_text, evpn,
  evpn_message,
}

-- What a message shows of a route: an address has its bits with it.
pub record Shown : Type 0 where
  pub rd : Rd
  pub esi : Option (List ℕ)
  pub tag : Option (List ℕ)
  pub labels : List Label
  pub bits : ℕ
  pub address : Option (List ℕ)
  pub gateway : Option (List ℕ)
  pub mac_bits : ℕ
  pub mac : List ℕ

-- The tags of MAC/IP advertisements and of IP prefixes are not shown.
abbrev pub shown : RouteTypeSpec → Shown
shown (eth_auto_discovery x) = record {
  rd = x.rd;
  esi = some x.esi;
  tag = some x.eth_tag;
  labels = x.label;
  bits = 0;
  address = none;
  gateway = none;
  mac_bits = 0;
  mac = [];
}
shown (mac_ip_advertisement x) = record {
  rd = x.rd;
  esi = some x.esi;
  tag = none;
  labels = x.label;
  bits = x.ip_addr_length;
  address = x.ip_addr;
  gateway = none;
  mac_bits = x.mac_addr_length;
  mac = of_option x.mac_addr;
}
shown (inclusive_multicast_eth_tag x) = record {
  rd = x.rd;
  esi = none;
  tag = some x.eth_tag;
  labels = [];
  bits = x.ip_addr_length;
  address = x.ip_addr;
  gateway = none;
  mac_bits = 0;
  mac = [];
}
shown (ethernet_segment x) = record {
  rd = x.rd;
  esi = some x.esi;
  tag = none;
  labels = [];
  bits = x.ip_addr_length;
  address = x.ip_addr;
  gateway = none;
  mac_bits = 0;
  mac = [];
}
shown (ip_prefix x) = record {
  rd = x.rd;
  esi = some x.esi;
  tag = none;
  labels = x.label;
  bits = x.ip_addr_length;
  address = some x.ip_addr;
  gateway = some x.gw_ip_addr;
  mac_bits = 0;
  mac = [];
}

-- Addresses of up to 128 bits have a text, in the form of sixteen bytes.
abbrev pub address_shown : Texts → ℕ → Option (List ℕ) → String
address_shown t l none = ""
address_shown t l (some a) = if leb l 128 then t.ip16 a else ""

abbrev pub esi_shown : Services → Option (List ℕ) → String
esi_shown s none = ""
esi_shown s (some e) = colon_join (map s.two_digits e)

address_text_lem :
    (t : Texts) (l : ℕ) (a : Option (List ℕ)) → address_text t l a ≡ address_shown t l a
unfolding address_text
address_text_lem t l none = refl
address_text_lem t l (some a) = ground arith

raw_values-map : (ls : List Label) → raw_values ls ≡ map get_raw_value ls
unfolding raw_values
raw_values-map [] = refl
raw_values-map (l ∷ ls) = rw (raw_values-map ls)

mac_bytes_lem : (l : ℕ) (m : Option (List ℕ)) → IsMac l m → mac_bytes (l / 8) m ≡ ok (of_option m)
unfolding mac_bytes
mac_bytes_lem l none h = rw h
mac_bytes_lem l (some m) (six, size) = rw (six, size, take_all 6 m (omega arith))

esi_text_lem :
    (s : Services) (e : List ℕ) → length e ≡ 10 → esi_text s (some e) ≡ esi_shown s (some e)
unfolding esi_text
esi_text_lem s e h = rw (take_all 10 e (omega arith))

esi_text-none : (s : Services) → esi_text s none ≡ ""
unfolding esi_text
esi_text-none s = refl

module _ (s : Services) (p : Producer) (ph : PeerHeader) (t : Peer s ph) where
  -- The message of an EVPN route.
  abbrev pub evpn_announced : String → Update → MpNlri → String → Nlri → EvpnPrefix
  evpn_announced action u n hop x = record {
    action = action;
    router_hash = p.speaker_hash;
    router_ip = p.speaker_ip;
    base_attributes = u.base_attributes;
    peer_hash = get_peer_hash s ph;
    remote_bgp_id = get_peer_bgp_id_string s ph;
    peer_ip = t.ip;
    peer_type = ph.peer_type;
    peer_asn = ph.peer_as;
    timestamp = t.time;
    is_ipv4 = not (is_ipv6_nlri n);
    origin_as = origin_as u.base_attributes.as_path;
    nexthop = hop;
    is_nexthop_ipv4 = not (is_next_hop_ipv6 n);
    labels = map (λ l. l.value) (shown x.spec).labels;
    raw_labels = map get_raw_value (shown x.spec).labels;
    vpn_rd = rd_words s.texts (shown x.spec).rd;
    esi = esi_shown s (shown x.spec).esi;
    eth_tag = (shown x.spec).tag;
    ip_address = address_shown s.texts (shown x.spec).bits (shown x.spec).address;
    ip_length = (shown x.spec).bits;
    gw_address = address_shown s.texts (shown x.spec).bits (shown x.spec).gateway;
    mac = colon_join (map s.two_hex (shown x.spec).mac);
    mac_length = (shown x.spec).mac_bits;
    route_type = x.route_type;
    is_adj_rib_in_post = flag_or_false (is_adj_rib_in_post ph);
    is_adj_rib_out_post = flag_or_false (is_adj_rib_out_post ph);
    is_loc_rib_filtered = flag_or_false (is_loc_rib_filtered ph);
  }

  module _ (action : String) (u : Update) (n : MpNlri) (hop : String)
      (has_hop : get_next_hop s.texts n ≡ ok hop) where
    message_at :
        (k l : ℕ) (x : RouteTypeSpec)
        → IsSpec x
        → evpn_message s p action n ph u (record { route_type = k; length = l; spec = x })
          ≡ ok (evpn_announced action u n hop (record { route_type = k; length = l; spec = x }))
    unfolding evpn_message address_of or_zero mac_bytes colon_join
    message_at k l (eth_auto_discovery x) (h, one) = rw (
      label_values-map x.label,
      raw_values-map x.label,
      t.has_time,
      has_hop,
      t.has_ip,
      rd_text-rd_words s.texts x.rd h.rd_known,
      esi_text_lem s x.esi h.esi_sized,
    )
    message_at k l (mac_ip_advertisement x) h = rw (
      label_values-map x.label,
      raw_values-map x.label,
      t.has_time,
      has_hop,
      t.has_ip,
      rd_text-rd_words s.texts x.rd h.rd_known,
      mac_bytes_lem x.mac_addr_length x.mac_addr h.mac_sized,
      esi_text_lem s x.esi h.esi_sized,
      address_text_lem s.texts x.ip_addr_length x.ip_addr,
      address_text_lem s.texts x.ip_addr_length none,
    )
    message_at k l (inclusive_multicast_eth_tag x) h = rw (
      label_values-nil,
      raw_values-map [],
      t.has_time,
      has_hop,
      t.has_ip,
      rd_text-rd_words s.texts x.rd h.rd_known,
      esi_text-none s,
      address_text_lem s.texts x.ip_addr_length x.ip_addr,
      address_text_lem s.texts x.ip_addr_length none,
    )
    message_at k l (ethernet_segment x) h = rw (
      label_values-nil,
      raw_values-map [],
      t.has_time,
      has_hop,
      t.has_ip,
      rd_text-rd_words s.texts x.rd h.rd_known,
      esi_text_lem s x.esi h.esi_sized,
      address_text_lem s.texts x.ip_addr_length x.ip_addr,
      address_text_lem s.texts x.ip_addr_length none,
    )
    message_at k l (ip_prefix x) (w, h) = rw (
      label_values-map x.label,
      raw_values-map x.label,
      t.has_time,
      has_hop,
      t.has_ip,
      rd_text-rd_words s.texts x.rd h.rd_known,
      esi_text_lem s x.esi h.esi_sized,
      address_text_lem s.texts x.ip_addr_length (some x.ip_addr),
      address_text_lem s.texts x.ip_addr_length (some x.gw_ip_addr),
    )

    pub evpn-evpn_announced :
        (op : ℕ) (xs : List Nlri)
        → operation op ≡ ok action
        → get_nlri_evpn n ≡ ok xs
        → All IsEvpn xs
        → evpn s p n op ph u ≡ ok (map (evpn_announced action u n hop) xs)
    unfolding evpn
    evpn-evpn_announced op xs o e h =
        rw (e, o)
          (each_good IsEvpn (evpn_message s p action n ph u) (evpn_announced action u n hop)
            (λ x k. message_at x.route_type x.length x.spec k.fields) xs h)
