-- ===== src/Producer/Unicast.antt =====
-- pkg/message/base-nlri.go and mp-unicast.go: a message for each unicast route of an update.
pub mod Announced
pub mod Named
use Prim.Native.String.{String}
use gobmp.Prelude.{
  ℕ, Bool, true, false, not, List, [], ◌∷◌, Option, none, some, map, ◌==◌, if◌then◌else◌,
}
use gobmp.Go.{bad_operation, Res, ok, err, ◌>>=◌, ◌>>◌, of_list, padded}
use gobmp.Base.Route.{Route, unmarshal_routes}
use gobmp.Base.Label.{Label}
use gobmp.Bgp.Attributes.{BaseAttributes}
use gobmp.Bgp.Update.{Update}
use gobmp.Bgp.Nlri.{nlri_message_type}
use gobmp.Bgp.Open.AddPath.{entry}
use gobmp.Bgp.MpNlri.{MpNlri, get_nlri_lu, get_nlri_unicast, get_next_hop, is_ipv6_nlri}
use gobmp.Bmp.PeerHeader.{
  PeerHeader, PeerType, is_adj_rib_in_post, is_adj_rib_out_post, is_loc_rib_filtered,
}
use gobmp.PrefixSid.{PSid, get_attr_prefix_sid}
use gobmp.Producer.Services.{
  some_or_none, Services, Producer, get_peer_hash, get_peer_timestamp, get_peer_addr_string,
  flag_or_false,
}

-- `UnicastPrefix`, without the fields that no code sets. `prefix_len`, `origin_as` and `path_id` are
-- int32 in the source: here their 32 bits.
pub record UnicastPrefix : Type 0 where
  pub action : String
  pub router_hash : String
  pub router_ip : String
  pub base_attributes : Option BaseAttributes
  pub peer_hash : String
  pub peer_ip : String
  pub peer_type : PeerType
  pub peer_asn : ℕ
  pub timestamp : String
  pub prefix : String
  pub prefix_len : ℕ
  pub is_ipv4 : Bool
  pub origin_as : ℕ
  pub nexthop : String
  pub is_nexthop_ipv4 : Bool
  pub path_id : ℕ
  pub labels : List ℕ
  pub prefix_sid : Option PSid
  pub is_eor : Bool
  pub is_adj_rib_in_post : Bool
  pub is_adj_rib_out_post : Bool
  pub is_loc_rib_filtered : Bool

-- The operation is 0 or 1.
unfoldable pub operation : ℕ → Res String
operation op = if op == 0 then ok "add" else if op == 1 then ok "del" else err bad_operation

-- `ases[len(ases)-1]`, 0 where there are none.
pub origin_as : List ℕ → ℕ
origin_as [] = 0
origin_as (a ∷ []) = a
origin_as (a ∷ (b ∷ r)) = origin_as (b ∷ r)

pub label_values : List Label → List ℕ
label_values [] = []
label_values (l ∷ ls) = l.value ∷ label_values ls

-- The call for each element, in order, up to the first that fails.
pub each {ℓ κ} : {A : Type ℓ} {B : Type κ} → (A → Res B) → List A → Res (List B)
each f [] = ok []
each f (x ∷ xs) = do y ← f x; ys ← each f xs; ok (y ∷ ys)

module _ (s : Services) where
  -- The message for an update without routes.
  pub end_of_rib : Producer → String → PeerHeader → Res UnicastPrefix
  end_of_rib p action ph = do
    ts ← get_peer_timestamp s ph
    ok (record {
      action = action;
      router_hash = p.speaker_hash;
      router_ip = p.speaker_ip;
      base_attributes = none;
      peer_hash = get_peer_hash s ph;
      peer_ip = "";
      peer_type = ph.peer_type;
      peer_asn = ph.peer_as;
      timestamp = ts;
      prefix = "";
      prefix_len = 0;
      is_ipv4 = false;
      origin_as = 0;
      nexthop = "";
      is_nexthop_ipv4 = false;
      path_id = 0;
      labels = [];
      prefix_sid = none;
      is_eor = true;
      is_adj_rib_in_post = false;
      is_adj_rib_out_post = false;
      is_loc_rib_filtered = false;
    })

  -- The message for a route: what both functions write, from the family, the next hop, the labels and
  -- the Prefix SID.
  pub prefix_message :
      Producer
      → String
      → PeerHeader
      → Update
      → Bool
      → String
      → List ℕ
      → Option PSid
      → Route
      → Res UnicastPrefix
  prefix_message p action ph u ipv6 hop labels sid e = do
    ts ← get_peer_timestamp s ph
    ip ← get_peer_addr_string s ph
    ok (record {
      action = action;
      router_hash = p.speaker_hash;
      router_ip = p.speaker_ip;
      base_attributes = some u.base_attributes;
      peer_hash = get_peer_hash s ph;
      peer_ip = ip;
      peer_type = ph.peer_type;
      peer_asn = ph.peer_as;
      timestamp = ts;
      prefix = if ipv6 then s.texts.ip16 (padded 16 e.prefix) else s.texts.ip4 (padded 4 e.prefix);
      prefix_len = e.length;
      is_ipv4 = not ipv6;
      origin_as = origin_as u.base_attributes.as_path;
      nexthop = hop;
      is_nexthop_ipv4 = not ipv6;
      path_id = e.path_id;
      labels = labels;
      prefix_sid = sid;
      is_eor = false;
      is_adj_rib_in_post = flag_or_false (is_adj_rib_in_post ph);
      is_adj_rib_out_post = flag_or_false (is_adj_rib_out_post ph);
      is_loc_rib_filtered = flag_or_false (is_loc_rib_filtered ph);
    })

  -- One message at the least: that of an update without routes where there are none.
  pub messages :
      Res UnicastPrefix → (Route → Res UnicastPrefix) → List Route → Res (List UnicastPrefix)
  messages eor f [] = do m ← eor; ok (m ∷ [])
  messages eor f (r ∷ rs) = each f (r ∷ rs)

  -- `nlri`: the routes of the update's own fields, for IPv4 unicast.
  pub nlri : ℕ → Producer → ℕ → PeerHeader → Update → Res (List UnicastPrefix)
  nlri depth p op ph u = do
    action ← operation op
    let path_id = entry p.add_path_capable (nlri_message_type 1 1)
    rs ← unmarshal_routes depth (of_list (if op == 0 then u.nlri else u.withdrawn_routes)) path_id
    messages (end_of_rib p action ph)
        (prefix_message p action ph u false u.base_attributes.nexthop [] none) rs

  -- The Prefix SID, which is asked for where the routes have labels.
  pub prefix_sid_of : Bool → Update → Res (Option PSid)
  prefix_sid_of label u = if label then some_or_none (get_attr_prefix_sid s.texts u) else ok none

  -- One turn of the loop of `unicast`.
  pub unicast_message :
      Producer → String → MpNlri → PeerHeader → Update → Bool → Route → Res UnicastPrefix
  unicast_message p action n ph u label e = do
    hop ← get_next_hop s.texts n
    sid ← prefix_sid_of label u
    prefix_message p action ph u (is_ipv6_nlri n) hop (if label then label_values e.label else [])
        sid e

  -- `unicast`: the routes of an MP_REACH_NLRI or MP_UNREACH_NLRI attribute.
  pub unicast : ℕ → Producer → MpNlri → ℕ → PeerHeader → Update → Bool → Res (List UnicastPrefix)
  unicast depth p n op ph u label = do
    action ← operation op
    rs ← (if label then get_nlri_lu depth n else get_nlri_unicast depth n)
    messages (end_of_rib p action ph) (unicast_message p action n ph u label) rs
