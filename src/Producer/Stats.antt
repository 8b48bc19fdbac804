-- ===== src/Producer/Stats.antt =====
-- pkg/message/bmpstats.go: the message for a Statistics Report.
pub mod Counting
use Prim.Native.String.{String}
use gobmp.Prelude.{ℕ, List, [], ◌∷◌, Option, none, some, ◌==◌, if◌then◌else◌}
use gobmp.Go.{Res, ok, ◌>>=◌, be32, be64}
use gobmp.Bmp.Info.{InformationalTlv, StatsReport}
use gobmp.Bmp.PeerHeader.{PeerHeader, PeerType}
use gobmp.Producer.Services.{
  Services, Producer, get_peer_timestamp, get_peer_addr_string, get_peer_bgp_id_string,
  get_peer_distinguisher_string,
}

-- The counters of `Stats`.
pub record Counters : Type 0 where
  pub duplicate_prefixs : ℕ
  pub duplicate_withdraws : ℕ
  pub invalidated_due_cluster : ℕ
  pub invalidated_due_aspath : ℕ
  pub invalidated_due_originator_id : ℕ
  pub invalidated_as_confed : ℕ
  pub adj_ribs_in : ℕ
  pub local_rib : ℕ
  pub updates_as_withdraw : ℕ
  pub prefixes_as_withdraw : ℕ

abbrev pub no_counters : Counters
no_counters = record {
  duplicate_prefixs = 0;
  duplicate_withdraws = 0;
  invalidated_due_cluster = 0;
  invalidated_due_aspath = 0;
  invalidated_due_originator_id = 0;
  invalidated_as_confed = 0;
  adj_ribs_in = 0;
  local_rib = 0;
  updates_as_withdraw = 0;
  prefixes_as_withdraw = 0;
}

-- `Stats`, without the fields that no code sets.
pub record Stats : Type 0 where
  pub router_hash : String
  pub router_ip : String
  pub peer_type : PeerType
  pub remote_bgp_id : String
  pub remote_asn : ℕ
  pub remote_ip : String
  pub peer_rd : String
  pub timestamp : String
  pub counters : Counters

-- The switch on the type of an element.
pub set_counter : InformationalTlv → Counters → Res Counters
set_counter v c =
    let t = v.information_type in
    let word = be32 v.information in
    let long = be64 v.information in
    if t == 1
    then (do n ← word; ok (record c { duplicate_prefixs = n }))
    else if t == 2
    then (do n ← word; ok (record c { duplicate_withdraws = n }))
    else if t == 3
    then (do n ← word; ok (record c { invalidated_due_cluster = n }))
    else if t == 4
    then (do n ← word; ok (record c { invalidated_due_aspath = n }))
    else if t == 5
    then (do n ← word; ok (record c { invalidated_due_originator_id = n }))
    else if t == 6
    then (do n ← word; ok (record c { invalidated_as_confed = n }))
    else if t == 7
    then (do n ← long; ok (record c { adj_ribs_in = n }))
    else if t == 8
    then (do n ← long; ok (record c { local_rib = n }))
    else if t == 11
    then (do n ← word; ok (record c { updates_as_withdraw = n }))
    else if t == 12
    then (do n ← word; ok (record c { prefixes_as_withdraw = n }))
    else ok c

pub count : List InformationalTlv → Counters → Res Counters
count [] c = ok c
count (v ∷ vs) c = do c' ← set_counter v c; count vs c'

-- `produceStatsMessage`; no message for a report without elements.
pub produce_stats_message : Services → PeerHeader → StatsReport → Producer → Res (Option Stats)
produce_stats_message s ph m p = elim m.stats_tlv [
  | [] ↦ ok none
  | v ∷ vs ↦ do
    rd ← get_peer_distinguisher_string s ph
    ts ← get_peer_timestamp s ph
    remote ← get_peer_addr_string s ph
    c ← count (v ∷ vs) no_counters
    ok (
        some (record {
          router_hash = p.speaker_hash;
          router_ip = p.speaker_ip;
          peer_type = ph.peer_type;
          remote_bgp_id = get_peer_bgp_id_string s ph;
          remote_asn = ph.peer_as;
          remote_ip = remote;
          peer_rd = rd;
          timestamp = ts;
          counters = c;
        }))
]
