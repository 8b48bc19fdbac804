-- ===== src/Bmp/PeerHeader.antt =====
-- pkg/bmp/per-peer-header.go
pub mod RoundTrip
mod Tests
use gobmp.Prelude.{ℕ, ◌+◌, Bool, true, false, List, bit_and, length, ◌==◌, if◌then◌else◌}
use gobmp.Go.{
  bad_peer_type, bad_flag_request, Res, ok, err, ◌>>=◌, Slice, index, uint32_at, copy_at,
}

-- The four peer types; `local_rib` is peer type 3 of RFC 9069.
pub data PeerType : Type 0 where
  global rd_instance local_instance local_rib : PeerType

pub record PeerHeader : Type 0 where
  pub peer_type : PeerType
  pub flag_f : Bool
  pub flag_v : Bool
  pub flag_l : Bool
  pub flag_a : Bool
  pub flag_o : Bool
  pub distinguisher : List ℕ
  pub address : List ℕ
  pub peer_as : ℕ
  pub bgp_id : List ℕ
  pub timestamp : List ℕ

-- `peerType`
unfoldable pub peer_type : ℕ → Res PeerType
peer_type t =
    if t == 0
    then ok global
    else if t == 1
    then ok rd_instance
    else if t == 2
    then ok local_instance
    else if t == 3
    then ok local_rib
    else err bad_peer_type

abbrev pub is_local_rib : PeerType → Bool
is_local_rib local_rib = true
is_local_rib _ = false

unfoldable pub flag : ℕ → ℕ → Bool
flag byte mask = bit_and byte mask == mask

unfoldable pub unmarshal_peer_header : Slice → Res PeerHeader
unmarshal_peer_header b = do
  t ← index b 0
  kind ← peer_type t
  f ← index b 1
  let rib = is_local_rib kind
  d ← copy_at b 2 8
  a ← copy_at b 10 16
  n ← uint32_at b 26
  i ← copy_at b 30 4
  s ← copy_at b 34 8
  ok (record {
    peer_type = kind;
    flag_f = if rib then flag f 0x80 else false;
    flag_v = if rib then false else flag f 0x80;
    flag_l = if rib then false else flag f 0x40;
    flag_a = if rib then false else flag f 0x20;
    flag_o = if rib then false else flag f 0x10;
    distinguisher = d;
    address = a;
    peer_as = n;
    bgp_id = i;
    timestamp = s;
  })

-- `Len`
pub header_len : PeerHeader → ℕ
header_len p =
    1 + 1 + length p.distinguisher + length p.address + 4 + length p.bgp_id + length p.timestamp

pub is_adj_rib_out_post : PeerHeader → Res Bool
is_adj_rib_out_post p = if is_local_rib p.peer_type then err bad_flag_request else ok p.flag_o

pub is_adj_rib_in_post : PeerHeader → Res Bool
is_adj_rib_in_post p = if is_local_rib p.peer_type then err bad_flag_request else ok p.flag_l

pub is_loc_rib_filtered : PeerHeader → Res Bool
is_loc_rib_filtered p = if is_local_rib p.peer_type then ok p.flag_f else err bad_flag_request

abbrev pub is_remote_peer_ipv6 : PeerHeader → Bool
is_remote_peer_ipv6 p = if is_local_rib p.peer_type then false else p.flag_v
