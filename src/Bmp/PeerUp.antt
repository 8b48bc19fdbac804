-- ===== src/Bmp/PeerUp.antt =====
-- pkg/bmp/peer-up.go
use Prim.Native.String.{String}
use gobmp.Prelude.{ℕ, ◌+◌, ◌-◌, ◌%◌, Bool, List, [], ltb, leb, if◌then◌else◌}
use gobmp.Go.{
  Res, ok, ◌>>=◌, ◌>>◌, panic_if, Slice, slice, slice_from, bytes, of_list, uint16_at, copy_at,
}
use gobmp.Bgp.Texts.{Texts}
use gobmp.Bgp.Attributes.{Formats}
use gobmp.Bgp.Open.{OpenMessage, unmarshal_open}
use gobmp.Bmp.Info.{InformationalTlv, unmarshal_tlv}

pub record PeerUp : Type 0 where
  pub local_address : List ℕ
  pub local_port : ℕ
  pub remote_port : ℕ
  pub sent_open : OpenMessage
  pub received_open : OpenMessage
  pub information : List InformationalTlv
  pub is_remote_peer_ipv6 : Bool

-- `GetLocalAddressString`
pub get_local_address_string : Texts → PeerUp → Res String
get_local_address_string t m =
    if m.is_remote_peer_ipv6
    then ok (t.ip16 m.local_address)
    else (do a ← slice_from (of_list m.local_address) 12; ok (t.ip4 (bytes a)))

-- An OPEN message behind its marker, from the length at `p` on: `b[p : p+int(l-16)]`, where `l - 16`
-- wraps as an int16, and then `p += int(l) - 16`. A negative bound panics: in this slice, or in the
-- next one if the length itself is negative.
pub open_at : Formats → Slice → ℕ → Res (OpenMessage × ℕ)
open_at fmt b p = do
  l ← uint16_at b p
  let n = (l + 65520) % 65536
  panic_if (leb 32768 n)
  s ← slice b p (p + n)
  o ← unmarshal_open fmt s
  panic_if (leb 32768 l)
  ok (o, p + l - 16)

pub unmarshal_peer_up : Formats → Slice → Bool → Res PeerUp
unmarshal_peer_up fmt b ipv6 = do
  a ← copy_at b 0 16
  local ← uint16_at b 16
  remote ← uint16_at b 18
  (sent, p) ← open_at fmt b 36
  (received, q) ← open_at fmt b (p + 16)
  info ← (if ltb q b.len then (do rest ← slice_from b q; unmarshal_tlv rest) else ok [])
  ok (record {
    local_address = a;
    local_port = local;
    remote_port = remote;
    sent_open = sent;
    received_open = received;
    information = info;
    is_remote_peer_ipv6 = ipv6;
  })
