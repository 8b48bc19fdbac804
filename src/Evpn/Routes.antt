-- ===== src/Evpn/Routes.antt =====
-- The five route types of pkg/evpn.
pub mod Fields
pub mod MacIp
pub mod Discovery
pub mod Addresses
pub mod Prefix
mod Tests
use gobmp.Prelude.{
  ℕ, zero, suc, ◌+◌, ◌/◌, Bool, true, false, not, List, [], ◌∷◌, Option, none, some, ltb, ◌==◌,
  if◌then◌else◌,
}
use gobmp.Go.{
  bad_length, Res, ok, err, spin, ◌>>=◌, ◌>>◌, fail_if, Slice, bytes, index, slice, slice_from,
  copy_at,
}
use gobmp.Go.Scan.{Turn, next, scan}
use gobmp.Base.Rd.{Rd, make_rd}
use gobmp.Base.Label.{Label, make_label}

pub make_esi : Slice → Res (List ℕ)
make_esi b = do fail_if (not (b.len == 10)) bad_length; ok (bytes b)

pub make_mac_address : Slice → Res (List ℕ)
make_mac_address b = do fail_if (not (b.len == 6)) bad_length; ok (bytes b)

-- `base.MakeRD(b[p : p+8])` and `MakeESI(b[p : p+10])`
pub rd_at : Slice → ℕ → Res Rd
rd_at b p = do s ← slice b p (p + 8); make_rd s

pub esi_at : Slice → ℕ → Res (List ℕ)
esi_at b p = do s ← slice b p (p + 10); make_esi s

-- An address of `n` bits; nil for 0.
pub ip_at : Slice → ℕ → ℕ → Res (Option (List ℕ))
ip_at b p n = if n == 0 then ok none else (do v ← copy_at b p (n / 8); ok (some v))

pub record EthAutoDiscovery : Type 0 where
  pub rd : Rd
  pub esi : List ℕ
  pub eth_tag : List ℕ
  pub label : List Label

-- The labels up to the bottom of the stack or the end. `MakeLabel(b[p:])` takes all that is left.
pub labels_to_bottom : ℕ → Slice → ℕ → Res (List Label)
labels_to_bottom zero b p = spin
labels_to_bottom (suc fuel) b p = elim (ltb p b.len) [
  | false ↦ ok []
  | true ↦ do
    s ← slice_from b p
    l ← make_label s false
    ls ← elim l.bos [ true ↦ ok [] | false ↦ labels_to_bottom fuel b (p + 3) ]
    ok (l ∷ ls)
]

pub unmarshal_eth_auto_discovery : Slice → Res EthAutoDiscovery
unmarshal_eth_auto_discovery b = do
  rd ← rd_at b 0
  esi ← esi_at b 8
  tag ← copy_at b 18 4
  ls ← labels_to_bottom (suc b.len) b 22
  ok (record { rd = rd; esi = esi; eth_tag = tag; label = ls })

pub record MacIpAdvertisement : Type 0 where
  pub rd : Rd
  pub esi : List ℕ
  pub eth_tag : List ℕ
  pub mac_addr_length : ℕ
  pub mac_addr : Option (List ℕ)
  pub ip_addr_length : ℕ
  pub ip_addr : Option (List ℕ)
  pub label : List Label

-- `if l != 0 { t.MACAddr, err = MakeMACAddress(b[p : p+l]) }` for `l := int(n / 8)`
pub mac_at : Slice → ℕ → ℕ → Res (Option (List ℕ))
mac_at b p n =
    if n / 8 == 0
    then ok none
    else (do s ← slice b p (p + n / 8); v ← make_mac_address s; ok (some v))

-- One turn of the loop over the labels.
pub label_turn : Slice → ℕ → Res (Turn Label)
label_turn b p = do s ← slice b p (p + 3); l ← make_label s false; ok (next l (p + 3))

pub unmarshal_mac_ip_advertisement : Slice → Res MacIpAdvertisement
unmarshal_mac_ip_advertisement b = do
  rd ← rd_at b 0
  esi ← esi_at b 8
  tag ← copy_at b 18 4
  m ← index b 22
  mac ← mac_at b 23 m
  n ← index b (23 + m / 8)
  ip ← ip_at b (23 + m / 8 + 1) n
  ls ← scan label_turn (suc b.len) b (23 + m / 8 + 1 + n / 8)
  ok (record {
    rd = rd;
    esi = esi;
    eth_tag = tag;
    mac_addr_length = m;
    mac_addr = mac;
    ip_addr_length = n;
    ip_addr = ip;
    label = ls;
  })

pub record InclusiveMulticastEthTag : Type 0 where
  pub rd : Rd
  pub eth_tag : List ℕ
  pub ip_addr_length : ℕ
  pub ip_addr : Option (List ℕ)

pub unmarshal_inclusive_multicast_eth_tag : Slice → Res InclusiveMulticastEthTag
unmarshal_inclusive_multicast_eth_tag b = do
  rd ← rd_at b 0
  tag ← copy_at b 8 4
  n ← index b 12
  ip ← ip_at b 13 n
  ok (record { rd = rd; eth_tag = tag; ip_addr_length = n; ip_addr = ip })

pub record EthernetSegment : Type 0 where
  pub rd : Rd
  pub esi : List ℕ
  pub ip_addr_length : ℕ
  pub ip_addr : Option (List ℕ)

pub unmarshal_ethernet_segment : Slice → Res EthernetSegment
unmarshal_ethernet_segment b = do
  rd ← rd_at b 0
  esi ← esi_at b 8
  n ← index b 18
  ip ← ip_at b 19 n
  ok (record { rd = rd; esi = esi; ip_addr_length = n; ip_addr = ip })

pub record IpPrefix : Type 0 where
  pub rd : Rd
  pub esi : List ℕ
  pub eth_tag : List ℕ
  pub ip_addr_length : ℕ
  pub ip_addr : List ℕ
  pub gw_ip_addr : List ℕ
  pub label : List Label

-- Two addresses of `w` bytes and the label that is the rest.
pub ip_prefix_of : ℕ → Slice → Rd → List ℕ → List ℕ → ℕ → Res IpPrefix
ip_prefix_of w b rd esi tag n = do
  a ← copy_at b 23 w
  g ← copy_at b (23 + w) w
  s ← slice_from b (23 + w + w)
  l ← make_label s false
  ok (record {
    rd = rd;
    esi = esi;
    eth_tag = tag;
    ip_addr_length = n;
    ip_addr = a;
    gw_ip_addr = g;
    label = l ∷ [];
  })

-- 34 bytes for IPv4, 58 for IPv6.
pub unmarshal_ip_prefix : Slice → ℕ → Res IpPrefix
unmarshal_ip_prefix b len = do
  rd ← rd_at b 0
  esi ← esi_at b 8
  tag ← copy_at b 18 4
  n ← index b 22
  if len == 34
      then ip_prefix_of 4 b rd esi tag n
      else if len == 58
      then ip_prefix_of 16 b rd esi tag n
      else err bad_length
