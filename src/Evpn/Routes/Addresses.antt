-- ===== src/Evpn/Routes/Addresses.antt =====
-- Multicast tag, Ethernet segment and IP prefix routes.
use gobmp.Prelude.{ℕ, ◌+◌, ◌/◌, ◌++◌, ◌≡◌, refl, List, [], ◌∷◌, length, arith, length-append}
use gobmp.Go.{ok, Slice}
use gobmp.Go.Reads.{drop_sized, index-drop}
use gobmp.Base.Rd.RoundTrip.{IsRd, encode_rd}
use gobmp.Evpn.Routes.{
  InclusiveMulticastEthTag, EthernetSegment, unmarshal_inclusive_multicast_eth_tag,
  unmarshal_ethernet_segment,
}
use gobmp.Evpn.Routes.Fields.{
  of_option, IsIp, ip_size, rd_at-drop, esi_at-drop, copy_at-part, ip_at-drop,
}

abbrev pub encode_multicast : InclusiveMulticastEthTag → List ℕ → List ℕ
encode_multicast x rest =
    encode_rd x.rd ++ (x.eth_tag ++ (x.ip_addr_length ∷ (of_option x.ip_addr ++ rest)))

pub record IsMulticast (x : InclusiveMulticastEthTag) : Type 0 where
  pub rd_known : IsRd x.rd
  pub tag_sized : length x.eth_tag ≡ 4
  pub ip_sized : IsIp x.ip_addr_length x.ip_addr

pub multicast_size :
    (x : InclusiveMulticastEthTag) (rest : List ℕ)
    → IsMulticast x
    → length (encode_multicast x rest) ≡ 13 + x.ip_addr_length / 8 + length rest
multicast_size x rest h =
    let v : List ℕ = of_option x.ip_addr in
    let y : List ℕ = x.ip_addr_length ∷ (v ++ rest) in
    omega (
      arith,
      length-append (encode_rd x.rd) (x.eth_tag ++ y),
      length-append x.eth_tag y,
      length-append v rest,
      h.rd_known.six,
      h.tag_sized,
      ip_size x.ip_addr_length x.ip_addr h.ip_sized,
    )

-- A multicast tag route is read back, whatever follows it in memory.
pub unmarshal_inclusive_multicast_eth_tag-encode :
    (x : InclusiveMulticastEthTag) (rest : List ℕ)
    → IsMulticast x
    → unmarshal_inclusive_multicast_eth_tag
        (record { len = length (encode_multicast x []); mem = encode_multicast x rest })
      ≡ ok x
unfolding unmarshal_inclusive_multicast_eth_tag
unmarshal_inclusive_multicast_eth_tag-encode x rest h =
    let b : Slice = record {
      len = length (encode_multicast x []);
      mem = encode_multicast x rest;
    } in
    let m : List ℕ = b.mem in
    let n : ℕ = x.ip_addr_length in
    let size : b.len ≡ 13 + n / 8 + 0 = multicast_size x [] h in
    let whole : length m ≡ 13 + n / 8 + length rest = multicast_size x rest h in
    let a8 = drop_sized m 0 8 (encode_rd x.rd) _ (omega (arith, h.rd_known.six)) refl in
    let a12 = drop_sized m 8 4 x.eth_tag _ h.tag_sized a8 in
    let a13 = drop_sized m 12 1 (n ∷ []) _ refl a12 in
    rw (
      rd_at-drop b 0 x.rd _ h.rd_known refl,
      copy_at-part b 8 4 x.eth_tag _ h.tag_sized (omega arith) a8,
      index-drop b 12 n _ a12 (omega (arith, size)),
      ip_at-drop b 13 n x.ip_addr _ h.ip_sized a13 (omega (arith, whole)),
    )

abbrev pub encode_segment : EthernetSegment → List ℕ → List ℕ
encode_segment x rest =
    encode_rd x.rd ++ (x.esi ++ (x.ip_addr_length ∷ (of_option x.ip_addr ++ rest)))

pub record IsSegment (x : EthernetSegment) : Type 0 where
  pub rd_known : IsRd x.rd
  pub esi_sized : length x.esi ≡ 10
  pub ip_sized : IsIp x.ip_addr_length x.ip_addr

pub segment_size :
    (x : EthernetSegment) (rest : List ℕ)
    → IsSegment x
    → length (encode_segment x rest) ≡ 19 + x.ip_addr_length / 8 + length rest
segment_size x rest h =
    let v : List ℕ = of_option x.ip_addr in
    let y : List ℕ = x.ip_addr_length ∷ (v ++ rest) in
    omega (
      arith,
      length-append (encode_rd x.rd) (x.esi ++ y),
      length-append x.esi y,
      length-append v rest,
      h.rd_known.six,
      h.esi_sized,
      ip_size x.ip_addr_length x.ip_addr h.ip_sized,
    )

-- An Ethernet segment route is read back, whatever follows it in memory.
pub unmarshal_ethernet_segment-encode :
    (x : EthernetSegment) (rest : List ℕ)
    → IsSegment x
    → unmarshal_ethernet_segment
        (record { len = length (encode_segment x []); mem = encode_segment x rest })
      ≡ ok x
unfolding unmarshal_ethernet_segment
unmarshal_ethernet_segment-encode x rest h =
    let b : Slice = record { len = length (encode_segment x []); mem = encode_segment x rest } in
    let m : List ℕ = b.mem in
    let n : ℕ = x.ip_addr_length in
    let size : b.len ≡ 19 + n / 8 + 0 = segment_size x [] h in
    let whole : length m ≡ 19 + n / 8 + length rest = segment_size x rest h in
    let a8 = drop_sized m 0 8 (encode_rd x.rd) _ (omega (arith, h.rd_known.six)) refl in
    let a18 = drop_sized m 8 10 x.esi _ h.esi_sized a8 in
    let a19 = drop_sized m 18 1 (n ∷ []) _ refl a18 in
    rw (
      rd_at-drop b 0 x.rd _ h.rd_known refl,
      esi_at-drop b 8 x.esi _ h.esi_sized a8,
      index-drop b 18 n _ a18 (omega (arith, size)),
      ip_at-drop b 19 n x.ip_addr _ h.ip_sized a19 (omega (arith, whole)),
    )
