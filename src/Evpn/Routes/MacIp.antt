-- ===== src/Evpn/Routes/MacIp.antt =====
-- MAC/IP advertisements read back from the bytes they are written as.
use gobmp.Prelude.{ℕ, ◌+◌, ◌/◌, ◌++◌, ◌≡◌, refl, List, [], ◌∷◌, length, arith, length-append, All}
use gobmp.Go.{ok, Slice}
use gobmp.Go.Reads.{drop_sized, index-drop}
use gobmp.Go.Scan.{encode_all}
use gobmp.Base.Rd.RoundTrip.{IsRd, encode_rd}
use gobmp.Base.Label.RoundTrip.{IsLabel, encode_label}
use gobmp.Evpn.Routes.{MacIpAdvertisement, unmarshal_mac_ip_advertisement}
use gobmp.Evpn.Routes.Fields.{
  of_option, IsIp, IsMac, ip_size, mac_size, rd_at-drop, esi_at-drop, copy_at-part, mac_at-drop,
  ip_at-drop, labels-encode,
}

abbrev pub encode_mac_ip : MacIpAdvertisement → List ℕ → List ℕ
encode_mac_ip x rest =
    encode_rd x.rd
    ++ (x.esi
        ++ (x.eth_tag
            ++ (x.mac_addr_length
                ∷ (of_option x.mac_addr
                    ++ (x.ip_addr_length
                        ∷ (of_option x.ip_addr ++ (encode_all encode_label x.label ++ rest)))))))

pub record IsMacIp (x : MacIpAdvertisement) : Type 0 where
  pub rd_known : IsRd x.rd
  pub esi_sized : length x.esi ≡ 10
  pub tag_sized : length x.eth_tag ≡ 4
  pub mac_sized : IsMac x.mac_addr_length x.mac_addr
  pub ip_sized : IsIp x.ip_addr_length x.ip_addr
  pub labels_known : All IsLabel x.label

mac_ip_size :
    (x : MacIpAdvertisement) (rest : List ℕ)
    → IsMacIp x
    → length (encode_mac_ip x rest)
      ≡ 24
        + x.mac_addr_length / 8
        + x.ip_addr_length / 8
        + length (encode_all encode_label x.label)
        + length rest
mac_ip_size x rest h =
    let ls : List ℕ = encode_all encode_label x.label in
    let v : List ℕ = of_option x.ip_addr in
    let w : List ℕ = of_option x.mac_addr in
    let y : List ℕ = x.ip_addr_length ∷ (v ++ (ls ++ rest)) in
    let z : List ℕ = x.mac_addr_length ∷ (w ++ y) in
    omega (
      arith,
      length-append (encode_rd x.rd) (x.esi ++ (x.eth_tag ++ z)),
      length-append x.esi (x.eth_tag ++ z),
      length-append x.eth_tag z,
      length-append w y,
      length-append v (ls ++ rest),
      length-append ls rest,
      h.rd_known.six,
      h.esi_sized,
      h.tag_sized,
      mac_size x.mac_addr_length x.mac_addr h.mac_sized,
      ip_size x.ip_addr_length x.ip_addr h.ip_sized,
    )

-- A MAC/IP advertisement with a MAC address of six bytes or none, an IP address or none, and any
-- labels is read back, whatever follows it in memory.
pub unmarshal_mac_ip_advertisement-encode :
    (x : MacIpAdvertisement) (rest : List ℕ)
    → IsMacIp x
    → unmarshal_mac_ip_advertisement
        (record { len = length (encode_mac_ip x []); mem = encode_mac_ip x rest })
      ≡ ok x
unfolding unmarshal_mac_ip_advertisement
unmarshal_mac_ip_advertisement-encode x rest h =
    let b : Slice = record { len = length (encode_mac_ip x []); mem = encode_mac_ip x rest } in
    let m : List ℕ = b.mem in
    let n : ℕ = x.mac_addr_length in
    let k : ℕ = x.ip_addr_length in
    let ls : List ℕ = encode_all encode_label x.label in
    let size : b.len ≡ 24 + n / 8 + k / 8 + length ls + 0 = mac_ip_size x [] h in
    let whole : length m ≡ 24 + n / 8 + k / 8 + length ls + length rest = mac_ip_size x rest h in
    let a8 = drop_sized m 0 8 (encode_rd x.rd) _ (omega (arith, h.rd_known.six)) refl in
    let a18 = drop_sized m 8 10 x.esi _ h.esi_sized a8 in
    let a22 = drop_sized m 18 4 x.eth_tag _ h.tag_sized a18 in
    let a23 = drop_sized m 22 1 (n ∷ []) _ refl a22 in
    let ai =
      drop_sized m 23 (n / 8) (of_option x.mac_addr) _ (mac_size n x.mac_addr h.mac_sized) a23 in
    let aj = drop_sized m (23 + n / 8) 1 (k ∷ []) _ refl ai in
    let al =
      drop_sized m (23 + n / 8 + 1) (k / 8) (of_option x.ip_addr) _ (ip_size k x.ip_addr h.ip_sized)
        aj in
    rw (
      rd_at-drop b 0 x.rd _ h.rd_known refl,
      esi_at-drop b 8 x.esi _ h.esi_sized a8,
      copy_at-part b 18 4 x.eth_tag _ h.tag_sized (omega arith) a18,
      index-drop b 22 n _ a22 (omega (arith, size)),
      mac_at-drop b 23 n x.mac_addr _ h.mac_sized a23,
      index-drop b (23 + n / 8) k _ ai (omega (arith, size)),
      ip_at-drop b (23 + n / 8 + 1) k x.ip_addr _ h.ip_sized aj (omega (arith, whole)),
      labels-encode b (23 + n / 8 + 1 + k / 8) x.label rest (omega (arith, size, whole))
          h.labels_known al (omega (arith, size)),
    )
