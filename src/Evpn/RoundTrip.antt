-- ===== src/Evpn/RoundTrip.antt =====
-- EVPN NLRI read back from the bytes they are written as.
use gobmp.Prelude.{
  ℕ, suc, ◌+◌, ◌≤◌, ◌<◌, ◌++◌, ◌≡◌, refl, ap, ◌∙◌, List, [], ◌∷◌, length, drop, arith, ne→==,
  length-append, append_assoc, All,
}
use gobmp.Go.{ok, Slice, IsSlice, slice}
use gobmp.Go.Reads.{index-drop, slice-drop, drop_over}
use gobmp.Go.Scan.{next, encode_all, scan-encode_all}
use gobmp.Evpn.Routes.MacIp.{encode_mac_ip, IsMacIp, unmarshal_mac_ip_advertisement-encode}
use gobmp.Evpn.Routes.Discovery.{
  encode_auto_discovery, IsAutoDiscovery, unmarshal_eth_auto_discovery-encode,
}
use gobmp.Evpn.Routes.Addresses.{
  encode_multicast, IsMulticast, unmarshal_inclusive_multicast_eth_tag-encode, encode_segment,
  IsSegment, unmarshal_ethernet_segment-encode,
}
use gobmp.Evpn.Routes.Prefix.{encode_prefix, IsPrefix, unmarshal_ip_prefix-encode}
use gobmp.Evpn.{
  RouteTypeSpec, eth_auto_discovery, mac_ip_advertisement, inclusive_multicast_eth_tag,
  ethernet_segment, ip_prefix, Nlri, route_type_spec, evpn_turn, unmarshal_evpn,
}

-- The bytes of a route, with `rest` behind them.
abbrev pub encode_spec : RouteTypeSpec → List ℕ → List ℕ
encode_spec (eth_auto_discovery x) rest = encode_auto_discovery x rest
encode_spec (mac_ip_advertisement x) rest = encode_mac_ip x rest
encode_spec (inclusive_multicast_eth_tag x) rest = encode_multicast x rest
encode_spec (ethernet_segment x) rest = encode_segment x rest
encode_spec (ip_prefix x) rest = encode_prefix x rest

abbrev pub code : RouteTypeSpec → ℕ
code (eth_auto_discovery x) = 1
code (mac_ip_advertisement x) = 2
code (inclusive_multicast_eth_tag x) = 3
code (ethernet_segment x) = 4
code (ip_prefix x) = 5

-- The fields have their sizes; an auto-discovery route has one label at most.
abbrev pub IsSpec : RouteTypeSpec → Type 0
IsSpec (eth_auto_discovery x) = IsAutoDiscovery x × (length x.label < 2)
IsSpec (mac_ip_advertisement x) = IsMacIp x
IsSpec (inclusive_multicast_eth_tag x) = IsMulticast x
IsSpec (ethernet_segment x) = IsSegment x
IsSpec (ip_prefix x) = (w : ℕ) × IsPrefix w x

abbrev pub encode_evpn : Nlri → List ℕ
encode_evpn n = n.route_type ∷ n.length ∷ encode_spec n.spec []

pub record IsEvpn (n : Nlri) : Type 0 where
  pub typed : n.route_type ≡ code n.spec
  pub sized : n.length ≡ length (encode_spec n.spec [])
  pub fields : IsSpec n.spec

spec_append : (x : RouteTypeSpec) (rest : List ℕ) → encode_spec x [] ++ rest ≡ encode_spec x rest
spec_append (eth_auto_discovery x) rest = simp append_assoc
spec_append (mac_ip_advertisement x) rest = simp append_assoc
spec_append (inclusive_multicast_eth_tag x) rest = simp append_assoc
spec_append (ethernet_segment x) rest = simp append_assoc
spec_append (ip_prefix x) rest = simp append_assoc

route_type_spec-encode :
    (b : Slice) (p : ℕ) (x : RouteTypeSpec) (rest : List ℕ)
    → IsSpec x
    → slice b p (p + length (encode_spec x []))
      ≡ ok (record { len = length (encode_spec x []); mem = encode_spec x rest })
    → route_type_spec (code x) (length (encode_spec x [])) b p ≡ ok x
unfolding route_type_spec
route_type_spec-encode b p (eth_auto_discovery x) rest (h, k) e =
    rw (e, unmarshal_eth_auto_discovery-encode x rest h k)
route_type_spec-encode b p (mac_ip_advertisement x) rest h e =
    rw (e, unmarshal_mac_ip_advertisement-encode x rest h)
route_type_spec-encode b p (inclusive_multicast_eth_tag x) rest h e =
    rw (e, unmarshal_inclusive_multicast_eth_tag-encode x rest h)
route_type_spec-encode b p (ethernet_segment x) rest h e =
    rw (e, unmarshal_ethernet_segment-encode x rest h)
route_type_spec-encode b p (ip_prefix x) rest (w, h) e =
    rw (e, unmarshal_ip_prefix-encode w x rest h)

evpn_turn_at :
    (b : Slice) (t l p : ℕ) (x : RouteTypeSpec) (rest : List ℕ)
    → t ≡ code x
    → l ≡ length (encode_spec x [])
    → IsSpec x
    → drop p b.mem ≡ t ∷ l ∷ (encode_spec x [] ++ rest)
    → p + suc (suc (length (encode_spec x []))) ≤ b.len
    → IsSlice b
    → evpn_turn b p ≡ ok (next (record { route_type = t; length = l; spec = x }) (p + 1 + 1 + l))
unfolding evpn_turn
evpn_turn_at b t l p x rest typed sized h e k w =
    let c : List ℕ = encode_spec x [] in
    let e1 = drop_over b.mem p (t ∷ []) (l ∷ (c ++ rest)) e in
    let e2 = drop_over b.mem (p + 1) (l ∷ []) (c ++ rest) e1 in
    let body : slice b (p + 1 + 1) (p + 1 + 1 + length c)
        ≡ ok (record { len = length c; mem = encode_spec x rest }) =
      slice-drop b (p + 1 + 1) c rest e2 (omega arith)
      ∙ ap (λ (m : List ℕ). ok (record { len = length c; mem = m })) (spec_append x rest) in
    rw (
      index-drop b p t _ e (omega arith),
      index-drop b (p + 1) l _ e1 (omega arith),
      typed,
      sized,
      route_type_spec-encode b (p + 1 + 1) x rest h body,
    )

evpn_turn-encode :
    (b : Slice)
    → IsSlice b
    → (n : Nlri) (p : ℕ) (rest : List ℕ) → IsEvpn n
    → drop p b.mem ≡ encode_evpn n ++ rest
    → p + length (encode_evpn n) ≤ b.len
    → (evpn_turn b p ≡ ok (next n (p + length (encode_evpn n)))) × (0 < length (encode_evpn n))
evpn_turn-encode b w n p rest h e k = (
  evpn_turn_at b n.route_type n.length p n.spec rest h.typed h.sized h.fields e k w
      ∙ ap (λ (q : ℕ). ok (next n q)) (omega (arith, h.sized)),
  omega arith,
)

-- Routes of the five types, one route at least, each with its type and its length in front, are read
-- back in order, whatever follows the slice: an auto-discovery route with one label or none, a MAC/IP
-- advertisement with any labels, an IP prefix with one label.
pub unmarshal_evpn-encode :
    (n : Nlri) (ns : List Nlri) (rest : List ℕ)
    → All IsEvpn (n ∷ ns)
    → unmarshal_evpn (record {
      len = length (encode_all encode_evpn (n ∷ ns));
      mem = encode_all encode_evpn (n ∷ ns) ++ rest;
    })
      ≡ ok (n ∷ ns)
unfolding unmarshal_evpn
unmarshal_evpn-encode n ns rest h =
    let c : List ℕ = encode_all encode_evpn (n ∷ ns) in
    let b : Slice = record { len = length c; mem = c ++ rest } in
    rw (ne→== (length c) 0 (λ z. omega arith)) (
      scan-encode_all evpn_turn b encode_evpn IsEvpn
        (evpn_turn-encode b (omega (arith, length-append c rest))) (n ∷ ns) (suc (length c)) 0 rest
        h refl (omega arith) (omega arith))
