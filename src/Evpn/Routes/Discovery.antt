-- ===== src/Evpn/Routes/Discovery.antt =====
-- Ethernet auto-discovery routes, whose label is all that is left of them.
use gobmp.Prelude.{
  ℕ, suc, le→ltb, lt→ltb, ◌+◌, ◌≤◌, ◌<◌, ◌++◌, ◌≡◌, refl, Bool, true, false, List, [], ◌∷◌, length,
  drop, arith, length-append, All,
}
use gobmp.Go.{Error, bad_length, err, slice_from, Res, ok, ◌>>=◌, Slice}
use gobmp.Go.Reads.{drop_sized, slice_from-drop}
use gobmp.Go.Scan.{encode_all}
use gobmp.Base.Rd.RoundTrip.{IsRd, encode_rd}
use gobmp.Base.Label.{Label, make_label}
use gobmp.Base.Label.RoundTrip.{IsLabel, encode_label, make_label-encode_label, make_label_size}
use gobmp.Nlri.LabelStack.RoundTrip.{length-encode_labels}
use gobmp.Evpn.Routes.{labels_to_bottom, EthAutoDiscovery, unmarshal_eth_auto_discovery}
use gobmp.Evpn.Routes.Fields.{rd_at-drop, esi_at-drop, copy_at-part}

abbrev pub encode_auto_discovery : EthAutoDiscovery → List ℕ → List ℕ
encode_auto_discovery x rest =
    encode_rd x.rd ++ (x.esi ++ (x.eth_tag ++ (encode_all encode_label x.label ++ rest)))

pub record IsAutoDiscovery (x : EthAutoDiscovery) : Type 0 where
  pub rd_known : IsRd x.rd
  pub esi_sized : length x.esi ≡ 10
  pub tag_sized : length x.eth_tag ≡ 4
  pub labels_known : All IsLabel x.label

auto_discovery_size :
    (x : EthAutoDiscovery) (rest : List ℕ)
    → IsAutoDiscovery x
    → length (encode_auto_discovery x rest)
      ≡ 22 + length (encode_all encode_label x.label) + length rest
auto_discovery_size x rest h =
    let ls : List ℕ = encode_all encode_label x.label in
    omega (
      arith,
      length-append (encode_rd x.rd) (x.esi ++ (x.eth_tag ++ (ls ++ rest))),
      length-append x.esi (x.eth_tag ++ (ls ++ rest)),
      length-append x.eth_tag (ls ++ rest),
      length-append ls rest,
      h.rd_known.six,
      h.esi_sized,
      h.tag_sized,
    )

labels_end : (b : Slice) (fuel p : ℕ) → b.len ≤ p → labels_to_bottom (suc fuel) b p ≡ ok []
unfolding labels_to_bottom
labels_end b fuel p h = rw (le→ltb p b.len h, labels_to_bottom)

label_last :
    (b s : Slice) (fuel p : ℕ) (l : Label)
    → p < b.len
    → slice_from b p ≡ ok s
    → make_label s false ≡ ok l
    → labels_to_bottom fuel b (p + 3) ≡ ok []
    → labels_to_bottom (suc fuel) b p ≡ ok (l ∷ [])
unfolding labels_to_bottom
label_last b s fuel p l h e m n = rw (lt→ltb p b.len h, labels_to_bottom, e, m, bottom l.bos)
  where
    bottom :
        (bos : Bool) → (elim bos [ true ↦ ok [] | false ↦ labels_to_bottom fuel b (p + 3) ]) ≡ ok []
    bottom true = refl
    bottom false = n

label_refused :
    (b s : Slice) (fuel p : ℕ) (x : Error)
    → p < b.len
    → slice_from b p ≡ ok s
    → make_label s false ≡ err x
    → labels_to_bottom (suc fuel) b p ≡ err x
unfolding labels_to_bottom
label_refused b s fuel p x h e m = rw (lt→ltb p b.len h, labels_to_bottom, e, m)

-- No label, and one that ends the slice.
labels_to_bottom-one :
    (b : Slice) (fuel p : ℕ) (ls : List Label) (rest : List ℕ)
    → All IsLabel ls
    → length ls < 2
    → drop p b.mem ≡ encode_all encode_label ls ++ rest
    → b.len ≡ p + length (encode_all encode_label ls)
    → labels_to_bottom (suc (suc fuel)) b p ≡ ok ls
labels_to_bottom-one b fuel p [] rest h k e n = labels_end b (suc fuel) p (omega arith)
labels_to_bottom-one b fuel p (l ∷ []) rest (h, hs) k e n =
    label_last b (record { len = 3; mem = encode_label l ++ rest }) (suc fuel) p l (omega arith)
      (slice_from-drop b p (encode_label l) rest e n) (make_label-encode_label l rest h)
      (labels_end b fuel (p + 3) (omega arith))
labels_to_bottom-one b fuel p (l ∷ (l' ∷ ls)) rest h k e n = absurd (omega arith)

abbrev auto_slice : EthAutoDiscovery → List ℕ → Slice
auto_slice x rest = record {
  len = length (encode_auto_discovery x []);
  mem = encode_auto_discovery x rest;
}

module _ (x : EthAutoDiscovery) (rest : List ℕ) (h : IsAutoDiscovery x) where
  labels_at :
      (ls : Res (List Label))
      → labels_to_bottom (suc (length (encode_auto_discovery x []))) (auto_slice x rest) 22 ≡ ls
      → unmarshal_eth_auto_discovery (auto_slice x rest)
        ≡ (ls >>= λ k. ok (record { rd = x.rd; esi = x.esi; eth_tag = x.eth_tag; label = k }))
  unfolding unmarshal_eth_auto_discovery
  labels_at ls e =
      let m : List ℕ = (auto_slice x rest).mem in
      let a8 = drop_sized m 0 8 (encode_rd x.rd) _ (omega (arith, h.rd_known.six)) refl in
      let a18 = drop_sized m 8 10 x.esi _ h.esi_sized a8 in
      rw (
        rd_at-drop (auto_slice x rest) 0 x.rd _ h.rd_known refl,
        esi_at-drop (auto_slice x rest) 8 x.esi _ h.esi_sized a8,
        copy_at-part (auto_slice x rest) 18 4 x.eth_tag _ h.tag_sized (omega arith) a18,
        e,
      )

  labels_begin : drop 22 (auto_slice x rest).mem ≡ encode_all encode_label x.label ++ rest
  labels_begin =
      let m : List ℕ = (auto_slice x rest).mem in
      let a8 = drop_sized m 0 8 (encode_rd x.rd) _ (omega (arith, h.rd_known.six)) refl in
      let a18 = drop_sized m 8 10 x.esi _ h.esi_sized a8 in
      drop_sized m 18 4 x.eth_tag _ h.tag_sized a18

  -- A route with one label or none is read back, whatever follows it in memory.
  pub unmarshal_eth_auto_discovery-encode :
      length x.label < 2
      → unmarshal_eth_auto_discovery
          (record { len = length (encode_auto_discovery x []); mem = encode_auto_discovery x rest })
        ≡ ok x
  unmarshal_eth_auto_discovery-encode k =
      let size : length (encode_auto_discovery x [])
          ≡ 22 + length (encode_all encode_label x.label) + 0 =
        auto_discovery_size x [] h in
      labels_at (ok x.label) (
        labels_to_bottom-one (auto_slice x rest) _ 22 x.label rest h.labels_known k labels_begin
          (omega (arith, size)))

  -- An Ethernet auto-discovery route with fields of their sizes and two labels or more is refused.
  pub unmarshal_eth_auto_discovery_stack :
      1 < length x.label
      → unmarshal_eth_auto_discovery
          (record { len = length (encode_auto_discovery x []); mem = encode_auto_discovery x rest })
        ≡ err bad_length
  unmarshal_eth_auto_discovery_stack k =
      let ls : List ℕ = encode_all encode_label x.label in
      let size : length (encode_auto_discovery x []) ≡ 22 + length ls + 0 =
        auto_discovery_size x [] h in
      let many : 6 ≤ length ls = omega (arith, length-encode_labels x.label) in
      labels_at (err bad_length) (
        label_refused (auto_slice x rest) (record { len = length ls; mem = ls ++ rest }) _ 22
          bad_length (omega (arith, size))
          (slice_from-drop (auto_slice x rest) 22 ls rest labels_begin (omega (arith, size)))
          (make_label_size _ false (λ z. omega (arith, z))))
