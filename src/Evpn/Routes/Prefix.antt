-- ===== src/Evpn/Routes/Prefix.antt =====
-- IP prefix routes, of 34 bytes for IPv4 and 58 for IPv6.
use gobmp.Prelude.{
  ℕ, ◌+◌, ◌<◌, ◌++◌, ◌≡◌, refl, ap, ◌∙◌, false, List, [], ◌∷◌, length, drop, arith, length-append,
  All, ◌==◌, if◌then◌else◌, ◌⊎◌, inl, inr,
}
use gobmp.Go.{bad_length, err, slice_from, ok, ◌>>=◌, Slice}
use gobmp.Go.Reads.{drop_sized, index-drop, slice_from-drop}
use gobmp.Go.Scan.{encode_all}
use gobmp.Base.Rd.{Rd}
use gobmp.Base.Rd.RoundTrip.{IsRd, encode_rd}
use gobmp.Base.Label.{Label, make_label}
use gobmp.Base.Label.RoundTrip.{IsLabel, encode_label, make_label-encode_label}
use gobmp.Nlri.LabelStack.RoundTrip.{length-encode_labels}
use gobmp.Evpn.Routes.{ip_prefix_of, IpPrefix, unmarshal_ip_prefix}
use gobmp.Evpn.Routes.Fields.{rd_at-drop, esi_at-drop, copy_at-part}

-- One label stands at the end.
abbrev pub encode_prefix : IpPrefix → List ℕ → List ℕ
encode_prefix x rest =
    encode_rd x.rd
    ++ (x.esi
        ++ (x.eth_tag
            ++ (x.ip_addr_length
                ∷ (x.ip_addr ++ (x.gw_ip_addr ++ (encode_all encode_label x.label ++ rest))))))

-- The addresses have `w` bytes.
pub record IsPrefix (w : ℕ) (x : IpPrefix) : Type 0 where
  pub width : (w ≡ 4) ⊎ (w ≡ 16)
  pub rd_known : IsRd x.rd
  pub esi_sized : length x.esi ≡ 10
  pub tag_sized : length x.eth_tag ≡ 4
  pub ip_sized : length x.ip_addr ≡ w
  pub gw_sized : length x.gw_ip_addr ≡ w
  pub labels_known : All IsLabel x.label
  pub one_label : length x.label ≡ 1

pub prefix_size :
    (w : ℕ) (x : IpPrefix) (rest : List ℕ)
    → IsPrefix w x
    → length (encode_prefix x rest) ≡ 26 + w + w + length rest
prefix_size w x rest h =
    let ls : List ℕ = encode_all encode_label x.label in
    let y : List ℕ = x.ip_addr_length ∷ (x.ip_addr ++ (x.gw_ip_addr ++ (ls ++ rest))) in
    omega (
      arith,
      length-append (encode_rd x.rd) (x.esi ++ (x.eth_tag ++ y)),
      length-append x.esi (x.eth_tag ++ y),
      length-append x.eth_tag y,
      length-append x.ip_addr (x.gw_ip_addr ++ (ls ++ rest)),
      length-append x.gw_ip_addr (ls ++ rest),
      length-append ls rest,
      length-encode_labels x.label,
      h.rd_known.six,
      h.esi_sized,
      h.tag_sized,
      h.ip_sized,
      h.gw_sized,
      h.one_label,
    )

one_label_at :
    (b : Slice) (p : ℕ) (ls : List Label) (rest : List ℕ)
    → All IsLabel ls
    → length ls ≡ 1
    → drop p b.mem ≡ encode_all encode_label ls ++ rest
    → b.len ≡ p + 3
    → {A : Type 0} (f : Label → A) (g : List Label → A) → ((l : Label) → f l ≡ g (l ∷ []))
    → (slice_from b p >>= λ s. make_label s false >>= λ l. ok (f l)) ≡ ok (g ls)
one_label_at b p [] rest h k e n f g q = absurd (omega (arith, k))
one_label_at b p (l ∷ []) rest (h, hs) k e n f g q =
    rw (slice_from-drop b p (encode_label l) rest e n, make_label-encode_label l rest h, q l)
one_label_at b p (l ∷ (l' ∷ ls)) rest h k e n f g q = absurd (omega (arith, k))

prefix_of :
    (b : Slice) (w n : ℕ) (rd : Rd) (esi tag v g : List ℕ) (ls : List Label) (rest : List ℕ)
    → 0 < w
    → b.len ≡ 26 + w + w
    → length v ≡ w
    → length g ≡ w
    → drop 23 b.mem ≡ v ++ (g ++ (encode_all encode_label ls ++ rest))
    → drop (23 + w) b.mem ≡ g ++ (encode_all encode_label ls ++ rest)
    → drop (23 + w + w) b.mem ≡ encode_all encode_label ls ++ rest
    → All IsLabel ls
    → length ls ≡ 1
    → ip_prefix_of w b rd esi tag n
      ≡ ok (record {
        rd = rd;
        esi = esi;
        eth_tag = tag;
        ip_addr_length = n;
        ip_addr = v;
        gw_ip_addr = g;
        label = ls;
      })
unfolding ip_prefix_of
prefix_of b w n rd esi tag v g ls rest pos size hv hg av ag al h k =
    rw (copy_at-part b 23 w v _ hv pos av, copy_at-part b (23 + w) w g _ hg pos ag)
      (one_label_at b (23 + w + w) ls rest h k al (omega (arith, size))
        (λ l. record {
          rd = rd;
          esi = esi;
          eth_tag = tag;
          ip_addr_length = n;
          ip_addr = v;
          gw_ip_addr = g;
          label = l ∷ [];
        })
        (λ xs. record {
          rd = rd;
          esi = esi;
          eth_tag = tag;
          ip_addr_length = n;
          ip_addr = v;
          gw_ip_addr = g;
          label = xs;
        })
        (λ l. refl))

by_width :
    (w : ℕ) (b : Slice) (rd : Rd) (esi tag : List ℕ) (n : ℕ)
    → (w ≡ 4) ⊎ (w ≡ 16)
    → (if 26 + w + w == 34
        then ip_prefix_of 4 b rd esi tag n
        else if 26 + w + w == 58
        then ip_prefix_of 16 b rd esi tag n
        else err bad_length)
      ≡ ip_prefix_of w b rd esi tag n
by_width w b rd esi tag n (inl e) = rw e
by_width w b rd esi tag n (inr e) = rw e

prefix_at :
    (b : Slice) (w n : ℕ) (rd : Rd) (esi tag v g : List ℕ) (ls : List Label) (rest : List ℕ)
    → (w ≡ 4) ⊎ (w ≡ 16)
    → 0 < w
    → b.len ≡ 26 + w + w
    → length v ≡ w
    → length g ≡ w
    → drop 23 b.mem ≡ v ++ (g ++ (encode_all encode_label ls ++ rest))
    → drop (23 + w) b.mem ≡ g ++ (encode_all encode_label ls ++ rest)
    → drop (23 + w + w) b.mem ≡ encode_all encode_label ls ++ rest
    → All IsLabel ls
    → length ls ≡ 1
    → (if b.len == 34
        then ip_prefix_of 4 b rd esi tag n
        else if b.len == 58
        then ip_prefix_of 16 b rd esi tag n
        else err bad_length)
      ≡ ok (record {
        rd = rd;
        esi = esi;
        eth_tag = tag;
        ip_addr_length = n;
        ip_addr = v;
        gw_ip_addr = g;
        label = ls;
      })
prefix_at b w n rd esi tag v g ls rest wd pos size hv hg av ag al h k =
    ap
      (λ (y : ℕ).
        if y == 34
        then ip_prefix_of 4 b rd esi tag n
        else if y == 58
        then ip_prefix_of 16 b rd esi tag n
        else err bad_length)
      size
    ∙ by_width w b rd esi tag n wd
    ∙ prefix_of b w n rd esi tag v g ls rest pos size hv hg av ag al h k

-- An IP prefix route of two addresses of four bytes, or of sixteen, and one label is read back under
-- its length, whatever follows it in memory.
pub unmarshal_ip_prefix-encode :
    (w : ℕ) (x : IpPrefix) (rest : List ℕ)
    → IsPrefix w x
    → unmarshal_ip_prefix
        (record { len = length (encode_prefix x []); mem = encode_prefix x rest })
        (length (encode_prefix x []))
      ≡ ok x
unfolding unmarshal_ip_prefix
unmarshal_ip_prefix-encode w x rest h =
    let b : Slice = record { len = length (encode_prefix x []); mem = encode_prefix x rest } in
    let m : List ℕ = b.mem in
    let n : ℕ = x.ip_addr_length in
    let pos : 0 < w = elim h.width [ inl e ↦ omega (arith, e) | inr e ↦ omega (arith, e) ] in
    let size : length (encode_prefix x []) ≡ 26 + w + w = omega (arith, prefix_size w x [] h) in
    let a8 = drop_sized m 0 8 (encode_rd x.rd) _ (omega (arith, h.rd_known.six)) refl in
    let a18 = drop_sized m 8 10 x.esi _ h.esi_sized a8 in
    let a22 = drop_sized m 18 4 x.eth_tag _ h.tag_sized a18 in
    let a23 = drop_sized m 22 1 (n ∷ []) _ refl a22 in
    let ag = drop_sized m 23 w x.ip_addr _ h.ip_sized a23 in
    let al = drop_sized m (23 + w) w x.gw_ip_addr _ h.gw_sized ag in
    rw
      (
        rd_at-drop b 0 x.rd _ h.rd_known refl,
        esi_at-drop b 8 x.esi _ h.esi_sized a8,
        copy_at-part b 18 4 x.eth_tag _ h.tag_sized (omega arith) a18,
        index-drop b 22 n _ a22 (omega (arith, size)),
      )
      (prefix_at b w n x.rd x.esi x.eth_tag x.ip_addr x.gw_ip_addr x.label rest h.width pos size
        h.ip_sized h.gw_sized a23 ag al h.labels_known h.one_label)
