-- ===== src/Bgp/MpReach/Vpn.antt =====
-- VPN routes and EVPN routes of an MP_REACH_NLRI attribute.
use gobmp.Prelude.{
  ℕ, suc, ◌≡◌, ap, ◌∙◌, Bool, true, false, ◌⊎◌, inl, inr, List, [], ◌∷◌, length, arith, All, map,
  append-nil, ◌||◌, ◌&&◌, if◌then◌else◌, sym, ◌==◌,
}
use gobmp.Go.{not_found, err, ok, of_list}
use gobmp.Go.Scan.{encode_all}
use gobmp.Nlri.L3Vpn.{unmarshal_l3vpn}
use gobmp.Nlri.L3Vpn.RoundTrip.{Vpn, IsVpn, encode_vpn, vpn_route, unmarshal_l3vpn-encode}
use gobmp.Evpn.{Nlri, unmarshal_evpn}
use gobmp.Evpn.RoundTrip.{IsEvpn, encode_evpn, unmarshal_evpn-encode}
use gobmp.Bgp.Nlri.{nlri_message_type}
use gobmp.Bgp.MpReach.{
  MpReach, get_afi_safi_type, get_nlri_l3vpn, get_nlri_evpn, is_ip, path_id_flag,
}

pub get_nlri_l3vpn-encode :
    (mp : MpReach) (x : Vpn) (xs : List Vpn) (depth : ℕ)
    → (mp.address_family_id ≡ 1) ⊎ (mp.address_family_id ≡ 2)
    → mp.sub_address_family_id ≡ 128
    → mp.srv6 ≡ false
    → mp.nlri ≡ encode_all (encode_vpn (path_id_flag mp)) (x ∷ xs)
    → All IsVpn (x ∷ xs)
    → get_nlri_l3vpn (suc depth) mp ≡ ok (map (vpn_route (path_id_flag mp)) (x ∷ xs))
unfolding get_nlri_l3vpn is_ip
get_nlri_l3vpn-encode mp x xs depth f s v e h =
    let flag : Bool = path_id_flag mp in
    let ip : ((mp.address_family_id == 1 || mp.address_family_id == 2)
          && mp.sub_address_family_id == 128)
        ≡ true =
      ground arith in
    let code : List ℕ = encode_all (encode_vpn flag) (x ∷ xs) in
    ap
      (λ (t : Bool).
        if t then unmarshal_l3vpn (suc depth) mp.srv6 (of_list mp.nlri) flag else err not_found)
      ip
    ∙ ap (λ (t : Bool). unmarshal_l3vpn (suc depth) t (of_list mp.nlri) flag) v
    ∙ ap (λ (m : List ℕ). unmarshal_l3vpn (suc depth) false (of_list m) flag) e
    ∙ ap
        (λ (m : List ℕ).
          unmarshal_l3vpn (suc depth) false (record { len = length code; mem = m }) flag)
        (sym (append-nil code))
    ∙ unmarshal_l3vpn-encode flag x xs [] depth h

pub vpn_type :
    (mp : MpReach)
    → (mp.address_family_id ≡ 1) ⊎ (mp.address_family_id ≡ 2)
    → mp.sub_address_family_id ≡ 128
    → (get_afi_safi_type mp ≡ 18) ⊎ (get_afi_safi_type mp ≡ 19)
unfolding get_afi_safi_type nlri_message_type
vpn_type mp (inl f) s = inl (rw (f, s))
vpn_type mp (inr f) s = inr (rw (f, s))

pub get_nlri_evpn-encode :
    (mp : MpReach) (n : Nlri) (ns : List Nlri)
    → mp.address_family_id ≡ 25
    → mp.sub_address_family_id ≡ 70
    → mp.nlri ≡ encode_all encode_evpn (n ∷ ns)
    → All IsEvpn (n ∷ ns)
    → get_nlri_evpn mp ≡ ok (n ∷ ns)
get_nlri_evpn-encode mp n ns f s e h =
    let code : List ℕ = encode_all encode_evpn (n ∷ ns) in
    let family : (mp.address_family_id == 25 && mp.sub_address_family_id == 70) ≡ true =
      rw (f, s) in
    ap (λ (t : Bool). if t then unmarshal_evpn (of_list mp.nlri) else err not_found) family
    ∙ ap (λ (m : List ℕ). unmarshal_evpn (of_list m)) e
    ∙ ap (λ (m : List ℕ). unmarshal_evpn (record { len = length code; mem = m }))
        (sym (append-nil code))
    ∙ unmarshal_evpn-encode n ns [] h

pub evpn_type :
    (mp : MpReach)
    → mp.address_family_id ≡ 25
    → mp.sub_address_family_id ≡ 70
    → get_afi_safi_type mp ≡ 24
unfolding get_afi_safi_type nlri_message_type
evpn_type mp f s = rw (f, s)
