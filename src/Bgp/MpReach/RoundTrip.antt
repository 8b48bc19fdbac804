-- ===== src/Bgp/MpReach/RoundTrip.antt =====
-- MP_REACH_NLRI attributes read back from the bytes they are written as.
use gobmp.Prelude.{
  ℕ, suc, ◌+◌, ◌*◌, ◌/◌, ◌%◌, ◌<◌, ◌++◌, ◌≡◌, refl, ap, ◌∙◌, Bool, true, ◌⊎◌, inl, inr, List, [],
  ◌∷◌, length, drop, arith, All, append-nil, ne→==, ◌||◌, ◌&&◌, if◌then◌else◌, sym, take-append,
  length-append, ◌==◌,
}
use gobmp.Go.{empty_nlri, not_found, err, ok, ◌>>=◌, Slice, of_list}
use gobmp.Go.Reads.{index-drop, uint16_at-drop, copy_at-drop, slice_from-drop, drop_over}
use gobmp.Go.Scan.{encode_all}
use gobmp.Base.Route.{Route}
use gobmp.Nlri.Unicast.{unmarshal_unicast}
use gobmp.Nlri.Unicast.RoundTrip.{unmarshal_unicast-encode}
use gobmp.Base.Route.Step.{encode_route, IsRoute}
use gobmp.Bgp.Nlri.{nlri_message_type}
use gobmp.Bgp.Open.AddPath.{PathMap}
use gobmp.Bgp.MpReach.{
  MpReach, unmarshal_mp_reach, get_afi_safi_type, get_nlri_unicast, is_ip, path_id_flag,
}

-- The bytes of an attribute: families, next hop, a reserved byte and the NLRI.
abbrev pub encode_mp_reach : ℕ → MpReach → List ℕ
encode_mp_reach reserved mp =
    mp.address_family_id / 256
    ∷ mp.address_family_id % 256
    ∷ mp.sub_address_family_id
    ∷ length mp.next_hop_address
    ∷ (mp.next_hop_address ++ (reserved ∷ mp.nlri))

-- An attribute whose length byte is that of its next hop is read back whole, whatever the reserved
-- byte is.
pub unmarshal_mp_reach-encode :
    (mp : MpReach) (reserved : ℕ)
    → mp.next_hop_address_length ≡ length mp.next_hop_address
    → unmarshal_mp_reach (of_list (encode_mp_reach reserved mp)) mp.srv6 mp.add_path ≡ ok mp
unfolding unmarshal_mp_reach
unmarshal_mp_reach-encode mp reserved h =
    let hop : List ℕ = mp.next_hop_address in
    let b : Slice = of_list (encode_mp_reach reserved mp) in
    let n : length (hop ++ (reserved ∷ mp.nlri)) ≡ length hop + suc (length mp.nlri) =
      length-append hop (reserved ∷ mp.nlri) in
    let family : mp.address_family_id / 256 * 256 + mp.address_family_id % 256
        ≡ mp.address_family_id =
      omega arith in
    let rest : drop (4 + length hop + 1) b.mem ≡ mp.nlri ++ [] =
      drop_over b.mem (4 + length hop) (reserved ∷ []) mp.nlri
        (drop_over b.mem 4 hop (reserved ∷ mp.nlri) refl)
      ∙ sym (append-nil mp.nlri) in
    rw (
      ne→== b.len 0 (λ z. omega arith),
      uint16_at-drop b 0 _ _ _ refl,
      index-drop b 2 _ _ refl (omega arith),
      index-drop b 3 _ _ refl (omega arith),
      copy_at-drop b 4 hop (reserved ∷ mp.nlri) refl (omega arith),
      slice_from-drop b (4 + length hop + 1) mp.nlri [] rest (omega arith),
      take-append mp.nlri [],
      family,
      h,
    )

pub get_nlri_unicast-routes :
    (mp : MpReach) (rs : List Route) (depth : ℕ)
    → (mp.address_family_id ≡ 1) ⊎ (mp.address_family_id ≡ 2)
    → mp.sub_address_family_id ≡ 1
    → mp.nlri ≡ encode_all (encode_route (path_id_flag mp)) rs
    → 0 < length rs
    → All (IsRoute (path_id_flag mp)) rs
    → get_nlri_unicast (suc depth) mp ≡ ok rs
unfolding get_nlri_unicast is_ip
get_nlri_unicast-routes mp rs depth f s e k w =
    let flag : Bool = path_id_flag mp in
    let ip : ((mp.address_family_id == 1 || mp.address_family_id == 2)
          && mp.sub_address_family_id == 1)
        ≡ true =
      ground arith in
    ap
      (λ (t : Bool).
        if t then unmarshal_unicast (suc depth) (of_list mp.nlri) flag else err not_found)
      ip
    ∙ ap (λ (m : List ℕ). unmarshal_unicast (suc depth) (of_list m) flag) e
    ∙ unmarshal_unicast-encode flag rs depth k w

-- An attribute of IPv4 or IPv6 unicast routes, with path identifiers where the add-path map says so
-- for its family, gives the routes back in order, at the first pass already.
pub get_nlri_unicast-encode :
    (mp : MpReach) (reserved : ℕ) (rs : List Route) (depth : ℕ)
    → mp.next_hop_address_length ≡ length mp.next_hop_address
    → (mp.address_family_id ≡ 1) ⊎ (mp.address_family_id ≡ 2)
    → mp.sub_address_family_id ≡ 1
    → mp.nlri ≡ encode_all (encode_route (path_id_flag mp)) rs
    → 0 < length rs
    → All (IsRoute (path_id_flag mp)) rs
    → (unmarshal_mp_reach (of_list (encode_mp_reach reserved mp)) mp.srv6 mp.add_path
        >>= get_nlri_unicast (suc depth))
      ≡ ok rs
get_nlri_unicast-encode mp reserved rs depth h f s e k w =
    rw (unmarshal_mp_reach-encode mp reserved h) (get_nlri_unicast-routes mp rs depth f s e k w)

pub unicast_type :
    (mp : MpReach)
    → (mp.address_family_id ≡ 1) ⊎ (mp.address_family_id ≡ 2)
    → mp.sub_address_family_id ≡ 1
    → (get_afi_safi_type mp ≡ 1) ⊎ (get_afi_safi_type mp ≡ 2)
unfolding get_afi_safi_type nlri_message_type
unicast_type mp (inl f) s = inl (rw (f, s))
unicast_type mp (inr f) s = inr (rw (f, s))

pub unmarshal_mp_reach_nil :
    (srv6 : Bool) (paths : PathMap) → unmarshal_mp_reach (of_list []) srv6 paths ≡ err empty_nlri
unfolding unmarshal_mp_reach
unmarshal_mp_reach_nil srv6 paths = refl
