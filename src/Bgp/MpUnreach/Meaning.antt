-- ===== src/Bgp/MpUnreach/Meaning.antt =====
-- What the bytes of an MP_UNREACH_NLRI attribute mean, whatever they are.
use gobmp.Prelude.{
  ℕ, ◌+◌, ◌*◌, ◌≡◌, refl, ap, ◌∙◌, sym, true, List, [], ◌∷◌, length, arith, append-nil, ne→==, ◌==◌,
  take_all, Bool, ◌||◌, ◌&&◌, if◌then◌else◌, ◌⊎◌, inl, inr,
}
use gobmp.Go.{empty_nlri, not_found, Res, ok, err, panic, of_list, index, slice, uint16_at}
use gobmp.Go.Reads.{index-drop, uint16_at-drop, slice_from-drop}
use gobmp.Nlri.Unicast.{unmarshal_unicast}
use gobmp.Nlri.Unicast.RoundTrip.{unmarshal_unicast_nil}
use gobmp.Bgp.Nlri.{nlri_message_type}
use gobmp.Bgp.Open.AddPath.{PathMap}
use gobmp.Bgp.MpUnreach.{
  MpUnreach, unmarshal_mp_unreach, get_afi_safi_type, get_nlri_l3vpn, get_nlri_unicast, is_ip,
  path_id_flag,
}

-- Two bytes of family, one of subsequent family, and the withdrawn routes.
abbrev pub meaning : PathMap → List ℕ → Res MpUnreach
meaning paths [] = err empty_nlri
meaning paths (a ∷ []) = panic
meaning paths (a ∷ (b ∷ [])) = panic
meaning paths (a ∷ (b ∷ (c ∷ r))) = ok (record {
  address_family_id = a * 256 + b;
  sub_address_family_id = c;
  withdrawn_routes = r;
  add_path = paths;
})

-- Every attribute of three bytes or more is read, an empty one is refused, and one or two bytes crash
-- the decoder.
pub unmarshal_mp_unreach-meaning :
    (m : List ℕ) (paths : PathMap) → unmarshal_mp_unreach (of_list m) paths ≡ meaning paths m
unfolding unmarshal_mp_unreach uint16_at slice index
unmarshal_mp_unreach-meaning [] paths = refl
unmarshal_mp_unreach-meaning (a ∷ []) paths = refl
unmarshal_mp_unreach-meaning (a ∷ (b ∷ [])) paths = refl
unmarshal_mp_unreach-meaning (a ∷ (b ∷ (c ∷ r))) paths =
    let m : List ℕ = a ∷ b ∷ c ∷ r in
    rw (
      ne→== (length m) 0 (λ z. omega arith),
      uint16_at-drop (of_list m) 0 a b (c ∷ r) refl,
      index-drop (of_list m) 2 c r refl (omega arith),
      slice_from-drop (of_list m) 3 r [] (sym (append-nil r)) (omega arith),
      append-nil r,
      take_all (length r) r (omega arith),
    )

-- An attribute of unicast routes without any is refused, although it is the end of a table.
pub get_nlri_unicast_empty :
    (mp : MpUnreach) (depth : ℕ)
    → (mp.address_family_id ≡ 1) ⊎ (mp.address_family_id ≡ 2)
    → mp.sub_address_family_id ≡ 1
    → mp.withdrawn_routes ≡ []
    → get_nlri_unicast depth mp ≡ err empty_nlri
unfolding get_nlri_unicast is_ip
get_nlri_unicast_empty mp depth f s e =
    let flag : Bool = path_id_flag mp in
    let ip : ((mp.address_family_id == 1 || mp.address_family_id == 2)
          && mp.sub_address_family_id == 1)
        ≡ true =
      ground arith in
    ap
      (λ (t : Bool).
        if t then unmarshal_unicast depth (of_list mp.withdrawn_routes) flag else err not_found)
      ip
    ∙ ap (λ (m : List ℕ). unmarshal_unicast depth (of_list m) flag) e
    ∙ unmarshal_unicast_nil flag depth

pub unicast_type :
    (mp : MpUnreach)
    → (mp.address_family_id ≡ 1) ⊎ (mp.address_family_id ≡ 2)
    → mp.sub_address_family_id ≡ 1
    → (get_afi_safi_type mp ≡ 1) ⊎ (get_afi_safi_type mp ≡ 2)
unfolding get_afi_safi_type nlri_message_type
unicast_type mp (inl f) s = inl (rw (f, s))
unicast_type mp (inr f) s = inr (rw (f, s))

-- Withdrawn VPN routes of IPv6 have their own code among the families, but are never found.
get_nlri_l3vpn_ipv6 :
    (mp : MpUnreach) (depth : ℕ)
    → mp.address_family_id ≡ 2
    → mp.sub_address_family_id ≡ 128
    → (get_afi_safi_type mp ≡ 19) × (get_nlri_l3vpn depth mp ≡ err not_found)
unfolding get_afi_safi_type get_nlri_l3vpn nlri_message_type
get_nlri_l3vpn_ipv6 mp depth h k = (rw (h, k), rw h)
