-- ===== src/Bgp/MpUnreach/Tests.antt =====
-- Attributes of withdrawn routes.
use gobmp.Prelude.{◌≡◌, [], ◌∷◌}
use gobmp.Go.{ok, of_list}
use gobmp.Bgp.MpUnreach.{MpUnreach, unmarshal_mp_unreach}
use gobmp.Bgp.MpUnreach.Meaning.{unmarshal_mp_unreach-meaning}

-- The withdrawn route is not looked at.
abbrev ipv6_vpn : MpUnreach
ipv6_vpn = record {
  address_family_id = 2;
  sub_address_family_id = 128;
  withdrawn_routes = 120 ∷ [];
  add_path = [];
}

unmarshal_mp_unreach-meaning_example :
    unmarshal_mp_unreach (of_list (0 ∷ 2 ∷ 128 ∷ 120 ∷ [])) [] ≡ ok ipv6_vpn
unmarshal_mp_unreach-meaning_example = unmarshal_mp_unreach-meaning (0 ∷ 2 ∷ 128 ∷ 120 ∷ []) []
