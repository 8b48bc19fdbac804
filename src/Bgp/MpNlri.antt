-- ===== src/Bgp/MpNlri.antt =====
-- `MPNLRI` of pkg/bgp/mp-nlri.go: what the producer sees of either attribute.
use Prim.Native.String.{String}
use gobmp.Prelude.{ℕ, Bool, List, ◌≡◌, refl}
use gobmp.Go.{Res, ok}
use gobmp.Evpn.{Nlri}
use gobmp.Flowspec.{Spec, FlowspecNlri}
use gobmp.Base.Route.{Route}
use gobmp.Bgp.Texts.{Texts}
use gobmp.Bgp.MpReach.{MpReach}
use gobmp.Bgp.MpUnreach.{MpUnreach}

-- The two implementations of the interface.
pub data MpNlri : Type 0 where
  reach : MpReach → MpNlri
  unreach : MpUnreach → MpNlri

pub get_afi_safi_type : MpNlri → ℕ
get_afi_safi_type (reach mp) = gobmp.Bgp.MpReach.get_afi_safi_type mp
get_afi_safi_type (unreach mp) = gobmp.Bgp.MpUnreach.get_afi_safi_type mp

abbrev pub is_ipv6_nlri : MpNlri → Bool
is_ipv6_nlri (reach mp) = gobmp.Bgp.MpReach.is_ipv6_nlri mp
is_ipv6_nlri (unreach mp) = gobmp.Bgp.MpUnreach.is_ipv6_nlri mp

abbrev pub is_next_hop_ipv6 : MpNlri → Bool
is_next_hop_ipv6 (reach mp) = gobmp.Bgp.MpReach.is_next_hop_ipv6 mp
is_next_hop_ipv6 (unreach mp) = gobmp.Bgp.MpUnreach.is_next_hop_ipv6 mp

unfoldable pub get_next_hop : Texts → MpNlri → Res String
get_next_hop t (reach mp) = gobmp.Bgp.MpReach.get_next_hop t mp
get_next_hop t (unreach mp) = ok (gobmp.Bgp.MpUnreach.get_next_hop mp)

pub get_nlri_unicast : ℕ → MpNlri → Res (List Route)
get_nlri_unicast depth (reach mp) = gobmp.Bgp.MpReach.get_nlri_unicast depth mp
get_nlri_unicast depth (unreach mp) = gobmp.Bgp.MpUnreach.get_nlri_unicast depth mp

abbrev pub get_nlri_lu : ℕ → MpNlri → Res (List Route)
get_nlri_lu depth (reach mp) = gobmp.Bgp.MpReach.get_nlri_lu depth mp
get_nlri_lu depth (unreach mp) = gobmp.Bgp.MpUnreach.get_nlri_lu depth mp

pub get_nlri_l3vpn : ℕ → MpNlri → Res (List Route)
get_nlri_l3vpn depth (reach mp) = gobmp.Bgp.MpReach.get_nlri_l3vpn depth mp
get_nlri_l3vpn depth (unreach mp) = gobmp.Bgp.MpUnreach.get_nlri_l3vpn depth mp

abbrev pub get_nlri_evpn : MpNlri → Res (List Nlri)
get_nlri_evpn (reach mp) = gobmp.Bgp.MpReach.get_nlri_evpn mp
get_nlri_evpn (unreach mp) = gobmp.Bgp.MpUnreach.get_nlri_evpn mp

abbrev pub get_flowspec_nlri : (List Spec → String) → MpNlri → Res FlowspecNlri
get_flowspec_nlri hash (reach mp) = gobmp.Bgp.MpReach.get_flowspec_nlri hash mp
get_flowspec_nlri hash (unreach mp) = gobmp.Bgp.MpUnreach.get_flowspec_nlri hash mp

pub get_afi_safi_type-reach :
    (mp : MpReach) → get_afi_safi_type (reach mp) ≡ gobmp.Bgp.MpReach.get_afi_safi_type mp
unfolding get_afi_safi_type
get_afi_safi_type-reach mp = refl

pub get_nlri_unicast-reach :
    (depth : ℕ) (mp : MpReach)
    → get_nlri_unicast depth (reach mp) ≡ gobmp.Bgp.MpReach.get_nlri_unicast depth mp
unfolding get_nlri_unicast
get_nlri_unicast-reach depth mp = refl

pub get_nlri_l3vpn-reach :
    (depth : ℕ) (mp : MpReach)
    → get_nlri_l3vpn depth (reach mp) ≡ gobmp.Bgp.MpReach.get_nlri_l3vpn depth mp
unfolding get_nlri_l3vpn
get_nlri_l3vpn-reach depth mp = refl

pub get_nlri_unicast-unreach :
    (depth : ℕ) (mp : MpUnreach)
    → get_nlri_unicast depth (unreach mp) ≡ gobmp.Bgp.MpUnreach.get_nlri_unicast depth mp
unfolding get_nlri_unicast
get_nlri_unicast-unreach depth mp = refl

pub get_afi_safi_type-unreach :
    (mp : MpUnreach) → get_afi_safi_type (unreach mp) ≡ gobmp.Bgp.MpUnreach.get_afi_safi_type mp
unfolding get_afi_safi_type
get_afi_safi_type-unreach mp = refl
