-- ===== src/Producer/Tests.antt =====
-- Family 1 on both sides, 2 on one.
use gobmp.Prelude.{◌≡◌, [], ◌∷◌, true, false, some}
use gobmp.Bgp.Open.AddPath.{lookup}
use gobmp.Producer.{negotiate}
use gobmp.Producer.Negotiation.{lookup-negotiate}

lookup-negotiate_example :
    lookup 1 (negotiate ((1, false) ∷ (2, true) ∷ []) ((1, true) ∷ []) []) ≡ some true
unfolding lookup
lookup-negotiate_example = lookup-negotiate 1 ((1, false) ∷ (2, true) ∷ []) ((1, true) ∷ []) []
