-- ===== src/Base/Route/Tests.antt =====
-- The route decoder on small slices.
use gobmp.Prelude.{arith, ◌++◌, ◌≡◌, refl, Bool, true, false, List, [], ◌∷◌, none, length, All}
use gobmp.Go.{short_input, ok, err, spin, Slice, Ends, index, slice, uint32_at, copy_at}
use gobmp.Go.Scan.{encode_all, scan}
use gobmp.Base.Route.{Route, prefix_bytes, route_turn, routes_once, unmarshal_routes}
use gobmp.Base.Route.Step.{IsShort, encode_route, IsRoute}
use gobmp.Base.Route.Passes.{routes_once_total, unmarshal_routes-encode, unmarshal_routes_endless}

-- 10.0.0.0/8 and 192.168.0.0/20.
abbrev two_routes : List Route
two_routes =
    (record { path_id = 0; length = 8; label = []; rd = none; prefix = 10 ∷ [] })
    ∷ (record { path_id = 0; length = 20; label = []; rd = none; prefix = 192 ∷ 168 ∷ 0 ∷ [] })
    ∷ []

two_routes-IsRoute : All (IsRoute false) two_routes
unfolding prefix_bytes
two_routes-IsRoute = (
  (record { sized = refl; no_label = refl; no_rd = refl; no_id = λ e. refl }),
  ((record { sized = refl; no_label = refl; no_rd = refl; no_id = λ e. refl }), tt),
)

unmarshal_routes-encode_example :
    unmarshal_routes 1
      (record {
        len = length (encode_all (encode_route false) two_routes);
        mem = encode_all (encode_route false) two_routes ++ (7 ∷ []);
      })
      false
    ≡ ok two_routes
unmarshal_routes-encode_example =
    unmarshal_routes-encode false two_routes (7 ∷ []) 0 two_routes-IsRoute

-- A prefix of 255 bits that is not there.
abbrev cut_route : Slice
cut_route = record { len = 1; mem = 255 ∷ [] }

routes_once_total_example : Ends IsShort (routes_once cut_route true)
routes_once_total_example = routes_once_total cut_route true (omega arith)

cut_route_fails : (flag : Bool) → routes_once cut_route flag ≡ err short_input
unfolding routes_once scan route_turn gobmp.Base.Route.route_body prefix_bytes index slice uint32_at
    copy_at
cut_route_fails true = refl
cut_route_fails false = refl

unmarshal_routes_endless_example : unmarshal_routes 100 cut_route false ≡ spin
unmarshal_routes_endless_example =
    unmarshal_routes_endless 100 cut_route false (λ e. omega arith)
      (short_input, cut_route_fails false) (short_input, cut_route_fails true)

-- 10.0.0.0/8 with the path identifier 1, read as if it had none.
abbrev with_id : Slice
with_id = record { len = 6; mem = 0 ∷ 0 ∷ 0 ∷ 33 ∷ 8 ∷ 10 ∷ [] }

abbrev id_routes : List Route
id_routes = (record { path_id = 33; length = 8; label = []; rd = none; prefix = 10 ∷ [] }) ∷ []

with_id_fails : routes_once with_id false ≡ err short_input
unfolding routes_once scan route_turn gobmp.Base.Route.route_body prefix_bytes index slice uint32_at
    copy_at
with_id_fails = refl

with_id_reads : routes_once with_id true ≡ ok id_routes
unfolding routes_once scan route_turn gobmp.Base.Route.route_body prefix_bytes index slice uint32_at
    copy_at
with_id_reads = refl
