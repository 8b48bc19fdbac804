-- ===== src/Base/Route/Passes.antt =====
-- The route decoder: one pass over the slice, and the retry with the other flag.
use gobmp.Prelude.{
  ℕ, zero, suc, ◌++◌, length-append, ◌≡◌, ◌≢◌, refl, Bool, true, false, not, List, [], ◌∷◌, length,
  arith, All, ne→==, ap, ◌∙◌, sym, append-nil,
}
use gobmp.Go.{of_list, Error, ok, err, spin, Slice, IsSlice, Ends}
use gobmp.Go.Scan.{encode_all, scan-Ends, scan-encode_all}
use gobmp.Base.Route.{Route, route_turn, routes_once, unmarshal_routes}
use gobmp.Base.Route.Step.{IsShort, route_turn-Advances, encode_route, IsRoute, route_turn-encode}

-- One pass returns routes or the error of a short input, on every slice and with either flag.
pub routes_once_total : (b : Slice) (flag : Bool) → IsSlice b → Ends IsShort (routes_once b flag)
unfolding routes_once
routes_once_total b flag w =
    scan-Ends IsShort (route_turn flag) b (route_turn-Advances b w flag) (suc b.len) 0 (omega arith)

routes_once-encode :
    (flag : Bool) (rs : List Route) (rest : List ℕ)
    → All (IsRoute flag) rs
    → routes_once
        (record {
          len = length (encode_all (encode_route flag) rs);
          mem = encode_all (encode_route flag) rs ++ rest;
        })
        flag
      ≡ ok rs
unfolding routes_once
routes_once-encode flag rs rest h =
    let code : List ℕ = encode_all (encode_route flag) rs in
    let b : Slice = record { len = length code; mem = code ++ rest } in
    scan-encode_all (route_turn flag) b (encode_route flag) (IsRoute flag)
      (route_turn-encode flag b (omega (arith, length-append code rest))) rs (suc (length code)) 0
      rest h refl (omega arith) (omega arith)

pub not_empty :
    (flag : Bool) (r : Route) (rs : List Route)
    → length (encode_all (encode_route flag) (r ∷ rs)) ≢ 0
not_empty false r rs = omega arith
not_empty true r rs = omega arith

-- Routes with as many prefix bytes as their lengths in bits need, written with or without path
-- identifiers, are read back under the flag that says so, in order, at the first call already.
pub unmarshal_routes-encode :
    (flag : Bool) (rs : List Route) (rest : List ℕ) (depth : ℕ)
    → All (IsRoute flag) rs
    → unmarshal_routes
        (suc depth)
        (record {
          len = length (encode_all (encode_route flag) rs);
          mem = encode_all (encode_route flag) rs ++ rest;
        })
        flag
      ≡ ok rs
unfolding unmarshal_routes
unmarshal_routes-encode flag [] rest depth h = refl
unmarshal_routes-encode flag (r ∷ rs) rest depth (hr, hs) =
    rw (ne→== _ 0 (not_empty flag r rs), routes_once-encode flag (r ∷ rs) rest (hr, hs))

-- The same for a slice of these bytes alone.
pub unmarshal_routes-of_list :
    (flag : Bool) (rs : List Route) (depth : ℕ)
    → All (IsRoute flag) rs
    → unmarshal_routes (suc depth) (of_list (encode_all (encode_route flag) rs)) flag ≡ ok rs
unmarshal_routes-of_list flag rs depth w =
    let code : List ℕ = encode_all (encode_route flag) rs in
    ap (λ (m : List ℕ). unmarshal_routes (suc depth) (record { len = length code; mem = m }) flag)
      (sym (append-nil code))
    ∙ unmarshal_routes-encode flag rs [] depth w

-- The parse fails under the flag.
abbrev pub Fails : Slice → Bool → Type 0
Fails b flag = (e : Error) × (routes_once b flag ≡ err e)

-- On a slice that is not empty, where the given flag fails and the other one succeeds, the routes
-- of the other are returned.
pub unmarshal_routes_other_flag :
    (b : Slice) (flag : Bool) (rs : List Route) (depth : ℕ)
    → b.len ≢ 0
    → Fails b flag
    → routes_once b (not flag) ≡ ok rs
    → unmarshal_routes (suc (suc depth)) b flag ≡ ok rs
unfolding unmarshal_routes
unmarshal_routes_other_flag b flag rs depth n (e, he) h = rw (ne→== b.len 0 n, he, h)

not-not : (flag : Bool) → not (not flag) ≡ flag
not-not true = refl
not-not false = refl

-- On a slice that is not empty, where both flags fail, the two calls call each other for ever: no
-- depth of recursion is enough.
pub unmarshal_routes_endless :
    (depth : ℕ) (b : Slice) (flag : Bool)
    → b.len ≢ 0
    → Fails b flag
    → Fails b (not flag)
    → unmarshal_routes depth b flag ≡ spin
unfolding unmarshal_routes
unmarshal_routes_endless zero b flag n f g = refl
unmarshal_routes_endless (suc depth) b flag n (e, f) g =
    rw (
      ne→== b.len 0 n,
      f,
      unmarshal_routes_endless depth b (not flag) n g (rw (not-not flag) (e, f)),
    )
