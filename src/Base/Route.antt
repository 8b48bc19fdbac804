-- ===== src/Base/Route.antt =====
-- pkg/base/route.go: the prefixes of an NLRI field, with or without a path identifier.
pub mod Step
pub mod Passes
mod Tests
use gobmp.Prelude.{
  ℕ, zero, suc, ◌+◌, ◌/◌, ◌%◌, Bool, true, false, not, List, [], Option, none, ltb, leb, ◌==◌,
  if◌then◌else◌,
}
use gobmp.Go.{
  Error, short_input, Res, ok, err, panic, spin, ◌>>=◌, ◌>>◌, fail_if, Slice, index, uint32_at,
  copy_at,
}
use gobmp.Go.Scan.{Turn, next, scan}
use gobmp.Base.Label.{Label}
use gobmp.Base.Rd.{Rd}

pub record Route : Type 0 where
  pub path_id : ℕ
  pub length : ℕ
  pub label : List Label
  pub rd : Option Rd
  pub prefix : List ℕ

-- The bytes that a prefix of so many bits takes.
pub prefix_bytes : ℕ → ℕ
prefix_bytes n = if n % 8 == 0 then n / 8 else n / 8 + 1

-- The part of a turn from the length byte at `p` on.
route_body : Slice → ℕ → ℕ → Res (Turn Route)
route_body b id p = do
  n ← index b p
  let l = prefix_bytes n
  fail_if (ltb b.len (p + 1)) short_input
  fail_if (ltb b.len (p + 1 + l)) short_input
  v ← copy_at b (p + 1) l
  ok (next (record { path_id = id; length = n; label = []; rd = none; prefix = v }) (p + 1 + l))

-- One turn of the loop of `UnmarshalRoutes`. The first read of `b[p]` is inside the slice.
pub route_turn : Bool → Slice → ℕ → Res (Turn Route)
route_turn false b p = route_body b 0 p
route_turn true b p = do
  n ← index b p
  fail_if (ltb b.len (p + 4)) short_input
  id ← uint32_at b p
  fail_if (leb b.len (p + 4)) short_input
  route_body b id (p + 4)

-- The loop, for one value of the path-identifier flag.
pub routes_once : Slice → Bool → Res (List Route)
routes_once b flag = scan (route_turn flag) (suc b.len) b 0

-- `if r, e := retry; e == nil { return r, nil }; return nil, err`
abbrev pub or_retry {ℓ} : {A : Type ℓ} → Res A → Res A → Res A
or_retry (ok a) again = ok a
or_retry (err e) (err e') = err e
or_retry (err e) again = again
or_retry panic again = panic
or_retry spin again = spin

-- `UnmarshalRoutes`: on an error it calls itself with the other flag. The fuel bounds the depth of
-- these calls.
pub unmarshal_routes : ℕ → Slice → Bool → Res (List Route)
unmarshal_routes zero b flag = spin
unmarshal_routes (suc depth) b flag =
    let again = unmarshal_routes depth b (not flag) in
    if b.len == 0 then ok [] else or_retry (routes_once b flag) again
