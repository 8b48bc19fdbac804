-- ===== src/Nlri/L3Vpn.antt =====
-- pkg/l3vpn/l3-vpn.go: prefixes of VPN routes, with labels and a route distinguisher.
pub mod RoundTrip
mod Tests
use gobmp.Prelude.{
  ℕ, zero, suc, ◌+◌, ◌-◌, ◌*◌, ◌/◌, ◌%◌, Bool, true, false, not, List, length, none, some, ltb,
  ◌==◌, if◌then◌else◌,
}
use gobmp.Go.{
  short_input, empty_nlri, Res, ok, err, spin, ◌>>=◌, ◌>>◌, fail_if, Slice, index, slice, uint32_at,
  copy_at,
}
use gobmp.Go.Scan.{Turn, next, scan}
use gobmp.Base.Rd.{make_rd}
use gobmp.Base.Route.{Route, or_retry}
use gobmp.Nlri.LabelStack.{label_stack}

-- The part of a turn from the length byte at `p` on. The byte is read before the test on `p + 1`.
pub vpn_body : Bool → Slice → ℕ → ℕ → Res (Turn Route)
vpn_body srv6 b id p = do
  n ← index b p
  fail_if (n == 0) short_input
  fail_if (ltb b.len (p + 1)) short_input
  fail_if (ltb b.len (p + 1 + 3)) short_input
  (ls, c, q) ← label_stack true srv6 b (p + 1)
  fail_if (ltb b.len (q + 8)) short_input
  s ← slice b q (q + 8)
  rd ← make_rd s
  let taken = length ls * 3 + c + 8
  fail_if (ltb (n / 8) taken) short_input
  let l = (if n % 8 == 0 then n / 8 - taken else n / 8 - taken + 1)
  fail_if (ltb b.len (q + 8 + l)) short_input
  v ← copy_at b (q + 8) l
  ok (
      next (record { path_id = id; length = l * 8 % 256; label = ls; rd = some rd; prefix = v })
        (q + 8 + l))

-- One turn of the loop of `UnmarshalL3VPNNLRI`.
pub vpn_turn : Bool → Bool → Slice → ℕ → Res (Turn Route)
vpn_turn srv6 false b p = vpn_body srv6 b 0 p
vpn_turn srv6 true b p = do
  fail_if (ltb b.len (p + 4)) short_input
  id ← uint32_at b p
  vpn_body srv6 b id (p + 4)

pub vpn_once : Bool → Slice → Bool → Res (List Route)
vpn_once srv6 b flag = scan (vpn_turn srv6 flag) (suc b.len) b 0

-- `UnmarshalL3VPNNLRI`: on an error it calls itself with the other flag.
pub unmarshal_l3vpn : ℕ → Bool → Slice → Bool → Res (List Route)
unmarshal_l3vpn zero srv6 b flag = spin
unmarshal_l3vpn (suc depth) srv6 b flag =
    let again = unmarshal_l3vpn depth srv6 b (not flag) in
    if b.len == 0 then err empty_nlri else or_retry (vpn_once srv6 b flag) again
