-- ===== src/Nlri/Unicast.antt =====
-- pkg/unicast/unicast.go: unicast and labeled unicast prefixes.
pub mod RoundTrip
mod Tests
use gobmp.Prelude.{
  ℕ, zero, suc, ◌+◌, ◌-◌, ◌*◌, ◌/◌, ◌%◌, Bool, true, false, not, List, length, none, ltb, ◌==◌,
  if◌then◌else◌,
}
use gobmp.Go.{
  short_input, empty_nlri, Res, ok, spin, ◌>>=◌, ◌>>◌, fail_if, Slice, index, uint32_at, copy_at,
}
use gobmp.Go.Scan.{Turn, next, scan}
use gobmp.Base.Route.{Route, or_retry, unmarshal_routes}
use gobmp.Nlri.LabelStack.{label_stack}

-- `UnmarshalUnicastNLRI`
pub unmarshal_unicast : ℕ → Slice → Bool → Res (List Route)
unmarshal_unicast depth b flag = do fail_if (b.len == 0) empty_nlri; unmarshal_routes depth b flag

-- The part of a turn from the length byte at `p` on. `taken` bytes of the length are the labels'.
pub labeled_body : Slice → ℕ → ℕ → Res (Turn Route)
labeled_body b id p = do
  fail_if (ltb b.len (p + 1)) short_input
  n ← index b p
  fail_if (n == 0) short_input
  fail_if (ltb b.len (p + 1 + 3)) short_input
  (ls, c, q) ← label_stack false false b (p + 1)
  let taken = length ls * 3 + c
  fail_if (ltb (n / 8) taken) short_input
  let l = (if n % 8 == 0 then n / 8 - taken else n / 8 - taken + 1)
  fail_if (ltb b.len (q + l)) short_input
  v ← copy_at b q l
  ok (
      next (record { path_id = id; length = l * 8 % 256; label = ls; rd = none; prefix = v })
        (q + l))

-- One turn of the loop of `UnmarshalLUNLRI`.
pub labeled_turn : Bool → Slice → ℕ → Res (Turn Route)
labeled_turn false b p = labeled_body b 0 p
labeled_turn true b p = do
  fail_if (ltb b.len (p + 4)) short_input
  id ← uint32_at b p
  labeled_body b id (p + 4)

pub labeled_once : Slice → Bool → Res (List Route)
labeled_once b flag = scan (labeled_turn flag) (suc b.len) b 0

-- `UnmarshalLUNLRI`: on an error it calls itself with the other flag.
pub unmarshal_labeled : ℕ → Slice → Bool → Res (List Route)
unmarshal_labeled zero b flag = spin
unmarshal_labeled (suc depth) b flag =
    or_retry (labeled_once b flag) (unmarshal_labeled depth b (not flag))
