-- ===== src/Base/Label.antt =====
-- pkg/base/label.go: an MPLS label, three bytes on the wire.
pub mod RoundTrip
use gobmp.Prelude.{
  ℕ, ◌+◌, ◌*◌, ◌/◌, ◌%◌, ◌^◌, Bool, true, false, not, List, [], ◌∷◌, bit_and, ◌==◌, if◌then◌else◌,
}
use gobmp.Go.{Error, bad_length, Res, ok, err, ◌>>=◌, ◌>>◌, fail_if, Slice, index}

pub record Label : Type 0 where
  pub value : ℕ
  pub exp : ℕ
  pub bos : Bool

-- The 24 bits of the label; the two sums wrap as `uint8` and `uint32` do.
pub get_raw_value : Label → ℕ
get_raw_value l =
    let value = (l.value * 16 % 2 ^ 32 + l.exp * 2 % 256) % 2 ^ 32 in
    if l.bos then (value + 1) % 2 ^ 32 else value

-- `b[0]<<16 | b[1]<<8 | b[2]&0xf0`: the parts share no bit, so the sum is their disjunction.
abbrev wide_value : ℕ → ℕ → ℕ → ℕ
wide_value x y z = x * 65536 + y * 256 + bit_and z 0xf0

-- `srv6` is the optional flag of the source, false where the caller leaves it out.
pub make_label : Slice → Bool → Res Label
unfolding index
make_label b srv6 = do
  fail_if (not (b.len == 3)) bad_length
  x ← index b 0
  y ← index b 1
  z ← index b 2
  if srv6
      then ok (record { value = wide_value x y z; exp = 0; bos = false })
      else ok (record {
        value = wide_value x y z / 16;
        exp = bit_and z 0x0e / 2;
        bos = bit_and z 0x01 == 1;
      })
