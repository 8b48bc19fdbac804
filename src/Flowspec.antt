-- ===== src/Flowspec.antt =====
-- pkg/flowspec/flowspec_nlri.go: the rules of a flow specification.
pub mod Operators
pub mod RoundTrip
mod Tests
use Prim.Native.String.{String}
use gobmp.Prelude.{
  ℕ, zero, suc, ◌+◌, ◌*◌, ◌/◌, ◌%◌, ◌^◌, Bool, true, false, not, ◌||◌, List, [], ◌∷◌, bit_and, ltb,
  leb, ◌==◌, if◌then◌else◌,
}
use gobmp.Go.{
  bad_length, empty_nlri, short_input, not_implemented, unknown_type, Res, ok, err, spin, ◌>>=◌,
  ◌>>◌, fail_if, Slice, index, slice, slice_from, copy_at,
}
use gobmp.Go.Scan.{Turn, next, scan}

pub record Operator : Type 0 where
  pub eol_bit : Bool
  pub and_bit : Bool
  pub length : ℕ
  pub lt_bit : Bool
  pub gt_bit : Bool
  pub eq_bit : Bool

-- `UnmarshalFlowspecOperator`
unfoldable pub unmarshal_operator : ℕ → Operator
unmarshal_operator b = record {
  eol_bit = bit_and b 0x80 == 0x80;
  and_bit = bit_and b 0x40 == 0x40;
  length = 2 ^ (bit_and b 0x30 / 16);
  lt_bit = bit_and b 0x04 == 0x04;
  gt_bit = bit_and b 0x02 == 0x02;
  eq_bit = bit_and b 0x01 == 0x01;
}

pub record OpVal : Type 0 where
  pub op : Operator
  pub val : List ℕ

-- The loop of `UnmarshalOpVal`: up to the operator with the end bit, or the end of the slice.
pub op_vals_from : ℕ → Slice → ℕ → Res (List OpVal)
op_vals_from zero b p = spin
op_vals_from (suc fuel) b p = elim (ltb p b.len) [
  | false ↦ ok []
  | true ↦ do
    x ← index b p
    let o = unmarshal_operator x
    fail_if (ltb b.len (p + 1 + o.length)) short_input
    v ← copy_at b (p + 1) o.length
    rest ← elim o.eol_bit [ true ↦ ok [] | false ↦ op_vals_from fuel b (p + 1 + o.length) ]
    ok ((record { op = o; val = v }) ∷ rest)
]

-- `UnmarshalOpVal`, behind the type.
pub unmarshal_op_val : Slice → Res (List OpVal)
unmarshal_op_val b = op_vals_from (suc b.len) b 1

pub record PrefixSpec : Type 0 where
  pub spec_type : ℕ
  pub prefix_length : ℕ
  pub prefix : List ℕ

pub record GenericSpec : Type 0 where
  pub spec_type : ℕ
  pub op_val : List OpVal

-- `Spec`, by its two implementations.
pub data Spec : Type 0 where
  prefix_spec : PrefixSpec → Spec
  generic_spec : GenericSpec → Spec

-- `makePrefixSpec`: the rule and its length.
pub make_prefix_spec : Slice → Res (Spec × ℕ)
make_prefix_spec b = do
  t ← index b 0
  n ← index b 1
  let l = (if n % 8 == 0 then n / 8 else n / 8 + 1)
  v ← copy_at b 2 l
  ok (prefix_spec (record { spec_type = t; prefix_length = n; prefix = v }), 2 + l)

-- One byte for each operator, and its value.
pub op_vals_length : List OpVal → ℕ
op_vals_length [] = 0
op_vals_length (v ∷ vs) = 1 + v.op.length + op_vals_length vs

-- `makeGenericSpec`
pub make_generic_spec : Slice → Res (Spec × ℕ)
make_generic_spec b = do
  t ← index b 0
  vs ← unmarshal_op_val b
  ok (generic_spec (record { spec_type = t; op_val = vs }), 1 + op_vals_length vs)

-- The types 3 to 8, 10 and 11.
pub is_generic : ℕ → Bool
is_generic t = t == 3 || t == 4 || t == 5 || t == 6 || t == 7 || t == 8 || t == 10 || t == 11

-- One turn of the loop of `UnmarshalFlowspecNLRI`.
pub spec_turn : Slice → ℕ → Res (Turn Spec)
spec_turn b p = do
  t ← index b p
  (x, l) ←
      (if t == 1 || t == 2
        then (do s ← slice_from b p; make_prefix_spec s)
        else if is_generic t
        then (do s ← slice_from b p; make_generic_spec s)
        else if t == 9 || t == 12
        then err not_implemented
        else err unknown_type)
  ok (next x (p + l))

pub record FlowspecNlri : Type 0 where
  pub length : ℕ
  pub spec : List Spec
  pub spec_hash : String

-- The length and where the rules begin. A length of two bytes is not read: the call writes the length
-- 0 to the slice, whose first two bytes nothing reads again.
pub length_field : Slice → Res (ℕ × ℕ)
length_field b = do
  x ← index b 0
  if bit_and x 0xf0 == 0xf0 then (do s ← slice b 0 2; ok (0, 2)) else ok (x, 1)

-- `hash` is the MD5 sum of the rules' JSON.
pub unmarshal_flowspec : (List Spec → String) → Slice → Res FlowspecNlri
unmarshal_flowspec hash b = do
  fail_if (b.len == 0) empty_nlri
  (l, p) ← length_field b
  fail_if (not (p + l == b.len)) bad_length
  xs ← scan spec_turn (suc b.len) b p
  ok (record { length = l; spec = xs; spec_hash = hash xs })
