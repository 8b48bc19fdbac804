-- ===== src/Flowspec/Operators.antt =====
-- Operators and their values read back from the bytes they are written as.
use gobmp.Prelude.{
  ℕ, zero, suc, ◌+◌, ◌*◌, ◌/◌, ◌%◌, ◌^◌, ◌<◌, ◌==◌, ◌≤◌, ◌++◌, ◌≡◌, ap, ◌∙◌, true, false, List, [],
  ◌∷◌, length, drop, map, arith, lt→ltb, le→ltb, length-append, append_assoc,
}
use mathlib.Core.Path.{subst}
use gobmp.Prelude.Bits.{and_80, and_40, and_30, and_04, and_02, and_01}
use gobmp.Go.{ok, Slice, IsSlice}
use gobmp.Go.Reads.{index-drop, copy_at_sized, drop_over, drop_sized}
use gobmp.Go.Scan.{encode_all}
use gobmp.Flowspec.{Operator, unmarshal_operator, OpVal, op_vals_from, op_vals_length}

-- The draft's layout of the byte: the end and the AND bit, the length of the value as a power of two in
-- two bits, a bit that is not used, and "less", "greater" and "equal".
abbrev pub operator_of : ℕ → Operator
operator_of b = record {
  eol_bit = b / 128 % 2 == 1;
  and_bit = b / 64 % 2 == 1;
  length = 2 ^ (b / 16 % 4);
  lt_bit = b / 4 % 2 == 1;
  gt_bit = b / 2 % 2 == 1;
  eq_bit = b % 2 == 1;
}

-- A masked bit is compared with the mask.
bit_lem : (x m : ℕ) → x < 2 → 0 < m → (x * m == m) ≡ (x == 1)
bit_lem x m h k = ground arith

unmarshal_operator_lem : (b : ℕ) → b < 256 → unmarshal_operator b ≡ operator_of b
unfolding unmarshal_operator
unmarshal_operator_lem b h =
    let shift : b / 16 % 4 * 16 / 16 ≡ b / 16 % 4 = omega arith in
    rw (
      and_80 b h,
      and_40 b h,
      and_30 b h,
      and_04 b h,
      and_02 b h,
      and_01 b h,
      shift,
      bit_lem (b / 128 % 2) 128 (omega arith) (omega arith),
      bit_lem (b / 64 % 2) 64 (omega arith) (omega arith),
      bit_lem (b / 4 % 2) 4 (omega arith) (omega arith),
      bit_lem (b / 2 % 2) 2 (omega arith) (omega arith),
    )

-- An operator byte and its value.
pub record RawOp : Type 0 where
  pub operator : ℕ
  pub val : List ℕ

abbrev pub op_val : RawOp → OpVal
op_val r = record { op = operator_of r.operator; val = r.val }

abbrev pub encode_op : RawOp → List ℕ
encode_op r = r.operator ∷ r.val

-- The operators are bytes, the values have the lengths that their operators say, and the last operator, and no other, ends the
-- list.
abbrev pub IsOps : List RawOp → Type 0
IsOps [] = ⊥
IsOps (r ∷ []) =
    (r.operator < 256)
    × (length r.val ≡ (operator_of r.operator).length)
    × ((operator_of r.operator).eol_bit ≡ true)
IsOps (r ∷ (r' ∷ rs)) =
    (r.operator < 256)
    × (length r.val ≡ (operator_of r.operator).length)
    × ((operator_of r.operator).eol_bit ≡ false)
    × IsOps (r' ∷ rs)

-- What one turn gives if the operator byte is read as `o`.
abbrev TurnGives : Slice → ℕ → ℕ → RawOp → List ℕ → List OpVal → Operator → Type 0
TurnGives b fuel p r rest more o =
    length r.val ≡ o.length
    → drop p b.mem ≡ r.operator ∷ (r.val ++ rest)
    → p + 1 + length r.val ≤ b.len
    → (elim o.eol_bit [ true ↦ ok [] | false ↦ op_vals_from fuel b (p + 1 + o.length) ]) ≡ ok more
    → op_vals_from (suc fuel) b p ≡ ok ((record { op = o; val = r.val }) ∷ more)

op_step_read :
    (b : Slice) (fuel p : ℕ) (r : RawOp) (rest : List ℕ) (more : List OpVal)
    → IsSlice b
    → TurnGives b fuel p r rest more (unmarshal_operator r.operator)
unfolding op_vals_from
op_step_read b fuel p r rest more w n e k h =
    let e1 = drop_over b.mem p (r.operator ∷ []) (r.val ++ rest) e in
    let o : Operator = unmarshal_operator r.operator in
    rw (
      lt→ltb p b.len (omega arith),
      op_vals_from,
      index-drop b p r.operator _ e (omega arith),
      le→ltb b.len (p + 1 + o.length) (omega (arith, n)),
      copy_at_sized b (p + 1) o.length r.val rest n e1 (omega (arith, n)),
      h,
    )

op_step :
    (b : Slice) (fuel p : ℕ) (r : RawOp) (rest : List ℕ) (more : List OpVal)
    → IsSlice b
    → r.operator < 256
    → TurnGives b fuel p r rest more (operator_of r.operator)
op_step b fuel p r rest more w byte =
    subst (TurnGives b fuel p r rest more) (unmarshal_operator_lem r.operator byte)
      (op_step_read b fuel p r rest more w)

-- Whatever follows the list in the slice or behind it.
pub op_vals_from-encode :
    (b : Slice) (rs : List RawOp) (fuel p : ℕ) (rest : List ℕ)
    → IsSlice b
    → IsOps rs
    → drop p b.mem ≡ encode_all encode_op rs ++ rest
    → p + length (encode_all encode_op rs) ≤ b.len
    → length (encode_all encode_op rs) ≤ fuel
    → op_vals_from fuel b p ≡ ok (map op_val rs)
op_vals_from-encode b [] fuel p rest w h e k f = absurd h
op_vals_from-encode b (r ∷ []) zero p rest w h e k f = absurd (omega arith)
op_vals_from-encode b (r ∷ []) (suc fuel) p rest w (byte, n, eol) e k f =
    let e1 = e ∙ ap (λ t. r.operator ∷ t) (append_assoc r.val [] rest) in
    op_step b fuel p r rest [] w byte n e1 (omega (arith, length-append r.val [])) (rw eol)
op_vals_from-encode b (r ∷ (r' ∷ rs)) zero p rest w h e k f = absurd (omega arith)
op_vals_from-encode b (r ∷ (r' ∷ rs)) (suc fuel) p rest w (byte, n, eol, hs) e k f =
    let tail : List ℕ = encode_all encode_op (r' ∷ rs) in
    let e1 = e ∙ ap (λ t. r.operator ∷ t) (append_assoc r.val tail rest) in
    let size : length (r.val ++ tail) ≡ length r.val + length tail = length-append r.val tail in
    let e2 =
      drop_sized b.mem (p + 1) (operator_of r.operator).length r.val (tail ++ rest) n
        (drop_over b.mem p (r.operator ∷ []) (r.val ++ (tail ++ rest)) e1) in
    op_step b fuel p r (tail ++ rest) (map op_val (r' ∷ rs)) w byte n e1 (omega (arith, size)) (
      rw eol (
        op_vals_from-encode b (r' ∷ rs) fuel (p + 1 + (operator_of r.operator).length) rest w hs e2
          (omega (arith, size, n)) (omega (arith, size))))

pub op_vals_length-map :
    (rs : List RawOp) → IsOps rs → op_vals_length (map op_val rs) ≡ length (encode_all encode_op rs)
unfolding op_vals_length
op_vals_length-map [] h = absurd h
op_vals_length-map (r ∷ []) (byte, n, eol) = omega (arith, n, length-append r.val [])
op_vals_length-map (r ∷ (r' ∷ rs)) (byte, n, eol, hs) = omega (
  arith,
  n,
  length-append r.val (encode_all encode_op (r' ∷ rs)),
  op_vals_length-map (r' ∷ rs) hs,
)
