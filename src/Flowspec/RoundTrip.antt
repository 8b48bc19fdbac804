-- ===== src/Flowspec/RoundTrip.antt =====
-- Flow specifications read back from the bytes they are written as.
use Prim.Native.String.{String}
use gobmp.Prelude.{
  ℕ, suc, ◌+◌, ◌-◌, ◌/◌, ◌%◌, ◌≤◌, ◌<◌, ◌++◌, ◌≡◌, ◌≢◌, refl, ap, true, false, ◌||◌, List, [], ◌∷◌,
  length, drop, map, arith, length-drop, ◌⊎◌, ne→==, length-append, All, bit_and, ◌==◌,
  if◌then◌else◌,
}
use gobmp.Prelude.Bits.{and_f0}
use gobmp.Go.{of_list, bad_length, ok, err, Slice, IsSlice}
use gobmp.Go.Reads.{index-drop, slice_total, slice_from_total, copy_at_sized, drop_over}
use gobmp.Go.Scan.{next, encode_all, scan-encode_map}
use gobmp.Flowspec.Operators.{
  RawOp, op_val, encode_op, IsOps, op_vals_from-encode, op_vals_length-map,
}
use gobmp.Flowspec.{
  unmarshal_op_val, Spec, prefix_spec, generic_spec, make_prefix_spec, make_generic_spec,
  is_generic, spec_turn, length_field, unmarshal_flowspec,
}

-- A rule as bytes: a prefix of `n` bits, or a type and its operators.
pub data RawSpec : Type 0 where
  raw_prefix : (t n : ℕ) (v : List ℕ) → RawSpec
  raw_generic : (t : ℕ) (rs : List RawOp) → RawSpec

abbrev pub encode_spec : RawSpec → List ℕ
encode_spec (raw_prefix t n v) = t ∷ n ∷ v
encode_spec (raw_generic t rs) = t ∷ encode_all encode_op rs

abbrev pub spec_of : RawSpec → Spec
spec_of (raw_prefix t n v) = prefix_spec (record { spec_type = t; prefix_length = n; prefix = v })
spec_of (raw_generic t rs) = generic_spec (record { spec_type = t; op_val = map op_val rs })

-- Types 1 and 2 have a prefix, the types 3 to 8, 10 and 11 operators.
abbrev pub IsSpec : RawSpec → Type 0
IsSpec (raw_prefix t n v) =
    ((t ≡ 1) ⊎ (t ≡ 2)) × (length v ≡ (if n % 8 == 0 then n / 8 else n / 8 + 1))
IsSpec (raw_generic t rs) = ((3 ≤ t) × (t ≤ 11) × (t ≢ 9)) × IsOps rs

module _ (s : Slice) (t : ℕ) where
  make_prefix_spec-encode :
      (n : ℕ) (v rest : List ℕ)
      → length v ≡ (if n % 8 == 0 then n / 8 else n / 8 + 1)
      → s.mem ≡ t ∷ (n ∷ (v ++ rest))
      → 2 + length v ≤ s.len
      → IsSlice s
      → make_prefix_spec s ≡ ok (spec_of (raw_prefix t n v), 2 + length v)
  unfolding make_prefix_spec
  make_prefix_spec-encode n v rest h e k w =
      let e1 = drop_over s.mem 0 (t ∷ []) (n ∷ (v ++ rest)) e in
      let e2 = drop_over s.mem 1 (n ∷ []) (v ++ rest) e1 in
      rw (
        index-drop s 0 t _ e (omega arith),
        index-drop s 1 n _ e1 (omega arith),
        ← h,
        copy_at_sized s 2 (length v) v rest refl e2 (omega arith),
      )

  make_generic_spec-encode :
      (rs : List RawOp) (rest : List ℕ)
      → IsOps rs
      → s.mem ≡ t ∷ (encode_all encode_op rs ++ rest)
      → 1 + length (encode_all encode_op rs) ≤ s.len
      → IsSlice s
      → make_generic_spec s ≡ ok (spec_of (raw_generic t rs), 1 + length (encode_all encode_op rs))
  unfolding make_generic_spec unmarshal_op_val
  make_generic_spec-encode rs rest h e k w =
      let e1 = drop_over s.mem 0 (t ∷ []) (encode_all encode_op rs ++ rest) e in
      rw (
        index-drop s 0 t _ e (omega arith),
        op_vals_from-encode s rs (suc s.len) 1 rest w h e1 k (omega arith),
        op_vals_length-map rs h,
      )

generic_lem :
    (t : ℕ) → (3 ≤ t) × (t ≤ 11) × (t ≢ 9) → ((t == 1 || t == 2) ≡ false) × (is_generic t ≡ true)
unfolding is_generic
generic_lem t (a, b, c) = (ground arith, ground arith)

spec_turn-encode :
    (b : Slice)
    → IsSlice b
    → (x : RawSpec) (p : ℕ) (rest : List ℕ) → IsSpec x
    → drop p b.mem ≡ encode_spec x ++ rest
    → p + length (encode_spec x) ≤ b.len
    → (spec_turn b p ≡ ok (next (spec_of x) (p + length (encode_spec x))))
      × (0 < length (encode_spec x))
unfolding spec_turn
spec_turn-encode b w (raw_prefix t n v) p rest (c, h) e k =
    let s : Slice = record { len = b.len - p; mem = drop p b.mem } in
    let kind : (t == 1 || t == 2) ≡ true = ground arith in
    (
      rw
          (
            index-drop b p t _ e (omega arith),
            kind,
            slice_from_total b p (omega arith),
            make_prefix_spec-encode s t n v rest h e (omega arith)
                (omega (arith, length-drop p b.mem)),
          )
          (ap (λ (q : ℕ). ok (next (spec_of (raw_prefix t n v)) q)) (omega arith)),
      omega arith,
    )
spec_turn-encode b w (raw_generic t rs) p rest (c, h) e k =
    let s : Slice = record { len = b.len - p; mem = drop p b.mem } in
    let (no_prefix, kind) = generic_lem t c in
    (
      rw
          (
            index-drop b p t _ e (omega arith),
            no_prefix,
            kind,
            slice_from_total b p (omega arith),
            make_generic_spec-encode s t rs rest h e (omega arith)
                (omega (arith, length-drop p b.mem)),
          )
          (ap (λ (q : ℕ). ok (next (spec_of (raw_generic t rs)) q)) (omega arith)),
      omega arith,
    )

length_field-encode :
    (l : ℕ) (rest : List ℕ) (n : ℕ)
    → l < 240
    → length_field (record { len = suc n; mem = l ∷ rest }) ≡ ok (l, 1)
unfolding length_field
length_field-encode l rest n h =
    let short : (bit_and l 0xf0 == 0xf0) ≡ false = ground (arith, and_f0 l (omega arith)) in
    rw (index-drop (record { len = suc n; mem = l ∷ rest }) 0 l rest refl (omega arith), short)

-- Rules of the types 1 to 8, 10 and 11, whose bytes are fewer than 240, are read back in order behind
-- their length, whatever follows the slice.
pub unmarshal_flowspec-encode :
    (hash : List Spec → String) (xs : List RawSpec) (rest : List ℕ)
    → All IsSpec xs
    → length (encode_all encode_spec xs) < 240
    → unmarshal_flowspec hash (record {
      len = suc (length (encode_all encode_spec xs));
      mem = length (encode_all encode_spec xs) ∷ (encode_all encode_spec xs ++ rest);
    })
      ≡ ok (record {
        length = length (encode_all encode_spec xs);
        spec = map spec_of xs;
        spec_hash = hash (map spec_of xs);
      })
unfolding unmarshal_flowspec
unmarshal_flowspec-encode hash xs rest h k =
    let c : List ℕ = encode_all encode_spec xs in
    let b : Slice = record { len = suc (length c); mem = length c ∷ (c ++ rest) } in
    let same : (1 + length c == suc (length c)) ≡ true = ground arith in
    rw (
      ne→== (suc (length c)) 0 (λ z. omega arith),
      length_field-encode (length c) (c ++ rest) (length c) k,
      same,
      scan-encode_map spec_turn b spec_of encode_spec IsSpec
          (spec_turn-encode b (omega (arith, length-append c rest))) xs (suc (suc (length c))) 1
          rest h refl (omega arith) (omega arith),
    )

-- A first byte of 240 or more, with more than one byte behind it, is refused, whatever its rules are.
pub unmarshal_flowspec_long :
    (hash : List Spec → String) (l : ℕ) (xs : List ℕ)
    → 240 ≤ l
    → l < 256
    → 1 < length xs
    → unmarshal_flowspec hash (of_list (l ∷ xs)) ≡ err bad_length
unfolding unmarshal_flowspec length_field
unmarshal_flowspec_long hash l xs h k n =
    let long : (bit_and l 0xf0 == 0xf0) ≡ true = ground (arith, and_f0 l k) in
    let other : (2 + 0 == suc (length xs)) ≡ false = ground arith in
    rw (
      ne→== (suc (length xs)) 0 (λ z. omega arith),
      index-drop (of_list (l ∷ xs)) 0 l xs refl (omega arith),
      long,
      slice_total (of_list (l ∷ xs)) 0 2 (omega arith) (omega arith),
      other,
    )
