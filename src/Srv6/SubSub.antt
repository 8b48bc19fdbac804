-- ===== src/Srv6/SubSub.antt =====
-- The sub-sub TLVs of an SRv6 service read back, and the common shape of its TLVs.
use gobmp.Prelude.{
  ℕ, suc, ◌+◌, ◌*◌, ◌/◌, ◌%◌, ◌≤◌, ◌<◌, ◌++◌, ◌≡◌, ◌≢◌, refl, ap, List, [], ◌∷◌, length, drop,
  arith, ne→==, length-append, All, map,
}
use gobmp.Go.{Res, ok, Slice, IsSlice}
use gobmp.Go.Reads.{index-drop, slice-drop, copy_at-drop, uint16_at-drop, drop_over}
use gobmp.Go.Scan.{next, encode_all, scan-encode_map}
use gobmp.Srv6.{
  SidStructure, SubSubTlv, sid_structure, raw, unmarshal_sid_structure, sub_sub_value, typed_turn,
  unmarshal_sub_sub_tlv,
}
use gobmp.Srv6.ByType.{of_type, append_all-of_type}

-- A type, a length in two bytes and a value.
abbrev pub typed : ℕ → List ℕ → List ℕ
typed t v = t ∷ (length v / 256) ∷ (length v % 256) ∷ v

pub typed_turn-encode :
    {T : Type 0} (value : ℕ → ℕ → Slice → ℕ → Res T) (b : Slice) (t : ℕ) (v : List ℕ) (s : T)
    (p : ℕ) (rest : List ℕ)
    → IsSlice b
    → drop p b.mem ≡ typed t v ++ rest
    → p + length (typed t v) ≤ b.len
    → (drop (p + 1 + 2) b.mem ≡ v ++ rest → value t (length v) b (p + 1 + 2) ≡ ok s)
    → typed_turn value b p ≡ ok (next (t, s) (p + length (typed t v)))
unfolding typed_turn
typed_turn-encode value b t v s p rest w e n h =
    let l : length v / 256 * 256 + length v % 256 ≡ length v = omega arith in
    let at1 = drop_over b.mem p (t ∷ []) _ e in
    let at3 = drop_over b.mem (p + 1) ((length v / 256) ∷ (length v % 256) ∷ []) _ at1 in
    rw (index-drop b p t _ e (omega arith), uint16_at-drop b (p + 1) _ _ _ at1, l, h at3)
      (ap (λ (q : ℕ). ok (next (t, s) q)) (omega arith))

-- The sub-sub TLVs of a writer: a structure of the SID, or any other type.
pub data SubSub : Type 0 where
  structure : SidStructure → SubSub
  other : ℕ → List ℕ → SubSub

abbrev pub encode_structure : SidStructure → List ℕ
encode_structure x =
    x.local_block_length ∷ x.local_node_length ∷ x.function_length ∷ x.argument_length
    ∷ x.transposition_length ∷ x.transposition_offset ∷ []

abbrev pub encode_sub_sub : SubSub → List ℕ
encode_sub_sub (structure x) = typed 1 (encode_structure x)
encode_sub_sub (other t v) = typed t v

abbrev pub IsSubSub : SubSub → Type 0
IsSubSub (structure x) = Unit
IsSubSub (other t v) = t ≢ 1

abbrev pub sub_sub_of : SubSub → ℕ × SubSubTlv
sub_sub_of (structure x) = (1, sid_structure x)
sub_sub_of (other t v) = (t, raw v)

unmarshal_sid_structure-encode :
    (x : SidStructure) (rest : List ℕ)
    → unmarshal_sid_structure (record { len = 6; mem = encode_structure x ++ rest }) ≡ ok x
unfolding unmarshal_sid_structure
unmarshal_sid_structure-encode x rest =
    let b : Slice = record { len = 6; mem = encode_structure x ++ rest } in
    rw (
      index-drop b 0 _ _ refl (omega arith),
      index-drop b 1 _ _ refl (omega arith),
      index-drop b 2 _ _ refl (omega arith),
      index-drop b 3 _ _ refl (omega arith),
      index-drop b 4 _ _ refl (omega arith),
      index-drop b 5 _ _ refl (omega arith),
    )

sub_sub_turn-encode :
    (b : Slice)
    → IsSlice b
    → (x : SubSub) (p : ℕ) (rest : List ℕ) → IsSubSub x
    → drop p b.mem ≡ encode_sub_sub x ++ rest
    → p + length (encode_sub_sub x) ≤ b.len
    → (typed_turn sub_sub_value b p ≡ ok (next (sub_sub_of x) (p + length (encode_sub_sub x))))
      × (0 < length (encode_sub_sub x))
unfolding sub_sub_value
sub_sub_turn-encode b w (structure x) p rest h e n = (
  typed_turn-encode sub_sub_value b 1 (encode_structure x) (sid_structure x) p rest w e n (λ at.
      rw (
        slice-drop b (p + 1 + 2) (encode_structure x) rest at (omega arith),
        unmarshal_sid_structure-encode x rest,
      )),
  omega arith,
)
sub_sub_turn-encode b w (other t v) p rest h e n = (
  typed_turn-encode sub_sub_value b t v (raw v) p rest w e n
      (λ at. rw (ne→== t 1 h, copy_at-drop b (p + 1 + 2) v rest at (omega arith))),
  omega arith,
)

-- A reserved byte, and then the sub-sub TLVs.
pub unmarshal_sub_sub_tlv-encode :
    (reserved : ℕ) (xs : List SubSub) (rest : List ℕ)
    → All IsSubSub xs
    → unmarshal_sub_sub_tlv (record {
      len = suc (length (encode_all encode_sub_sub xs));
      mem = reserved ∷ (encode_all encode_sub_sub xs ++ rest);
    })
      ≡ ok (of_type (map sub_sub_of xs))
unfolding unmarshal_sub_sub_tlv
unmarshal_sub_sub_tlv-encode reserved xs rest h =
    let code : List ℕ = encode_all encode_sub_sub xs in
    let b : Slice = record { len = suc (length code); mem = reserved ∷ (code ++ rest) } in
    rw
      (scan-encode_map (typed_turn sub_sub_value) b sub_sub_of encode_sub_sub IsSubSub
        (sub_sub_turn-encode b (omega (arith, length-append code rest))) xs
        (suc (suc (length code))) 1 rest h refl (omega arith) (omega arith))
      (ap ok (append_all-of_type (map sub_sub_of xs)))
