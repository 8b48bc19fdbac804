-- ===== src/Srv6/RoundTrip.antt =====
-- The SRv6 L3 service read back from the bytes it is written as.
use gobmp.Prelude.{
  ℕ, suc, ◌+◌, ◌*◌, ◌/◌, ◌%◌, ◌≤◌, ◌<◌, ◌++◌, ◌≡◌, ◌≢◌, refl, ap, List, [], ◌∷◌, length, drop,
  arith, ne→==, length-append, append_assoc, All, Option, none, some, map, le→ltb, lt→ltb,
}
use gobmp.Go.{ok, Slice, IsSlice}
use gobmp.Go.Reads.{
  index-drop, slice-drop, copy_at-drop, copy_at_sized, uint16_at-drop, drop_over, slice_from-drop,
  drop_sized,
}
use gobmp.Go.Scan.{next, encode_all, scan-encode_map}
use gobmp.Bgp.Texts.{Texts}
use gobmp.Srv6.{
  SubSubTlv, TypeMap, Information, SubTlv, information, raw_sub, typed_turn, sub_sub_tlvs_at,
  unmarshal_information, sub_value, unmarshal_sub_tlv, unmarshal_l3_service,
}
use gobmp.Srv6.ByType.{of_type, append_all-of_type}
use gobmp.Srv6.SubSub.{
  typed, typed_turn-encode, SubSub, encode_sub_sub, IsSubSub, sub_sub_of,
  unmarshal_sub_sub_tlv-encode,
}

-- SRv6 information as it is written: two reserved bytes are `reserved` and the number beside the
-- sub-sub TLVs.
pub record Info : Type 0 where
  pub reserved : ℕ
  pub sid : List ℕ
  pub flags : ℕ
  pub endpoint_behavior : ℕ
  pub subs : Option (ℕ × List SubSub)

abbrev pub encode_subs : Option (ℕ × List SubSub) → List ℕ
encode_subs none = []
encode_subs (some (r, xs)) = r ∷ encode_all encode_sub_sub xs

abbrev pub encode_info : Info → List ℕ
encode_info x =
    x.reserved
    ∷ (x.sid
        ++ (x.flags
            ∷ (x.endpoint_behavior / 256)
            ∷ (x.endpoint_behavior % 256)
            ∷ encode_subs x.subs))

abbrev pub AreSubs : Option (ℕ × List SubSub) → Type 0
AreSubs none = Unit
AreSubs (some (r, xs)) = All IsSubSub xs

abbrev pub IsInfo : Info → Type 0
IsInfo x = (length x.sid ≡ 16) × AreSubs x.subs

abbrev pub subs_of : Option (ℕ × List SubSub) → Option (TypeMap SubSubTlv)
subs_of none = none
subs_of (some (r, xs)) = some (of_type (map sub_sub_of xs))

-- The sub TLVs of a writer.
pub data Sub : Type 0 where
  info : Info → Sub
  other_sub : ℕ → List ℕ → Sub

abbrev pub encode_sub : Sub → List ℕ
encode_sub (info x) = typed 1 (encode_info x)
encode_sub (other_sub t v) = typed t v

abbrev pub IsSub : Sub → Type 0
IsSub (info x) = IsInfo x
IsSub (other_sub t v) = t ≢ 1

sub_sub_tlvs_at-encode :
    (b : Slice) (p : ℕ) (subs : Option (ℕ × List SubSub)) (rest : List ℕ)
    → AreSubs subs
    → drop p b.mem ≡ encode_subs subs ++ rest
    → b.len ≡ p + length (encode_subs subs)
    → sub_sub_tlvs_at b p ≡ ok (subs_of subs)
unfolding sub_sub_tlvs_at
sub_sub_tlvs_at-encode b p none rest h e n = rw (le→ltb p b.len (omega arith))
sub_sub_tlvs_at-encode b p (some (r, xs)) rest h e n = rw (
  lt→ltb p b.len (omega arith),
  slice_from-drop b p (r ∷ encode_all encode_sub_sub xs) rest e n,
  unmarshal_sub_sub_tlv-encode r xs rest h,
)

module _ (texts : Texts) where
  abbrev pub info_of : Info → Information
  info_of x = record {
    sid = texts.ip16 x.sid;
    flags = x.flags;
    endpoint_behavior = x.endpoint_behavior;
    sub_sub_tlvs = subs_of x.subs;
  }

  abbrev pub sub_of : Sub → ℕ × SubTlv
  sub_of (info x) = (1, information (info_of x))
  sub_of (other_sub t v) = (t, raw_sub v)

  unmarshal_information-encode :
      (x : Info) (rest : List ℕ)
      → IsInfo x
      → unmarshal_information texts
          (record { len = length (encode_info x); mem = encode_info x ++ rest })
        ≡ ok (info_of x)
  unfolding unmarshal_information
  unmarshal_information-encode x rest (n, h) =
      let tail : List ℕ = encode_subs x.subs in
      let hi : ℕ = x.endpoint_behavior / 256 in
      let lo : ℕ = x.endpoint_behavior % 256 in
      let front : List ℕ = x.flags ∷ hi ∷ lo ∷ tail in
      let b : Slice = record { len = length (encode_info x); mem = encode_info x ++ rest } in
      let size : length (x.sid ++ front) ≡ 16 + suc (suc (suc (length tail))) =
        omega (arith, length-append x.sid front) in
      let all : length (encode_info x ++ rest) ≡ length (encode_info x) + length rest =
        length-append (encode_info x) rest in
      let at1 : drop 1 b.mem ≡ x.sid ++ (front ++ rest) = append_assoc x.sid front rest in
      let at17 : drop 17 b.mem ≡ front ++ rest =
        drop_sized b.mem 1 16 x.sid (front ++ rest) n at1 in
      let at18 : drop 18 b.mem ≡ hi ∷ lo ∷ (tail ++ rest) =
        drop_over b.mem 17 (x.flags ∷ []) _ at17 in
      let at20 : drop 20 b.mem ≡ tail ++ rest = drop_over b.mem 18 (hi ∷ lo ∷ []) _ at18 in
      let be : hi * 256 + lo ≡ x.endpoint_behavior = omega arith in
      rw (
        copy_at_sized b 1 16 x.sid (front ++ rest) n at1 (omega arith),
        index-drop b 17 x.flags _ at17 (omega arith),
        uint16_at-drop b 18 hi lo _ at18,
        be,
        sub_sub_tlvs_at-encode b 20 x.subs rest h at20 (omega arith),
      )

  sub_turn-encode :
      (b : Slice)
      → IsSlice b
      → (x : Sub) (p : ℕ) (rest : List ℕ) → IsSub x
      → drop p b.mem ≡ encode_sub x ++ rest
      → p + length (encode_sub x) ≤ b.len
      → (typed_turn (sub_value texts) b p ≡ ok (next (sub_of x) (p + length (encode_sub x))))
        × (0 < length (encode_sub x))
  unfolding sub_value
  sub_turn-encode b w (info x) p rest h e n = (
    typed_turn-encode (sub_value texts) b 1 (encode_info x) (information (info_of x)) p rest w e n
        (λ at. rw (
          slice-drop b (p + 1 + 2) (encode_info x) rest at (omega arith),
          unmarshal_information-encode x rest h,
        )),
    omega arith,
  )
  sub_turn-encode b w (other_sub t v) p rest h e n = (
    typed_turn-encode (sub_value texts) b t v (raw_sub v) p rest w e n
        (λ at. rw (ne→== t 1 h, copy_at-drop b (p + 1 + 2) v rest at (omega arith))),
    omega arith,
  )

  -- A reserved byte and sub TLVs, SRv6 information with its SID of sixteen bytes and its sub-sub TLVs
  -- among them, are read back whatever follows the slice: each type has its sub TLVs, in order.
  pub unmarshal_l3_service-encode :
      (reserved : ℕ) (xs : List Sub) (rest : List ℕ)
      → All IsSub xs
      → unmarshal_l3_service texts (record {
        len = suc (length (encode_all encode_sub xs));
        mem = reserved ∷ (encode_all encode_sub xs ++ rest);
      })
        ≡ ok (of_type (map sub_of xs))
  unfolding unmarshal_l3_service unmarshal_sub_tlv
  unmarshal_l3_service-encode reserved xs rest h =
      let code : List ℕ = encode_all encode_sub xs in
      let whole : Slice = record { len = suc (length code); mem = reserved ∷ (code ++ rest) } in
      let b : Slice = record { len = length code; mem = code ++ rest } in
      rw
        (
          slice_from-drop whole 1 code rest refl (omega arith),
          scan-encode_map (typed_turn (sub_value texts)) b sub_of encode_sub IsSub
              (sub_turn-encode b (omega (arith, length-append code rest))) xs (suc (length code)) 0
              rest h refl (omega arith) (omega arith),
        )
        (ap ok (append_all-of_type (map sub_of xs)))
