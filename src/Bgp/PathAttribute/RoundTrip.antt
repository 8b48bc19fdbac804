-- ===== src/Bgp/PathAttribute/RoundTrip.antt =====
-- The attribute decoder against the layout of a path attribute.
use gobmp.Prelude.{
  ℕ, suc, ◌+◌, ◌*◌, ◌/◌, ◌%◌, ◌<◌, ◌≤◌, ◌++◌, length-append, ◌≡◌, refl, ap, ◌∙◌, Bool, true, false,
  List, [], ◌∷◌, length, drop, arith, All, if◌then◌else◌, ◌==◌,
}
use gobmp.Prelude.Bits.{and_10}
use gobmp.Go.{ok, Slice, IsSlice}
use gobmp.Go.Reads.{index-drop, uint16_at-drop, copy_at-drop, drop_over}
use gobmp.Go.Scan.{next, encode_all, scan-encode_all}
use gobmp.Bgp.PathAttribute.{
  PathAttribute, is_extended, attribute_value, attribute_turn, unmarshal_path_attributes,
}

-- The length field, one byte or two.
abbrev pub encode_length : Bool → ℕ → List ℕ
encode_length true l = (l / 256) ∷ (l % 256) ∷ []
encode_length false l = l ∷ []

abbrev pub encode_attribute : PathAttribute → List ℕ
encode_attribute a =
    a.flags ∷ a.attribute_type ∷ (encode_length (is_extended a.flags) a.length ++ a.attribute)

-- The declared length is that of the value.
abbrev pub IsAttribute : PathAttribute → Type 0
IsAttribute a = length a.attribute ≡ a.length

-- With the flag as a variable of its own.
turn_at :
    (b : Slice)
    → IsSlice b
    → (wide : Bool) (f t l p : ℕ) (v rest : List ℕ) → is_extended f ≡ wide
    → length v ≡ l
    → drop p b.mem ≡ f ∷ t ∷ ((encode_length wide l ++ v) ++ rest)
    → p + 2 + length (encode_length wide l) + l ≤ b.len
    → attribute_turn b p
      ≡ ok (
          next
            (record { flags = f; attribute_type = t; length = l; attribute = v })
            (p + 2 + length (encode_length wide l) + l))
unfolding attribute_turn attribute_value
turn_at b w true f t l p v rest x h e n =
    let whole : l / 256 * 256 + l % 256 ≡ l = omega arith in
    let at2 : drop (p + 2) b.mem ≡ (l / 256) ∷ (l % 256) ∷ (v ++ rest) =
      drop_over b.mem p (f ∷ t ∷ []) _ e in
    let at4 : drop (p + 2 + 2) b.mem ≡ v ++ rest =
      drop_over b.mem (p + 2) ((l / 256) ∷ (l % 256) ∷ []) _ at2 in
    let at1 : drop (p + 1) b.mem ≡ t ∷ (l / 256) ∷ (l % 256) ∷ (v ++ rest) =
      drop_over b.mem p (f ∷ []) _ e in
    rw (
      index-drop b p _ _ e (omega arith),
      index-drop b (p + 1) _ _ at1 (omega arith),
      x,
      uint16_at-drop b (p + 2) _ _ _ at2,
      whole,
      ← h,
      copy_at-drop b (p + 2 + 2) v rest at4 (omega arith),
    )
turn_at b w false f t l p v rest x h e n =
    let at1 : drop (p + 1) b.mem ≡ t ∷ l ∷ (v ++ rest) = drop_over b.mem p (f ∷ []) _ e in
    let at2 : drop (p + 2) b.mem ≡ l ∷ (v ++ rest) = drop_over b.mem p (f ∷ t ∷ []) _ e in
    let at3 : drop (p + 2 + 1) b.mem ≡ v ++ rest = drop_over b.mem (p + 2) (l ∷ []) _ at2 in
    rw (
      index-drop b p _ _ e (omega arith),
      index-drop b (p + 1) _ _ at1 (omega arith),
      x,
      index-drop b (p + 2) _ _ at2 (omega arith),
      ← h,
      copy_at-drop b (p + 2 + 1) v rest at3 (omega arith),
    )

attribute_turn-encode :
    (b : Slice)
    → IsSlice b
    → (a : PathAttribute) (p : ℕ) (rest : List ℕ) → IsAttribute a
    → drop p b.mem ≡ encode_attribute a ++ rest
    → p + length (encode_attribute a) ≤ b.len
    → (attribute_turn b p ≡ ok (next a (p + length (encode_attribute a))))
      × (0 < length (encode_attribute a))
attribute_turn-encode b w a p rest h e n =
    let wide : Bool = is_extended a.flags in
    let size : length (encode_length wide a.length ++ a.attribute)
        ≡ length (encode_length wide a.length) + length a.attribute =
      length-append (encode_length wide a.length) a.attribute in
    (
      turn_at b w wide a.flags a.attribute_type a.length p a.attribute rest refl h e (omega arith)
          ∙ ap (λ (q : ℕ). ok (next a q)) (omega arith),
      omega arith,
    )

-- Read back where the width of the length is as `is_extended` says.
pub unmarshal_path_attributes-attributes :
    (xs : List PathAttribute) (rest : List ℕ)
    → All IsAttribute xs
    → unmarshal_path_attributes (record {
      len = length (encode_all encode_attribute xs);
      mem = encode_all encode_attribute xs ++ rest;
    })
      ≡ ok xs
unfolding unmarshal_path_attributes
unmarshal_path_attributes-attributes xs rest h =
    let code : List ℕ = encode_all encode_attribute xs in
    let b : Slice = record { len = length code; mem = code ++ rest } in
    scan-encode_all attribute_turn b encode_attribute IsAttribute
      (attribute_turn-encode b (omega (arith, length-append code rest))) xs (suc (length code)) 0
      rest h refl (omega arith) (omega arith)

-- RFC 4271: the fourth bit of the flags says whether the length takes two bytes.
abbrev pub encode_by_flags : PathAttribute → List ℕ
encode_by_flags a =
    a.flags
    ∷ a.attribute_type
    ∷ ((if a.flags / 16 % 2 == 1 then (a.length / 256) ∷ (a.length % 256) ∷ [] else a.length ∷ [])
        ++ a.attribute)

-- The flags are a byte, and the declared length is that of the value.
abbrev pub IsWire : PathAttribute → Type 0
IsWire a = (a.flags < 256) × IsAttribute a

encode_length_lem :
    (f l : ℕ)
    → f < 256
    → encode_length (is_extended f) l
      ≡ (if f / 16 % 2 == 1 then (l / 256) ∷ (l % 256) ∷ [] else l ∷ [])
unfolding is_extended
encode_length_lem f l h = rw (and_10 f h) (ground arith)

pub encode_all-by_flags :
    (xs : List PathAttribute)
    → All IsWire xs
    → encode_all encode_attribute xs ≡ encode_all encode_by_flags xs
encode_all-by_flags [] h = refl
encode_all-by_flags (x ∷ xs) ((f, n), hs) =
    rw (encode_length_lem x.flags x.length f, encode_all-by_flags xs hs)

pub wires-IsAttribute : (xs : List PathAttribute) → All IsWire xs → All IsAttribute xs
wires-IsAttribute [] h = tt
wires-IsAttribute (x ∷ xs) (h, hs) = (h.1, wires-IsAttribute xs hs)

-- Path attributes whose flags are bytes, with the lengths of their values, are read back in order,
-- whatever follows the slice in memory: each is written with a length of two bytes if the bit 0x10 of its
-- flags is set, and of one byte if not.
pub unmarshal_path_attributes-encode :
    (xs : List PathAttribute) (rest : List ℕ)
    → All IsWire xs
    → unmarshal_path_attributes (record {
      len = length (encode_all encode_by_flags xs);
      mem = encode_all encode_by_flags xs ++ rest;
    })
      ≡ ok xs
unmarshal_path_attributes-encode xs rest h =
    rw (← encode_all-by_flags xs h)
      (unmarshal_path_attributes-attributes xs rest (wires-IsAttribute xs h))
