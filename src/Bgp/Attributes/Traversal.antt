-- ===== src/Bgp/Attributes/Traversal.antt =====
-- The loop of `UnmarshalBGPBaseAttributes` against the layout of path attributes.
use gobmp.Prelude.{
  ℕ, zero, suc, ◌+◌, ◌*◌, ◌/◌, ◌%◌, ◌≤◌, ◌<◌, ◌++◌, ◌≡◌, refl, ap, ◌∙◌, Bool, true, false, List, [],
  ◌∷◌, length, drop, arith, le→ltb, lt→ltb, length-append, All, append_assoc,
}
use gobmp.Go.{Res, ok, ◌>>=◌, Slice, IsSlice}
use gobmp.Go.Reads.{index-drop, uint16_at-drop, slice-drop, drop_over, >>=-cong}
use gobmp.Go.Scan.{encode_all}
use gobmp.Bgp.PathAttribute.{PathAttribute, is_extended}
use gobmp.Bgp.PathAttribute.RoundTrip.{encode_length, encode_attribute, IsAttribute}
use gobmp.Bgp.Attributes.{
  BaseAttributes, no_attributes, Formats, set_attribute, attribute_header, attributes_from,
  unmarshal_base_attributes,
}

header-encode :
    (fmt : Formats) (b : Slice) (wide : Bool) (f t l p : ℕ) (r : List ℕ)
    → is_extended f ≡ wide
    → drop p b.mem ≡ f ∷ t ∷ (encode_length wide l ++ r)
    → p + 2 + length (encode_length wide l) ≤ b.len
    → attribute_header fmt b p ≡ ok (t, l, p + 2 + length (encode_length wide l))
unfolding attribute_header
header-encode fmt b true f t l p r e at n =
    let at1 : drop (p + 1) b.mem ≡ t ∷ (l / 256) ∷ (l % 256) ∷ r =
      drop_over b.mem p (f ∷ []) _ at in
    let at2 : drop (p + 2) b.mem ≡ (l / 256) ∷ (l % 256) ∷ r =
      drop_over b.mem p (f ∷ t ∷ []) _ at in
    let whole : l / 256 * 256 + l % 256 ≡ l = omega arith in
    rw (
      index-drop b p f _ at (omega arith),
      index-drop b (p + 1) t _ at1 (omega arith),
      e,
      uint16_at-drop b (p + 2) _ _ _ at2,
      whole,
    )
header-encode fmt b false f t l p r e at n =
    let at1 : drop (p + 1) b.mem ≡ t ∷ l ∷ r = drop_over b.mem p (f ∷ []) _ at in
    let at2 : drop (p + 2) b.mem ≡ l ∷ r = drop_over b.mem p (f ∷ t ∷ []) _ at in
    rw (
      index-drop b p f _ at (omega arith),
      index-drop b (p + 1) t _ at1 (omega arith),
      e,
      index-drop b (p + 2) l r at2 (omega arith),
    )

-- Each attribute in order is handed to `set_attribute`, as a slice with all that follows in memory.
abbrev pub set_all : Formats → List PathAttribute → List ℕ → BaseAttributes → Res BaseAttributes
set_all fmt [] rest a = ok a
set_all fmt (x ∷ xs) rest a =
    set_attribute fmt x.attribute_type
      (ok (record {
        len = length x.attribute;
        mem = x.attribute ++ (encode_all encode_attribute xs ++ rest);
      }))
      a
    >>= set_all fmt xs rest

attributes_step :
    (fmt : Formats) (b : Slice) (t l q fuel p : ℕ) (v r : List ℕ) (a : BaseAttributes)
    → length v ≡ l
    → attribute_header fmt b p ≡ ok (t, l, q)
    → drop q b.mem ≡ v ++ r
    → p < b.len
    → q + length v ≤ length b.mem
    → attributes_from fmt (suc fuel) b p a ≡ (
        set_attribute fmt t (ok (record { len = length v; mem = v ++ r })) a
        >>= attributes_from fmt fuel b (q + length v))
unfolding attributes_from
attributes_step fmt b t l q fuel p v r a h header at inside fits =
    rw (lt→ltb p b.len inside, header, ← h, slice-drop b q v r at fits)

attributes_from-encode :
    (fmt : Formats) (b : Slice)
    → IsSlice b
    → (xs : List PathAttribute) (fuel p : ℕ) (rest : List ℕ) (a : BaseAttributes)
    → All IsAttribute xs
    → drop p b.mem ≡ encode_all encode_attribute xs ++ rest
    → b.len ≡ p + length (encode_all encode_attribute xs)
    → b.len < p + fuel
    → attributes_from fmt fuel b p a ≡ set_all fmt xs rest a
unfolding attributes_from
attributes_from-encode fmt b w xs zero p rest a h at size n = absurd (omega arith)
attributes_from-encode fmt b w [] (suc fuel) p rest a h at size n =
    rw (le→ltb p b.len (omega arith))
attributes_from-encode fmt b w (x ∷ xs) (suc fuel) p rest a (hx, hs) at size n =
    let head : List ℕ = encode_length (is_extended x.flags) x.length in
    let code : List ℕ = encode_all encode_attribute xs in
    let whole : length (encode_all encode_attribute (x ∷ xs))
        ≡ 2 + length head + length x.attribute + length code =
      omega (arith, length-append (encode_attribute x) code, length-append head x.attribute) in
    let at' : drop p b.mem
        ≡ x.flags ∷ x.attribute_type ∷ (head ++ (x.attribute ++ (code ++ rest))) =
      at
      ∙ append_assoc (encode_attribute x) code rest
      ∙ ap (λ (r : List ℕ). x.flags ∷ x.attribute_type ∷ r)
          (append_assoc head x.attribute (code ++ rest)) in
    let after_head : p + 2 + length head ≡ p + length (x.flags ∷ x.attribute_type ∷ head) =
      omega arith in
    let atq : drop (p + 2 + length head) b.mem ≡ x.attribute ++ (code ++ rest) =
      rw after_head (drop_over b.mem p (x.flags ∷ x.attribute_type ∷ head) _ at') in
    attributes_step fmt b x.attribute_type x.length _ fuel p x.attribute (code ++ rest) a hx
      (header-encode fmt b (is_extended x.flags) x.flags x.attribute_type x.length p _ refl at'
        (omega arith))
      atq (omega arith) (omega arith)
    ∙ >>=-cong _ _ _ (λ a'.
      attributes_from-encode fmt b w xs fuel (p + 2 + length head + length x.attribute) rest a' hs
        (drop_over b.mem (p + 2 + length head) x.attribute _ atq) (omega arith) (omega arith))

-- On path attributes with the lengths of their values, written one after the other, the decoder
-- does what `set_attribute` does for each in turn, by its type and its value, and hashes the
-- result: the errors and panics of the attributes included.
pub unmarshal_base_attributes-encode :
    (fmt : Formats) (xs : List PathAttribute) (rest : List ℕ)
    → All IsAttribute xs
    → unmarshal_base_attributes fmt (record {
      len = length (encode_all encode_attribute xs);
      mem = encode_all encode_attribute xs ++ rest;
    })
      ≡ (set_all fmt xs rest no_attributes >>= λ a. ok (record a { hash = fmt.digest a }))
unfolding unmarshal_base_attributes
unmarshal_base_attributes-encode fmt xs rest h =
    let code : List ℕ = encode_all encode_attribute xs in
    let b : Slice = record { len = length code; mem = code ++ rest } in
    ap (λ (r : Res BaseAttributes). r >>= λ a. ok (record a { hash = fmt.digest a }))
      (attributes_from-encode fmt b (omega (arith, length-append code rest)) xs (suc (length code))
        0 rest no_attributes h refl (omega arith) (omega arith))
