-- ===== src/Bgp/Update/RoundTrip.antt =====
-- The UPDATE decoder against the layout of RFC 4271.
use gobmp.Prelude.{
  ℕ, ◌+◌, ◌*◌, ◌/◌, ◌%◌, ◌++◌, ◌≡◌, refl, List, [], ◌∷◌, length, arith, All, length-append,
  take-append,
}
use gobmp.Go.{ok, Slice}
use gobmp.Go.Reads.{uint16_at-drop, copy_at_sized, drop_parts, slice-drop, slice_from-drop}
use gobmp.Go.Scan.{encode_all}
use gobmp.Bgp.PathAttribute.{PathAttribute}
use gobmp.Bgp.PathAttribute.RoundTrip.{
  encode_attribute, IsAttribute, unmarshal_path_attributes-attributes,
}
use gobmp.Bgp.Attributes.{BaseAttributes, Formats, unmarshal_base_attributes}
use gobmp.Bgp.Update.{unmarshal_update}

abbrev encode16 : ℕ → List ℕ
encode16 n = (n / 256) ∷ (n % 256) ∷ []

-- Withdrawn routes, path attributes and NLRI, the first two behind their lengths.
abbrev pub encode_update : List ℕ → List PathAttribute → List ℕ → List ℕ
encode_update withdrawn attrs nlri =
    encode16 (length withdrawn)
    ++ (withdrawn
        ++ (encode16 (length (encode_all encode_attribute attrs))
            ++ (encode_all encode_attribute attrs ++ nlri)))

-- An UPDATE, its path attributes with the lengths of their values, is read back field by field:
-- the withdrawn routes, the path attributes in order and the NLRI, whatever follows in memory.
-- Where the decoder of the base attributes succeeds on the bytes of the path attributes, they are
-- its result.
pub unmarshal_update-encode :
    (fmt : Formats) (withdrawn nlri rest : List ℕ) (attrs : List PathAttribute)
    (base : BaseAttributes)
    → All IsAttribute attrs
    → unmarshal_base_attributes fmt (record {
      len = length (encode_all encode_attribute attrs);
      mem = encode_all encode_attribute attrs ++ (nlri ++ rest);
    })
      ≡ ok base
    → unmarshal_update fmt (record {
      len = length (encode_update withdrawn attrs nlri);
      mem = encode_update withdrawn attrs nlri ++ rest;
    })
      ≡ ok (record {
        withdrawn_routes_length = length withdrawn;
        withdrawn_routes = withdrawn;
        total_path_attribute_length = length (encode_all encode_attribute attrs);
        path_attributes = attrs;
        nlri = nlri;
        base_attributes = base;
      })
unfolding unmarshal_update
unmarshal_update-encode fmt withdrawn nlri rest attrs base h hb =
    let code : List ℕ = encode_all encode_attribute attrs in
    let whole : List ℕ = encode_update withdrawn attrs nlri in
    let b : Slice = record { len = length whole; mem = whole ++ rest } in
    let w : ℕ = length withdrawn in
    let t : ℕ = length code in
    let w16 : w / 256 * 256 + w % 256 ≡ w = omega arith in
    let t16 : t / 256 * 256 + t % 256 ≡ t = omega arith in
    let (at0, at2) = drop_parts b.mem 0 2 (encode16 w) _ rest refl refl in
    let (wd, atw) = drop_parts b.mem 2 w withdrawn _ rest at2 refl in
    let (tl, att) = drop_parts b.mem (2 + w) 2 (encode16 t) _ rest atw refl in
    let (as', atn) = drop_parts b.mem (2 + w + 2) t code nlri rest att refl in
    let size : length whole ≡ 2 + w + 2 + t + length nlri =
      omega
        (arith, length-append withdrawn (encode16 t ++ (code ++ nlri)), length-append code nlri) in
    let room : length (whole ++ rest) ≡ length whole + length rest = length-append whole rest in
    rw (
      uint16_at-drop b 0 _ _ _ at0,
      w16,
      copy_at_sized b 2 w withdrawn _ refl wd (omega arith),
      uint16_at-drop b (2 + w) _ _ _ tl,
      t16,
      slice-drop b (2 + w + 2) code (nlri ++ rest) as' (omega arith),
      unmarshal_path_attributes-attributes attrs (nlri ++ rest) h,
      hb,
      slice_from-drop b (2 + w + 2 + t) nlri rest atn (omega arith),
      take-append nlri rest,
    )
