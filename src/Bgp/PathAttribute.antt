-- ===== src/Bgp/PathAttribute.antt =====
-- pkg/bgp/bgp-path-attribute.go, and the queries of pkg/bgp/bgp-update.go on a list of attributes.
pub mod RoundTrip
pub mod Queries
mod Tests
use gobmp.Prelude.{
  ℕ, zero, suc, ◌+◌, Bool, true, false, List, [], ◌∷◌, bit_and, ◌==◌, if◌then◌else◌,
}
use gobmp.Go.{Res, ok, ◌>>=◌, Slice, index, uint16_at, copy_at}
use gobmp.Go.Scan.{Turn, next, scan}

pub record PathAttribute : Type 0 where
  pub flags : ℕ
  pub attribute_type : ℕ
  pub length : ℕ
  pub attribute : List ℕ

-- `f&0x10 == 0x10`: the length takes two bytes.
unfoldable pub is_extended : ℕ → Bool
is_extended f = bit_and f 0x10 == 0x10

attribute_value : Slice → ℕ → ℕ → ℕ → ℕ → Res (Turn PathAttribute)
attribute_value b f t l p = do
  v ← copy_at b p l
  ok (next (record { flags = f; attribute_type = t; length = l; attribute = v }) (p + l))

-- One turn of the loop of `UnmarshalBGPPathAttributes`.
pub attribute_turn : Slice → ℕ → Res (Turn PathAttribute)
attribute_turn b p = do
  f ← index b p
  t ← index b (p + 1)
  if is_extended f
      then (do l ← uint16_at b (p + 2); attribute_value b f t l (p + 2 + 2))
      else (do l ← index b (p + 2); attribute_value b f t l (p + 2 + 1))

pub unmarshal_path_attributes : Slice → Res (List PathAttribute)
unmarshal_path_attributes b = scan attribute_turn (suc b.len) b 0

-- `GetAllAttributeID`
pub get_all_attribute_id : List PathAttribute → List ℕ
get_all_attribute_id [] = []
get_all_attribute_id (a ∷ attrs) = a.attribute_type ∷ get_all_attribute_id attrs

-- `HasPrefixSID`
unfoldable pub has_prefix_sid : List PathAttribute → Bool
has_prefix_sid [] = false
has_prefix_sid (a ∷ attrs) = if a.attribute_type == 40 then true else has_prefix_sid attrs

abbrev pub mp_reach : ℕ
mp_reach = 14

abbrev pub mp_unreach : ℕ
mp_unreach = 15

abbrev pub bgp4 : ℕ
bgp4 = 0

-- The loop of `GetNLRIType`, with the index of the next attribute.
unfoldable pub nlri_type_from : ℕ → List PathAttribute → ℕ × ℕ
nlri_type_from i [] = (bgp4, 0)
nlri_type_from i (a ∷ attrs) =
    let rest = nlri_type_from (i + 1) attrs in
    if a.attribute_type == mp_reach
    then (mp_reach, i)
    else if a.attribute_type == mp_unreach
    then (mp_unreach, i)
    else rest

unfoldable pub get_nlri_type : List PathAttribute → ℕ × ℕ
get_nlri_type attrs = nlri_type_from 0 attrs
