-- ===== src/Bgp/Update.antt =====
-- `UnmarshalBGPUpdate` of pkg/bgp/bgp-update.go.
pub mod RoundTrip
mod Tests
use gobmp.Prelude.{ℕ, ◌+◌, List}
use gobmp.Go.{Res, ok, ◌>>=◌, Slice, bytes, slice, slice_from, uint16_at, copy_at}
use gobmp.Bgp.PathAttribute.{PathAttribute, unmarshal_path_attributes}
use gobmp.Bgp.Attributes.{BaseAttributes, Formats, unmarshal_base_attributes}

pub record Update : Type 0 where
  pub withdrawn_routes_length : ℕ
  pub withdrawn_routes : List ℕ
  pub total_path_attribute_length : ℕ
  pub path_attributes : List PathAttribute
  pub nlri : List ℕ
  pub base_attributes : BaseAttributes

pub unmarshal_update : Formats → Slice → Res Update
unmarshal_update fmt b = do
  w ← uint16_at b 0
  withdrawn ← copy_at b 2 w
  t ← uint16_at b (2 + w)
  a ← slice b (2 + w + 2) (2 + w + 2 + t)
  attrs ← unmarshal_path_attributes a
  base ← unmarshal_base_attributes fmt a
  rest ← slice_from b (2 + w + 2 + t)
  ok (record {
    withdrawn_routes_length = w;
    withdrawn_routes = withdrawn;
    total_path_attribute_length = t;
    path_attributes = attrs;
    nlri = bytes rest;
    base_attributes = base;
  })
