-- ===== src/PrefixSid.antt =====
-- pkg/prefixsid/prefixsid.go: the BGP attribute Prefix SID, and its search in
-- pkg/bgp/bgp-update.go (`GetAttrPrefixSID`).
pub mod Items
pub mod RoundTrip
mod Tests
use gobmp.Prelude.{
  ℕ, zero, suc, ◌+◌, ◌*◌, ◌/◌, ◌%◌, List, [], ◌∷◌, Option, none, some, ◌==◌, if◌then◌else◌,
}
use gobmp.Go.{
  not_found, Res, ok, err, ◌>>=◌, Slice, index, slice, uint16_at, uint32_at, copy_at, be32, padded,
  of_list,
}
use gobmp.Go.Scan.{Turn, next, scan}
use gobmp.Bgp.Texts.{Texts}
use gobmp.Bgp.PathAttribute.{PathAttribute}
use gobmp.Bgp.Update.{Update}
use gobmp.Srv6.{TypeMap, SubTlv, unmarshal_l3_service}

pub record LabelIndex : Type 0 where
  pub tlv_type : ℕ
  pub length : ℕ
  pub flags : ℕ
  pub label_index : ℕ

pub record Srgb : Type 0 where
  pub first : ℕ
  pub number : ℕ

pub record OriginatorSrgb : Type 0 where
  pub tlv_type : ℕ
  pub length : ℕ
  pub flags : ℕ
  pub srgb : List Srgb

-- `SRv6L2Service` is never set.
pub record PSid : Type 0 where
  pub label_index : Option LabelIndex
  pub originator_srgb : Option OriginatorSrgb
  pub srv6_l3_service : Option (TypeMap SubTlv)

-- What one turn of the loop stores.
pub data Item : Type 0 where
  label : LabelIndex → Item
  originator : OriginatorSrgb → Item
  l3_service : TypeMap SubTlv → Item
  skipped : Item

pub store : PSid → Item → PSid
store s (label x) = record s { label_index = some x }
store s (originator x) = record s { originator_srgb = some x }
store s (l3_service m) = record s { srv6_l3_service = some m }
store s skipped = s

pub store_all : PSid → List Item → PSid
store_all s [] = s
store_all s (i ∷ is) = store_all (store s i) is

-- `t := make([]byte, 4); copy(t, b[p:p+3])`, read as a number of four bytes.
pub block_number : Slice → ℕ → Res ℕ
block_number b p = do t ← copy_at b p 3; be32 (padded 4 t)

-- The blocks that are counted, from `p` on.
pub srgb_at : ℕ → Slice → ℕ → Res (List Srgb)
srgb_at zero b p = ok []
srgb_at (suc n) b p = do
  f ← block_number b p
  k ← block_number b (p + 3)
  xs ← srgb_at n b (p + 3 + 3)
  ok ((record { first = f; number = k }) ∷ xs)

-- `int(Length-2)/6`, in 16 bits.
abbrev pub block_count : ℕ → ℕ
block_count l = (l + 65534) % 65536 / 6

-- The branches of the switch on the type; each moves behind its bytes. The type of an originator is
-- stored as 1.
pub label_turn : Slice → ℕ → Res (Turn Item)
label_turn b p = do
  l ← uint16_at b (p + 1)
  f ← uint16_at b (p + 1 + 2 + 1)
  n ← uint32_at b (p + 1 + 2 + 1 + 2)
  ok (
      next (label (record { tlv_type = 1; length = l; flags = f; label_index = n }))
        (p + 1 + 2 + 1 + 2 + 4))

pub originator_turn : Slice → ℕ → Res (Turn Item)
originator_turn b p = do
  l ← uint16_at b (p + 1)
  f ← uint16_at b (p + 1 + 2)
  xs ← srgb_at (block_count l) b (p + 1 + 2 + 2)
  ok (
      next (originator (record { tlv_type = 1; length = l; flags = f; srgb = xs }))
        (p + 1 + 2 + 2 + block_count l * 6))

module _ (texts : Texts) where
  pub service_turn : Slice → ℕ → Res (Turn Item)
  service_turn b p = do
    l ← uint16_at b (p + 1)
    s ← slice b (p + 1 + 2) (p + 1 + 2 + l)
    m ← unmarshal_l3_service texts s
    ok (next (l3_service m) (p + 1 + 2 + l))

  pub item_turn : Slice → ℕ → Res (Turn Item)
  item_turn b p = do
    t ← index b p
    if t == 1
        then label_turn b p
        else if t == 3
        then originator_turn b p
        else if t == 5
        then service_turn b p
        else (do l ← uint16_at b (p + 1); ok (next skipped (p + 1 + l + 2)))

  pub unmarshal_prefix_sid : Slice → Res PSid
  unmarshal_prefix_sid b = do
    is ← scan item_turn (suc b.len) b 0
    ok (
        store_all (record { label_index = none; originator_srgb = none; srv6_l3_service = none })
          is)

  -- The first attribute of type 40.
  unfoldable pub prefix_sid_of : List PathAttribute → Res PSid
  prefix_sid_of [] = err not_found
  prefix_sid_of (a ∷ attrs) =
      if a.attribute_type == 40
      then unmarshal_prefix_sid (of_list a.attribute)
      else prefix_sid_of attrs

  unfoldable pub get_attr_prefix_sid : Update → Res PSid
  get_attr_prefix_sid u = prefix_sid_of u.path_attributes
