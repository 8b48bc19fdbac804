-- ===== src/Bgp/ExtCommunity/Text.antt =====
-- The texts of extended communities, by type.
pub mod Total
mod Tests
use Prim.Native.String.{String}
use gobmp.Prelude.{
  ℕ, zero, suc, ◌+◌, ◌-◌, ◌*◌, ◌%◌, ◌^◌, Bool, true, false, not, ◌||◌, List, [], ◌∷◌, ◌++◌, Option,
  none, some, length, ◌==◌, if◌then◌else◌,
}
use gobmp.Go.{
  Res, ok, ◌>>=◌, Slice, bytes, of_list, index, slice_from, be16, be32, uint16_at, uint32_at,
  copy_at, nil_on_error,
}
use gobmp.Bgp.Texts.{Texts, ◌<>◌}
use gobmp.Bgp.ExtCommunity.{ExtCommunity, sub_type_of, value_from, unmarshal_ext_community}
use gobmp.Bgp.ExtCommunity.Names.{
  get_sub_type, trans_as2, trans_ipv4, trans_as4, trans_opaque, evpn_sub_types, non_trans_as2,
  flowspec_sub_types,
}

-- `binary.BigEndian.Uint16(value[p:])` and `Uint32(value[p:])`
pub uint16_from : List ℕ → ℕ → Res ℕ
uint16_from v p = do s ← slice_from (of_list v) p; be16 (bytes s)

pub uint32_from : List ℕ → ℕ → Res ℕ
uint32_from v p = do s ← slice_from (of_list v) p; be32 (bytes s)

-- The hexadecimal bytes with ":" between two.
pub colon_hex : Texts → List ℕ → String
colon_hex t [] = ""
colon_hex t (x ∷ []) = t.hex_byte x
colon_hex t (x ∷ (y ∷ r)) = t.hex_byte x <> ":" <> colon_hex t (y ∷ r)

module _ (t : Texts) where
  pub pair : ℕ → ℕ → String
  pair a b = t.decimal a <> ":" <> t.decimal b

  pub type0 : ℕ → List ℕ → Res String
  type0 s v = do
    a ← uint16_at (of_list v) 0
    n ← uint32_from v 2
    ok (get_sub_type trans_as2 s <> pair a n)

  pub type1 : ℕ → List ℕ → Res String
  type1 s v = do
    a ← copy_at (of_list v) 0 4
    n ← uint16_from v 4
    ok (get_sub_type trans_ipv4 s <> t.ip4 a <> ":" <> t.decimal n)

  pub type2 : ℕ → List ℕ → Res String
  type2 s v = do
    a ← uint32_at (of_list v) 0
    n ← uint16_from v 4
    ok (get_sub_type trans_as4 s <> pair a n)

  pub type3 : ℕ → List ℕ → Res String
  type3 s v = do
    n ← (if s == 0xc then uint16_at (of_list v) 2 else uint32_at (of_list v) 0)
    ok (get_sub_type trans_opaque s <> t.decimal n)

  -- `l := make([]byte, 4); copy(l, value[3:])`
  pub type6 : ℕ → List ℕ → Res String
  type6 s v = do
    text ←
        (if s == 1
          then (do
            l ← value_from (of_list v) 3 4
            x ← index (of_list v) 0
            n ← be32 l
            ok (pair x n))
          else if s == 2 || s == 3
          then ok (colon_hex t v)
          else if s == 0
          then (do x ← index (of_list v) 0; n ← uint32_from v 2; ok (pair x n))
          else if s == 6
          then (do
            x ← index (of_list v) 0
            n ← uint16_from v 1
            ok (t.decimal x <> ":0x" <> t.hex4 n))
          else (do n ← uint32_at (of_list v) 0; ok (t.decimal n)))
    ok (get_sub_type evpn_sub_types s <> text)

  pub type8 : ℕ → List ℕ → Res String
  type8 s v = ok ("flowspec=" <> "redirect_to_ip_next_hop")

  pub type40 : ℕ → List ℕ → Res String
  type40 s v = do
    n ← uint32_at (of_list v) 0
    ok (get_sub_type non_trans_as2 s <> (if s == 4 then t.float n else t.decimal n))

  -- `if len(value) == 6 { ... } else { s = "invalid value length of %d" }`
  pub six_bytes : ℕ → List ℕ → Res String → Res String
  six_bytes s v text =
      let known = (do x ← text; ok (get_sub_type flowspec_sub_types s <> x)) in
      if length v == 6
      then known
      else ok
          (get_sub_type flowspec_sub_types s <> "invalid value length of " <> t.decimal (length v))

  pub type80 : ℕ → List ℕ → Res String
  type80 s v = six_bytes s v (
      if s == 6
      then (do
        a ← uint16_at (of_list v) 0
        f ← uint32_from v 2
        ok (
            "AS: "
            <> t.decimal a
            <> " Rate: "
            <> t.decimal (t.float_number f * 8 % 2 ^ 32)
            <> " bps"))
      else if s == 8
      then (do a ← uint16_at (of_list v) 0; n ← uint32_from v 2; ok (pair a n))
      else ok (t.message_hex v))

  pub type81 : ℕ → List ℕ → Res String
  type81 s v = six_bytes s v (
      if s == 8
      then (do a ← copy_at (of_list v) 0 4; n ← uint16_from v 4; ok (t.ip4 a <> ":" <> t.decimal n))
      else ok (t.message_hex v))

  pub type82 : ℕ → List ℕ → Res String
  type82 s v = six_bytes s v (
      if s == 8
      then (do a ← uint32_at (of_list v) 0; n ← uint16_from v 4; ok (pair a n))
      else ok (t.message_hex v))

  -- `String`: the function of the table `extComm`, or the text of an unknown type.
  pub ext_community_text : ExtCommunity → Res String
  ext_community_text e =
      let s = sub_type_of e in
      let k = e.ext_type in
      let v = e.value in
      if k == 0
      then type0 s v
      else if k == 1
      then type1 s v
      else if k == 2
      then type2 s v
      else if k == 3
      then type3 s v
      else if k == 6
      then type6 s v
      else if k == 8
      then type8 s v
      else if k == 0x40
      then type40 s v
      else if k == 0x80
      then type80 s v
      else if k == 0x81
      then type81 s v
      else if k == 0x82
      then type82 s v
      else ok (
          "unknown="
          <> "Type: "
          <> t.decimal k
          <> " Subtype: "
          <> t.decimal s
          <> " Value: "
          <> t.message_hex v)

  pub ext_community_texts : List ExtCommunity → Res (List String)
  ext_community_texts [] = ok []
  ext_community_texts (e ∷ es) = do
    x ← ext_community_text e
    xs ← ext_community_texts es
    ok (x ∷ xs)

  -- `unmarshalAttrExtCommunity`
  pub unmarshal_attr_ext_community : Slice → Res (List String)
  unmarshal_attr_ext_community b = do
    es ← nil_on_error (unmarshal_ext_community b)
    ext_community_texts es
