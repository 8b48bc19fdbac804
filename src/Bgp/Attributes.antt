-- ===== src/Bgp/Attributes.antt =====
-- pkg/bgp/bgp-base-attributes.go and large-community.go: the attributes that every update may carry.
-- The text of an address, of a number and of an extended community, and the hash, are parameters.
pub mod Equality
pub mod Traversal
pub mod Values
pub mod Meaning
pub mod Samples
mod Tests
use Prim.Native.String.{String}
use gobmp.Prelude.{
  ℕ, zero, suc, ◌+◌, ◌*◌, ◌/◌, ◌%◌, ◌^◌, Bool, true, false, not, List, [], ◌∷◌, map, length, ltb,
  ◌==◌, if◌then◌else◌,
}
use gobmp.Go.{
  nil_on_error, Error, bad_length, Res, ok, err, panic, spin, ◌>>=◌, ◌>>◌, fail_if, Slice, bytes,
  be32, index, slice, uint16_at, uint32_at, copy_at,
}
use gobmp.Go.Scan.{Turn, next, scan}
use gobmp.Bgp.AsPath.{unmarshal_as_path, unmarshal_as4_path}
use gobmp.Bgp.Texts.{Texts, ◌<>◌}
use gobmp.Bgp.ExtCommunity.Text.{unmarshal_attr_ext_community}
use gobmp.Bgp.PathAttribute.{is_extended}

-- `hash` stands for `BaseAttrHash`, the rest of the fields for the source's of these names.
pub record BaseAttributes : Type 0 where
  pub hash : String
  pub origin : String
  pub as_path : List ℕ
  pub as_path_count : ℕ
  pub nexthop : String
  pub med : ℕ
  pub local_pref : ℕ
  pub is_atomic_agg : Bool
  pub aggregator : List ℕ
  pub community_list : List String
  pub originator_id : String
  pub cluster_list : String
  pub ext_community_list : List String
  pub as4_path : List ℕ
  pub as4_path_count : ℕ
  pub as4_aggregator : List ℕ
  pub tunnel_encap_attr : List ℕ
  pub lg_community_list : List String

-- `BaseAttributes{}`
abbrev pub no_attributes : BaseAttributes
no_attributes = record {
  hash = "";
  origin = "";
  as_path = [];
  as_path_count = 0;
  nexthop = "";
  med = 0;
  local_pref = 0;
  is_atomic_agg = false;
  aggregator = [];
  community_list = [];
  originator_id = "";
  cluster_list = "";
  ext_community_list = [];
  as4_path = [];
  as4_path_count = 0;
  as4_aggregator = [];
  tunnel_encap_attr = [];
  lg_community_list = [];
}

-- `unmarshalAttrOrigin`
unfoldable pub unmarshal_origin : Slice → Res String
unmarshal_origin b = do
  x ← index b 0
  ok (if x == 0 then "igp" else if x == 1 then "egp" else if x == 2 then "incomplete" else "")

-- `unmarshalAttrMED` and `unmarshalAttrLocalPref`, which are the same.
unfoldable pub unmarshal_number : Slice → Res ℕ
unmarshal_number b = if not (b.len == 4) then ok 0 else be32 (bytes b)

-- One turn of `getCommunity`.
community_turn : Slice → ℕ → Res (Turn ℕ)
community_turn b p = do c ← uint32_at b p; ok (next c (p + 4))

pub get_community : Slice → Res (List ℕ)
get_community b = scan community_turn (suc b.len) b 0

-- One turn of `getClusterID`.
cluster_turn : Slice → ℕ → Res (Turn (List ℕ))
cluster_turn b p = do c ← copy_at b p 4; ok (next c (p + 4))

pub get_cluster_id : Slice → Res (List (List ℕ))
get_cluster_id b = scan cluster_turn (suc b.len) b 0

pub record LgCommunity : Type 0 where
  pub global_admin : ℕ
  pub local_data1 : ℕ
  pub local_data2 : ℕ

pub make_lg_community : Slice → Res LgCommunity
make_lg_community b = do
  fail_if (not (b.len == 12)) bad_length
  g ← uint32_at b 0
  x ← uint32_at b 4
  y ← uint32_at b 8
  ok (record { global_admin = g; local_data1 = x; local_data2 = y })

-- One turn of `UnmarshalBGPLgCommunity`.
lg_community_turn : Slice → ℕ → Res (Turn LgCommunity)
lg_community_turn b p = do s ← slice b p (p + 12); lg ← make_lg_community s; ok (next lg (p + 12))

pub unmarshal_lg_community : Slice → Res (List LgCommunity)
unmarshal_lg_community b = scan lg_community_turn (suc b.len) b 0

-- What the decoder takes from outside: the texts, and the MD5 of the JSON of the attributes.
pub record Formats : Type 0 where
  pub texts : Texts
  pub digest : BaseAttributes → String

module _ (fmt : Formats) where
  pub unmarshal_next_hop : Slice → String
  unmarshal_next_hop b = if b.len == 4 then fmt.texts.ip4 (bytes b) else fmt.texts.ip16 (bytes b)

  -- `0xffff0000&c >> 16` and `0xffff&c`
  pub community_text : ℕ → String
  community_text c =
      fmt.texts.decimal (c / 2 ^ 16 % 2 ^ 16) <> ":" <> fmt.texts.decimal (c % 2 ^ 16)

  pub unmarshal_community : Slice → Res (List String)
  unmarshal_community b = do cs ← get_community b; ok (map community_text cs)

  pub unmarshal_originator_id : Slice → String
  unmarshal_originator_id b = if b.len == 4 then fmt.texts.ip4 (bytes b) else "invalid length"

  -- The texts, with ", " between two.
  pub cluster_text : List (List ℕ) → String
  cluster_text [] = ""
  cluster_text (c ∷ []) = fmt.texts.ip4 c
  cluster_text (c ∷ (d ∷ cs)) = fmt.texts.ip4 c <> ", " <> cluster_text (d ∷ cs)

  pub unmarshal_cluster_list : Slice → Res String
  unmarshal_cluster_list b = do cs ← get_cluster_id b; ok (cluster_text cs)

  pub lg_community_text : LgCommunity → String
  lg_community_text lg =
      fmt.texts.decimal lg.global_admin
      <> ":"
      <> fmt.texts.decimal lg.local_data1
      <> ":"
      <> fmt.texts.decimal lg.local_data2

  pub unmarshal_attr_lg_community : Slice → Res (List String)
  unmarshal_attr_lg_community b = do
    lgs ← nil_on_error (unmarshal_lg_community b)
    ok (map lg_community_text lgs)

  -- The `switch t` of the loop; `s` is `b[p : p+int(l)]`, which only the cases that use it slice.
  unfoldable pub set_attribute : ℕ → Res Slice → BaseAttributes → Res BaseAttributes
  set_attribute t s a =
      if t == 1
      then (do b ← s; x ← unmarshal_origin b; ok (record a { origin = x }))
      else if t == 2
      then (do
        b ← s
        x ← unmarshal_as_path b
        ok (record a { as_path = x; as_path_count = length x }))
      else if t == 3
      then (do b ← s; ok (record a { nexthop = unmarshal_next_hop b }))
      else if t == 4
      then (do b ← s; x ← unmarshal_number b; ok (record a { med = x }))
      else if t == 5
      then (do b ← s; x ← unmarshal_number b; ok (record a { local_pref = x }))
      else if t == 6
      then ok (record a { is_atomic_agg = true })
      else if t == 7
      then (do b ← s; ok (record a { aggregator = bytes b }))
      else if t == 8
      then (do b ← s; x ← unmarshal_community b; ok (record a { community_list = x }))
      else if t == 9
      then (do b ← s; ok (record a { originator_id = unmarshal_originator_id b }))
      else if t == 10
      then (do b ← s; x ← unmarshal_cluster_list b; ok (record a { cluster_list = x }))
      else if t == 16
      then (do
        b ← s
        x ← unmarshal_attr_ext_community fmt.texts b
        ok (record a { ext_community_list = x }))
      else if t == 17
      then (do
        b ← s
        x ← unmarshal_as4_path b
        ok (record a { as4_path = x; as4_path_count = length x }))
      else if t == 18
      then (do b ← s; ok (record a { as4_aggregator = bytes b }))
      else if t == 23
      then (do b ← s; ok (record a { tunnel_encap_attr = bytes b }))
      else if t == 32
      then (do b ← s; x ← unmarshal_attr_lg_community b; ok (record a { lg_community_list = x }))
      else ok a

  -- The header of an attribute at `p`: its type, its length and where its value begins.
  unfoldable pub attribute_header : Slice → ℕ → Res (ℕ × ℕ × ℕ)
  attribute_header b p = do
    f ← index b p
    t ← index b (p + 1)
    if is_extended f
        then (do l ← uint16_at b (p + 2); ok (t, l, p + 2 + 2))
        else (do l ← index b (p + 2); ok (t, l, p + 2 + 1))

  -- The loop of `UnmarshalBGPBaseAttributes`, over the attributes found so far.
  unfoldable pub attributes_from : ℕ → Slice → ℕ → BaseAttributes → Res BaseAttributes
  attributes_from zero b p a = spin
  attributes_from (suc fuel) b p a =
      let rest = (do
        (t, l, q) ← attribute_header b p
        a' ← set_attribute t (slice b q (q + l)) a
        attributes_from fuel b (q + l) a') in
      if ltb p b.len then rest else ok a

  unfoldable pub unmarshal_base_attributes : Slice → Res BaseAttributes
  unmarshal_base_attributes b = do
    a ← attributes_from (suc b.len) b 0 no_attributes
    ok (record a { hash = fmt.digest a })
