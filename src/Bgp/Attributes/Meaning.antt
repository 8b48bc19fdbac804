-- ===== src/Bgp/Attributes/Meaning.antt =====
-- What each path attribute says, by its type and the layout of its value, and the attributes that a list
-- of them comes to.
use Prim.Native.String.{String}
use gobmp.Prelude.{
  ℕ, zero, suc, ◌≤◌, ◌<◌, ◌++◌, ◌≡◌, ◌≢◌, ◌⊎◌, refl, ◌∙◌, Bool, true, false, List, [], ◌∷◌, length,
  map, arith, ne→==, All, take-append, take-append_of, ◌==◌, if◌then◌else◌,
}
use gobmp.Go.{Res, ok, Slice, index}
use gobmp.Go.Scan.{encode_all}
use gobmp.Bgp.AsPath.Segments.{
  Segment, encode_segment, all_numbers, unmarshal_as_path_one_segment, unmarshal_as_path_empty,
  unmarshal_as4_path-encode,
}
use gobmp.Bgp.PathAttribute.{PathAttribute}
use gobmp.Bgp.PathAttribute.RoundTrip.{
  encode_attribute, encode_by_flags, IsWire, encode_all-by_flags, wires-IsAttribute,
}
use gobmp.Bgp.Attributes.{
  BaseAttributes, no_attributes, Formats, LgCommunity, set_attribute, unmarshal_base_attributes,
  unmarshal_origin, unmarshal_next_hop, unmarshal_number, unmarshal_originator_id,
}
use gobmp.Bgp.Attributes.Values.{
  encode32, whole32, encode_pair, IsPair, pair_text, unmarshal_community-encode, IsCluster, commas,
  unmarshal_cluster_list-encode, encode_lg, lg_text, unmarshal_attr_lg_community-encode,
}
use gobmp.Bgp.Attributes.Traversal.{set_all, unmarshal_base_attributes-encode}

-- What an attribute says. An AS_PATH is empty or one segment of one number at least, in two bytes or four.
pub data Value : Type 0 where
  origin_code med_number pref_number : ℕ → Value
  empty_path atomic : Value
  path_segment : Bool → ℕ → ℕ → List ℕ → Value
  hop4 hop16 aggregator_bytes originator aggregator4_bytes tunnel_bytes : List ℕ → Value
  community_pairs : List (ℕ × ℕ) → Value
  clusters : List (List ℕ) → Value
  path4 : List Segment → Value
  large_communities : List LgCommunity → Value
  unknown : ℕ → List ℕ → Value

abbrev pub type_of : Value → ℕ
type_of (origin_code c) = 1
type_of empty_path = 2
type_of (path_segment four t a xs) = 2
type_of (hop4 v) = 3
type_of (hop16 v) = 3
type_of (med_number n) = 4
type_of (pref_number n) = 5
type_of atomic = 6
type_of (aggregator_bytes v) = 7
type_of (community_pairs cs) = 8
type_of (originator v) = 9
type_of (clusters cs) = 10
type_of (path4 ss) = 17
type_of (aggregator4_bytes v) = 18
type_of (tunnel_bytes v) = 23
type_of (large_communities gs) = 32
type_of (unknown t v) = t

abbrev pub encode_value : Value → List ℕ
encode_value (origin_code c) = c ∷ []
encode_value empty_path = []
encode_value (path_segment four t a xs) =
    encode_segment four (record { segment_type = t; numbers = a ∷ xs })
encode_value (hop4 v) = v
encode_value (hop16 v) = v
encode_value (med_number n) = encode32 n
encode_value (pref_number n) = encode32 n
encode_value atomic = []
encode_value (aggregator_bytes v) = v
encode_value (community_pairs cs) = encode_all encode_pair cs
encode_value (originator v) = v
encode_value (clusters cs) = encode_all (λ c. c) cs
encode_value (path4 ss) = encode_all (encode_segment true) ss
encode_value (aggregator4_bytes v) = v
encode_value (tunnel_bytes v) = v
encode_value (large_communities gs) = encode_all encode_lg gs
encode_value (unknown t v) = v

-- A type that the decoder does not keep.
pub record IsUnknown (t : ℕ) : Type 0 where
  pub below : (t ≡ 0) ⊎ (10 < t)
  pub not_16 : t ≢ 16
  pub not_17 : t ≢ 17
  pub not_18 : t ≢ 18
  pub not_23 : t ≢ 23
  pub not_32 : t ≢ 32

abbrev pub IsValue : Value → Type 0
IsValue (origin_code c) = Unit
IsValue empty_path = Unit
IsValue (path_segment four t a xs) = Unit
IsValue (hop4 v) = length v ≡ 4
IsValue (hop16 v) = length v ≡ 16
IsValue (med_number n) = Unit
IsValue (pref_number n) = Unit
IsValue atomic = Unit
IsValue (aggregator_bytes v) = Unit
IsValue (community_pairs cs) = All IsPair cs
IsValue (originator v) = length v ≡ 4
IsValue (clusters cs) = All IsCluster cs
IsValue (path4 ss) = Unit
IsValue (aggregator4_bytes v) = Unit
IsValue (tunnel_bytes v) = Unit
IsValue (large_communities gs) = Unit
IsValue (unknown t v) = IsUnknown t

abbrev pub origin_text : ℕ → String
origin_text zero = "igp"
origin_text (suc zero) = "egp"
origin_text (suc (suc zero)) = "incomplete"
origin_text (suc (suc (suc n))) = ""

-- The attributes with what a value says.
abbrev pub says : Formats → Value → BaseAttributes → BaseAttributes
says fmt (origin_code c) a = record a { origin = origin_text c }
says fmt empty_path a = record a { as_path = []; as_path_count = 0 }
says fmt (path_segment four t n xs) a = record a {
  as_path = n ∷ xs;
  as_path_count = suc (length xs);
}
says fmt (hop4 v) a = record a { nexthop = fmt.texts.ip4 v }
says fmt (hop16 v) a = record a { nexthop = fmt.texts.ip16 v }
says fmt (med_number n) a = record a { med = n }
says fmt (pref_number n) a = record a { local_pref = n }
says fmt atomic a = record a { is_atomic_agg = true }
says fmt (aggregator_bytes v) a = record a { aggregator = v }
says fmt (community_pairs cs) a = record a { community_list = map (pair_text fmt) cs }
says fmt (originator v) a = record a { originator_id = fmt.texts.ip4 v }
says fmt (clusters cs) a = record a { cluster_list = commas (map fmt.texts.ip4 cs) }
says fmt (path4 ss) a = record a {
  as4_path = all_numbers ss;
  as4_path_count = length (all_numbers ss);
}
says fmt (aggregator4_bytes v) a = record a { as4_aggregator = v }
says fmt (tunnel_bytes v) a = record a { tunnel_encap_attr = v }
says fmt (large_communities gs) a = record a { lg_community_list = map (lg_text fmt) gs }
says fmt (unknown t v) a = a

abbrev pub told : Formats → List Value → BaseAttributes → BaseAttributes
told fmt [] a = a
told fmt (x ∷ xs) a = told fmt xs (says fmt x a)

origin_lem :
    (c : ℕ)
    → (if c == 0 then "igp" else if c == 1 then "egp" else if c == 2 then "incomplete" else "")
      ≡ origin_text c
origin_lem zero = refl
origin_lem (suc zero) = refl
origin_lem (suc (suc zero)) = refl
origin_lem (suc (suc (suc n))) = ground arith

not_below : (t : ℕ) → (t ≡ 0) ⊎ (10 < t) → (k : ℕ) → 0 < k → k ≤ 10 → (t == k) ≡ false
not_below t h k low high = ground arith

module _ (fmt : Formats) (rest : List ℕ) (a : BaseAttributes) where
  abbrev at : List ℕ → Res Slice
  at v = ok (record { len = length v; mem = v ++ rest })

  set_attribute-says :
      (x : Value)
      → IsValue x
      → set_attribute fmt (type_of x) (at (encode_value x)) a ≡ ok (says fmt x a)
  unfolding set_attribute unmarshal_origin unmarshal_next_hop unmarshal_number
      unmarshal_originator_id index
  set_attribute-says (origin_code c) h = rw (origin_lem c)
  set_attribute-says empty_path h = rw (unmarshal_as_path_empty rest)
  set_attribute-says (path_segment four t n xs) h =
      rw (unmarshal_as_path_one_segment four t n xs rest)
  set_attribute-says (hop4 v) h = rw (h, take-append_of 4 v rest h)
  set_attribute-says (hop16 v) h = rw (h, take-append_of 16 v rest h)
  set_attribute-says (med_number n) h = rw (whole32 n)
  set_attribute-says (pref_number n) h = rw (whole32 n)
  set_attribute-says atomic h = refl
  set_attribute-says (aggregator_bytes v) h = rw (take-append v rest)
  set_attribute-says (community_pairs cs) h = rw (unmarshal_community-encode fmt cs rest h)
  set_attribute-says (originator v) h = rw (h, take-append_of 4 v rest h)
  set_attribute-says (clusters cs) h = rw (unmarshal_cluster_list-encode fmt cs rest h)
  set_attribute-says (path4 ss) h = rw (unmarshal_as4_path-encode ss rest)
  set_attribute-says (aggregator4_bytes v) h = rw (take-append v rest)
  set_attribute-says (tunnel_bytes v) h = rw (take-append v rest)
  set_attribute-says (large_communities gs) h = rw (unmarshal_attr_lg_community-encode fmt gs rest)
  set_attribute-says (unknown t v) h =
      let far = not_below t h.below in
      rw (
        far 1 (omega arith) (omega arith),
        far 2 (omega arith) (omega arith),
        far 3 (omega arith) (omega arith),
        far 4 (omega arith) (omega arith),
        far 5 (omega arith) (omega arith),
        far 6 (omega arith) (omega arith),
        far 7 (omega arith) (omega arith),
        far 8 (omega arith) (omega arith),
        far 9 (omega arith) (omega arith),
        far 10 (omega arith) (omega arith),
        ne→== t 16 h.not_16,
        ne→== t 17 h.not_17,
        ne→== t 18 h.not_18,
        ne→== t 23 h.not_23,
        ne→== t 32 h.not_32,
      )

-- A value as an attribute with some flags.
abbrev pub attribute_of : ℕ × Value → PathAttribute
attribute_of (f, x) = record {
  flags = f;
  attribute_type = type_of x;
  length = length (encode_value x);
  attribute = encode_value x;
}

abbrev pub IsSaid : ℕ × Value → Type 0
IsSaid (f, x) = (f < 256) × IsValue x

abbrev pub values_of : List (ℕ × Value) → List Value
values_of xs = map (λ x. x.1) xs

abbrev pub said : Formats → List (ℕ × Value) → BaseAttributes
said fmt xs = told fmt (values_of xs) no_attributes

values-IsWire : (xs : List (ℕ × Value)) → All IsSaid xs → All IsWire (map attribute_of xs)
values-IsWire [] h = tt
values-IsWire ((f, x) ∷ xs) ((byte, h), hs) = ((byte, refl), values-IsWire xs hs)

set_all-told :
    (fmt : Formats) (xs : List (ℕ × Value)) (rest : List ℕ) (a : BaseAttributes)
    → All IsSaid xs
    → set_all fmt (map attribute_of xs) rest a ≡ ok (told fmt (values_of xs) a)
set_all-told fmt [] rest a h = refl
set_all-told fmt ((f, x) ∷ xs) rest a ((byte, h), hs) =
    rw (set_attribute-says fmt (encode_all encode_attribute (map attribute_of xs) ++ rest) a x h)
      (set_all-told fmt xs rest (says fmt x a) hs)

-- On path attributes whose flags are bytes, written one after the other with lengths of one byte or two as
-- their flags say, whatever follows the slice, the decoder comes to the attributes that their values say
-- one after the other, and to the hash of them. The values are origins, AS_PATHs that are empty or of one
-- segment of one number at least, next hops of four or sixteen bytes, MEDs, local preferences, the
-- atomic mark, aggregators, communities, originators of four bytes, clusters of four bytes each,
-- AS4_PATHs, AS4 aggregators, tunnels, large communities, and attributes of any type that is not kept;
-- extended communities are not among them.
pub unmarshal_base_attributes-told :
    (fmt : Formats) (xs : List (ℕ × Value)) (rest : List ℕ)
    → All IsSaid xs
    → unmarshal_base_attributes fmt (record {
      len = length (encode_all encode_by_flags (map attribute_of xs));
      mem = encode_all encode_by_flags (map attribute_of xs) ++ rest;
    })
      ≡ ok (record (said fmt xs) { hash = fmt.digest (said fmt xs) })
unmarshal_base_attributes-told fmt xs rest h =
    let wire = values-IsWire xs h in
    rw (← encode_all-by_flags (map attribute_of xs) wire) (
      unmarshal_base_attributes-encode fmt (map attribute_of xs) rest (wires-IsAttribute _ wire)
      ∙ rw (set_all-told fmt xs rest no_attributes h))
