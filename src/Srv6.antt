-- ===== src/Srv6.antt =====
-- pkg/srv6/srv6-l3-service.go: the SRv6 L3 service of a prefix, with its sub TLVs and their sub TLVs.
pub mod ByType
pub mod SubSub
pub mod RoundTrip
mod Tests
use Prim.Native.String.{String}
use gobmp.Prelude.{ℕ, suc, ◌+◌, List, [], ◌∷◌, ◌++◌, Option, none, some, ltb, ◌==◌, if◌then◌else◌}
use gobmp.Go.{Res, ok, ◌>>=◌, Slice, index, slice, slice_from, uint16_at, copy_at}
use gobmp.Go.Scan.{Turn, next, scan}
use gobmp.Bgp.Texts.{Texts}

-- `SIDStructureSubSubTLV`
pub record SidStructure : Type 0 where
  pub local_block_length : ℕ
  pub local_node_length : ℕ
  pub function_length : ℕ
  pub argument_length : ℕ
  pub transposition_length : ℕ
  pub transposition_offset : ℕ

-- `SvcSubSubTLV`, an empty interface: what the decoder puts into it.
pub data SubSubTlv : Type 0 where
  sid_structure : SidStructure → SubSubTlv
  raw : List ℕ → SubSubTlv

-- `map[uint8][]T`: the values of a type, in the order of reading.
abbrev pub TypeMap : Type 0 → Type 0
TypeMap T = ℕ → List T

pub append_all : {T : Type 0} → TypeMap T → List (ℕ × T) → TypeMap T
append_all m [] = m
append_all m ((t, s) ∷ es) = append_all (λ k. if k == t then m t ++ (s ∷ []) else m k) es

pub record Information : Type 0 where
  pub sid : String
  pub flags : ℕ
  pub endpoint_behavior : ℕ
  pub sub_sub_tlvs : Option (TypeMap SubSubTlv)

pub data SubTlv : Type 0 where
  information : Information → SubTlv
  raw_sub : List ℕ → SubTlv

pub unmarshal_sid_structure : Slice → Res SidStructure
unmarshal_sid_structure b = do
  block ← index b 0
  node ← index b 1
  function ← index b 2
  argument ← index b 3
  size ← index b 4
  offset ← index b 5
  ok (record {
    local_block_length = block;
    local_node_length = node;
    function_length = function;
    argument_length = argument;
    transposition_length = size;
    transposition_offset = offset;
  })

-- The switch on the type, for the `l` bytes from `p` on.
pub sub_sub_value : ℕ → ℕ → Slice → ℕ → Res SubSubTlv
sub_sub_value t l b p =
    if t == 1
    then (do s ← slice b p (p + l); x ← unmarshal_sid_structure s; ok (sid_structure x))
    else (do v ← copy_at b p l; ok (raw v))

-- One turn of the loops of `UnmarshalSRv6L3ServiceSubTLV` and `UnmarshalSRv6L3ServiceSubSubTLV`, which
-- are the same up to the switch on the type.
pub typed_turn : {T : Type 0} → (ℕ → ℕ → Slice → ℕ → Res T) → Slice → ℕ → Res (Turn (ℕ × T))
typed_turn value b p = do
  t ← index b p
  l ← uint16_at b (p + 1)
  s ← value t l b (p + 1 + 2)
  ok (next (t, s) (p + 1 + 2 + l))

-- The loop begins behind a reserved byte.
pub unmarshal_sub_sub_tlv : Slice → Res (TypeMap SubSubTlv)
unmarshal_sub_sub_tlv b = do
  es ← scan (typed_turn sub_sub_value) (suc b.len) b 1
  ok (append_all (λ k. []) es)

-- `if p < len(b)`: what is left of the bytes, if anything, are sub-sub TLVs.
pub sub_sub_tlvs_at : Slice → ℕ → Res (Option (TypeMap SubSubTlv))
sub_sub_tlvs_at b p =
    if ltb p b.len
    then (do s ← slice_from b p; m ← unmarshal_sub_sub_tlv s; ok (some m))
    else ok none

module _ (texts : Texts) where
  pub unmarshal_information : Slice → Res Information
  unmarshal_information b = do
    sid ← copy_at b 1 16
    flags ← index b 17
    behavior ← uint16_at b 18
    subs ← sub_sub_tlvs_at b 20
    ok (record {
      sid = texts.ip16 sid;
      flags = flags;
      endpoint_behavior = behavior;
      sub_sub_tlvs = subs;
    })

  pub sub_value : ℕ → ℕ → Slice → ℕ → Res SubTlv
  sub_value t l b p =
      if t == 1
      then (do s ← slice b p (p + l); x ← unmarshal_information s; ok (information x))
      else (do v ← copy_at b p l; ok (raw_sub v))

  pub unmarshal_sub_tlv : Slice → Res (TypeMap SubTlv)
  unmarshal_sub_tlv b = do
    es ← scan (typed_turn sub_value) (suc b.len) b 0
    ok (append_all (λ k. []) es)

  -- `UnmarshalSRv6L3Service`: the service is its sub TLVs, behind a reserved byte.
  pub unmarshal_l3_service : Slice → Res (TypeMap SubTlv)
  unmarshal_l3_service b = do s ← slice_from b 1; unmarshal_sub_tlv s
