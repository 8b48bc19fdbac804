-- ===== src/Bgp/Open.antt =====
-- pkg/bgp/bgp-open.go, bgp-information-tlv.go and bgp-capability.go: the OPEN message.
mod Capability
pub mod AddPath
pub use Capability.{
  CapabilityData, Capabilities, no_capabilities, Parameter, capability, other, unmarshal_capability,
  unmarshal_bgp_tlv, copy_capability_map, capability_turn, parameter_turn,
}
use gobmp.Prelude.{
  ℕ, ◌+◌, Bool, true, false, not, List, [], ◌∷◌, Option, none, some, ltb, ◌==◌, if◌then◌else◌,
}
use gobmp.Go.{
  Error, bad_length, bad_open_type, bad_open_version, Res, ok, panic, ◌>>=◌, ◌>>◌, fail_if, Slice,
  be32, index, slice, uint16_at, copy_at,
}
use gobmp.Base.Tlv.{Tlv}
use gobmp.Bgp.Attributes.{Formats}

-- `length` and `hold_time` are int16 in the source: here their 16 bits.
pub record OpenMessage : Type 0 where
  pub length : ℕ
  pub message_type : ℕ
  pub version : ℕ
  pub my_as : ℕ
  pub hold_time : ℕ
  pub bgp_id : List ℕ
  pub opt_param_len : ℕ
  pub optional_parameters : List Tlv
  pub capabilities : Capabilities

pub unmarshal_open : Formats → Slice → Res OpenMessage
unmarshal_open fmt b = do
  fail_if (ltb b.len 13) bad_length
  l ← uint16_at b 0
  t ← index b 2
  fail_if (not (t == 1)) bad_open_type
  v ← index b 3
  fail_if (not (v == 4)) bad_open_version
  a ← uint16_at b 4
  h ← uint16_at b 6
  id ← copy_at b 8 4
  n ← index b 12
  (tlvs, caps) ←
      (if n == 0
        then ok ([], no_capabilities)
        else do s ← slice b 13 (13 + n); unmarshal_bgp_tlv fmt s)
  ok (record {
    length = l;
    message_type = t;
    version = v;
    my_as = a;
    hold_time = h;
    bgp_id = id;
    opt_param_len = n;
    optional_parameters = tlvs;
    capabilities = caps;
  })

-- `Is4BytesASCapable`; `v[0]` of an empty slice panics.
pub is_4bytes_as_capable : OpenMessage → Res (ℕ × Bool)
is_4bytes_as_capable o = elim (o.capabilities 65) [
  | none ↦ ok (0, false)
  | some vs ↦ elim vs [ [] ↦ panic | v ∷ r ↦ do a ← be32 v.value; ok (a, true) ]
]

-- `IsMultiLabelCapable`
pub is_multi_label_capable : OpenMessage → Bool
is_multi_label_capable o = elim (o.capabilities 8) [ none ↦ false | some vs ↦ true ]
