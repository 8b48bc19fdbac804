-- ===== src/Bgp/Open/Capability.antt =====
-- Capabilities and the other optional parameters of an OPEN message.
pub mod RoundTrip
mod Tests
use Prim.Native.String.{String}
use gobmp.Prelude.{ℕ, suc, ◌+◌, List, [], ◌∷◌, ◌++◌, Option, none, some, ◌==◌, if◌then◌else◌}
use gobmp.Go.{Res, ok, ◌>>=◌, Slice, index, slice, copy_at, of_list, uint16_at}
use gobmp.Go.Scan.{Turn, next, scan}
use gobmp.Base.Tlv.{Tlv}
use gobmp.Bgp.Attributes.{Formats}
use gobmp.Bgp.Texts.{◌<>◌}

pub record CapabilityData : Type 0 where
  pub value : List ℕ
  pub description : String

-- `map[uint8][]*CapabilityData`; `none` where the key is not there.
abbrev pub Capabilities : Type 0
Capabilities = ℕ → Option (List CapabilityData)

abbrev pub no_capabilities : Capabilities
no_capabilities k = none

abbrev pub or_empty {ℓ} : {A : Type ℓ} → Option (List A) → List A
or_empty none = []
or_empty (some xs) = xs

-- `BGPCapabilities`
pub capability_name : ℕ → Option String
capability_name c =
    if c == 1
    then some "Multiprotocol Extensions for BGP-4"
    else if c == 2
    then some "Route Refresh Capability for BGP-4"
    else if c == 3
    then some "Outbound Route Filtering Capability"
    else if c == 4
    then some "Multiple routes to a destination capability (deprecated)"
    else if c == 5
    then some "Extended Next Hop Encoding"
    else if c == 6
    then some "BGP Extended Message"
    else if c == 7
    then some "BGPsec Capability"
    else if c == 8
    then some "Multiple Labels Capability"
    else if c == 9
    then some "BGP Role (TEMPORARY)"
    else if c == 64
    then some "Graceful Restart Capability"
    else if c == 65
    then some "Support for 4-octet AS number capability"
    else if c == 67
    then some "Support for Dynamic Capability (capability specific)"
    else if c == 68
    then some "Multisession BGP Capability"
    else if c == 69
    then some "ADD-PATH Capability"
    else if c == 70
    then some "Enhanced Route Refresh Capability"
    else if c == 71
    then some "Long-Lived Graceful Restart (LLGR) Capability"
    else if c == 72
    then some "Routing Policy Distribution"
    else if c == 73
    then some "FQDN Capability"
    else if c == 128
    then some "Prestandard Route Refresh (deprecated)"
    else if c == 129
    then some "Prestandard Outbound Route Filtering (deprecated)"
    else if c == 130
    then some "Prestandard Outbound Route Filtering (deprecated)"
    else if c == 131
    then some "Prestandard Multisession (deprecated)"
    else if c == 184
    then some "Prestandard FQDN (deprecated)"
    else if c == 185
    then some "Prestandard OPERATIONAL message (deprecated)"
    else none

pub afi_text : ℕ → String
afi_text a =
    if a == 1 then "IPv4" else if a == 2 then "IPv6" else if a == 16388 then "BGP-LS" else ""

pub safi_text : ℕ → String
safi_text s =
    if s == 1
    then "Unicast"
    else if s == 2
    then "Multicast"
    else if s == 4
    then "MPLS Labels"
    else if s == 70
    then "BGP EVPN"
    else if s == 71
    then "BGP-LS"
    else if s == 72
    then "BGP-LS-VPN"
    else if s == 128
    then "MPLS-labeled VPN"
    else ""

-- One capability of an OPEN message: its code and its data.
abbrev pub Entry : Type 0
Entry = ℕ × CapabilityData

pub put_capability : Capabilities → Entry → Capabilities
put_capability caps (code, c) k =
    if k == code then some (or_empty (caps code) ++ (c ∷ [])) else caps k

pub put_all : Capabilities → List Entry → Capabilities
put_all caps [] = caps
put_all caps (e ∷ es) = put_all (put_capability caps e) es

-- `copyCapabilitiyMap`: what `s` has is appended to what `d` has, key by key.
pub copy_capability_map : Capabilities → Capabilities → Capabilities
copy_capability_map s d k = elim (s k) [ none ↦ d k | some v ↦ some (or_empty (d k) ++ v) ]

-- An optional parameter: capabilities, or anything else as it stands.
pub data Parameter : Type 0 where
  capability : Capabilities → Parameter
  other : Tlv → Parameter

pub other_parameters : List Parameter → List Tlv
other_parameters [] = []
other_parameters (capability c ∷ ps) = other_parameters ps
other_parameters (other t ∷ ps) = t ∷ other_parameters ps

pub all_capabilities : Capabilities → List Parameter → Capabilities
all_capabilities d [] = d
all_capabilities d (capability c ∷ ps) = all_capabilities (copy_capability_map c d) ps
all_capabilities d (other t ∷ ps) = all_capabilities d ps

module _ (fmt : Formats) where
  pub afi_safi_text : ℕ → ℕ → String
  afi_safi_text afi safi =
      " : afi="
      <> fmt.texts.decimal afi
      <> " safi="
      <> fmt.texts.decimal safi
      <> " "
      <> safi_text safi
      <> " "
      <> afi_text afi

  pub base_description : ℕ → String
  base_description code = elim (capability_name code) [
    | none ↦ "Unknown capability " <> fmt.texts.decimal code
    | some d ↦ d
  ]

  -- The description; for code 1 it reads `Value[:2]` and `Value[3]`.
  pub describe : ℕ → List ℕ → Res String
  describe code value =
      if code == 1
      then (do
        afi ← uint16_at (of_list value) 0
        safi ← index (of_list value) 3
        ok (base_description code <> afi_safi_text afi safi))
      else ok (base_description code)

  -- One turn of the loop of `UnmarshalBGPCapability`.
  pub capability_turn : Slice → ℕ → Res (Turn Entry)
  capability_turn b p = do
    code ← index b p
    l ← index b (p + 1)
    v ← copy_at b (p + 2) l
    d ← describe code v
    ok (next (code, record { value = v; description = d }) (p + 2 + l))

  pub unmarshal_capability : Slice → Res Capabilities
  unmarshal_capability b = do
    es ← scan capability_turn (suc b.len) b 0
    ok (put_all no_capabilities es)

  -- One turn of the loop of `UnmarshalBGPTLV`.
  pub parameter_turn : Slice → ℕ → Res (Turn Parameter)
  parameter_turn b p = do
    t ← index b p
    l ← index b (p + 1)
    if t == 2
        then (do
          s ← slice b (p + 2) (p + 2 + l)
          c ← unmarshal_capability s
          ok (next (capability c) (p + 2 + l)))
        else (do
          v ← copy_at b (p + 2) l
          ok (next (other (record { tlv_type = t; len = l; value = v })) (p + 2 + l)))

  pub unmarshal_bgp_tlv : Slice → Res (List Tlv × Capabilities)
  unmarshal_bgp_tlv b = do
    ps ← scan parameter_turn (suc b.len) b 0
    ok (other_parameters ps, all_capabilities no_capabilities ps)
