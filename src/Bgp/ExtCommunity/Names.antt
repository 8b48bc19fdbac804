-- ===== src/Bgp/ExtCommunity/Names.antt =====
-- The tables of subtypes of pkg/bgp/extended-community.go, with the names of
-- extended-community-const.go.
use Prim.Native.String.{String}
use gobmp.Prelude.{ℕ, List, [], ◌∷◌}
use gobmp.Bgp.Texts.{text_of}

abbrev pub trans_as2 : List (ℕ × String)
trans_as2 =
    (0x2, "rt=")
    ∷ (0x3, "ro=")
    ∷ (0x5, "odi=")
    ∷ (0x8, "bdc=")
    ∷ (0x9, "sas=")
    ∷ (0xa, "l2i=")
    ∷ (0x10, "cvd=")
    ∷ (0x13, "rtr=")
    ∷ (0x80, "vni=")
    ∷ []

abbrev pub trans_ipv4 : List (ℕ × String)
trans_ipv4 =
    (0x2, "rt=")
    ∷ (0x3, "ro=")
    ∷ (0x5, "odi=")
    ∷ (0x7, "ori=")
    ∷ (0xa, "l2i=")
    ∷ (0xb, "vri=")
    ∷ (0xc, "fsr=")
    ∷ (0x10, "cvd=")
    ∷ (0x12, "snh=")
    ∷ (0x13, "rtr=")
    ∷ (0x14, "rnh=")
    ∷ (0x20, "rpa=")
    ∷ []

abbrev pub trans_as4 : List (ℕ × String)
trans_as4 =
    (0x2, "rt=")
    ∷ (0x3, "ro=")
    ∷ (0x4, "deprecated=")
    ∷ (0x5, "odi=")
    ∷ (0x8, "bdc=")
    ∷ (0x9, "sas=")
    ∷ (0x10, "cvd=")
    ∷ (0x13, "rtr=")
    ∷ []

abbrev pub trans_opaque : List (ℕ × String)
trans_opaque =
    (0x1, "cost=")
    ∷ (0x3, "cporf=")
    ∷ (0x4, "esrc=")
    ∷ (0x5, "esep=")
    ∷ (0x6, "ort=")
    ∷ (0x7, "taf=")
    ∷ (0x8, "cls=")
    ∷ (0xb, "color=")
    ∷ (0xc, "encap=")
    ∷ (0xd, "dg=")
    ∷ (0xe, "p2p2m=")
    ∷ (0x14, "chso=")
    ∷ (0xaa, "lb=")
    ∷ []

abbrev pub evpn_sub_types : List (ℕ × String)
evpn_sub_types =
    (0x0, "macmob=")
    ∷ (0x1, "esi-l=")
    ∷ (0x2, "es-irt=")
    ∷ (0x3, "rmac=")
    ∷ (0x4, "l2attr=")
    ∷ (0x5, "e-tree=")
    ∷ (0x6, "df-elect=")
    ∷ (0x7, "i-sid=")
    ∷ (0x8, "nd=")
    ∷ (0x9, "mflag=")
    ∷ (0xa, "evi-rt0=")
    ∷ (0xb, "evi-rt1=")
    ∷ (0xc, "evi-rt2=")
    ∷ (0xd, "evi-rt3=")
    ∷ (0xe, "ac=")
    ∷ (0xf, "sct=")
    ∷ []

abbrev pub non_trans_as2 : List (ℕ × String)
non_trans_as2 = (0x4, "link-bw=") ∷ (0x80, "vni=") ∷ []

abbrev pub flowspec_sub_types : List (ℕ × String)
flowspec_sub_types =
    (0x6, "flowspec-traffic-rate=")
    ∷ (0x7, "flowspec-traffic-action=")
    ∷ (0x8, "flowspec-redirect=")
    ∷ (0x9, "flowspec-traffic-remarking=")
    ∷ []

pub get_sub_type : List (ℕ × String) → ℕ → String
get_sub_type table s = text_of "Subtype unknown=" table s
