-- ===== src/Bmp/PeerHeader/RoundTrip.antt =====
-- The per-peer header: its layout and the meaning of its flags.
use gobmp.Prelude.{
  ℕ, ◌+◌, ◌*◌, ◌/◌, ◌%◌, ◌≤◌, ◌++◌, ◌≡◌, refl, sym, Bool, true, false, List, [], ◌∷◌, length, arith,
  ◌&&◌, ◌||◌, not, if◌then◌else◌, length-append,
}
use gobmp.Go.{ok, Slice}
use gobmp.Go.Reads.{index-drop, uint32_at-drop, copy_at_sized, drop_parts}
use gobmp.Bmp.PeerHeader.{
  PeerType, global, rd_instance, local_instance, local_rib, PeerHeader, peer_type, is_local_rib,
  flag, unmarshal_peer_header,
}

-- The bytes of the peer type and of the flags.
abbrev pub type_byte : PeerType → ℕ
type_byte global = 0
type_byte rd_instance = 1
type_byte local_instance = 2
type_byte local_rib = 3

abbrev pub bit : Bool → ℕ → ℕ
bit b k = if b then k else 0

abbrev pub flag_byte : PeerHeader → ℕ
flag_byte h =
    bit h.flag_f 128 + bit h.flag_v 128 + bit h.flag_l 64 + bit h.flag_a 32 + bit h.flag_o 16

abbrev encode32 : ℕ → List ℕ
encode32 n = (n / 16777216) ∷ (n / 65536 % 256) ∷ (n / 256 % 256) ∷ (n % 256) ∷ []

-- The 42 bytes of RFC 7854 and RFC 9069.
abbrev pub encode_header : PeerHeader → List ℕ
encode_header h =
    type_byte h.peer_type
    ∷ flag_byte h
    ∷ (h.distinguisher ++ (h.address ++ (encode32 h.peer_as ++ (h.bgp_id ++ h.timestamp))))

-- The flags that the peer type does not use are off, and the fields have their sizes.
pub record IsPeerHeader (h : PeerHeader) : Type 0 where
  pub rib_flags :
      is_local_rib h.peer_type ≡ true
      → (h.flag_v ≡ false) × (h.flag_l ≡ false) × (h.flag_a ≡ false) × (h.flag_o ≡ false)
  pub peer_flags : is_local_rib h.peer_type ≡ false → h.flag_f ≡ false
  pub distinguisher_size : length h.distinguisher ≡ 8
  pub address_size : length h.address ≡ 16
  pub bgp_id_size : length h.bgp_id ≡ 4
  pub timestamp_size : length h.timestamp ≡ 8

peer_type-type_byte : (t : PeerType) → peer_type (type_byte t) ≡ ok t
unfolding peer_type
peer_type-type_byte global = refl
peer_type-type_byte rd_instance = refl
peer_type-type_byte local_instance = refl
peer_type-type_byte local_rib = refl

-- The flag byte of a Loc-RIB peer, and of any other peer.
rib_byte : (f : Bool) → flag (bit f 128 + 0 + 0 + 0 + 0) 0x80 ≡ f
unfolding flag
rib_byte true = refl
rib_byte false = refl

peer_byte :
    (v l a o : Bool)
    → (flag (0 + bit v 128 + bit l 64 + bit a 32 + bit o 16) 0x80 ≡ v)
      × (flag (0 + bit v 128 + bit l 64 + bit a 32 + bit o 16) 0x40 ≡ l)
      × (flag (0 + bit v 128 + bit l 64 + bit a 32 + bit o 16) 0x20 ≡ a)
      × (flag (0 + bit v 128 + bit l 64 + bit a 32 + bit o 16) 0x10 ≡ o)
unfolding flag
peer_byte true true true true = (refl, refl, refl, refl)
peer_byte true true true false = (refl, refl, refl, refl)
peer_byte true true false true = (refl, refl, refl, refl)
peer_byte true true false false = (refl, refl, refl, refl)
peer_byte true false true true = (refl, refl, refl, refl)
peer_byte true false true false = (refl, refl, refl, refl)
peer_byte true false false true = (refl, refl, refl, refl)
peer_byte true false false false = (refl, refl, refl, refl)
peer_byte false true true true = (refl, refl, refl, refl)
peer_byte false true true false = (refl, refl, refl, refl)
peer_byte false true false true = (refl, refl, refl, refl)
peer_byte false true false false = (refl, refl, refl, refl)
peer_byte false false true true = (refl, refl, refl, refl)
peer_byte false false true false = (refl, refl, refl, refl)
peer_byte false false false true = (refl, refl, refl, refl)
peer_byte false false false false = (refl, refl, refl, refl)

-- The flags that the decoder takes from the byte.
record Flags (h : PeerHeader) (rib : Bool) : Type 0 where
  f : (if rib then flag (flag_byte h) 0x80 else false) ≡ h.flag_f
  v : (if rib then false else flag (flag_byte h) 0x80) ≡ h.flag_v
  l : (if rib then false else flag (flag_byte h) 0x40) ≡ h.flag_l
  a : (if rib then false else flag (flag_byte h) 0x20) ≡ h.flag_a
  o : (if rib then false else flag (flag_byte h) 0x10) ≡ h.flag_o

Flags-encode :
    (h : PeerHeader) → IsPeerHeader h → (rib : Bool) → is_local_rib h.peer_type ≡ rib → Flags h rib
Flags-encode h w true e =
    let (v, l, a, o) = w.rib_flags e in
    record { f = rw (v, l, a, o) (rib_byte h.flag_f); v = sym v; l = sym l; a = sym a; o = sym o }
Flags-encode h w false e =
    let f = w.peer_flags e in
    let (pv, pl, pa, po) = peer_byte h.flag_v h.flag_l h.flag_a h.flag_o in
    record { f = sym f; v = rw f pv; l = rw f pl; a = rw f pa; o = rw f po }

size : (h : PeerHeader) (rest : List ℕ) → IsPeerHeader h → 42 ≤ length (encode_header h ++ rest)
size h rest w = omega (
  arith,
  w.distinguisher_size,
  w.address_size,
  w.bgp_id_size,
  w.timestamp_size,
  length-append (encode_header h) rest,
  length-append h.distinguisher (h.address ++ (encode32 h.peer_as ++ (h.bgp_id ++ h.timestamp))),
  length-append h.address (encode32 h.peer_as ++ (h.bgp_id ++ h.timestamp)),
  length-append h.bgp_id h.timestamp,
)

-- The same on a slice of any length, of which only the first two bytes are checked against it.
pub unmarshal_peer_header-encode_within :
    (n : ℕ) (h : PeerHeader) (rest : List ℕ)
    → 2 ≤ n
    → IsPeerHeader h
    → unmarshal_peer_header (record { len = n; mem = encode_header h ++ rest }) ≡ ok h
unfolding unmarshal_peer_header
unmarshal_peer_header-encode_within n h rest k w =
    let b : Slice = record { len = n; mem = encode_header h ++ rest } in
    let whole : h.peer_as / 16777216 * 16777216
          + h.peer_as / 65536 % 256 * 65536
          + h.peer_as / 256 % 256 * 256
          + h.peer_as % 256
        ≡ h.peer_as =
      omega arith in
    let (d, at10) = drop_parts b.mem 2 8 h.distinguisher _ rest refl w.distinguisher_size in
    let (a, at26) = drop_parts b.mem 10 16 h.address _ rest at10 w.address_size in
    let (asn, at30) = drop_parts b.mem 26 4 (encode32 h.peer_as) _ rest at26 refl in
    let (i, at34) = drop_parts b.mem 30 4 h.bgp_id h.timestamp rest at30 w.bgp_id_size in
    let room : 42 ≤ length b.mem = size h rest w in
    let fl : Flags h (is_local_rib h.peer_type) =
      Flags-encode h w (is_local_rib h.peer_type) refl in
    rw (
      index-drop b 0 (type_byte h.peer_type) _ refl (omega arith),
      peer_type-type_byte h.peer_type,
      index-drop b 1 (flag_byte h) _ refl (omega arith),
      copy_at_sized b 2 8 _ _ w.distinguisher_size d (omega arith),
      copy_at_sized b 10 16 _ _ w.address_size a (omega arith),
      uint32_at-drop b 26 _ _ _ _ _ asn,
      whole,
      copy_at_sized b 30 4 _ _ w.bgp_id_size i (omega arith),
      copy_at_sized b 34 8 _ _ w.timestamp_size at34 (omega arith),
      fl.f,
      fl.v,
      fl.l,
      fl.a,
      fl.o,
    )

-- Every per-peer header whose fields have their sizes, with the flags off that its peer type does
-- not use, is read back from its 42 bytes, whatever follows them in memory.
pub unmarshal_peer_header-encode :
    (h : PeerHeader) (rest : List ℕ)
    → IsPeerHeader h
    → unmarshal_peer_header (record { len = 42; mem = encode_header h ++ rest }) ≡ ok h
unmarshal_peer_header-encode h rest w =
    unmarshal_peer_header-encode_within 42 h rest (omega arith) w

-- Whatever bytes a header was read from, the flags that its peer type does not use are off: V, L, A
-- and O of a Loc-RIB peer, and F of any other peer.
unmarshal_peer_header_flags :
    (b : Slice) (h : PeerHeader)
    → unmarshal_peer_header b ≡ ok h
    → ((is_local_rib h.peer_type && (h.flag_v || h.flag_l || h.flag_a || h.flag_o)) ≡ false)
      × ((not (is_local_rib h.peer_type) && h.flag_f) ≡ false)
unfolding unmarshal_peer_header
unmarshal_peer_header_flags b h e = (ground arith, ground arith)
