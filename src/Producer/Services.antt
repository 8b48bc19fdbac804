-- ===== src/Producer/Services.antt =====
-- What the producer calls to fill its messages, and the texts of pkg/bmp/per-peer-header.go.
use Prim.Native.String.{String}
use gobmp.Prelude.{ℕ, ◌+◌, ◌*◌, ◌^◌, Bool, false, List, ◌++◌, Option, none, some, if◌then◌else◌}
use gobmp.Go.{panic, spin, err, be64, Res, ok, ◌>>=◌, bytes, of_list, slice_from, uint32_at}
use gobmp.Bgp.Texts.{Texts}
use gobmp.Bgp.Open.AddPath.{PathMap}
use gobmp.Flowspec.{Spec}
use gobmp.Base.Rd.{Rd, make_rd, rd_text}
use gobmp.Bmp.PeerHeader.{
  PeerHeader, global, rd_instance, local_instance, local_rib, is_remote_peer_ipv6,
}

-- `md5_hex` is the hash of some bytes in hexadecimal and `md5_text` that of a text, `decimal_bytes`
-- the characters of a number, `time_text` the time so many nanoseconds after 1970 as RFC 3339 has it,
-- `int64_text` the text of an int64 by its 64 bits, `two_digits` and `two_hex` are `%02d` and `%02x`,
-- and `spec_hash` the hash of the JSON of flow specification rules.
pub record Services : Type 0 where
  pub texts : Texts
  pub md5_hex : List ℕ → String
  pub md5_text : String → String
  pub decimal_bytes : ℕ → List ℕ
  pub time_text : ℕ → String
  pub int64_text : ℕ → String
  pub two_digits : ℕ → String
  pub two_hex : ℕ → String
  pub spec_hash : List Spec → String

-- `producer`
pub record Producer : Type 0 where
  pub speaker_ip : String
  pub speaker_hash : String
  pub add_path_capable : PathMap
  pub split_af : Bool

module _ (s : Services) where
  pub get_peer_hash : PeerHeader → String
  get_peer_hash ph =
      s.md5_hex (ph.distinguisher ++ ph.address ++ s.decimal_bytes ph.peer_as ++ ph.bgp_id)

  -- `GetPeerTimestamp`: the second word is added as nanoseconds.
  unfoldable pub get_peer_timestamp : PeerHeader → Res String
  get_peer_timestamp ph = do
    t ← uint32_at (of_list ph.timestamp) 0
    n ← uint32_at (of_list ph.timestamp) 4
    ok (s.time_text (t * 10 ^ 9 + n))

  -- `GetPeerAddrString`
  unfoldable pub get_peer_addr_string : PeerHeader → Res String
  get_peer_addr_string ph =
      if is_remote_peer_ipv6 ph
      then ok (s.texts.ip16 ph.address)
      else (do a ← slice_from (of_list ph.address) 12; ok (s.texts.ip4 (bytes a)))

  -- `GetPeerBGPIDString`
  pub get_peer_bgp_id_string : PeerHeader → String
  get_peer_bgp_id_string ph = s.texts.ip4 ph.bgp_id

  -- The text of a distinguisher, "0:0" where it is none.
  pub rd_or_zero : Res Rd → Res String
  rd_or_zero (ok r) = rd_text s.texts r
  rd_or_zero (err e) = ok "0:0"
  rd_or_zero panic = panic
  rd_or_zero spin = spin

  -- `GetPeerDistinguisherString`
  pub get_peer_distinguisher_string : PeerHeader → Res String
  get_peer_distinguisher_string ph = elim ph.peer_type [
    | global ↦ ok "0:0"
    | rd_instance ↦ rd_or_zero (make_rd (of_list ph.distinguisher))
    | local_rib ↦ rd_or_zero (make_rd (of_list ph.distinguisher))
    | local_instance ↦ do n ← be64 ph.distinguisher; ok (s.int64_text n)
  ]

-- `if v, err := call; err == nil { m.Field = v }`, where the field is nil before.
unfoldable pub some_or_none : {A : Type 0} → Res A → Res (Option A)
some_or_none (ok v) = ok (some v)
some_or_none (err e) = ok none
some_or_none panic = panic
some_or_none spin = spin

-- `if f, err := ph.Flag(); err == nil { m.Flag = f }`, where the field is false before.
pub flag_or_false : Res Bool → Bool
flag_or_false (ok f) = f
flag_or_false _ = false
