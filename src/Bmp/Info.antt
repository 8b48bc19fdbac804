-- ===== src/Bmp/Info.antt =====
-- pkg/bmp/information-tlv.go, initiation.go, stats-report.go and peer-down.go
pub mod RoundTrip
mod Tests
use gobmp.Prelude.{
  ℕ, suc, ◌+◌, ◌-◌, ◌%◌, ◌^◌, Bool, true, false, not, ◌||◌, List, [], ◌∷◌, ltb, leb, ◌==◌,
}
use gobmp.Go.{
  Error, bad_tlv_type, bad_tlv_length, bad_reason, bad_count, Res, ok, panic, ◌>>=◌, ◌>>◌, fail_if,
  panic_if, Slice, bytes, index, slice, slice_from, uint16_at, uint32_at,
}
use gobmp.Go.Scan.{Turn, next, scan}

-- Type and length are int16 in the source: here their 16 bits.
pub record InformationalTlv : Type 0 where
  pub information_type : ℕ
  pub information_length : ℕ
  pub information : List ℕ

-- `a > b` on int16, by their bits.
pub int16_gt : ℕ → ℕ → Bool
int16_gt a b = ltb ((b + 32768) % 65536) ((a + 32768) % 65536)

-- The bits of `int16(n - k)`.
pub int16_sub : ℕ → ℕ → ℕ
int16_sub n k = (n + (65536 - k % 65536)) % 65536

-- From the length at `i + 2` on. A negative length passes the test and panics in `b[i+4 : i+4+int(l)]`.
pub information_body : Slice → ℕ → ℕ → Res (Turn InformationalTlv)
information_body b i t = do
  l ← uint16_at b (i + 2)
  fail_if (int16_gt l (int16_sub b.len (i + 4))) bad_tlv_length
  panic_if (leb 32768 l)
  v ← slice b (i + 4) (i + 4 + l)
  ok (
      next (record { information_type = t; information_length = l; information = bytes v })
        (i + 4 + l))

-- One turn of `UnmarshalTLV`.
pub information_turn : Slice → ℕ → Res (Turn InformationalTlv)
information_turn b i = do t ← uint16_at b i; information_body b i t

pub unmarshal_tlv : Slice → Res (List InformationalTlv)
unmarshal_tlv b = scan information_turn (suc b.len) b 0

-- One turn of `UnmarshalInitiationMessage`, which admits the types 0, 1 and 2.
pub initiation_turn : Slice → ℕ → Res (Turn InformationalTlv)
initiation_turn b i = do t ← uint16_at b i; fail_if (ltb 2 t) bad_tlv_type; information_body b i t

pub unmarshal_initiation : Slice → Res (List InformationalTlv)
unmarshal_initiation b = scan initiation_turn (suc b.len) b 0

pub record StatsReport : Type 0 where
  pub stats_count : ℕ
  pub stats_tlv : List InformationalTlv

-- `a > b` on int32, by their bits.
pub int32_gt : ℕ → ℕ → Bool
int32_gt a b = ltb ((b + 2 ^ 31) % 2 ^ 32) ((a + 2 ^ 31) % 2 ^ 32)

pub unmarshal_stats_report : Slice → Res StatsReport
unmarshal_stats_report b = do
  l ← uint32_at b 0
  fail_if (int32_gt l (b.len % 2 ^ 32)) bad_count
  rest ← slice_from b 4
  tlvs ← unmarshal_tlv rest
  ok (record { stats_count = l; stats_tlv = tlvs })

pub record PeerDown : Type 0 where
  pub reason : ℕ
  pub info : List ℕ

-- `make([]byte, len(b)-1)` panics on an empty slice.
unfoldable pub unmarshal_peer_down : Slice → Res PeerDown
unmarshal_peer_down b = do
  panic_if (b.len == 0)
  r ← index b 0
  fail_if (ltb r 1 || ltb 5 r) bad_reason
  d ← slice_from b 1
  ok (record { reason = r; info = bytes d })
