-- ===== src/Bmp/CommonHeader.antt =====
-- pkg/bmp/common-header.go
pub mod RoundTrip
mod Tests
use gobmp.Prelude.{ℕ, ◌/◌, ◌%◌, not, List, [], ◌∷◌, ltb, ◌==◌}
use gobmp.Go.{bad_version, bad_message_type, Res, ok, ◌>>=◌, ◌>>◌, fail_if, Slice, index, uint32_at}

-- `message_length` is an int32 in the source: here its 32 bits.
pub record CommonHeader : Type 0 where
  pub version : ℕ
  pub message_length : ℕ
  pub message_type : ℕ

-- The cases of the `switch` are 0 to 6.
unfoldable pub unmarshal_common_header : Slice → Res CommonHeader
unmarshal_common_header b = do
  v ← index b 0
  fail_if (not (v == 3)) bad_version
  l ← uint32_at b 1
  t ← index b 5
  fail_if (ltb 6 t) bad_message_type
  ok (record { version = v; message_length = l; message_type = t })

unfoldable pub serialize : CommonHeader → List ℕ
serialize c =
    c.version
    ∷ (c.message_length / 16777216)
    ∷ (c.message_length / 65536 % 256)
    ∷ (c.message_length / 256 % 256)
    ∷ (c.message_length % 256)
    ∷ c.message_type
    ∷ []
