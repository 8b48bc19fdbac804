-- ===== src/Bmp/CommonHeader/Tests.antt =====
-- The header of a Route Monitoring message of 48 bytes.
use gobmp.Prelude.{arith, ◌≡◌, [], ◌∷◌, refl}
use gobmp.Go.{ok}
use gobmp.Bmp.CommonHeader.{CommonHeader, unmarshal_common_header, serialize}
use gobmp.Bmp.CommonHeader.RoundTrip.{IsHeader, serialize-unmarshal_common_header}
use gobmp.Go.{index, slice, uint32_at}

abbrev header_48 : CommonHeader
header_48 = record { version = 3; message_length = 48; message_type = 0 }

reads_48 :
    unmarshal_common_header (record { len = 6; mem = 3 ∷ 0 ∷ 0 ∷ 0 ∷ 48 ∷ 0 ∷ 1 ∷ [] })
    ≡ ok header_48
unfolding unmarshal_common_header index slice uint32_at
reads_48 = refl

serialize-unmarshal_common_header_example :
    (serialize header_48 ≡ 3 ∷ 0 ∷ 0 ∷ 0 ∷ 48 ∷ 0 ∷ []) × IsHeader header_48
serialize-unmarshal_common_header_example =
    serialize-unmarshal_common_header 3 0 0 0 48 0 (1 ∷ []) header_48 (omega arith) (omega arith)
      (omega arith) (omega arith) reads_48
