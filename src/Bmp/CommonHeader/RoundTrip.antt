-- ===== src/Bmp/CommonHeader/RoundTrip.antt =====
-- `unmarshal_common_header` against `serialize`.
use gobmp.Prelude.{
  ℕ, ◌+◌, ◌*◌, ◌/◌, ◌%◌, ◌≤◌, ◌++◌, ◌≡◌, refl, List, [], ◌∷◌, arith, le→ltb, ==_iff,
}
use gobmp.Go.{ok, Slice, IsByte, index}
use gobmp.Go.Reads.{uint32_at-drop}
use gobmp.Bmp.CommonHeader.{CommonHeader, unmarshal_common_header, serialize}

-- Version 3 and a message type that RFC 7854 knows.
pub record IsHeader (c : CommonHeader) : Type 0 where
  pub version_three : c.version ≡ 3
  pub known_type : c.message_type ≤ 6

-- A header of version 3 and of type 0 to 6 is read back from what `serialize` writes, whatever
-- follows it.
pub unmarshal_common_header-serialize :
    (c : CommonHeader) (rest : List ℕ)
    → IsHeader c
    → unmarshal_common_header (record { len = 6; mem = serialize c ++ rest }) ≡ ok c
unfolding unmarshal_common_header serialize index
unmarshal_common_header-serialize c rest h =
    let b : Slice = record { len = 6; mem = serialize c ++ rest } in
    let whole : c.message_length / 16777216 * 16777216
          + c.message_length / 65536 % 256 * 65536
          + c.message_length / 256 % 256 * 256
          + c.message_length % 256
        ≡ c.message_length =
      omega arith in
    rw (
      (==_iff c.version 3).1 h.version_three,
      uint32_at-drop b 1 _ _ _ _ _ refl,
      whole,
      le→ltb 6 c.message_type h.known_type,
    )

-- Any six bytes that are accepted, whatever follows them, are what `serialize` writes for the
-- header that they gave, and it has version 3 and a type of 0 to 6.
pub serialize-unmarshal_common_header :
    (v x y z w t : ℕ) (rest : List ℕ) (c : CommonHeader)
    → IsByte x
    → IsByte y
    → IsByte z
    → IsByte w
    → unmarshal_common_header (record { len = 6; mem = v ∷ x ∷ y ∷ z ∷ w ∷ t ∷ rest }) ≡ ok c
    → (serialize c ≡ v ∷ x ∷ y ∷ z ∷ w ∷ t ∷ []) × IsHeader c
unfolding unmarshal_common_header serialize index
serialize-unmarshal_common_header v x y z w t rest c hx hy hz hw e =
    let b : Slice = record { len = 6; mem = v ∷ x ∷ y ∷ z ∷ w ∷ t ∷ rest } in
    ground (arith, uint32_at-drop b 1 x y z w (t ∷ rest) refl)
