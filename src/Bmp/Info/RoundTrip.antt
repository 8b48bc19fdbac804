-- ===== src/Bmp/Info/RoundTrip.antt =====
-- The information decoders against the layout of an element.
use gobmp.Prelude.{
  ℕ, suc, ◌+◌, ◌*◌, ◌/◌, ◌%◌, ◌≤◌, ◌<◌, ◌++◌, ◌≡◌, refl, ap, true, false, List, [], ◌∷◌, length,
  drop, arith, leb, le→ltb, lt→ltb, lt→leb, All, length-append, take-append, if◌then◌else◌, ◌&&◌,
}
use gobmp.Go.{bad_tlv_length, bad_reason, ok, err, Slice, IsSlice, slice_from, index}
use gobmp.Go.Reads.{uint16_at-drop, slice-drop, drop_over}
use gobmp.Go.Scan.{next, scan, encode_all, scan-encode_all}
use gobmp.Bmp.Info.{
  InformationalTlv, int16_gt, int16_sub, information_body, information_turn, unmarshal_tlv,
  initiation_turn, unmarshal_initiation, unmarshal_peer_down,
}

abbrev pub encode_information : InformationalTlv → List ℕ
encode_information x =
    (x.information_type / 256)
    ∷ (x.information_type % 256)
    ∷ (x.information_length / 256)
    ∷ (x.information_length % 256)
    ∷ x.information

abbrev pub IsInformation : InformationalTlv → Type 0
IsInformation x = length x.information ≡ x.information_length

-- Inside a slice of less than 32768 bytes the signed test on the length is the plain one.
pub int16_gt-int16_sub : (l n k : ℕ) → n < 32768 → k + l ≤ n → int16_gt l (int16_sub n k) ≡ false
unfolding int16_gt int16_sub
int16_gt-int16_sub l n k h e = ground arith

information_body-encode :
    (b : Slice)
    → IsSlice b
    → b.len < 32768
    → (x : InformationalTlv) (p : ℕ) (rest : List ℕ) → IsInformation x
    → drop p b.mem ≡ encode_information x ++ rest
    → p + length (encode_information x) ≤ b.len
    → information_body b p x.information_type ≡ ok (next x (p + length (encode_information x)))
unfolding information_body
information_body-encode b w small x p rest h e n =
    let whole : x.information_length / 256 * 256 + x.information_length % 256
        ≡ x.information_length =
      omega arith in
    let at2 : drop (p + 2) b.mem
        ≡ (x.information_length / 256) ∷ (x.information_length % 256) ∷ (x.information ++ rest) =
      drop_over b.mem p ((x.information_type / 256) ∷ (x.information_type % 256) ∷ []) _ e in
    let at4 : drop (p + 4) b.mem ≡ x.information ++ rest =
      drop_over b.mem p
        ((x.information_type / 256)
          ∷ (x.information_type % 256)
          ∷ (x.information_length / 256)
          ∷ (x.information_length % 256)
          ∷ [])
        _ e in
    rw
      (
        uint16_at-drop b (p + 2) _ _ _ at2,
        whole,
        ← h,
        int16_gt-int16_sub (length x.information) b.len (p + 4) small (omega arith),
        lt→leb 32768 (length x.information) (omega arith),
        slice-drop b (p + 4) x.information rest at4 (omega arith),
        take-append x.information rest,
      )
      (ap (λ (q : ℕ). ok (next (record x { information_length = length x.information }) q))
        (omega arith))

information_turn-encode :
    (b : Slice)
    → IsSlice b
    → b.len < 32768
    → (x : InformationalTlv) (p : ℕ) (rest : List ℕ) → IsInformation x
    → drop p b.mem ≡ encode_information x ++ rest
    → p + length (encode_information x) ≤ b.len
    → (information_turn b p ≡ ok (next x (p + length (encode_information x))))
      × (0 < length (encode_information x))
unfolding information_turn
information_turn-encode b w small x p rest h e n =
    let whole : x.information_type / 256 * 256 + x.information_type % 256 ≡ x.information_type =
      omega arith in
    (
      rw (uint16_at-drop b p _ _ _ e, whole) (information_body-encode b w small x p rest h e n),
      omega arith,
    )

-- Information elements with the lengths of their values, of less than 32768 bytes together, are
-- read back in order, whatever follows the slice in memory.
pub unmarshal_information-encode :
    (xs : List InformationalTlv) (rest : List ℕ)
    → All IsInformation xs
    → length (encode_all encode_information xs) < 32768
    → unmarshal_tlv (record {
      len = length (encode_all encode_information xs);
      mem = encode_all encode_information xs ++ rest;
    })
      ≡ ok xs
unfolding unmarshal_tlv
unmarshal_information-encode xs rest h small =
    let code : List ℕ = encode_all encode_information xs in
    let b : Slice = record { len = length code; mem = code ++ rest } in
    scan-encode_all information_turn b encode_information IsInformation
      (information_turn-encode b (omega (arith, length-append code rest)) small) xs
      (suc (length code)) 0 rest h refl (omega arith) (omega arith)

-- The signed test turns an element away that has the length of its value, less than 32768 bytes,
-- where 32768 to 65535 bytes of the slice lie behind its header: the room left is then a negative
-- int16.
pub unmarshal_information_large :
    (x : InformationalTlv) (rest : List ℕ)
    → IsInformation x
    → x.information_length < 32768
    → 32768 ≤ length (x.information ++ rest)
    → length (x.information ++ rest) < 65536
    → unmarshal_tlv
        (record { len = length (encode_information x ++ rest); mem = encode_information x ++ rest })
      ≡ err bad_tlv_length
unfolding unmarshal_tlv scan information_turn information_body
unmarshal_information_large x rest h l lo hi =
    let b : Slice = record {
      len = length (encode_information x ++ rest);
      mem = encode_information x ++ rest;
    } in
    let whole : x.information_length / 256 * 256 + x.information_length % 256
        ≡ x.information_length =
      omega arith in
    rw (
      lt→ltb 0 b.len (omega arith),
      scan,
      uint16_at-drop b 0 _ _ _ refl,
      uint16_at-drop b 2 _ _ _ refl,
      whole,
      too_far x.information_length (length (x.information ++ rest)) l lo hi,
    )
  where
    too_far :
        (l n : ℕ)
        → l < 32768
        → 32768 ≤ n
        → n < 65536
        → int16_gt l (int16_sub (suc (suc (suc (suc n)))) 4) ≡ true
    too_far l n a b c = unfold int16_gt int16_sub in ground arith

initiation_turn-encode :
    (b : Slice)
    → IsSlice b
    → b.len < 32768
    → (x : InformationalTlv) (p : ℕ) (rest : List ℕ) → (IsInformation x × (x.information_type ≤ 2))
    → drop p b.mem ≡ encode_information x ++ rest
    → p + length (encode_information x) ≤ b.len
    → (initiation_turn b p ≡ ok (next x (p + length (encode_information x))))
      × (0 < length (encode_information x))
unfolding initiation_turn
initiation_turn-encode b w small x p rest (h, t) e n =
    let whole : x.information_type / 256 * 256 + x.information_type % 256 ≡ x.information_type =
      omega arith in
    (
      rw (uint16_at-drop b p _ _ _ e, whole, le→ltb 2 x.information_type t)
          (information_body-encode b w small x p rest h e n),
      omega arith,
    )

-- An Initiation message of elements of the types 0, 1 and 2 with the lengths of their values, of
-- less than 32768 bytes together, is read back in order, whatever follows the slice in memory.
pub unmarshal_initiation-encode :
    (xs : List InformationalTlv) (rest : List ℕ)
    → All (λ x. IsInformation x × (x.information_type ≤ 2)) xs
    → length (encode_all encode_information xs) < 32768
    → unmarshal_initiation (record {
      len = length (encode_all encode_information xs);
      mem = encode_all encode_information xs ++ rest;
    })
      ≡ ok xs
unfolding unmarshal_initiation
unmarshal_initiation-encode xs rest h small =
    let code : List ℕ = encode_all encode_information xs in
    let b : Slice = record { len = length code; mem = code ++ rest } in
    scan-encode_all initiation_turn b encode_information
      (λ x. IsInformation x × (x.information_type ≤ 2))
      (initiation_turn-encode b (omega (arith, length-append code rest)) small) xs
      (suc (length code)) 0 rest h refl (omega arith) (omega arith)

-- A Peer Down message is read as its reason and its data exactly when the reason is 1 to 5, and is
-- the error of a bad reason otherwise.
pub unmarshal_peer_down_cases :
    (r : ℕ) (d rest : List ℕ)
    → unmarshal_peer_down (record { len = suc (length d); mem = r ∷ (d ++ rest) })
      ≡ (if leb 1 r && leb r 5 then ok (record { reason = r; info = d }) else err bad_reason)
unfolding unmarshal_peer_down index slice_from
unmarshal_peer_down_cases r d rest = ground (arith, take-append d rest)
