-- ===== src/PrefixSid/Items.antt =====
-- The elements of a Prefix SID, each read back from its bytes.
use gobmp.Prelude.{
  ℕ, ◌+◌, ◌*◌, ◌/◌, ◌%◌, ◌≤◌, ◌<◌, ◌++◌, ◌≡◌, ◌≢◌, refl, ap, ◌∙◌, List, [], ◌∷◌, length, drop,
  arith, ne→==, All, map,
}
use gobmp.Go.{ok, Slice, IsSlice}
use gobmp.Go.Reads.{
  index-drop, slice-drop, copy_at-drop, uint16_at-drop, uint32_at-drop, drop_over, length-drop_le,
}
use gobmp.Go.Scan.{next, encode_all}
use gobmp.Bgp.Texts.{Texts}
use gobmp.Srv6.ByType.{of_type}
use gobmp.Srv6.SubSub.{typed}
use gobmp.Srv6.RoundTrip.{Sub, IsSub, encode_sub, sub_of, unmarshal_l3_service-encode}
use gobmp.PrefixSid.{
  Srgb, Item, label, originator, l3_service, skipped, block_number, srgb_at, block_count,
  label_turn, originator_turn, service_turn, item_turn,
}

abbrev pub two_bytes : ℕ → List ℕ
two_bytes n = (n / 256) ∷ (n % 256) ∷ []

abbrev pub three_bytes : ℕ → List ℕ
three_bytes n = (n / 65536) ∷ (n / 256 % 256) ∷ (n % 256) ∷ []

abbrev pub four_bytes : ℕ → List ℕ
four_bytes n = (n / 16777216) ∷ (n / 65536 % 256) ∷ (n / 256 % 256) ∷ (n % 256) ∷ []

-- A block of the SRGB on the wire, and as it is read: its numbers stand in the three high bytes.
abbrev pub encode_block : Srgb → List ℕ
encode_block x = three_bytes x.first ++ three_bytes x.number

abbrev pub IsBlock : Srgb → Type 0
IsBlock x = (x.first < 16777216) × (x.number < 16777216)

abbrev pub shifted : Srgb → Srgb
shifted x = record { first = x.first * 256; number = x.number * 256 }

block_number-drop :
    (b : Slice) (p n : ℕ) (rest : List ℕ)
    → n < 16777216
    → drop p b.mem ≡ three_bytes n ++ rest
    → block_number b p ≡ ok (n * 256)
unfolding block_number
block_number-drop b p n rest h e =
    rw
      (copy_at-drop b p (three_bytes n) rest e
        (length-drop_le b.mem p (three_bytes n) rest e (omega arith)))
      (ap ok (omega arith))

pub srgb_at-encode :
    (xs : List Srgb) (b : Slice) (p : ℕ) (rest : List ℕ)
    → All IsBlock xs
    → drop p b.mem ≡ encode_all encode_block xs ++ rest
    → srgb_at (length xs) b p ≡ ok (map shifted xs)
unfolding srgb_at
srgb_at-encode [] b p rest h e = refl
srgb_at-encode (x ∷ xs) b p rest ((hf, hn), hs) e =
    let at3 = drop_over b.mem p (three_bytes x.first) _ e in
    let at6 = drop_over b.mem (p + 3) (three_bytes x.number) _ at3 in
    rw (
      block_number-drop b p x.first _ hf e,
      block_number-drop b (p + 3) x.number _ hn at3,
      srgb_at-encode xs b (p + 3 + 3) rest hs at6,
    )

pub length-encode_blocks : (xs : List Srgb) → length (encode_all encode_block xs) ≡ length xs * 6
length-encode_blocks [] = refl
length-encode_blocks (x ∷ xs) = omega (arith, length-encode_blocks xs)

-- The elements of a writer: a label index with any length and reserved byte, an originator SRGB with
-- the length of its blocks, an L3 service, and any other type.
pub data Wire : Type 0 where
  index_tlv : ℕ → ℕ → ℕ → ℕ → Wire
  srgb_tlv : ℕ → List Srgb → Wire
  service_tlv : ℕ → List Sub → Wire
  other_tlv : ℕ → List ℕ → Wire

abbrev pub encode_wire : Wire → List ℕ
encode_wire (index_tlv l r f n) = 1 ∷ (two_bytes l ++ (r ∷ (two_bytes f ++ four_bytes n)))
encode_wire (srgb_tlv f xs) =
    3 ∷ (two_bytes (2 + length xs * 6) ++ (two_bytes f ++ encode_all encode_block xs))
encode_wire (service_tlv r xs) = typed 5 (r ∷ encode_all encode_sub xs)
encode_wire (other_tlv t v) = typed t v

abbrev pub IsWire : Wire → Type 0
IsWire (index_tlv l r f n) = Unit
IsWire (srgb_tlv f xs) = (length xs < 10923) × All IsBlock xs
IsWire (service_tlv r xs) = All IsSub xs
IsWire (other_tlv t v) = (t ≢ 1) × (t ≢ 3) × (t ≢ 5)

abbrev pub item_of : Texts → Wire → Item
item_of texts (index_tlv l r f n) =
    label (record { tlv_type = 1; length = l; flags = f; label_index = n })
item_of texts (srgb_tlv f xs) =
    originator
      (record { tlv_type = 1; length = 2 + length xs * 6; flags = f; srgb = map shifted xs })
item_of texts (service_tlv r xs) = l3_service (of_type (map (sub_of texts) xs))
item_of texts (other_tlv t v) = skipped

label_turn-encode :
    (b : Slice) (l r f n p : ℕ) (rest : List ℕ)
    → drop p b.mem ≡ encode_wire (index_tlv l r f n) ++ rest
    → label_turn b p
      ≡ ok (next (label (record { tlv_type = 1; length = l; flags = f; label_index = n })) (p + 10))
unfolding label_turn
label_turn-encode b l r f n p rest e =
    let at1 = drop_over b.mem p (1 ∷ []) _ e in
    let at3 = drop_over b.mem (p + 1) (two_bytes l) _ at1 in
    let at4 = drop_over b.mem (p + 1 + 2) (r ∷ []) _ at3 in
    let at6 = drop_over b.mem (p + 1 + 2 + 1) (two_bytes f) _ at4 in
    let el : l / 256 * 256 + l % 256 ≡ l = omega arith in
    let ef : f / 256 * 256 + f % 256 ≡ f = omega arith in
    let en : n / 16777216 * 16777216 + n / 65536 % 256 * 65536 + n / 256 % 256 * 256 + n % 256 ≡ n =
      omega arith in
    rw
      (
        uint16_at-drop b (p + 1) _ _ _ at1,
        uint16_at-drop b (p + 1 + 2 + 1) _ _ _ at4,
        uint32_at-drop b (p + 1 + 2 + 1 + 2) _ _ _ _ _ at6,
        el,
        ef,
        en,
      )
      (ap
        (λ (q : ℕ).
          ok (next (label (record { tlv_type = 1; length = l; flags = f; label_index = n })) q))
        (omega arith))

originator_turn-encode :
    (b : Slice) (f p : ℕ) (xs : List Srgb) (rest : List ℕ)
    → length xs < 10923
    → All IsBlock xs
    → drop p b.mem ≡ encode_wire (srgb_tlv f xs) ++ rest
    → originator_turn b p
      ≡ ok (
          next
            (originator (record {
              tlv_type = 1;
              length = 2 + length xs * 6;
              flags = f;
              srgb = map shifted xs;
            }))
            (p + 5 + length xs * 6))
unfolding originator_turn
originator_turn-encode b f p xs rest n h e =
    let l : ℕ = 2 + length xs * 6 in
    let at1 = drop_over b.mem p (3 ∷ []) _ e in
    let at3 = drop_over b.mem (p + 1) (two_bytes l) _ at1 in
    let at5 = drop_over b.mem (p + 1 + 2) (two_bytes f) _ at3 in
    let el : l / 256 * 256 + l % 256 ≡ l = omega arith in
    let ef : f / 256 * 256 + f % 256 ≡ f = omega arith in
    let count : block_count l ≡ length xs = omega arith in
    rw
      (
        uint16_at-drop b (p + 1) _ _ _ at1,
        uint16_at-drop b (p + 1 + 2) _ _ _ at3,
        el,
        ef,
        count,
        srgb_at-encode xs b (p + 1 + 2 + 2) rest h at5,
      )
      (ap
        (λ (q : ℕ). ok (
          next (originator (record { tlv_type = 1; length = l; flags = f; srgb = map shifted xs }))
            q))
        (omega arith))

service_turn-encode :
    (texts : Texts) (b : Slice) (r p : ℕ) (xs : List Sub) (rest : List ℕ)
    → IsSlice b
    → All IsSub xs
    → drop p b.mem ≡ encode_wire (service_tlv r xs) ++ rest
    → p + length (encode_wire (service_tlv r xs)) ≤ b.len
    → service_turn texts b p
      ≡ ok (
          next
            (l3_service (of_type (map (sub_of texts) xs)))
            (p + length (encode_wire (service_tlv r xs))))
unfolding service_turn
service_turn-encode texts b r p xs rest w h e n =
    let v : List ℕ = r ∷ encode_all encode_sub xs in
    let at1 = drop_over b.mem p (5 ∷ []) _ e in
    let at3 = drop_over b.mem (p + 1) (two_bytes (length v)) _ at1 in
    let el : length v / 256 * 256 + length v % 256 ≡ length v = omega arith in
    rw
      (
        uint16_at-drop b (p + 1) _ _ _ at1,
        el,
        slice-drop b (p + 1 + 2) v rest at3 (omega arith),
        unmarshal_l3_service-encode texts r xs rest h,
      )
      (ap (λ (q : ℕ). ok (next (l3_service (of_type (map (sub_of texts) xs))) q)) (omega arith))

-- One turn reads an element back.
pub item_turn-encode :
    (texts : Texts) (b : Slice)
    → IsSlice b
    → (x : Wire) (p : ℕ) (rest : List ℕ) → IsWire x
    → drop p b.mem ≡ encode_wire x ++ rest
    → p + length (encode_wire x) ≤ b.len
    → (item_turn texts b p ≡ ok (next (item_of texts x) (p + length (encode_wire x))))
      × (0 < length (encode_wire x))
unfolding item_turn
item_turn-encode texts b w (index_tlv l r f n) p rest h e k =
    (rw (index-drop b p 1 _ e (omega arith)) (label_turn-encode b l r f n p rest e), omega arith)
item_turn-encode texts b w (srgb_tlv f xs) p rest (n, h) e k = (
  rw (index-drop b p 3 _ e (omega arith)) (
      originator_turn-encode b f p xs rest n h e
      ∙ ap (λ (q : ℕ). ok (next (item_of texts (srgb_tlv f xs)) q))
          (omega (arith, length-encode_blocks xs))),
  omega arith,
)
item_turn-encode texts b w (service_tlv r xs) p rest h e k = (
  rw (index-drop b p 5 _ e (omega arith)) (service_turn-encode texts b r p xs rest w h e k),
  omega arith,
)
item_turn-encode texts b w (other_tlv t v) p rest (h1, h3, h5) e k =
    let at1 = drop_over b.mem p (t ∷ []) _ e in
    let el : length v / 256 * 256 + length v % 256 ≡ length v = omega arith in
    (
      rw
          (
            index-drop b p t _ e (omega arith),
            ne→== t 1 h1,
            ne→== t 3 h3,
            ne→== t 5 h5,
            uint16_at-drop b (p + 1) _ _ _ at1,
            el,
          )
          (ap (λ (q : ℕ). ok (next skipped q)) (omega arith)),
      omega arith,
    )
