-- ===== src/PrefixSid/RoundTrip.antt =====
-- A Prefix SID read back from its elements.
use gobmp.Prelude.{
  ℕ, suc, ◌≡◌, refl, ap, ◌++◌, List, [], ◌∷◌, length, arith, length-append, All, map, Option, none,
  some,
}
use gobmp.Go.{ok, Slice}
use gobmp.Go.Scan.{encode_all, scan-encode_map}
use gobmp.Bgp.Texts.{Texts}
use gobmp.Srv6.{TypeMap, SubTlv}
use gobmp.PrefixSid.{
  LabelIndex, OriginatorSrgb, PSid, Item, label, originator, l3_service, skipped, store, store_all,
  item_turn, unmarshal_prefix_sid,
}
use gobmp.PrefixSid.Items.{Wire, encode_wire, IsWire, item_of, item_turn-encode}

-- The last value that `f` finds.
abbrev pub last : {A B : Type 0} → (A → Option B) → List A → Option B → Option B
last f [] d = d
last f (x ∷ xs) d = last f xs (elim (f x) [ none ↦ d | some y ↦ some y ])

abbrev pub label_of : Item → Option LabelIndex
label_of (label x) = some x
label_of (originator x) = none
label_of (l3_service m) = none
label_of skipped = none

abbrev pub originator_of : Item → Option OriginatorSrgb
originator_of (label x) = none
originator_of (originator x) = some x
originator_of (l3_service m) = none
originator_of skipped = none

abbrev pub service_of : Item → Option (TypeMap SubTlv)
service_of (label x) = none
service_of (originator x) = none
service_of (l3_service m) = some m
service_of skipped = none

store_all-last :
    (s : PSid) (is : List Item)
    → store_all s is ≡ record {
      label_index = last label_of is s.label_index;
      originator_srgb = last originator_of is s.originator_srgb;
      srv6_l3_service = last service_of is s.srv6_l3_service;
    }
unfolding store_all store
store_all-last s [] = refl
store_all-last s (label x ∷ is) = store_all-last (store s (label x)) is
store_all-last s (originator x ∷ is) = store_all-last (store s (originator x)) is
store_all-last s (l3_service m ∷ is) = store_all-last (store s (l3_service m)) is
store_all-last s (skipped ∷ is) = store_all-last s is

-- The elements of a Prefix SID attribute, fewer than 10923 blocks in an originator SRGB and each block
-- of 24-bit numbers, are read whatever follows the slice: the last label index, originator SRGB and
-- SRv6 L3 service are kept and other types are skipped. The numbers of a block come back multiplied by
-- 256.
pub unmarshal_prefix_sid-encode :
    (texts : Texts) (ws : List Wire) (rest : List ℕ)
    → All IsWire ws
    → unmarshal_prefix_sid texts (record {
      len = length (encode_all encode_wire ws);
      mem = encode_all encode_wire ws ++ rest;
    })
      ≡ ok (record {
        label_index = last label_of (map (item_of texts) ws) none;
        originator_srgb = last originator_of (map (item_of texts) ws) none;
        srv6_l3_service = last service_of (map (item_of texts) ws) none;
      })
unfolding unmarshal_prefix_sid
unmarshal_prefix_sid-encode texts ws rest h =
    let code : List ℕ = encode_all encode_wire ws in
    let b : Slice = record { len = length code; mem = code ++ rest } in
    rw
      (scan-encode_map (item_turn texts) b (item_of texts) encode_wire IsWire
        (item_turn-encode texts b (omega (arith, length-append code rest))) ws (suc (length code)) 0
        rest h refl (omega arith) (omega arith))
      (ap ok (store_all-last _ (map (item_of texts) ws)))
