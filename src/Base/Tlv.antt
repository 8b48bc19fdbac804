-- ===== src/Base/Tlv.antt =====
-- pkg/base/tlv.go: type-length-value elements, as a slice in order and as a map by type.
pub mod RoundTrip
use gobmp.Prelude.{ℕ, suc, ◌+◌, Bool, List, [], ◌∷◌, Option, none, some, ltb, ◌==◌, if◌then◌else◌}
use gobmp.Go.{Res, ok, ◌>>=◌, Slice, uint16_at, copy_at}
use gobmp.Go.Scan.{Turn, next, break, scan}

-- `TLV` and `SubTLV` have the same fields.
pub record Tlv : Type 0 where
  pub tlv_type : ℕ
  pub len : ℕ
  pub value : List ℕ

-- One turn of the loops of `UnmarshalTLV` and `UnmarshalSubTLV`, which are the same up to the store.
pub tlv_turn : Slice → ℕ → Res (Turn Tlv)
tlv_turn b p = if ltb b.len (p + 2) then ok break else do
  t ← uint16_at b p
  if ltb b.len (p + 2 + 2) then ok break else do
    l ← uint16_at b (p + 2)
    if ltb b.len (p + 2 + 2 + l) then ok break else do
      v ← copy_at b (p + 2 + 2) l
      ok (next (record { tlv_type = t; len = l; value = v }) (p + 2 + 2 + l))

-- Each turn reads four bytes at least, so the length is fuel enough.
pub unmarshal_sub_tlv : Slice → Res (List Tlv)
unmarshal_sub_tlv b = scan tlv_turn (suc b.len) b 0

-- `map[uint16]TLV`, filled in the order of reading: a later element replaces one of its type.
abbrev pub TlvMap : Type 0
TlvMap = ℕ → Option Tlv

pub fill : TlvMap → List Tlv → TlvMap
fill m [] = m
fill m (x ∷ xs) = fill (λ t. if t == x.tlv_type then some x else m t) xs

pub unmarshal_tlv : Slice → Res TlvMap
unmarshal_tlv b = do xs ← scan tlv_turn (suc b.len) b 0; ok (fill (λ t. none) xs)
