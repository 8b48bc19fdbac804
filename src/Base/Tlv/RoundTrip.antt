-- ===== src/Base/Tlv/RoundTrip.antt =====
-- The element decoders of pkg/base/tlv.go against the layout of a TLV.
use gobmp.Prelude.{
  ℕ, suc, ◌+◌, ◌*◌, ◌/◌, ◌%◌, ◌<◌, ◌≤◌, ◌++◌, length-append, ◌≡◌, refl, ap, ◌∙◌, false, List, [],
  ◌∷◌, length, drop, arith, ltb, le→ltb, ltb→le, Bool-cases, inl, inr, All, Option, none, some,
  ◌==◌, if◌then◌else◌, Bool, true,
}
use gobmp.Go.{Res, ok, Slice, IsSlice, NoError, ◌>>=◌}
use gobmp.Go.Reads.{
  uint16_at-drop, copy_at-drop, uint16_at_total, copy_at_total, Ends-ok, drop_over,
}
use gobmp.Go.Scan.{next, scan, encode_all, Advances, scan-Ends, scan-encode_all}
use gobmp.Base.Tlv.{Tlv, TlvMap, tlv_turn, unmarshal_sub_tlv, unmarshal_tlv, fill}

abbrev pub encode_tlv : Tlv → List ℕ
encode_tlv x = (x.tlv_type / 256) ∷ (x.tlv_type % 256) ∷ (x.len / 256) ∷ (x.len % 256) ∷ x.value

-- The declared length is that of the value. (Type and length fit 16 bits on a real wire.)
abbrev pub IsTlv : Tlv → Type 0
IsTlv x = length x.value ≡ x.len

tlv_turn-Advances :
    (b : Slice) → IsSlice b → (p : ℕ) → p < b.len → Advances NoError p (tlv_turn b p)
unfolding tlv_turn
tlv_turn-Advances b w p h = elim (Bool-cases (ltb b.len (p + 2))) [
  | inl e ↦ rw (e, Advances) tt
  | inr e ↦
      let (t, et) = uint16_at_total b p (omega (arith, ltb→le b.len (p + 2) e)) in
      elim (Bool-cases (ltb b.len (p + 2 + 2))) [
        | inl e' ↦ rw (e, et, e', Advances) tt
        | inr e' ↦
            let (l, el) = uint16_at_total b (p + 2) (omega (arith, ltb→le b.len (p + 2 + 2) e')) in
            elim (Bool-cases (ltb b.len (p + 2 + 2 + l))) [
              | inl e'' ↦ rw (e, et, e', el, e'', Advances) tt
              | inr e'' ↦
                  rw
                    (
                      e,
                      et,
                      e',
                      el,
                      e'',
                      copy_at_total b (p + 2 + 2) l
                          (omega (arith, ltb→le b.len (p + 2 + 2 + l) e'')),
                      Advances,
                    )
                    (omega arith)
            ]
      ]
]

-- On every slice `unmarshal_sub_tlv` returns elements: no error, no panic, no endless loop.
pub unmarshal_sub_tlv_total :
    (b : Slice) → IsSlice b → (xs : List Tlv) × (unmarshal_sub_tlv b ≡ ok xs)
unfolding unmarshal_sub_tlv
unmarshal_sub_tlv_total b w =
    Ends-ok (scan tlv_turn (suc b.len) b 0)
      (scan-Ends NoError tlv_turn b (tlv_turn-Advances b w) (suc b.len) 0 (omega arith))

tlv_turn-encode :
    (b : Slice)
    → IsSlice b
    → (x : Tlv) (p : ℕ) (rest : List ℕ) → IsTlv x
    → drop p b.mem ≡ encode_tlv x ++ rest
    → p + length (encode_tlv x) ≤ b.len
    → (tlv_turn b p ≡ ok (next x (p + length (encode_tlv x)))) × (0 < length (encode_tlv x))
unfolding tlv_turn
tlv_turn-encode b w x p rest h e n =
    let hi : ℕ = x.tlv_type / 256 in
    let lo : ℕ = x.tlv_type % 256 in
    let t : hi * 256 + lo ≡ x.tlv_type = omega arith in
    let l : x.len / 256 * 256 + x.len % 256 ≡ x.len = omega arith in
    let two : List ℕ = hi ∷ lo ∷ [] in
    let at2 : drop (p + 2) b.mem ≡ (x.len / 256) ∷ (x.len % 256) ∷ (x.value ++ rest) =
      drop_over b.mem p two _ e in
    let at4 : drop (p + 2 + 2) b.mem ≡ x.value ++ rest =
      drop_over b.mem (p + 2) ((x.len / 256) ∷ (x.len % 256) ∷ []) _ at2 in
    (
      rw
          (
            le→ltb b.len (p + 2) (omega arith),
            uint16_at-drop b p hi lo _ e,
            t,
            le→ltb b.len (p + 2 + 2) (omega arith),
            uint16_at-drop b (p + 2) _ _ _ at2,
            l,
            ← h,
            le→ltb b.len (p + 2 + 2 + length x.value) (omega arith),
            copy_at-drop b (p + 2 + 2) x.value rest at4 (omega arith),
          )
          (ap (λ (q : ℕ). ok (next (record x { len = length x.value }) q)) (omega arith)),
      omega arith,
    )

-- Elements with the lengths of their values, written one after the other, are read back in order,
-- whatever follows the slice in memory.
pub unmarshal_sub_tlv-encode :
    (xs : List Tlv) (rest : List ℕ)
    → All IsTlv xs
    → unmarshal_sub_tlv
        (record { len = length (encode_all encode_tlv xs); mem = encode_all encode_tlv xs ++ rest })
      ≡ ok xs
unfolding unmarshal_sub_tlv
unmarshal_sub_tlv-encode xs rest h =
    let size : ℕ = length (encode_all encode_tlv xs) in
    let b : Slice = record { len = size; mem = encode_all encode_tlv xs ++ rest } in
    scan-encode_all tlv_turn b encode_tlv IsTlv
      (tlv_turn-encode b (omega (arith, length-append (encode_all encode_tlv xs) rest))) xs
      (suc size) 0 rest h refl (omega arith) (omega arith)

-- The last element of a type.
abbrev pub last_of : ℕ → List Tlv → Option Tlv
last_of t [] = none
last_of t (x ∷ xs) = elim (last_of t xs) [
  | some y ↦ some y
  | none ↦ if t == x.tlv_type then some x else none
]

abbrev or_else : Option Tlv → Option Tlv → Option Tlv
or_else (some y) z = some y
or_else none z = z

fill_lem : (m : TlvMap) (t : ℕ) (xs : List Tlv) → fill m xs t ≡ or_else (last_of t xs) (m t)
unfolding fill
fill_lem m t [] = refl
fill_lem m t (x ∷ xs) =
    fill_lem (λ s. if s == x.tlv_type then some x else m s) t xs
    ∙ step (last_of t xs) (t == x.tlv_type)
  where
    step :
        (r : Option Tlv) (here : Bool)
        → or_else r (if here then some x else m t)
          ≡ or_else (elim r [ some y ↦ some y | none ↦ if here then some x else none ]) (m t)
    step (some y) here = refl
    step none true = refl
    step none false = refl

-- The map that `unmarshal_tlv` returns for elements with the lengths of their values, whatever
-- follows the slice in memory, holds the last element of each type, and nothing under a type that
-- no element has.
pub unmarshal_tlv-encode :
    (xs : List Tlv) (rest : List ℕ) (t : ℕ)
    → All IsTlv xs
    → (unmarshal_tlv (record {
      len = length (encode_all encode_tlv xs);
      mem = encode_all encode_tlv xs ++ rest;
    })
        >>= λ m. ok (m t))
      ≡ ok (last_of t xs)
unfolding unmarshal_tlv unmarshal_sub_tlv
unmarshal_tlv-encode xs rest t h =
    ap (λ (r : Res (List Tlv)). (r >>= λ ys. ok (fill (λ s. none) ys)) >>= λ m. ok (m t))
      (unmarshal_sub_tlv-encode xs rest h)
    ∙ ap ok (fill_lem (λ s. none) t xs ∙ over (last_of t xs))
  where
    over : (r : Option Tlv) → or_else r none ≡ r
    over none = refl
    over (some y) = refl
