-- ===== src/Bgp/Open/Capability/RoundTrip.antt =====
-- The capabilities of an OPEN message against the layout of RFC 5492.
use Prim.Native.String.{String}
use gobmp.Prelude.{
  ℕ, suc, ◌+◌, ◌*◌, ◌≤◌, ◌<◌, ◌++◌, ◌≡◌, ◌≢◌, ◌⊎◌, inl, inr, refl, sym, ap, ◌∙◌, true, false, List,
  [], ◌∷◌, length, drop, arith, ◌==◌, ==→≡, Bool-cases, All, map, if◌then◌else◌, length-append,
  append_assoc, append-nil,
}
use gobmp.Go.{Res, ok, ◌>>=◌, Slice, IsSlice, of_list}
use gobmp.Go.Reads.{index-drop, uint16_at-drop, copy_at-drop, drop_over}
use gobmp.Go.Scan.{next, encode_all, scan-encode_map}
use gobmp.Bgp.Attributes.{Formats}
use gobmp.Bgp.Texts.{◌<>◌}
use gobmp.Bgp.Open.Capability.{
  CapabilityData, Capabilities, Entry, no_capabilities, or_empty, put_capability, put_all,
  base_description, afi_safi_text, describe, capability_turn, unmarshal_capability,
}

-- A code and a value on the wire.
abbrev pub encode_capability : ℕ × List ℕ → List ℕ
encode_capability (c, v) = c ∷ length v ∷ v

-- The value of code 1, the multiprotocol extensions, has four bytes at least.
abbrev pub IsCapability : ℕ × List ℕ → Type 0
IsCapability (c, v) = (c ≢ 1) ⊎ (4 ≤ length v)

abbrev family_text : Formats → List ℕ → String
family_text fmt (a ∷ (b ∷ (c ∷ (d ∷ r)))) = afi_safi_text fmt (a * 256 + b) d
family_text fmt v = ""

-- The entry that is made of it.
abbrev pub entry : Formats → ℕ × List ℕ → Entry
entry fmt (c, v) = (
  c,
  record {
    value = v;
    description =
        if c == 1 then base_description fmt c <> family_text fmt v else base_description fmt c;
  },
)

-- The data of one code, in order.
abbrev pub of_code : ℕ → List Entry → List CapabilityData
of_code k [] = []
of_code k ((c, d) ∷ es) = if k == c then d ∷ of_code k es else of_code k es

describe_lem :
    (fmt : Formats) (c : ℕ) (v : List ℕ)
    → IsCapability (c, v)
    → describe fmt c v
      ≡ ok (if c == 1 then base_description fmt c <> family_text fmt v else base_description fmt c)
unfolding describe
describe_lem fmt c v h = elim (Bool-cases (c == 1)) [ inr e ↦ rw e | inl e ↦ family v h e ]
  where
    family :
        (v : List ℕ)
        → IsCapability (c, v)
        → (c == 1) ≡ true
        → describe fmt c v
          ≡ ok (
              if c == 1
              then base_description fmt c <> family_text fmt v
              else base_description fmt c)
    family (w ∷ (x ∷ (y ∷ (z ∷ r)))) h e =
        let b : Slice = of_list (w ∷ (x ∷ (y ∷ (z ∷ r)))) in
        rw (
          e,
          describe,
          uint16_at-drop b 0 w x (y ∷ (z ∷ r)) refl,
          index-drop b 3 z r refl (omega arith),
        )
    family [] (inl n) e = absurd (n (==→≡ c 1 e))
    family [] (inr n) e = absurd (omega arith)
    family (w ∷ []) (inl n) e = absurd (n (==→≡ c 1 e))
    family (w ∷ []) (inr n) e = absurd (omega arith)
    family (w ∷ (x ∷ [])) (inl n) e = absurd (n (==→≡ c 1 e))
    family (w ∷ (x ∷ [])) (inr n) e = absurd (omega arith)
    family (w ∷ (x ∷ (y ∷ []))) (inl n) e = absurd (n (==→≡ c 1 e))
    family (w ∷ (x ∷ (y ∷ []))) (inr n) e = absurd (omega arith)

capability_turn-encode :
    (fmt : Formats) (b : Slice)
    → IsSlice b
    → (x : ℕ × List ℕ) (p : ℕ) (rest : List ℕ) → IsCapability x
    → drop p b.mem ≡ encode_capability x ++ rest
    → p + length (encode_capability x) ≤ b.len
    → (capability_turn fmt b p ≡ ok (next (entry fmt x) (p + length (encode_capability x))))
      × (0 < length (encode_capability x))
unfolding capability_turn
capability_turn-encode fmt b w (c, v) p rest h e n =
    let at1 : drop (p + 1) b.mem ≡ length v ∷ (v ++ rest) = drop_over b.mem p (c ∷ []) _ e in
    let at2 : drop (p + 2) b.mem ≡ v ++ rest = drop_over b.mem p (c ∷ length v ∷ []) _ e in
    (
      rw
          (
            index-drop b p c _ e (omega arith),
            index-drop b (p + 1) (length v) _ at1 (omega arith),
            copy_at-drop b (p + 2) v rest at2 (omega arith),
            describe_lem fmt c v h,
          )
          (ap (λ (q : ℕ). ok (next (entry fmt (c, v)) q)) (omega arith)),
      omega arith,
    )

put_all_lem :
    (caps : Capabilities) (es : List Entry) (k : ℕ)
    → or_empty (put_all caps es k) ≡ or_empty (caps k) ++ of_code k es
unfolding put_all put_capability
put_all_lem caps [] k = sym (append-nil (or_empty (caps k)))
put_all_lem caps ((c, d) ∷ es) k =
    put_all_lem (put_capability caps (c, d)) es k ∙ step (Bool-cases (k == c))
  where
    step :
        ((k == c) ≡ true) ⊎ ((k == c) ≡ false)
        → or_empty (put_capability caps (c, d) k) ++ of_code k es
          ≡ or_empty (caps k) ++ of_code k ((c, d) ∷ es)
    step (inr e) = rw (e, put_capability)
    step (inl e) =
        let same : or_empty (caps c) ≡ or_empty (caps k) =
          ap (λ (j : ℕ). or_empty (caps j)) (sym (==→≡ k c e)) in
        rw (e, put_capability, same) (append_assoc (or_empty (caps k)) (d ∷ []) (of_code k es))

-- Capabilities written one after the other, those of code 1 with four bytes at least, are kept
-- under their codes: each code has the values that were written with it, in order and with their
-- descriptions, and nothing else.
pub unmarshal_capability-encode :
    (fmt : Formats) (xs : List (ℕ × List ℕ)) (rest : List ℕ) (k : ℕ)
    → All IsCapability xs
    → (unmarshal_capability fmt (record {
      len = length (encode_all encode_capability xs);
      mem = encode_all encode_capability xs ++ rest;
    })
        >>= λ caps. ok (or_empty (caps k)))
      ≡ ok (of_code k (map (entry fmt) xs))
unfolding unmarshal_capability
unmarshal_capability-encode fmt xs rest k h =
    let code : List ℕ = encode_all encode_capability xs in
    let b : Slice = record { len = length code; mem = code ++ rest } in
    ap
      (λ (r : Res (List Entry)).
        (r >>= λ es. ok (put_all no_capabilities es)) >>= λ caps. ok (or_empty (caps k)))
      (scan-encode_map (capability_turn fmt) b (entry fmt) encode_capability IsCapability
        (capability_turn-encode fmt b (omega (arith, length-append code rest))) xs
        (suc (length code)) 0 rest h refl (omega arith) (omega arith))
    ∙ ap ok (put_all_lem no_capabilities (map (entry fmt) xs) k)
