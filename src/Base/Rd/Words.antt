-- ===== src/Base/Rd/Words.antt =====
-- The text of a route distinguisher by its layout (RFC 4364): an AS number or an address, and a number.
use Prim.Native.String.{String}
use gobmp.Prelude.{
  ℕ, ◌+◌, ◌*◌, ◌≤◌, ◌≡◌, refl, List, [], ◌∷◌, length, arith, if◌then◌else◌, ◌==◌, ◌⊎◌, inl, inr,
}
use gobmp.Go.{ok, of_list}
use gobmp.Go.Reads.{uint16_at-drop, uint32_at-drop, copy_at-drop, slice_from-drop}
use gobmp.Bgp.Texts.{Texts, ◌<>◌}
use gobmp.Base.Rd.{Rd, rd_text}
use gobmp.Base.Rd.RoundTrip.{IsRd}

-- Two bytes and four, or four and two.
abbrev pub words : Texts → ℕ → List ℕ → String
words t k (a ∷ (b ∷ (c ∷ (d ∷ (e ∷ (f ∷ r)))))) =
    if k == 0
    then t.decimal (a * 256 + b) <> ":" <> t.decimal (c * 16777216 + d * 65536 + e * 256 + f)
    else if k == 1
    then t.ip4 (a ∷ b ∷ c ∷ d ∷ []) <> ":" <> t.decimal (e * 256 + f)
    else t.decimal (a * 16777216 + b * 65536 + c * 256 + d) <> ":" <> t.decimal (e * 256 + f)
words t k v = ""

abbrev pub rd_words : Texts → Rd → String
rd_words t r = words t r.rd_type r.value

upto_two : (k : ℕ) → k ≤ 2 → (k ≡ 0) ⊎ ((k ≡ 1) ⊎ (k ≡ 2))
upto_two k h = ground arith

rd_text_of :
    (t : Texts) (k : ℕ) (v : List ℕ)
    → (k ≡ 0) ⊎ ((k ≡ 1) ⊎ (k ≡ 2))
    → length v ≡ 6
    → rd_text t (record { rd_type = k; value = v }) ≡ ok (words t k v)
unfolding rd_text
rd_text_of t k (a ∷ (b ∷ (c ∷ (d ∷ (e ∷ (f ∷ [])))))) (inl z) n =
    let v : List ℕ = a ∷ b ∷ c ∷ d ∷ e ∷ f ∷ [] in
    rw (
      z,
      uint16_at-drop (of_list v) 0 a b _ refl,
      slice_from-drop (of_list v) 2 (c ∷ d ∷ e ∷ f ∷ []) [] refl (omega arith),
    )
rd_text_of t k (a ∷ (b ∷ (c ∷ (d ∷ (e ∷ (f ∷ [])))))) (inr (inl z)) n =
    let v : List ℕ = a ∷ b ∷ c ∷ d ∷ e ∷ f ∷ [] in
    rw (
      z,
      copy_at-drop (of_list v) 0 (a ∷ b ∷ c ∷ d ∷ []) (e ∷ f ∷ []) refl (omega arith),
      slice_from-drop (of_list v) 4 (e ∷ f ∷ []) [] refl (omega arith),
    )
rd_text_of t k (a ∷ (b ∷ (c ∷ (d ∷ (e ∷ (f ∷ [])))))) (inr (inr z)) n =
    let v : List ℕ = a ∷ b ∷ c ∷ d ∷ e ∷ f ∷ [] in
    rw (
      z,
      uint32_at-drop (of_list v) 0 a b c d _ refl,
      slice_from-drop (of_list v) 4 (e ∷ f ∷ []) [] refl (omega arith),
    )
rd_text_of t k [] z n = absurd (omega arith)
rd_text_of t k (a ∷ []) z n = absurd (omega arith)
rd_text_of t k (a ∷ (b ∷ [])) z n = absurd (omega arith)
rd_text_of t k (a ∷ (b ∷ (c ∷ []))) z n = absurd (omega arith)
rd_text_of t k (a ∷ (b ∷ (c ∷ (d ∷ [])))) z n = absurd (omega arith)
rd_text_of t k (a ∷ (b ∷ (c ∷ (d ∷ (e ∷ []))))) z n = absurd (omega arith)
rd_text_of t k (a ∷ (b ∷ (c ∷ (d ∷ (e ∷ (f ∷ (g ∷ r))))))) z n = absurd (omega arith)

-- A route distinguisher of type 0, 1 or 2 has its text.
pub rd_text-rd_words : (t : Texts) (r : Rd) → IsRd r → rd_text t r ≡ ok (rd_words t r)
rd_text-rd_words t r h = rd_text_of t r.rd_type r.value (upto_two r.rd_type h.known) h.six
