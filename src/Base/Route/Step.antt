-- ===== src/Base/Route/Step.antt =====
-- One turn of the route decoder, and the layout of a route.
use gobmp.Prelude.{
  ℕ, ◌+◌, ◌*◌, ◌/◌, ◌%◌, ◌<◌, ◌≤◌, ◌++◌, ◌≡◌, refl, sym, ap, ◌∙◌, Bool, true, false, List, [], ◌∷◌,
  none, length, drop, arith, ltb, leb, le→ltb, ltb→le, lt→leb, Bool-cases, inl, inr,
}
use gobmp.Go.{Error, short_input, ok, Slice, IsSlice}
use gobmp.Go.Reads.{
  index-drop, uint32_at-drop, copy_at-drop, index_total, uint32_at_total, copy_at_total, drop_over,
}
use gobmp.Go.Scan.{next, Advances}
use gobmp.Base.Route.{Route, prefix_bytes, route_body, route_turn}

-- The only error of the decoder.
abbrev pub IsShort : Error → Type 0
IsShort e = e ≡ short_input

route_body-Advances :
    (b : Slice)
    → IsSlice b
    → (id p q : ℕ) → p < b.len
    → q ≤ p
    → Advances IsShort q (route_body b id p)
unfolding route_body
route_body-Advances b w id p q h qp =
    let (n, en) = index_total b p w h in
    elim (Bool-cases (ltb b.len (p + 1 + prefix_bytes n))) [
      | inl e ↦ rw (en, le→ltb b.len (p + 1) (omega arith), e, Advances) refl
      | inr e ↦
          rw
            (
              en,
              le→ltb b.len (p + 1) (omega arith),
              e,
              copy_at_total b (p + 1) (prefix_bytes n)
                  (omega (arith, ltb→le b.len (p + 1 + prefix_bytes n) e)),
              Advances,
            )
            (omega arith)
    ]

pub route_turn-Advances :
    (b : Slice)
    → IsSlice b
    → (flag : Bool) (p : ℕ) → p < b.len
    → Advances IsShort p (route_turn flag b p)
unfolding route_turn
route_turn-Advances b w false p h = route_body-Advances b w 0 p p h (omega arith)
route_turn-Advances b w true p h =
    let (n, en) = index_total b p w h in
    elim (Bool-cases (ltb b.len (p + 4))) [
      | inl e ↦ rw (en, e, Advances) refl
      | inr e ↦
          let (id, ei) = uint32_at_total b p (omega (arith, ltb→le b.len (p + 4) e)) in
          elim (Bool-cases (leb b.len (p + 4))) [
            | inl e' ↦ rw (en, e, ei, e', Advances) refl
            | inr e' ↦
                rw (en, e, ei, e')
                  (route_body-Advances b w id (p + 4) p (ground arith) (omega arith))
          ]
    ]

abbrev pub encode32 : ℕ → List ℕ
encode32 n = (n / 16777216) ∷ (n / 65536 % 256) ∷ (n / 256 % 256) ∷ (n % 256) ∷ []

abbrev pub encode_route : Bool → Route → List ℕ
encode_route false r = r.length ∷ r.prefix
encode_route true r = encode32 r.path_id ++ (r.length ∷ r.prefix)

-- A plain route: as many prefix bytes as its length in bits needs, no label, no distinguisher,
-- and without the flag no path identifier.
pub record IsRoute (flag : Bool) (r : Route) : Type 0 where
  pub sized : length r.prefix ≡ (r.length + 7) / 8
  pub no_label : r.label ≡ []
  pub no_rd : r.rd ≡ none
  pub no_id : flag ≡ false → r.path_id ≡ 0

abbrev plain : ℕ → ℕ → List ℕ → Route
plain id n v = record { path_id = id; length = n; label = []; rd = none; prefix = v }

prefix_bytes_lem : (n : ℕ) → prefix_bytes n ≡ (n + 7) / 8
unfolding prefix_bytes
prefix_bytes_lem n = ground arith

route_body-encode :
    (b : Slice) (id p n : ℕ) (v rest : List ℕ)
    → IsSlice b
    → length v ≡ (n + 7) / 8
    → drop p b.mem ≡ n ∷ (v ++ rest)
    → p + 1 + length v ≤ b.len
    → route_body b id p ≡ ok (next (plain id n v) (p + 1 + length v))
unfolding route_body
route_body-encode b id p n v rest w sized e h = rw (
  index-drop b p n (v ++ rest) e (omega arith),
  le→ltb b.len (p + 1) (omega arith),
  prefix_bytes_lem n,
  ← sized,
  le→ltb b.len (p + 1 + length v) h,
  copy_at-drop b (p + 1) v rest (drop_over b.mem p (n ∷ []) (v ++ rest) e) (omega arith),
)

route_moved :
    (flag : Bool) (r : Route) (p q : ℕ)
    → IsRoute flag r
    → p ≡ q
    → ok (next (plain r.path_id r.length r.prefix) p) ≡ ok (next r q)
route_moved flag r p q h e = ground (arith, h.no_label, h.no_rd)

pub route_turn-encode :
    (flag : Bool) (b : Slice)
    → IsSlice b
    → (r : Route) (p : ℕ) (rest : List ℕ) → IsRoute flag r
    → drop p b.mem ≡ encode_route flag r ++ rest
    → p + length (encode_route flag r) ≤ b.len
    → (route_turn flag b p ≡ ok (next r (p + length (encode_route flag r))))
      × (0 < length (encode_route flag r))
unfolding route_turn
route_turn-encode false b w r p rest h e n = (
  rw (route_body-encode b 0 p r.length r.prefix rest w h.sized e (omega arith)) (
      ap (λ (i : ℕ). ok (next (plain i r.length r.prefix) (p + 1 + length r.prefix)))
        (sym (h.no_id refl))
      ∙ route_moved false r _ _ h (omega arith)),
  omega arith,
)
route_turn-encode true b w r p rest h e n =
    let id : ℕ = r.path_id in
    let word : id / 16777216 * 16777216 + id / 65536 % 256 * 65536 + id / 256 % 256 * 256 + id % 256
        ≡ id =
      omega arith in
    let at4 : drop (p + 4) b.mem ≡ r.length ∷ (r.prefix ++ rest) =
      drop_over b.mem p (encode32 id) _ e in
    (
      rw
          (
            index-drop b p _ _ e (omega arith),
            le→ltb b.len (p + 4) (omega arith),
            uint32_at-drop b p _ _ _ _ _ e,
            word,
            lt→leb b.len (p + 4) (omega arith),
            route_body-encode b id (p + 4) r.length r.prefix rest w h.sized at4 (omega arith),
          )
          (route_moved true r _ _ h (omega arith)),
      omega arith,
    )
