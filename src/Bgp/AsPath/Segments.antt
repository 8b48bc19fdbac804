-- ===== src/Bgp/AsPath/Segments.antt =====
-- The AS_PATH decoders against the layout of path segments.
use gobmp.Prelude.{
  ◌<◌, ◌≢◌, ℕ, suc, ◌+◌, ◌*◌, ◌/◌, ◌%◌, ◌≤◌, ◌++◌, length-append, ◌≡◌, refl, ap, ◌∙◌, Bool, true,
  false, List, [], ◌∷◌, length, drop, arith, All, append_assoc, map, append-nil, ne→==,
}
use mathlib.Core.Path.{subst}
use gobmp.Go.{ok, Slice, IsSlice, index, slice_from, uint32_at, of_list}
use gobmp.Go.Reads.{index-drop, uint16_at-drop, uint32_at-drop, drop_over}
use gobmp.Go.Scan.{next, scan, encode_all, scan-encode_map}
use gobmp.Bgp.AsPath.{
  is_as_path4, width, as_number, as_numbers, segment_turn, join, segments, unmarshal_as_path,
  unmarshal_as4_path,
}

-- An AS number in four bytes or in two.
abbrev pub encode_as : Bool → ℕ → List ℕ
encode_as true a = (a / 16777216) ∷ (a / 65536 % 256) ∷ (a / 256 % 256) ∷ (a % 256) ∷ []
encode_as false a = (a / 256) ∷ (a % 256) ∷ []

-- A segment: its type and its numbers.
pub record Segment : Type 0 where
  pub segment_type : ℕ
  pub numbers : List ℕ

abbrev pub encode_segment : Bool → Segment → List ℕ
encode_segment four s = s.segment_type ∷ length s.numbers ∷ encode_all (encode_as four) s.numbers

length-encode_as : (four : Bool) (a : ℕ) → length (encode_as four a) ≡ width four
length-encode_as true a = refl
length-encode_as false a = refl

length-numbers :
    (four : Bool) (xs : List ℕ) → length (encode_all (encode_as four) xs) ≡ length xs * width four
length-numbers true [] = refl
length-numbers false [] = refl
length-numbers true (x ∷ xs) = omega (arith, length-numbers true xs)
length-numbers false (x ∷ xs) = omega (arith, length-numbers false xs)

as_number-encode :
    (four : Bool) (b : Slice) (p a : ℕ) (rest : List ℕ)
    → drop p b.mem ≡ encode_as four a ++ rest
    → as_number four b p ≡ ok a
unfolding as_number
as_number-encode true b p a rest e = uint32_at-drop b p _ _ _ _ rest e ∙ ap ok (omega arith)
as_number-encode false b p a rest e = uint16_at-drop b p _ _ rest e ∙ ap ok (omega arith)

as_numbers-encode :
    (four : Bool) (b : Slice) (xs : List ℕ) (p : ℕ) (rest : List ℕ)
    → drop p b.mem ≡ encode_all (encode_as four) xs ++ rest
    → as_numbers four (length xs) b p ≡ ok xs
unfolding as_numbers
as_numbers-encode four b [] p rest e = refl
as_numbers-encode four b (x ∷ xs) p rest e =
    let e' : drop p b.mem ≡ encode_as four x ++ (encode_all (encode_as four) xs ++ rest) =
      e ∙ append_assoc (encode_as four x) (encode_all (encode_as four) xs) rest in
    let next_at : drop (p + width four) b.mem ≡ encode_all (encode_as four) xs ++ rest =
      rw (← length-encode_as four x) (drop_over b.mem p (encode_as four x) _ e') in
    rw (as_number-encode four b p x _ e', as_numbers-encode four b xs (p + width four) rest next_at)

segment_turn-encode :
    (four : Bool) (b : Slice)
    → IsSlice b
    → (s : Segment) (p : ℕ) (rest : List ℕ) → drop p b.mem ≡ encode_segment four s ++ rest
    → p + length (encode_segment four s) ≤ b.len
    → segment_turn four b p ≡ ok (next s.numbers (p + length (encode_segment four s)))
unfolding segment_turn
segment_turn-encode four b w s p rest e n =
    let l : ℕ = length s.numbers in
    let at1 : drop (p + 1) b.mem ≡ l ∷ (encode_all (encode_as four) s.numbers ++ rest) =
      drop_over b.mem p (s.segment_type ∷ []) _ e in
    let at2 : drop (p + 2) b.mem ≡ encode_all (encode_as four) s.numbers ++ rest =
      drop_over b.mem p (s.segment_type ∷ l ∷ []) _ e in
    rw
      (
        index-drop b (p + 1) _ _ at1 (omega arith),
        as_numbers-encode four b s.numbers (p + 2) rest at2,
      )
      (ap (λ (q : ℕ). ok (next s.numbers q)) (omega (arith, length-numbers four s.numbers)))

join-map : (ss : List Segment) → join (map (λ s. s.numbers) ss) ≡ encode_all (λ s. s.numbers) ss
unfolding join
join-map [] = refl
join-map (s ∷ ss) = ap (λ t. s.numbers ++ t) (join-map ss)

-- The numbers of all segments, in order.
abbrev pub all_numbers : List Segment → List ℕ
all_numbers ss = encode_all (λ s. s.numbers) ss

segments-encode :
    (four : Bool) (ss : List Segment) (rest : List ℕ)
    → segments four (record {
      len = length (encode_all (encode_segment four) ss);
      mem = encode_all (encode_segment four) ss ++ rest;
    })
      ≡ ok (all_numbers ss)
unfolding segments
segments-encode four ss rest =
    let code : List ℕ = encode_all (encode_segment four) ss in
    let b : Slice = record { len = length code; mem = code ++ rest } in
    let w : IsSlice b = omega (arith, length-append code rest) in
    rw
      (scan-encode_map (segment_turn four) b (λ (s : Segment). s.numbers) (encode_segment four)
        (λ s. Unit {0}) (λ s p r h e n. (segment_turn-encode four b w s p r e n, omega arith)) ss
        (suc (length code)) 0 rest (all_unit ss) refl (omega arith) (omega arith))
      (ap ok (join-map ss))
  where
    all_unit : (ss : List Segment) → All (λ s. Unit {0}) ss
    all_unit [] = tt
    all_unit (s ∷ ss) = (tt, all_unit ss)

-- AS4_PATH: the numbers of all segments are read back, in order, whatever follows the slice.
pub unmarshal_as4_path-encode :
    (ss : List Segment) (rest : List ℕ)
    → unmarshal_as4_path (record {
      len = length (encode_all (encode_segment true) ss);
      mem = encode_all (encode_segment true) ss ++ rest;
    })
      ≡ ok (all_numbers ss)
unfolding unmarshal_as4_path
unmarshal_as4_path-encode ss rest = segments-encode true ss rest

-- One segment of at least one number settles the guess of the width.
is_as_path4_one :
    (four : Bool) (t a : ℕ) (xs rest : List ℕ)
    → is_as_path4 (record {
      len = length (encode_segment four (record { segment_type = t; numbers = a ∷ xs }));
      mem = encode_segment four (record { segment_type = t; numbers = a ∷ xs }) ++ rest;
    })
      ≡ ok four
unfolding is_as_path4 index slice_from
is_as_path4_one true t a xs rest = ground (arith, length-numbers true xs)
is_as_path4_one false t a xs rest = ground (arith, length-numbers false xs)

pub unmarshal_as_path_empty :
    (rest : List ℕ) → unmarshal_as_path (record { len = 0; mem = rest }) ≡ ok []
unfolding unmarshal_as_path
unmarshal_as_path_empty rest = refl

-- AS_PATH of one segment with at least one number: the decoder finds the width by itself and reads
-- the numbers back, be they written in two bytes or in four.
pub unmarshal_as_path_one_segment :
    (four : Bool) (t a : ℕ) (xs rest : List ℕ)
    → unmarshal_as_path (record {
      len = length (encode_segment four (record { segment_type = t; numbers = a ∷ xs }));
      mem = encode_segment four (record { segment_type = t; numbers = a ∷ xs }) ++ rest;
    })
      ≡ ok (a ∷ xs)
unfolding unmarshal_as_path
unmarshal_as_path_one_segment four t a xs rest =
    let s : Segment = record { segment_type = t; numbers = a ∷ xs } in
    let read : segments four
          (record { len = length (encode_segment four s); mem = encode_segment four s ++ rest })
        ≡ ok (a ∷ xs) =
      subst
        (λ (code : List ℕ).
          segments four (record { len = length code; mem = code ++ rest }) ≡ ok ((a ∷ xs) ++ []))
        (append-nil (encode_segment four s)) (segments-encode four (s ∷ []) rest)
      ∙ ap ok (append-nil (a ∷ xs)) in
    rw (ne→== (length (encode_segment four s)) 0 (omega arith), is_as_path4_one four t a xs rest)
      read

unmarshal_as_path_two_segments :
    (t u a b c : ℕ)
    → unmarshal_as_path (
        of_list (
          encode_all (encode_segment false) (
            (record { segment_type = t; numbers = a ∷ b ∷ [] })
            ∷ (record { segment_type = u; numbers = c ∷ [] })
            ∷ [])))
      ≡ ok ((a * 65536 + b) ∷ (u * 16777216 + 65536 + c) ∷ [])
unfolding unmarshal_as_path is_as_path4 index slice_from uint32_at as_number segments segment_turn
    as_numbers scan join
unmarshal_as_path_two_segments t u a b c = ground arith

-- AS_PATH of two segments in two-byte numbers, of two numbers and of one, where the first number is
-- not 0: two numbers are returned, and neither is one of the three numbers of the path.
pub unmarshal_as_path_misread :
    (t u a b c : ℕ)
    → 0 < a
    → a < 65536
    → b < 65536
    → c < 65536
    → (x : ℕ) × (y : ℕ) × (unmarshal_as_path (
          of_list (
            encode_all (encode_segment false) (
              (record { segment_type = t; numbers = a ∷ b ∷ [] })
              ∷ (record { segment_type = u; numbers = c ∷ [] })
              ∷ [])))
        ≡ ok (x ∷ y ∷ []))
      × ((x ≢ a) × (x ≢ b) × (x ≢ c))
      × ((y ≢ a) × (y ≢ b) × (y ≢ c))
unmarshal_as_path_misread t u a b c pos ha hb hc = (
  a * 65536 + b,
  u * 16777216 + 65536 + c,
  unmarshal_as_path_two_segments t u a b c,
  ((λ e. omega arith), (λ e. omega arith), (λ e. omega arith)),
  ((λ e. omega arith), (λ e. omega arith), (λ e. omega arith)),
)
