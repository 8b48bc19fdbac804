-- ===== src/Bgp/AsPath.antt =====
-- The AS_PATH decoders of pkg/bgp/bgp-base-attributes.go.
pub mod Segments
mod Tests
use gobmp.Prelude.{
  ℕ, zero, suc, ◌+◌, ◌*◌, ◌-◌, Bool, true, false, ◌||◌, List, [], ◌∷◌, ◌++◌, ltb, ◌==◌,
  if◌then◌else◌,
}
use gobmp.Go.{Res, ok, ◌>>=◌, Slice, index, slice_from, uint16_at, uint32_at}
use gobmp.Go.Scan.{Turn, next, scan}

-- The segment type of the byte behind a guessed segment: AS_SET or AS_SEQUENCE.
abbrev is_segment : ℕ → Bool
is_segment x = x == 1 || x == 2

-- `isASPath4` guesses the width of the numbers from the first segment's length.
pub is_as_path4 : Slice → Res Bool
is_as_path4 b = do
  l ← index b 1
  rest ← slice_from b 2
  if l * 4 == rest.len then ok true else if l * 2 == rest.len then ok false else do
    four ←
        (if ltb (2 + l * 4) b.len
          then (do x ← index b (2 + l * 4); ok (is_segment x))
          else ok false)
    if four then ok true else do
      two ←
          (if ltb (2 + l * 2) b.len
            then (do x ← index b (2 + l * 2); ok (is_segment x))
            else ok false)
      if two then ok false else ok false

abbrev pub width : Bool → ℕ
width four = if four then 4 else 2

as_number : Bool → Slice → ℕ → Res ℕ
as_number true b p = uint32_at b p
as_number false b p = uint16_at b p

-- `for n := 0; n < l; n++`, with the count of the numbers still to read.
as_numbers : Bool → ℕ → Slice → ℕ → Res (List ℕ)
as_numbers four zero b p = ok []
as_numbers four (suc n) b p = do
  a ← as_number four b p
  rest ← as_numbers four n b (p + width four)
  ok (a ∷ rest)

-- One turn: the segment's type is skipped.
segment_turn : Bool → Slice → ℕ → Res (Turn (List ℕ))
segment_turn four b p = do
  l ← index b (p + 1)
  path ← as_numbers four l b (p + 2)
  ok (next path (p + 2 + l * width four))

pub join : List (List ℕ) → List ℕ
join [] = []
join (s ∷ ss) = s ++ join ss

segments : Bool → Slice → Res (List ℕ)
segments four b = do ss ← scan (segment_turn four) (suc b.len) b 0; ok (join ss)

-- `unmarshalAttrASPath`
pub unmarshal_as_path : Slice → Res (List ℕ)
unmarshal_as_path b = if b.len == 0 then ok [] else do four ← is_as_path4 b; segments four b

-- `unmarshalAttrAS4Path`
pub unmarshal_as4_path : Slice → Res (List ℕ)
unmarshal_as4_path b = segments true b
