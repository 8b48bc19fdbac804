-- ===== src/Bgp/ExtCommunity/RoundTrip.antt =====
-- What eight bytes mean as an extended community, by their type.
use gobmp.Prelude.{
  ℕ, suc, ◌+◌, ◌%◌, ◌≤◌, ◌<◌, ◌++◌, ◌≡◌, refl, Bool, ◌||◌, List, [], ◌∷◌, none, some, length, drop,
  map, arith, ◌==◌, if◌then◌else◌, All, length-append,
}
use gobmp.Go.{ok, Slice, IsSlice, index, slice_from}
use gobmp.Go.Reads.{slice-drop}
use gobmp.Go.Scan.{next, encode_all, scan-encode_map}
use gobmp.Bgp.ExtCommunity.{
  ExtCommunity, value_from, make_ext_community, ext_community_turn, unmarshal_ext_community,
}

-- Eight bytes.
pub record Raw : Type 0 where
  pub t : ℕ
  pub s : ℕ
  pub a : ℕ
  pub b : ℕ
  pub c : ℕ
  pub d : ℕ
  pub e : ℕ
  pub f : ℕ

abbrev pub encode_raw : Raw → List ℕ
encode_raw r = r.t ∷ r.s ∷ r.a ∷ r.b ∷ r.c ∷ r.d ∷ r.e ∷ r.f ∷ []

-- The types whose low six bits are 0, 1, 2 or 6 have a subtype and a value of six bytes.
abbrev pub has_six : Raw → Bool
has_six r = r.t % 64 == 0 || r.t % 64 == 1 || r.t % 64 == 2 || r.t % 64 == 6

-- For 3 the two bytes behind the subtype are reserved, and zeros stand at the end of the value. Every
-- other type has no subtype.
abbrev pub meaning : Raw → ExtCommunity
meaning r =
    if has_six r
    then record {
      ext_type = r.t;
      sub_type = some r.s;
      value = r.a ∷ r.b ∷ r.c ∷ r.d ∷ r.e ∷ r.f ∷ [];
    }
    else if r.t % 64 == 3
    then record { ext_type = r.t; sub_type = some r.s; value = r.c ∷ r.d ∷ r.e ∷ r.f ∷ 0 ∷ 0 ∷ [] }
    else record {
      ext_type = r.t;
      sub_type = none;
      value = r.s ∷ r.a ∷ r.b ∷ r.c ∷ r.d ∷ r.e ∷ r.f ∷ [];
    }

make_ext_community-encode_raw :
    (r : Raw) (rest : List ℕ)
    → make_ext_community (record { len = 8; mem = encode_raw r ++ rest }) ≡ ok (meaning r)
unfolding make_ext_community value_from index slice_from
make_ext_community-encode_raw r rest = ground arith

ext_community_turn-encode_raw :
    (b : Slice)
    → IsSlice b
    → (r : Raw) (p : ℕ) (rest : List ℕ) → Unit {0}
    → drop p b.mem ≡ encode_raw r ++ rest
    → p + length (encode_raw r) ≤ b.len
    → (ext_community_turn b p ≡ ok (next (meaning r) (p + length (encode_raw r))))
      × (0 < length (encode_raw r))
unfolding ext_community_turn
ext_community_turn-encode_raw b w r p rest u e n = (
  rw (slice-drop b p (encode_raw r) rest e (omega arith), make_ext_community-encode_raw r rest),
  omega arith,
)

pub units : (rs : List Raw) → All (λ r. Unit {0}) rs
units [] = tt
units (r ∷ rs) = (tt, units rs)

-- Every sequence of eight bytes, whatever follows the slice, is read as an extended community, in
-- order: what the bytes mean is settled by the low six bits of the type.
pub unmarshal_ext_community-encode :
    (rs : List Raw) (rest : List ℕ)
    → unmarshal_ext_community
        (record { len = length (encode_all encode_raw rs); mem = encode_all encode_raw rs ++ rest })
      ≡ ok (map meaning rs)
unfolding unmarshal_ext_community
unmarshal_ext_community-encode rs rest =
    let code : List ℕ = encode_all encode_raw rs in
    let b : Slice = record { len = length code; mem = code ++ rest } in
    scan-encode_map ext_community_turn b meaning encode_raw (λ r. Unit {0})
      (ext_community_turn-encode_raw b (omega (arith, length-append code rest))) rs
      (suc (length code)) 0 rest (units rs) refl (omega arith) (omega arith)
