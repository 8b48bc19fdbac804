-- ===== src/Bgp/ExtCommunity.antt =====
-- pkg/bgp/extended-community.go: extended communities, eight bytes each, and their texts.
pub mod Names
pub mod Text
pub mod RoundTrip
mod Tests
use gobmp.Prelude.{
  ℕ, zero, suc, ◌+◌, ◌-◌, ◌*◌, ◌%◌, ◌^◌, Bool, true, false, not, ◌||◌, List, [], ◌∷◌, ◌++◌, Option,
  none, some, length, take, replicate, ltb, ◌==◌, if◌then◌else◌, map,
}
use gobmp.Go.{
  bad_length, Res, ok, err, panic, ◌>>=◌, ◌>>◌, fail_if, Slice, bytes, of_list, index, slice,
  slice_from, be16, be32, uint16_at, uint32_at, copy_at, padded, nil_on_error,
}
use gobmp.Go.Scan.{Turn, next, scan}
use gobmp.Bgp.Texts.{Texts, ◌<>◌, text_of}

-- `none` stands for a nil `SubType`.
pub record ExtCommunity : Type 0 where
  pub ext_type : ℕ
  pub sub_type : Option ℕ
  pub value : List ℕ

-- `subType`, 0xff for a nil one.
abbrev pub sub_type_of : ExtCommunity → ℕ
sub_type_of e = elim e.sub_type [ none ↦ 0xff | some s ↦ s ]

pub is_route_target : ExtCommunity → Bool
is_route_target e = sub_type_of e == 2

-- `v := make([]byte, n); copy(v, b[p:])`
pub value_from : Slice → ℕ → ℕ → Res (List ℕ)
value_from b p n = do s ← slice_from b p; ok (padded n (bytes s))

-- `ext.Type & 0x3f` is the remainder by 64.
pub make_ext_community : Slice → Res ExtCommunity
make_ext_community b = do
  fail_if (not (b.len == 8)) bad_length
  t ← index b 0
  let c = t % 64
  if c == 0 || c == 1 || c == 2 || c == 6
      then (do
        s ← index b 1
        v ← value_from b 2 6
        ok (record { ext_type = t; sub_type = some s; value = v }))
      else if c == 3
      then (do
        s ← index b 1
        v ← value_from b 4 6
        ok (record { ext_type = t; sub_type = some s; value = v }))
      else (do v ← value_from b 1 7; ok (record { ext_type = t; sub_type = none; value = v }))

-- One turn of the loop of `UnmarshalBGPExtCommunity`.
pub ext_community_turn : Slice → ℕ → Res (Turn ExtCommunity)
ext_community_turn b p = do s ← slice b p (p + 8); e ← make_ext_community s; ok (next e (p + 8))

pub unmarshal_ext_community : Slice → Res (List ExtCommunity)
unmarshal_ext_community b = scan ext_community_turn (suc b.len) b 0
