-- ===== src/Bgp/Attributes/Values.antt =====
-- The lists inside base attributes: communities, clusters and large communities, read back.
use Prim.Native.String.{String}
use gobmp.Prelude.{
  ℕ, suc, ◌+◌, ◌*◌, ◌/◌, ◌%◌, ◌≤◌, ◌<◌, ◌++◌, ◌≡◌, refl, ap, List, [], ◌∷◌, length, drop, map,
  arith, length-append, All,
}
use gobmp.Go.{ok, Slice, IsSlice}
use gobmp.Go.Reads.{uint32_at-drop, copy_at_sized, slice-drop}
use gobmp.Go.Scan.{next, encode_all, scan-encode_all, scan-encode_map}
use gobmp.Bgp.Texts.{◌<>◌}
use gobmp.Bgp.Attributes.{
  Formats, LgCommunity, community_turn, get_community, cluster_turn, get_cluster_id,
  make_lg_community, lg_community_turn, unmarshal_lg_community, community_text, unmarshal_community,
  cluster_text, unmarshal_cluster_list, lg_community_text, unmarshal_attr_lg_community,
}

abbrev pub encode32 : ℕ → List ℕ
encode32 n = (n / 16777216) ∷ (n / 65536 % 256) ∷ (n / 256 % 256) ∷ (n % 256) ∷ []

-- A community: two numbers of two bytes.
abbrev pub encode_pair : ℕ × ℕ → List ℕ
encode_pair (x, y) = (x / 256) ∷ (x % 256) ∷ (y / 256) ∷ (y % 256) ∷ []

abbrev pub IsPair : ℕ × ℕ → Type 0
IsPair (x, y) = (x < 65536) × (y < 65536)

abbrev pub pair_text : Formats → ℕ × ℕ → String
pair_text fmt (x, y) = fmt.texts.decimal x <> ":" <> fmt.texts.decimal y

abbrev number : ℕ × ℕ → ℕ
number (x, y) = x * 65536 + y

community_turn-encode :
    (b : Slice) (c : ℕ × ℕ) (p : ℕ) (rest : List ℕ)
    → IsPair c
    → drop p b.mem ≡ encode_pair c ++ rest
    → p + length (encode_pair c) ≤ b.len
    → (community_turn b p ≡ ok (next (number c) (p + length (encode_pair c))))
      × (0 < length (encode_pair c))
unfolding community_turn
community_turn-encode b (x, y) p rest h e n =
    let sum : x / 256 * 16777216 + x % 256 * 65536 + y / 256 * 256 + y % 256 ≡ x * 65536 + y =
      omega arith in
    (rw (uint32_at-drop b p _ _ _ _ rest e, sum), omega arith)

community_texts :
    (fmt : Formats) (cs : List (ℕ × ℕ))
    → All IsPair cs
    → map (community_text fmt) (map number cs) ≡ map (pair_text fmt) cs
unfolding community_text
community_texts fmt [] h = refl
community_texts fmt ((x, y) ∷ cs) ((hx, hy), hs) =
    let high : (x * 65536 + y) / 65536 % 65536 ≡ x = omega arith in
    let low : (x * 65536 + y) % 65536 ≡ y = omega arith in rw (high, low, community_texts fmt cs hs)

pub unmarshal_community-encode :
    (fmt : Formats) (cs : List (ℕ × ℕ)) (rest : List ℕ)
    → All IsPair cs
    → unmarshal_community fmt (record {
      len = length (encode_all encode_pair cs);
      mem = encode_all encode_pair cs ++ rest;
    })
      ≡ ok (map (pair_text fmt) cs)
unfolding unmarshal_community get_community
unmarshal_community-encode fmt cs rest h =
    let code : List ℕ = encode_all encode_pair cs in
    let b : Slice = record { len = length code; mem = code ++ rest } in
    rw
      (scan-encode_map community_turn b number encode_pair IsPair (community_turn-encode b) cs
        (suc (length code)) 0 rest h refl (omega arith) (omega arith))
      (ap ok (community_texts fmt cs h))

-- A cluster is four bytes.
abbrev pub IsCluster : List ℕ → Type 0
IsCluster c = length c ≡ 4

abbrev pub commas : List String → String
commas [] = ""
commas (x ∷ []) = x
commas (x ∷ (y ∷ ys)) = x <> ", " <> commas (y ∷ ys)

cluster_text-commas :
    (fmt : Formats) (cs : List (List ℕ)) → cluster_text fmt cs ≡ commas (map fmt.texts.ip4 cs)
unfolding cluster_text
cluster_text-commas fmt [] = refl
cluster_text-commas fmt (c ∷ []) = refl
cluster_text-commas fmt (c ∷ (d ∷ cs)) = rw (cluster_text-commas fmt (d ∷ cs))

cluster_turn-encode :
    (b : Slice)
    → IsSlice b
    → (c : List ℕ) (p : ℕ) (rest : List ℕ) → IsCluster c
    → drop p b.mem ≡ c ++ rest
    → p + length c ≤ b.len
    → (cluster_turn b p ≡ ok (next c (p + length c))) × (0 < length c)
unfolding cluster_turn
cluster_turn-encode b w c p rest h e n =
    (rw (copy_at_sized b p 4 c rest h e (omega arith), h), omega arith)

pub unmarshal_cluster_list-encode :
    (fmt : Formats) (cs : List (List ℕ)) (rest : List ℕ)
    → All IsCluster cs
    → unmarshal_cluster_list fmt
        (record { len = length (encode_all (λ c. c) cs); mem = encode_all (λ c. c) cs ++ rest })
      ≡ ok (commas (map fmt.texts.ip4 cs))
unfolding unmarshal_cluster_list get_cluster_id
unmarshal_cluster_list-encode fmt cs rest h =
    let code : List ℕ = encode_all (λ c. c) cs in
    let b : Slice = record { len = length code; mem = code ++ rest } in
    rw
      (scan-encode_all cluster_turn b (λ c. c) IsCluster
        (cluster_turn-encode b (omega (arith, length-append code rest))) cs (suc (length code)) 0
        rest h refl (omega arith) (omega arith))
      (ap ok (cluster_text-commas fmt cs))

-- A large community: three numbers of four bytes.
abbrev pub encode_lg : LgCommunity → List ℕ
encode_lg g = encode32 g.global_admin ++ encode32 g.local_data1 ++ encode32 g.local_data2

abbrev pub lg_text : Formats → LgCommunity → String
lg_text fmt g =
    fmt.texts.decimal g.global_admin
    <> ":"
    <> fmt.texts.decimal g.local_data1
    <> ":"
    <> fmt.texts.decimal g.local_data2

pub whole32 :
    (n : ℕ) → n / 16777216 * 16777216 + n / 65536 % 256 * 65536 + n / 256 % 256 * 256 + n % 256 ≡ n
whole32 n = omega arith

make_lg_community-encode :
    (g : LgCommunity) (rest : List ℕ)
    → make_lg_community (record { len = 12; mem = encode_lg g ++ rest }) ≡ ok g
unfolding make_lg_community
make_lg_community-encode g rest =
    let b : Slice = record { len = 12; mem = encode_lg g ++ rest } in
    rw (
      uint32_at-drop b 0 _ _ _ _ _ refl,
      uint32_at-drop b 4 _ _ _ _ _ refl,
      uint32_at-drop b 8 _ _ _ _ _ refl,
      whole32 g.global_admin,
      whole32 g.local_data1,
      whole32 g.local_data2,
    )

lg_turn-encode :
    (b : Slice)
    → IsSlice b
    → (g : LgCommunity) (p : ℕ) (rest : List ℕ) → Unit {0}
    → drop p b.mem ≡ encode_lg g ++ rest
    → p + length (encode_lg g) ≤ b.len
    → (lg_community_turn b p ≡ ok (next g (p + length (encode_lg g)))) × (0 < length (encode_lg g))
unfolding lg_community_turn
lg_turn-encode b w g p rest h e n = (
  rw (slice-drop b p (encode_lg g) rest e (omega arith), make_lg_community-encode g rest),
  omega arith,
)

nothing_asked : (gs : List LgCommunity) → All (λ g. Unit {0}) gs
nothing_asked [] = tt
nothing_asked (g ∷ gs) = (tt, nothing_asked gs)

lg_texts :
    (fmt : Formats) (gs : List LgCommunity) → map (lg_community_text fmt) gs ≡ map (lg_text fmt) gs
unfolding lg_community_text
lg_texts fmt gs = refl

pub unmarshal_attr_lg_community-encode :
    (fmt : Formats) (gs : List LgCommunity) (rest : List ℕ)
    → unmarshal_attr_lg_community fmt
        (record { len = length (encode_all encode_lg gs); mem = encode_all encode_lg gs ++ rest })
      ≡ ok (map (lg_text fmt) gs)
unfolding unmarshal_attr_lg_community unmarshal_lg_community
unmarshal_attr_lg_community-encode fmt gs rest =
    let code : List ℕ = encode_all encode_lg gs in
    let b : Slice = record { len = length code; mem = code ++ rest } in
    rw
      (scan-encode_all lg_community_turn b encode_lg (λ g. Unit {0})
        (lg_turn-encode b (omega (arith, length-append code rest))) gs (suc (length code)) 0 rest
        (nothing_asked gs) refl (omega arith) (omega arith))
      (ap ok (lg_texts fmt gs))
