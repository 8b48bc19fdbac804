-- ===== src/Bgp/Open/AddPath.antt =====
-- `AddPathCapability` of pkg/bgp/bgp-open.go.
pub mod Lookup
use gobmp.Prelude.{
  ℕ, zero, suc, ◌+◌, ◌*◌, ◌%◌, Bool, false, List, [], ◌∷◌, Option, none, some, length, ◌==◌,
  if◌then◌else◌,
}
use gobmp.Bgp.Open.{OpenMessage}
use gobmp.Bgp.Nlri.{nlri_message_type}

-- `map[int]bool`, by address family code.
abbrev pub PathMap : Type 0
PathMap = List (ℕ × Bool)

unfoldable pub lookup : ℕ → PathMap → Option Bool
lookup k [] = none
lookup k ((j, v) ∷ m) = if j == k then some v else lookup k m

unfoldable pub insert : ℕ → Bool → PathMap → PathMap
insert k v [] = (k, v) ∷ []
insert k v ((j, w) ∷ m) = if j == k then (k, v) ∷ m else (j, w) ∷ insert k v m

-- The loop over four bytes at a time: family, subsequent family, send/receive.
unfoldable pub read_entries : PathMap → List ℕ → PathMap
read_entries m (a ∷ (b ∷ (c ∷ (d ∷ r)))) =
    read_entries (insert (nlri_message_type (a * 256 + b) c) (d == 3) m) r
read_entries m _ = m

unfoldable pub add_path_capability : OpenMessage → PathMap
add_path_capability o = elim (o.capabilities 69) [
  | none ↦ []
  | some vs ↦ elim vs [
    | [] ↦ []
    | v ∷ more ↦ elim more [
      | [] ↦ if length v.value % 4 == 0 then read_entries [] v.value else []
      | w ∷ r ↦ []
    ]
  ]
]

-- `m[k]`, false where the map has no entry.
unfoldable pub entry : PathMap → ℕ → Bool
entry m k = elim (lookup k m) [ none ↦ false | some v ↦ v ]
