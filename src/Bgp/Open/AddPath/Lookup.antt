-- ===== src/Bgp/Open/AddPath/Lookup.antt =====
-- The map that stands for Go's `map[int]bool`: what `insert` leaves to be found.
use gobmp.Prelude.{ℕ, Bool, false, [], ◌∷◌, ◌≡◌, ◌==◌, some, inl, inr, Bool-cases, ==_refl, ==→≡}
use gobmp.Bgp.Open.AddPath.{PathMap, lookup, insert}

pub lookup-insert_eq : (k : ℕ) (v : Bool) (m : PathMap) → lookup k (insert k v m) ≡ some v
unfolding lookup insert
lookup-insert_eq k v [] = rw (==_refl k)
lookup-insert_eq k v ((j, w) ∷ m) = elim (Bool-cases (j == k)) [
  | inl e ↦ rw (e, insert, ==_refl k)
  | inr e ↦ rw (e, insert, e, lookup) (lookup-insert_eq k v m)
]

pub lookup-insert_ne :
    (k j : ℕ) (v : Bool) (m : PathMap) → (j == k) ≡ false → lookup k (insert j v m) ≡ lookup k m
unfolding lookup insert
lookup-insert_ne k j v [] h = rw h
lookup-insert_ne k j v ((i, w) ∷ m) h = elim (Bool-cases (i == j)) [
  | inl e ↦ rw (==→≡ i j e, ==_refl j, h)
  | inr e ↦ elim (Bool-cases (i == k)) [
    | inl f ↦ rw (e, insert, f, lookup)
    | inr f ↦ rw (e, insert, f, lookup) (lookup-insert_ne k j v m h)
  ]
]
