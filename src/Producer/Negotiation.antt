-- ===== src/Producer/Negotiation.antt =====
-- What the producer knows of an address family after the negotiation.
use gobmp.Prelude.{
  ℕ, Bool, false, [], ◌∷◌, ◌≡◌, refl, ◌==◌, Option, none, some, inl, inr, Bool-cases, ==→≡,
}
use gobmp.Bgp.Open.AddPath.{PathMap, lookup, insert}
use gobmp.Bgp.Open.AddPath.Lookup.{lookup-insert_eq, lookup-insert_ne}
use gobmp.Producer.{negotiate}

-- The entry of a family that both sides announce: the remote's; of any other: the one from before.
abbrev pub agreed : Option Bool → Option Bool → Option Bool → Option Bool
agreed none remote before = before
agreed (some v) none before = before
agreed (some v) (some w) before = some w

agreed_before : (own before : Option Bool) → agreed own none before ≡ before
agreed_before none before = refl
agreed_before (some v) before = refl

agreed_again : (own : Option Bool) (w : Bool) → agreed own (some w) (some w) ≡ some w
agreed_again none w = refl
agreed_again (some v) w = refl

-- One step of the loop, for the family it is at and for another one.
step_here :
    (k j : ℕ) (v : Bool) (own remote capable : PathMap) (r : Option Bool)
    → j ≡ k
    → lookup j remote ≡ r
    → ((c : PathMap)
        → lookup k (negotiate own remote c) ≡ agreed (lookup k own) (lookup k remote) (lookup k c))
    → lookup k (negotiate own remote (elim r [ none ↦ capable | some w ↦ insert j w capable ]))
      ≡ agreed (some v) (lookup k remote) (lookup k capable)
step_here k j v own remote capable none e h ih =
    let g : lookup k remote ≡ none = cc in rw (ih capable, g) (agreed_before _ _)
step_here k j v own remote capable (some w) e h ih =
    let g : lookup k remote ≡ some w = cc in
    rw (ih (insert j w capable), g, e, lookup-insert_eq k w capable) (agreed_again _ w)

step_elsewhere :
    (k j : ℕ) (capable : PathMap) (r : Option Bool)
    → (j == k) ≡ false
    → lookup k (elim r [ none ↦ capable | some w ↦ insert j w capable ]) ≡ lookup k capable
step_elsewhere k j capable none h = refl
step_elsewhere k j capable (some w) h = lookup-insert_ne k j w capable h

-- After the negotiation a family that both maps hold has the remote's entry; every other family has
-- the entry from before.
pub lookup-negotiate :
    (k : ℕ) (own remote capable : PathMap)
    → lookup k (negotiate own remote capable)
      ≡ agreed (lookup k own) (lookup k remote) (lookup k capable)
unfolding negotiate lookup
lookup-negotiate k [] remote capable = refl
lookup-negotiate k ((j, v) ∷ own) remote capable = elim (Bool-cases (j == k)) [
  | inl e ↦
      rw (e, lookup)
        (step_here k j v own remote capable (lookup j remote) (==→≡ j k e) refl
          (lookup-negotiate k own remote))
  | inr e ↦ rw (
    lookup-negotiate k own remote
        (elim (lookup j remote) [ none ↦ capable | some w ↦ insert j w capable ]),
    e,
    lookup,
    step_elsewhere k j capable (lookup j remote) e,
  )
]
