-- ===== src/Srv6/ByType.antt =====
-- What the maps by type hold.
use gobmp.Prelude.{
  ℕ, ◌≡◌, sym, ap, ◌∙◌, ◌⊎◌, inl, inr, true, false, List, [], ◌∷◌, ◌++◌, ◌==◌, ==→≡, Bool-cases,
  if◌then◌else◌, append-nil, append_assoc,
}
use mathlib.Core.Path.{fun_ext}
use gobmp.Srv6.{TypeMap, append_all}

module _ {T : Type 0} where
  -- The values of a type, in order.
  abbrev pub of_type : List (ℕ × T) → TypeMap T
  of_type [] k = []
  of_type ((t, s) ∷ es) k = if k == t then s ∷ of_type es k else of_type es k

  append_all_at :
      (m : TypeMap T) (es : List (ℕ × T)) (k : ℕ) → append_all m es k ≡ m k ++ of_type es k
  unfolding append_all
  append_all_at m [] k = sym (append-nil (m k))
  append_all_at m ((t, s) ∷ es) k =
      append_all_at (λ j. if j == t then m t ++ (s ∷ []) else m j) es k ∙ step (Bool-cases (k == t))
    where
      step :
          ((k == t) ≡ true) ⊎ ((k == t) ≡ false)
          → (if k == t then m t ++ (s ∷ []) else m k) ++ of_type es k
            ≡ m k ++ of_type ((t, s) ∷ es) k
      step (inr e) = rw e
      step (inl e) =
          let same : m t ≡ m k = ap m (sym (==→≡ k t e)) in
          rw (e, same) (append_assoc (m k) (s ∷ []) (of_type es k))

  pub append_all-of_type : (es : List (ℕ × T)) → append_all (λ k. []) es ≡ of_type es
  append_all-of_type es = fun_ext (λ k. append_all_at (λ j. []) es k)
