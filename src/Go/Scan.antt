-- ===== src/Go/Scan.antt =====
-- The loop `for p := 0; p < len(b); { ... }` of the parsers: each turn reads one item at `p` and
-- moves `p` on, stops the loop by `break`, or returns an error.
use gobmp.Prelude.{
  ℕ, zero, suc, ◌+◌, ◌-◌, ◌≤◌, ◌<◌, ◌≡◌, refl, ap, ◌∙◌, true, false, List, [], ◌∷◌, ◌++◌, length,
  drop, ltb, ltb→lt, lt→ltb, le→ltb, Bool-cases, inl, inr, arith, length-append, All, map,
  append_assoc,
}
use gobmp.Go.{Error, Res, ok, err, panic, spin, ◌>>=◌, Slice, Ends}
use gobmp.Go.Reads.{drop_over}

-- One turn: an item and the new `p`, or `break`.
pub data Turn {ℓ} (A : Type ℓ) : Type ℓ where
  next : A → ℕ → Turn A
  break : Turn A

module _ {ℓ} {A : Type ℓ} where
  -- What follows a turn; `loop` is the rest of the loop from a position on.
  abbrev pub after : (ℕ → Res (List A)) → Res (Turn A) → Res (List A)
  after loop (ok (next x p)) = do xs ← loop p; ok (x ∷ xs)
  after loop (ok break) = ok []
  after loop (err e) = err e
  after loop panic = panic
  after loop spin = spin

  -- The items in the order of reading; `spin` where the fuel is gone before the loop has ended.
  unfoldable pub scan : (Slice → ℕ → Res (Turn A)) → ℕ → Slice → ℕ → Res (List A)
  scan turn zero b p = spin
  scan turn (suc fuel) b p = elim (ltb p b.len) [
    | false ↦ ok []
    | true ↦ after (scan turn fuel b) (turn b p)
  ]

  abbrev pub encode_all : (A → List ℕ) → List A → List ℕ
  encode_all encode [] = []
  encode_all encode (x ∷ xs) = encode x ++ encode_all encode xs

  -- A turn comes back, with an error of `E` at most, and moves on where it reads an item.
  abbrev pub Advances : (Error → Type 0) → ℕ → Res (Turn A) → Type 0
  Advances E p (ok (next x p')) = p < p'
  Advances E p (ok break) = Unit
  Advances E p (err e) = E e
  Advances E p panic = ⊥
  Advances E p spin = ⊥

module _ {ℓ} {A : Type ℓ} (E : Error → Type 0) where
  cons-Ends : (x : A) (r : Res (List A)) → Ends E r → Ends E (r >>= λ xs. ok (x ∷ xs))
  cons-Ends x (ok xs) h = tt
  cons-Ends x (err e) h = h
  cons-Ends x panic h = h
  cons-Ends x spin h = h

  after-Ends :
      (loop : ℕ → Res (List A)) (p : ℕ) (t : Res (Turn A))
      → Advances E p t
      → ((p' : ℕ) → p < p' → Ends E (loop p'))
      → Ends E (after loop t)
  after-Ends loop p (ok (next x p')) h k = cons-Ends x (loop p') (k p' h)
  after-Ends loop p (ok break) h k = tt
  after-Ends loop p (err e) h k = h
  after-Ends loop p panic h k = h
  after-Ends loop p spin h k = h

  -- If every turn inside the slice comes back and moves on, the loop comes back, with as much
  -- fuel as there are bytes left and one more.
  pub scan-Ends :
      (turn : Slice → ℕ → Res (Turn A)) (b : Slice)
      → ((p : ℕ) → p < b.len → Advances E p (turn b p))
      → (fuel p : ℕ) → b.len - p < fuel
      → Ends E (scan turn fuel b p)
  unfolding scan
  scan-Ends turn b good zero p h = absurd (omega arith)
  scan-Ends turn b good (suc fuel) p h = elim (Bool-cases (ltb p b.len)) [
    | inl e ↦
        rw (e, scan, Ends)
          (after-Ends (scan turn fuel b) p (turn b p) (good p (ltb→lt p b.len e))
            (λ p' lt. scan-Ends turn b good fuel p' (omega (arith, ltb→lt p b.len e))))
    | inr e ↦ rw (e, scan, Ends) tt
  ]

module _ {ℓ} {A : Type ℓ} where
  -- If each turn reads back what `encode` wrote for an item, the loop reads back a list of them.
  pub scan-encode_map {κ μ} :
      {S : Type μ} (turn : Slice → ℕ → Res (Turn A)) (b : Slice) (value : S → A)
      (encode : S → List ℕ) (P : S → Type κ)
      → ((x : S) (p : ℕ) (rest : List ℕ)
          → P x
          → drop p b.mem ≡ encode x ++ rest
          → p + length (encode x) ≤ b.len
          → (turn b p ≡ ok (next (value x) (p + length (encode x)))) × (0 < length (encode x)))
      → (xs : List S) (fuel p : ℕ) (rest : List ℕ) → All P xs
      → drop p b.mem ≡ encode_all encode xs ++ rest
      → p + length (encode_all encode xs) ≡ b.len
      → b.len - p < fuel
      → scan turn fuel b p ≡ ok (map value xs)
  unfolding scan
  scan-encode_map turn b value encode P good xs zero p rest hs e n h = absurd (omega arith)
  scan-encode_map turn b value encode P good [] (suc fuel) p rest hs e n h =
      rw (le→ltb p b.len (omega arith), scan)
  scan-encode_map turn b value encode P good (x ∷ xs) (suc fuel) p rest (hx, hs) e n h =
      let e' : drop p b.mem ≡ encode x ++ (encode_all encode xs ++ rest) =
        e ∙ append_assoc (encode x) (encode_all encode xs) rest in
      let size : length (encode x ++ encode_all encode xs)
          ≡ length (encode x) + length (encode_all encode xs) =
        length-append (encode x) (encode_all encode xs) in
      let (t, pos) = good x p (encode_all encode xs ++ rest) hx e' (omega arith) in
      rw (
        lt→ltb p b.len (omega arith),
        scan,
        t,
        scan-encode_map turn b value encode P good xs fuel (p + length (encode x)) rest hs
            (drop_over b.mem p (encode x) (encode_all encode xs ++ rest) e') (omega arith)
            (omega arith),
      )

  map_id : (xs : List A) → map (λ x. x) xs ≡ xs
  map_id [] = refl
  map_id (x ∷ xs) = ap (λ t. x ∷ t) (map_id xs)

  -- The same for a loop whose items are read back whole.
  pub scan-encode_all {κ} :
      (turn : Slice → ℕ → Res (Turn A)) (b : Slice) (encode : A → List ℕ) (P : A → Type κ)
      → ((x : A) (p : ℕ) (rest : List ℕ)
          → P x
          → drop p b.mem ≡ encode x ++ rest
          → p + length (encode x) ≤ b.len
          → (turn b p ≡ ok (next x (p + length (encode x)))) × (0 < length (encode x)))
      → (xs : List A) (fuel p : ℕ) (rest : List ℕ) → All P xs
      → drop p b.mem ≡ encode_all encode xs ++ rest
      → p + length (encode_all encode xs) ≡ b.len
      → b.len - p < fuel
      → scan turn fuel b p ≡ ok xs
  scan-encode_all turn b encode P good xs fuel p rest hs e n h =
      scan-encode_map turn b (λ x. x) encode P good xs fuel p rest hs e n h ∙ ap ok (map_id xs)
