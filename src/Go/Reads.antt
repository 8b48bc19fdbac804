-- ===== src/Go/Reads.antt =====
-- Reads from a slice, told by what stands in its memory from the position on.
use gobmp.Prelude.{
  ℕ, ◌+◌, ◌-◌, ◌*◌, ◌≤◌, ◌<◌, ◌≡◌, refl, ap, ◌∙◌, List, [], ◌∷◌, ◌++◌, length, take, drop, lt→ltb,
  le→leb, arith, length-append, length-drop, drop-add, drop-append, take-append, append_assoc,
}
use gobmp.Go.{
  Error, Res, ok, err, panic, spin, ◌>>=◌, Slice, IsSlice, index, slice, slice_from, be16, be32,
  uint16_at, uint32_at, copy_at, Ends, NoError,
}

-- Memory at `p`, moved on over `front`.
pub drop_over :
    (m : List ℕ) (p : ℕ) (front rest : List ℕ)
    → drop p m ≡ front ++ rest
    → drop (p + length front) m ≡ rest
drop_over m p front rest e =
    drop-add p (length front) m ∙ ap (drop (length front)) e ∙ drop-append front rest

pub index-drop :
    (b : Slice) (p x : ℕ) (rest : List ℕ) → drop p b.mem ≡ x ∷ rest → p < b.len → index b p ≡ ok x
unfolding index
index-drop b p x rest e h = rw (lt→ltb p b.len h, e)

pub length-drop_le :
    (m : List ℕ) (p : ℕ) (front rest : List ℕ)
    → drop p m ≡ front ++ rest
    → 0 < length front
    → p + length front ≤ length m
length-drop_le m p front rest e h =
    omega (arith, length-drop p m, ap length e, length-append front rest)

pub slice-drop :
    (b : Slice) (p : ℕ) (front rest : List ℕ)
    → drop p b.mem ≡ front ++ rest
    → p + length front ≤ length b.mem
    → slice b p (p + length front) ≡ ok (record { len = length front; mem = front ++ rest })
unfolding slice
slice-drop b p front rest e h =
    let n : p + length front - p ≡ length front = omega arith in
    rw (le→leb p (p + length front) (omega arith), le→leb _ _ h, n, e)

pub uint16_at-drop :
    (b : Slice) (p x y : ℕ) (rest : List ℕ)
    → drop p b.mem ≡ x ∷ y ∷ rest
    → uint16_at b p ≡ ok (x * 256 + y)
unfolding uint16_at
uint16_at-drop b p x y rest e =
    rw (
      slice-drop b p (x ∷ y ∷ []) rest e (length-drop_le b.mem p (x ∷ y ∷ []) rest e (omega arith)))

pub uint32_at-drop :
    (b : Slice) (p x y z w : ℕ) (rest : List ℕ)
    → drop p b.mem ≡ x ∷ y ∷ z ∷ w ∷ rest
    → uint32_at b p ≡ ok (x * 16777216 + y * 65536 + z * 256 + w)
unfolding uint32_at
uint32_at-drop b p x y z w rest e = rw (
    slice-drop b p (x ∷ y ∷ z ∷ w ∷ []) rest e
      (length-drop_le b.mem p (x ∷ y ∷ z ∷ w ∷ []) rest e (omega arith)))

pub copy_at-drop :
    (b : Slice) (p : ℕ) (front rest : List ℕ)
    → drop p b.mem ≡ front ++ rest
    → p + length front ≤ length b.mem
    → copy_at b p (length front) ≡ ok front
unfolding copy_at
copy_at-drop b p front rest e h =
    rw (slice-drop b p front rest e h) (ap ok (take-append front rest))

-- Reads inside the bounds do not panic.
pub index_total : (b : Slice) (p : ℕ) → IsSlice b → p < b.len → (x : ℕ) × (index b p ≡ ok x)
unfolding index
index_total b p w h = go (drop p b.mem) refl
  where
    go : (m : List ℕ) → drop p b.mem ≡ m → (x : ℕ) × (index b p ≡ ok x)
    go [] e = absurd (omega (arith, length-drop p b.mem, ap length e))
    go (x ∷ m) e = (x, rw (lt→ltb p b.len h, e))

pub slice_total :
    (b : Slice) (i j : ℕ)
    → i ≤ j
    → j ≤ length b.mem
    → slice b i j ≡ ok (record { len = j - i; mem = drop i b.mem })
unfolding slice
slice_total b i j h k = rw (le→leb i j h, le→leb _ _ k)

pub be16_total : (m : List ℕ) → 2 ≤ length m → (x : ℕ) × (be16 (take 2 m) ≡ ok x)
be16_total [] h = absurd (omega arith)
be16_total (a ∷ []) h = absurd (omega arith)
be16_total (a ∷ b ∷ r) h = (a * 256 + b, refl)

pub be32_total : (m : List ℕ) → 4 ≤ length m → (x : ℕ) × (be32 (take 4 m) ≡ ok x)
be32_total [] h = absurd (omega arith)
be32_total (a ∷ []) h = absurd (omega arith)
be32_total (a ∷ b ∷ []) h = absurd (omega arith)
be32_total (a ∷ b ∷ c ∷ []) h = absurd (omega arith)
be32_total (a ∷ b ∷ c ∷ d ∷ r) h = (a * 16777216 + b * 65536 + c * 256 + d, refl)

pub uint16_at_lem :
    (b : Slice) (p : ℕ) → p + 2 ≤ length b.mem → uint16_at b p ≡ be16 (take 2 (drop p b.mem))
unfolding uint16_at
uint16_at_lem b p h =
    let n : p + 2 - p ≡ 2 = omega arith in rw (slice_total b p (p + 2) (omega arith) h, n)

pub uint32_at_lem :
    (b : Slice) (p : ℕ) → p + 4 ≤ length b.mem → uint32_at b p ≡ be32 (take 4 (drop p b.mem))
unfolding uint32_at
uint32_at_lem b p h =
    let n : p + 4 - p ≡ 4 = omega arith in rw (slice_total b p (p + 4) (omega arith) h, n)

pub uint16_at_total : (b : Slice) (p : ℕ) → p + 2 ≤ length b.mem → (x : ℕ) × (uint16_at b p ≡ ok x)
uint16_at_total b p h =
    rw (uint16_at_lem b p h) (be16_total (drop p b.mem) (omega (arith, length-drop p b.mem)))

pub uint32_at_total : (b : Slice) (p : ℕ) → p + 4 ≤ length b.mem → (x : ℕ) × (uint32_at b p ≡ ok x)
uint32_at_total b p h =
    rw (uint32_at_lem b p h) (be32_total (drop p b.mem) (omega (arith, length-drop p b.mem)))

pub copy_at_total :
    (b : Slice) (p n : ℕ) → p + n ≤ length b.mem → copy_at b p n ≡ ok (take n (drop p b.mem))
unfolding copy_at
copy_at_total b p n h =
    let m : p + n - p ≡ n = omega arith in rw (slice_total b p (p + n) (omega arith) h, m)

pub Ends-ok {ℓ} : {A : Type ℓ} (r : Res A) → Ends NoError r → (a : A) × (r ≡ ok a)
Ends-ok (ok a) h = (a, refl)
Ends-ok (err e) h = absurd h
Ends-ok panic h = absurd h
Ends-ok spin h = absurd h

pub Ends-bind {ℓ κ} :
    {A : Type ℓ} {B : Type κ} (E : Error → Type 0) (r : Res A) (f : A → Res B)
    → Ends E r
    → ((a : A) → r ≡ ok a → Ends E (f a))
    → Ends E (r >>= f)
Ends-bind E (ok a) f h k = k a refl
Ends-bind E (err e) f h k = h
Ends-bind E panic f h k = h
Ends-bind E spin f h k = h

pub copy_at_sized :
    (b : Slice) (p n : ℕ) (front rest : List ℕ)
    → length front ≡ n
    → drop p b.mem ≡ front ++ rest
    → p + n ≤ length b.mem
    → copy_at b p n ≡ ok front
copy_at_sized b p n front rest e d h = rw (← e) (copy_at-drop b p front rest d (rw (← e) at h))

-- What stands in memory behind the first of two parts.
pub drop_parts :
    (m : List ℕ) (p k : ℕ) (front middle rest : List ℕ)
    → drop p m ≡ (front ++ middle) ++ rest
    → length front ≡ k
    → (drop p m ≡ front ++ (middle ++ rest)) × (drop (p + k) m ≡ middle ++ rest)
drop_parts m p k front middle rest e n =
    let e' : drop p m ≡ front ++ (middle ++ rest) = e ∙ append_assoc front middle rest in
    (e', rw (← n) (drop_over m p front (middle ++ rest) e'))

-- `b[p:]` where `front` is all that is left of the slice.
pub slice_from-drop :
    (b : Slice) (p : ℕ) (front rest : List ℕ)
    → drop p b.mem ≡ front ++ rest
    → b.len ≡ p + length front
    → slice_from b p ≡ ok (record { len = length front; mem = front ++ rest })
unfolding slice_from
slice_from-drop b p front rest e n =
    let size : b.len - p ≡ length front = omega arith in rw (le→leb p b.len (omega arith), size, e)

-- A bind that succeeds.
pub >>=-eq-ok {ℓ κ} :
    {A : Type ℓ} {B : Type κ} (r : Res A) (f : A → Res B) {b : B}
    → (r >>= f) ≡ ok b
    → (a : A) × (r ≡ ok a) × (f a ≡ ok b)
>>=-eq-ok (ok a) f h = (a, refl, h)
>>=-eq-ok (err e) f h = cc
>>=-eq-ok panic f h = cc
>>=-eq-ok spin f h = cc

-- Two ways to go on that agree on every value.
pub >>=-cong {ℓ κ} :
    {A : Type ℓ} {B : Type κ} (m : Res A) (f g : A → Res B)
    → ((a : A) → f a ≡ g a)
    → (m >>= f) ≡ (m >>= g)
>>=-cong (ok a) f g h = h a
>>=-cong (err e) f g h = refl
>>=-cong panic f g h = refl
>>=-cong spin f g h = refl

-- The same for a front of a known size.
pub drop_sized :
    (m : List ℕ) (p k : ℕ) (front rest : List ℕ)
    → length front ≡ k
    → drop p m ≡ front ++ rest
    → drop (p + k) m ≡ rest
drop_sized m p k front rest n e = rw (← n) (drop_over m p front rest e)

pub slice_sized :
    (b : Slice) (p n : ℕ) (front rest : List ℕ)
    → length front ≡ n
    → drop p b.mem ≡ front ++ rest
    → p + n ≤ length b.mem
    → slice b p (p + n) ≡ ok (record { len = n; mem = front ++ rest })
slice_sized b p n front rest e d h = rw (← e) (slice-drop b p front rest d (rw (← e) at h))

-- A part that is there is inside the memory.
pub room :
    (m : List ℕ) (p k : ℕ) (front rest : List ℕ)
    → length front ≡ k
    → 0 < k
    → drop p m ≡ front ++ rest
    → p + k ≤ length m
room m p k front rest n h e = omega (arith, length-drop p m, ap length e, length-append front rest)

pub slice_from_total :
    (b : Slice) (p : ℕ)
    → p ≤ b.len
    → slice_from b p ≡ ok (record { len = b.len - p; mem = drop p b.mem })
unfolding slice_from
slice_from_total b p h = rw (le→leb p b.len h)
