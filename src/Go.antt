-- ===== src/Go.antt =====
-- The Go that the program is written in: results of calls, slices and big-endian integers.
pub mod Reads
pub mod Scan
pub mod Gives
use gobmp.Prelude.{
  ℕ, zero, suc, ◌+◌, ◌-◌, ◌*◌, ◌≤◌, ◌<◌, Bool, true, false, ◌&&◌, List, [], ◌∷◌, ◌++◌, length, take,
  drop, replicate, ltb, leb, if◌then◌else◌,
}

-- The errors that the program makes, by cause.
pub data Error : Type 0 where
  bad_version bad_message_type bad_peer_type bad_flag_request bad_tlv_type bad_tlv_length : Error
  bad_reason bad_count malformed bad_length bad_rd_type short_input bad_open_type : Error
  bad_open_version empty_nlri not_implemented unknown_type bad_operation not_found : Error

-- What a Go call comes to: a value, a non-nil error, a run-time panic (an index or slice bound out
-- of range), or, for code with an unbounded loop or recursion, the end of the fuel.
pub data Res {ℓ} (A : Type ℓ) : Type ℓ where
  ok : A → Res A
  err : Error → Res A
  panic : Res A
  spin : Res A

infixl 5 ◌>>=◌ ◌>>◌
abbrev pub ◌>>=◌ {ℓ κ} : {A : Type ℓ} {B : Type κ} → Res A → (A → Res B) → Res B
ok a >>= f = f a
err e >>= f = err e
panic >>= f = panic
spin >>= f = spin

abbrev pub ◌>>◌ {ℓ} : {B : Type ℓ} → Res (Unit {0}) → Res B → Res B
m >> k = m >>= λ _. k

-- `if test { return nil, e }`
abbrev pub fail_if : Bool → Error → Res (Unit {0})
fail_if true e = err e
fail_if false e = ok tt

-- A run-time check of Go.
abbrev pub panic_if : Bool → Res (Unit {0})
panic_if true = panic
panic_if false = ok tt

-- A byte slice: its length, and the memory from its first byte to the end of its capacity.
pub record Slice : Type 0 where
  pub len : ℕ
  pub mem : List ℕ

abbrev pub IsSlice : Slice → Type 0
IsSlice b = b.len ≤ length b.mem

abbrev pub IsByte : ℕ → Type 0
IsByte x = x < 256

-- The bytes of a slice, `len` of them.
abbrev pub bytes : Slice → List ℕ
bytes b = take b.len b.mem

-- A freshly made slice, whose capacity is its length.
abbrev pub of_list : List ℕ → Slice
of_list xs = record { len = length xs; mem = xs }

abbrev first : List ℕ → Res ℕ
first [] = panic
first (x ∷ xs) = ok x

-- `b[i]`: the index is checked against the length.
unfoldable pub index : Slice → ℕ → Res ℕ
index b i = if ltb i b.len then first (drop i b.mem) else panic

-- `b[i:j]`: the upper bound is checked against the capacity.
unfoldable pub slice : Slice → ℕ → ℕ → Res Slice
slice b i j =
    if leb i j && leb j (length b.mem)
    then ok (record { len = j - i; mem = drop i b.mem })
    else panic

-- `b[i:]`
unfoldable pub slice_from : Slice → ℕ → Res Slice
slice_from b i = if leb i b.len then ok (record { len = b.len - i; mem = drop i b.mem }) else panic

-- `binary.BigEndian.Uint16` and `Uint32`, on the bytes of a slice.
abbrev pub be16 : List ℕ → Res ℕ
be16 (a ∷ b ∷ r) = ok (a * 256 + b)
be16 _ = panic

abbrev pub be32 : List ℕ → Res ℕ
be32 (a ∷ b ∷ c ∷ d ∷ r) = ok (a * 16777216 + b * 65536 + c * 256 + d)
be32 _ = panic

-- `binary.BigEndian.Uint64`
abbrev pub be64 : List ℕ → Res ℕ
be64 (a ∷ b ∷ c ∷ d ∷ e ∷ f ∷ g ∷ h ∷ r) = ok (
    (a * 16777216 + b * 65536 + c * 256 + d) * 4294967296
    + (e * 16777216 + f * 65536 + g * 256 + h))
be64 _ = panic

-- `binary.BigEndian.Uint16(b[i : i+2])` and `Uint32(b[i : i+4])`
unfoldable pub uint16_at : Slice → ℕ → Res ℕ
unfolding slice
uint16_at b i = do s ← slice b i (i + 2); be16 (bytes s)

unfoldable pub uint32_at : Slice → ℕ → Res ℕ
unfolding slice
uint32_at b i = do s ← slice b i (i + 4); be32 (bytes s)

-- `v := make([]byte, n); copy(v, b[i : i+n])`
unfoldable pub copy_at : Slice → ℕ → ℕ → Res (List ℕ)
unfolding slice
copy_at b i n = do s ← slice b i (i + n); ok (bytes s)

-- The call comes back: with a value, or with an error that `E` admits.
abbrev pub Ends {ℓ} : {A : Type ℓ} → (Error → Type 0) → Res A → Type 0
Ends E (ok a) = Unit
Ends E (err e) = E e
Ends E panic = ⊥
Ends E spin = ⊥

-- Any error, and none.
abbrev pub AnyError : Error → Type 0
AnyError e = Unit

abbrev pub NoError : Error → Type 0
NoError e = ⊥

-- `if err != nil { return nil }`
abbrev pub nil_on_error {ℓ} : {A : Type ℓ} → Res (List A) → Res (List A)
nil_on_error (ok xs) = ok xs
nil_on_error (err e) = ok []
nil_on_error panic = panic
nil_on_error spin = spin

-- `v := make([]byte, n); copy(v, xs)`
abbrev pub padded : ℕ → List ℕ → List ℕ
padded n xs = take n (xs ++ replicate n 0)
