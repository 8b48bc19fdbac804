-- ===== src/Base/Label/RoundTrip.antt =====
-- `make_label` and `get_raw_value` against the 24-bit layout: 20 bits value, 3 bits exp, 1 bit bottom.
use gobmp.Prelude.{
  Bool, ◌≢◌, ne→==, ℕ, ◌+◌, ◌*◌, ◌/◌, ◌%◌, ◌^◌, ◌<◌, ◌++◌, ◌≡◌, Bool, false, List, [], ◌∷◌, ◌==◌,
  if◌then◌else◌, arith,
}
use gobmp.Prelude.Bits.{and_f0, and_0e, and_01}
use gobmp.Go.{bad_length, err, Slice, ok, IsByte}
use gobmp.Base.Label.{Label, get_raw_value, make_label}

-- The three bytes that stand for a label.
abbrev pub bottom : Bool → ℕ
bottom b = if b then 1 else 0

abbrev pub encode_label : Label → List ℕ
encode_label l =
    (l.value / 4096) ∷ (l.value / 16 % 256) ∷ (l.value % 16 * 16 + l.exp * 2 + bottom l.bos) ∷ []

pub record IsLabel (l : Label) : Type 0 where
  pub value_bound : l.value < 2 ^ 20
  pub exp_bound : l.exp < 8

-- Every label of 20 bits value and 3 bits exp is read back from the three bytes that stand for it,
-- whatever follows them in memory.
pub make_label-encode_label :
    (l : Label) (rest : List ℕ)
    → IsLabel l
    → make_label (record { len = 3; mem = encode_label l ++ rest }) false ≡ ok l
unfolding make_label
make_label-encode_label l rest h =
    let z : ℕ = l.value % 16 * 16 + l.exp * 2 + bottom l.bos in
    let small : z < 256 = ground arith in
    ground (arith, and_f0 z small, and_0e z small, and_01 z small)

-- From any three bytes a label is made, and its raw value is the 24-bit number that they spell.
pub raw_value-make_label :
    (x y z : ℕ) (rest : List ℕ)
    → IsByte x
    → IsByte y
    → IsByte z
    → (l : Label) × (make_label (record { len = 3; mem = x ∷ y ∷ z ∷ rest }) false ≡ ok l)
      × (get_raw_value l ≡ x * 65536 + y * 256 + z)
unfolding make_label get_raw_value
raw_value-make_label x y z rest hx hy hz = (
  record { value = x * 4096 + y * 16 + z / 16; exp = z / 2 % 8; bos = z % 2 == 1 },
  ground (arith, and_f0 z hz, and_0e z hz, and_01 z hz),
  ground arith,
)

-- A slice of another size is refused.
pub make_label_size : (b : Slice) (srv6 : Bool) → b.len ≢ 3 → make_label b srv6 ≡ err bad_length
unfolding make_label
make_label_size b srv6 h = rw (ne→== b.len 3 h)
