-- ===== src/Base/Rd/RoundTrip.antt =====
-- `make_rd` against the layout: two bytes type, six bytes value.
use gobmp.Prelude.{
  ℕ, ◌+◌, ◌*◌, ◌/◌, ◌%◌, ◌≤◌, ◌++◌, ◌≡◌, List, ◌∷◌, length, arith, take-append_of, ap, le→ltb, refl,
}
use gobmp.Go.{ok, Slice}
use gobmp.Go.Reads.{uint16_at-drop}
use gobmp.Base.Rd.{Rd, make_rd}

abbrev pub encode_rd : Rd → List ℕ
encode_rd r = (r.rd_type / 256) ∷ (r.rd_type % 256) ∷ r.value

pub record IsRd (r : Rd) : Type 0 where
  pub known : r.rd_type ≤ 2
  pub six : length r.value ≡ 6

-- A route distinguisher of type 0, 1 or 2 is read back from its eight bytes, whatever follows them
-- in memory.
pub make_rd-encode_rd :
    (r : Rd) (rest : List ℕ)
    → IsRd r
    → make_rd (record { len = 8; mem = encode_rd r ++ rest }) ≡ ok r
unfolding make_rd
make_rd-encode_rd r rest h =
    let b : Slice = record { len = 8; mem = encode_rd r ++ rest } in
    let t : r.rd_type / 256 * 256 + r.rd_type % 256 ≡ r.rd_type = omega arith in
    rw
      (
        uint16_at-drop b 0 (r.rd_type / 256) (r.rd_type % 256) (r.value ++ rest) refl,
        t,
        le→ltb 2 r.rd_type h.known,
      )
      (ap (λ (v : List ℕ). ok (record { rd_type = r.rd_type; value = v }))
        (take-append_of 6 r.value rest h.six))
