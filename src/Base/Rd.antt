-- ===== src/Base/Rd.antt =====
-- pkg/base/rd.go: a route distinguisher, eight bytes on the wire.
pub mod RoundTrip
pub mod Words
use Prim.Native.String.{String}
use gobmp.Prelude.{ℕ, if◌then◌else◌, not, List, ltb, ◌==◌}
use gobmp.Go.{
  bad_length, bad_rd_type, Res, ok, ◌>>=◌, ◌>>◌, fail_if, Slice, bytes, slice_from, uint16_at,
  uint32_at, slice, of_list, be16, be32, copy_at,
}
use gobmp.Bgp.Texts.{Texts, ◌<>◌}

pub record Rd : Type 0 where
  pub rd_type : ℕ
  pub value : List ℕ

pub make_rd : Slice → Res Rd
unfolding slice_from
make_rd b = do
  fail_if (not (b.len == 8)) bad_length
  t ← uint16_at b 0
  fail_if (ltb 2 t) bad_rd_type
  rest ← slice_from b 2
  ok (record { rd_type = t; value = bytes rest })

-- `String`, of the type of the distinguisher; "" for any other.
pub rd_text : Texts → Rd → Res String
rd_text t r =
    let v = of_list r.value in
    if r.rd_type == 0
    then (do
      a ← uint16_at v 0
      s ← slice_from v 2
      n ← be32 (bytes s)
      ok (t.decimal a <> ":" <> t.decimal n))
    else if r.rd_type == 1
    then (do
      a ← copy_at v 0 4
      s ← slice_from v 4
      n ← be16 (bytes s)
      ok (t.ip4 a <> ":" <> t.decimal n))
    else if r.rd_type == 2
    then (do
      a ← uint32_at v 0
      s ← slice_from v 4
      n ← be16 (bytes s)
      ok (t.decimal a <> ":" <> t.decimal n))
    else ok ""
