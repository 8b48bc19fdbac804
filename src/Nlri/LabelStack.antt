-- ===== src/Nlri/LabelStack.antt =====
-- The label stack of a prefix, as pkg/unicast/unicast.go and pkg/l3vpn/l3-vpn.go read it.
pub mod RoundTrip
use gobmp.Prelude.{
  ℕ, zero, suc, ◌+◌, ◌*◌, Bool, true, false, ◌&&◌, ◌||◌, List, [], ◌∷◌, ltb, ◌==◌, if◌then◌else◌,
}
use gobmp.Go.{short_input, Res, ok, spin, ◌>>=◌, ◌>>◌, fail_if, Slice, bytes, slice}
use gobmp.Base.Label.{Label, make_label}

-- `bytes.Equal([]byte{0x80, 0x00, 0x00}, ...)`
pub is_marker : List ℕ → Bool
is_marker (x ∷ y ∷ z ∷ []) = (x == 128) && (y == 0) && (z == 0)
is_marker _ = false

-- `guarded`: l3-vpn.go tests that three bytes are left, unicast.go does not.
pub label_at : Bool → Bool → Slice → ℕ → Res Label
label_at guarded srv6 b p = do
  fail_if (guarded && ltb b.len (p + 3)) short_input
  s ← slice b p (p + 3)
  make_label s srv6

-- Behind a label at `p`: the bottom of the stack ends the loop.
abbrev label_found : (ℕ → Res (List Label × ℕ)) → Bool → ℕ → Label → Res (List Label × ℕ)
label_found loop true p l = ok (l ∷ [], p + 3)
label_found loop false p l = loop (p + 3) >>= λ (ls, q). ok (l ∷ ls, q)

-- The loop over the labels up to the bottom of the stack, and the position behind it.
pub labels : Bool → Bool → ℕ → Slice → ℕ → Res (List Label × ℕ)
labels guarded srv6 zero b p = spin
labels guarded srv6 (suc fuel) b p = elim (ltb p b.len) [
  | false ↦ ok ([], p)
  | true ↦ label_at guarded srv6 b p >>= λ l.
      label_found (labels guarded srv6 fuel b) (l.bos || srv6) p l
]

-- The marker of a withdrawn prefix, or the labels: these, the bytes of the marker and the position.
pub label_stack : Bool → Bool → Slice → ℕ → Res (List Label × ℕ × ℕ)
label_stack guarded srv6 b p = do
  s ← slice b p (p + 3)
  if is_marker (bytes s)
      then ok ([], 3, p + 3)
      else do (ls, q) ← labels guarded srv6 (suc b.len) b p; ok (ls, 0, q)
