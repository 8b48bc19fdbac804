-- ===== src/Nlri/LabelStack/RoundTrip.antt =====
-- The layout of a label stack, or of the marker in its place.
use gobmp.Prelude.{
  ℕ, zero, suc, ◌+◌, ◌*◌, ◌≤◌, ◌<◌, ◌++◌, ◌≡◌, ◌≢◌, refl, sym, ap, ◌∙◌, Bool, true, false, ◌||◌,
  ◌&&◌, List, [], ◌∷◌, length, drop, arith, le→ltb, lt→ltb,
}
use gobmp.Go.{short_input, fail_if, Res, ok, ◌>>=◌, Slice, IsSlice}
use gobmp.Go.Reads.{slice-drop, drop_over}
use gobmp.Go.Scan.{encode_all}
use gobmp.Base.Label.{Label, make_label}
use gobmp.Base.Label.RoundTrip.{encode_label, IsLabel, make_label-encode_label}
use gobmp.Nlri.LabelStack.{is_marker, label_at, labels, label_found, label_stack}

-- The last label alone has the bottom bit.
abbrev pub IsStack : List Label → Type 0
IsStack [] = ⊥
IsStack (l ∷ []) = IsLabel l × (l.bos ≡ true)
IsStack (l ∷ (m ∷ ls)) = IsLabel l × (l.bos ≡ false) × IsStack (m ∷ ls)

label_at-encode :
    (guarded : Bool) (b : Slice) (l : Label) (p : ℕ) (rest : List ℕ)
    → IsSlice b
    → IsLabel l
    → drop p b.mem ≡ encode_label l ++ rest
    → p + 3 ≤ b.len
    → label_at guarded false b p ≡ ok l
unfolding label_at
label_at-encode guarded b l p rest w h e n =
    rw (le→ltb b.len (p + 3) n, slice-drop b p (encode_label l) rest e (omega arith)) (read guarded)
  where
    read :
        (g : Bool)
        → (fail_if (g && false) short_input >>= λ u.
            (ok (record { len = 3; mem = encode_label l ++ rest }) >>= λ s. make_label s false))
          ≡ ok l
    read true = make_label-encode_label l rest h
    read false = make_label-encode_label l rest h

labels_in :
    (guarded : Bool) (fuel : ℕ) (b : Slice) (p : ℕ)
    → p < b.len
    → labels guarded false (suc fuel) b p ≡ (
        label_at guarded false b p >>= λ l.
        label_found (labels guarded false fuel b) (l.bos || false) p l)
unfolding labels
labels_in guarded fuel b p h = rw (lt→ltb p b.len h, labels)

found_last :
    (loop : ℕ → Res (List Label × ℕ)) (bottom : Bool) (p : ℕ) (l : Label)
    → bottom ≡ true
    → label_found loop (bottom || false) p l ≡ ok (l ∷ [], p + 3)
found_last loop bottom p l e = rw e

found_more :
    (loop : ℕ → Res (List Label × ℕ)) (bottom : Bool) (p q : ℕ) (l : Label) (ls : List Label)
    → bottom ≡ false
    → loop (p + 3) ≡ ok (ls, q)
    → label_found loop (bottom || false) p l ≡ ok (l ∷ ls, q)
found_more loop bottom p q l ls e h = rw (e, h)

labels-encode :
    (guarded : Bool) (b : Slice)
    → IsSlice b
    → (ls : List Label) (fuel p : ℕ) (rest : List ℕ) → IsStack ls
    → drop p b.mem ≡ encode_all encode_label ls ++ rest
    → p + length ls * 3 ≤ b.len
    → length ls < fuel
    → labels guarded false fuel b p ≡ ok (ls, p + length ls * 3)
unfolding labels
labels-encode guarded b w ls zero p rest h e n f = absurd (omega arith)
labels-encode guarded b w [] (suc fuel) p rest h e n f = absurd h
labels-encode guarded b w (l ∷ []) (suc fuel) p rest (hl, bottom) e n f =
    labels_in guarded fuel b p (omega arith)
    ∙ rw (label_at-encode guarded b l p rest w hl e (omega arith))
        (found_last (labels guarded false fuel b) l.bos p l bottom)
labels-encode guarded b w (l ∷ (m ∷ ls)) (suc fuel) p rest (hl, more, hs) e n f =
    let e3 : drop (p + 3) b.mem ≡ encode_all encode_label (m ∷ ls) ++ rest =
      drop_over b.mem p (encode_label l) _ e in
    labels_in guarded fuel b p (omega arith)
    ∙ rw (label_at-encode guarded b l p _ w hl e (omega arith)) (
        found_more (labels guarded false fuel b) l.bos p _ l (m ∷ ls) more
          (labels-encode guarded b w (m ∷ ls) fuel (p + 3) rest hs e3 (omega arith) (omega arith))
        ∙ ap (λ (q : ℕ). ok (l ∷ (m ∷ ls), q)) (omega arith))

-- The bytes of the labels, or of the marker where there is none.
abbrev pub encode_stack : List Label → List ℕ
encode_stack [] = 128 ∷ 0 ∷ 0 ∷ []
encode_stack (l ∷ ls) = encode_all encode_label (l ∷ ls)

abbrev pub marker_size : List Label → ℕ
marker_size [] = 3
marker_size (l ∷ ls) = 0

-- No label, or a stack whose first bytes are not those of the marker.
abbrev pub IsLabels : List Label → Type 0
IsLabels [] = Unit
IsLabels (l ∷ ls) = IsStack (l ∷ ls) × (l.value ≢ 524288)

first-IsLabel : (l : Label) (ls : List Label) → IsStack (l ∷ ls) → IsLabel l
first-IsLabel l [] (h, e) = h
first-IsLabel l (m ∷ ls) (h, e, r) = h

not_marker : (l : Label) → IsLabel l → l.value ≢ 524288 → is_marker (encode_label l) ≡ false
unfolding is_marker
not_marker l h n = ground (arith, h.value_bound)

pub length-encode_labels : (ls : List Label) → length (encode_all encode_label ls) ≡ length ls * 3
length-encode_labels [] = refl
length-encode_labels (l ∷ ls) = omega (arith, length-encode_labels ls)

pub label_stack-encode :
    (guarded : Bool) (b : Slice)
    → IsSlice b
    → (ls : List Label) (p : ℕ) (rest : List ℕ) → IsLabels ls
    → drop p b.mem ≡ encode_stack ls ++ rest
    → p + length (encode_stack ls) ≤ b.len
    → label_stack guarded false b p ≡ ok (ls, marker_size ls, p + length (encode_stack ls))
unfolding label_stack is_marker
label_stack-encode guarded b w [] p rest h e n =
    rw (slice-drop b p (128 ∷ 0 ∷ 0 ∷ []) rest e (omega arith), is_marker)
label_stack-encode guarded b w (l ∷ ls) p rest (h, other) e n =
    let size : length (encode_stack (l ∷ ls)) ≡ length (l ∷ ls) * 3 =
      length-encode_labels (l ∷ ls) in
    rw
      (
        slice-drop b p (encode_label l) (encode_all encode_label ls ++ rest) e (omega arith),
        not_marker l (first-IsLabel l ls h) other,
        labels-encode guarded b w (l ∷ ls) (suc b.len) p rest h e (omega arith) (omega arith),
      )
      (ap (λ (q : ℕ). ok (l ∷ ls, 0, p + q)) (sym size))
