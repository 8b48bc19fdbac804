-- ===== src/Nlri/Unicast/RoundTrip.antt =====
-- Labeled unicast prefixes against the layout of RFC 8277.
use gobmp.Base.Route.Step.{encode_route, IsRoute}
use gobmp.Base.Route.Passes.{unmarshal_routes-of_list, not_empty}
use gobmp.Prelude.{
  ℕ, suc, ◌+◌, ◌-◌, ◌*◌, ◌/◌, ◌%◌, ◌≤◌, ◌<◌, ◌++◌, ◌≡◌, refl, ap, ◌∙◌, Bool, true, false, not, List,
  [], ◌∷◌, none, length, drop, arith, le→ltb, ◌==◌, ne→==, All, map, if◌then◌else◌, length-append,
  append_assoc,
}
use gobmp.Go.{empty_nlri, err, Res, ok, Slice, IsSlice, of_list}
use gobmp.Go.Reads.{index-drop, uint32_at-drop, copy_at-drop, drop_over}
use gobmp.Go.Scan.{next, encode_all, scan-encode_map}
use gobmp.Base.Label.{Label}
use gobmp.Base.Route.{Route, or_retry}
use gobmp.Nlri.LabelStack.RoundTrip.{
  encode_stack, marker_size, IsLabels, length-encode_labels, label_stack-encode,
}
use gobmp.Nlri.Unicast.{
  unmarshal_unicast, labeled_body, labeled_turn, labeled_once, unmarshal_labeled,
}

-- A labeled prefix of `bits` bits; a withdrawn one has no label.
pub record Labeled : Type 0 where
  pub path_id : ℕ
  pub stack : List Label
  pub bits : ℕ
  pub prefix : List ℕ

pub record IsLabeled (x : Labeled) : Type 0 where
  pub labels_known : IsLabels x.stack
  pub sized : length x.prefix ≡ (x.bits + 7) / 8
  pub byte : length (encode_stack x.stack) * 8 + x.bits < 256

abbrev pub encode32 : ℕ → List ℕ
encode32 n = (n / 16777216) ∷ (n / 65536 % 256) ∷ (n / 256 % 256) ∷ (n % 256) ∷ []

abbrev body_bytes : Labeled → List ℕ
body_bytes x = (length (encode_stack x.stack) * 8 + x.bits) ∷ (encode_stack x.stack ++ x.prefix)

abbrev pub encode_labeled : Bool → Labeled → List ℕ
encode_labeled false x = body_bytes x
encode_labeled true x = encode32 x.path_id ++ body_bytes x

-- The route that is made of it: its length in bits is that of its whole bytes.
abbrev pub labeled_route : Bool → Labeled → Route
labeled_route flag x = record {
  path_id = if flag then x.path_id else 0;
  length = (x.bits + 7) / 8 * 8;
  label = x.stack;
  rd = none;
  prefix = x.prefix;
}

pub stack_size : (ls : List Label) → length (encode_stack ls) ≡ length ls * 3 + marker_size ls
stack_size [] = refl
stack_size (l ∷ ls) = omega (arith, length-encode_labels (l ∷ ls))

pub stack_room : (ls : List Label) → 3 ≤ length (encode_stack ls)
stack_room [] = omega arith
stack_room (l ∷ ls) = omega (arith, length-encode_labels (l ∷ ls))

pub left_bytes :
    (s n : ℕ)
    → (if (s * 8 + n) % 8 == 0 then (s * 8 + n) / 8 - s else (s * 8 + n) / 8 - s + 1) ≡ (n + 7) / 8
left_bytes s n = ground arith

labeled_body-encode :
    (b : Slice)
    → IsSlice b
    → (x : Labeled) (id p : ℕ) (rest : List ℕ) → IsLabeled x
    → drop p b.mem ≡ body_bytes x ++ rest
    → p + length (body_bytes x) ≤ b.len
    → labeled_body b id p
      ≡ ok (
          next
            (record {
              path_id = id;
              length = (x.bits + 7) / 8 * 8;
              label = x.stack;
              rd = none;
              prefix = x.prefix;
            })
            (p + length (body_bytes x)))
unfolding labeled_body
labeled_body-encode b w x id p rest h e n =
    let k : List ℕ = encode_stack x.stack in
    let s : ℕ = length k in
    let v : List ℕ = x.prefix in
    let room : 3 ≤ s = stack_room x.stack in
    let size : length (k ++ v) ≡ s + length v = length-append k v in
    let at1 : drop (p + 1) b.mem ≡ k ++ (v ++ rest) =
      drop_over b.mem p ((s * 8 + x.bits) ∷ []) _ e ∙ append_assoc k v rest in
    let atv : drop (p + 1 + s) b.mem ≡ v ++ rest = drop_over b.mem (p + 1) k _ at1 in
    let small : length v * 8 % 256 ≡ length v * 8 = omega (arith, h.byte, h.sized) in
    rw
      (
        le→ltb b.len (p + 1) (omega arith),
        index-drop b p _ _ e (omega arith),
        ne→== (s * 8 + x.bits) 0 (λ z. omega arith),
        le→ltb b.len (p + 1 + 3) (omega arith),
        label_stack-encode false b w x.stack (p + 1) (v ++ rest) h.labels_known at1 (omega arith),
        ← stack_size x.stack,
        le→ltb ((s * 8 + x.bits) / 8) s (omega arith),
        left_bytes s x.bits,
        ← h.sized,
        le→ltb b.len (p + 1 + s + length v) (omega arith),
        copy_at-drop b (p + 1 + s) v rest atv (omega arith),
        small,
      )
      (ap
        (λ (q : ℕ). ok (
          next
            (record { path_id = id; length = length v * 8; label = x.stack; rd = none; prefix = v })
            q))
        (omega arith))

labeled_turn-encode :
    (flag : Bool) (b : Slice)
    → IsSlice b
    → (x : Labeled) (p : ℕ) (rest : List ℕ) → IsLabeled x
    → drop p b.mem ≡ encode_labeled flag x ++ rest
    → p + length (encode_labeled flag x) ≤ b.len
    → (labeled_turn flag b p
        ≡ ok (next (labeled_route flag x) (p + length (encode_labeled flag x))))
      × (0 < length (encode_labeled flag x))
unfolding labeled_turn
labeled_turn-encode false b w x p rest h e n =
    (labeled_body-encode b w x 0 p rest h e n, omega arith)
labeled_turn-encode true b w x p rest h e n =
    let id : ℕ = x.path_id in
    let word : id / 16777216 * 16777216 + id / 65536 % 256 * 65536 + id / 256 % 256 * 256 + id % 256
        ≡ id =
      omega arith in
    let at4 : drop (p + 4) b.mem ≡ body_bytes x ++ rest = drop_over b.mem p (encode32 id) _ e in
    (
      rw (le→ltb b.len (p + 4) (omega arith), uint32_at-drop b p _ _ _ _ _ e, word)
          (labeled_body-encode b w x id (p + 4) rest h at4 (omega arith)
            ∙ ap (λ (q : ℕ). ok (next (labeled_route true x) q)) (omega arith)),
      omega arith,
    )

-- Labeled prefixes, with as many bytes as their lengths in bits need and a length byte below 256,
-- written with or without path identifiers, and withdrawn ones with the marker in place of the
-- labels, are read back in order under the flag that says so, whatever follows the slice. The
-- length of a prefix comes back as that of its whole bytes. The first label is not 524288, whose
-- bytes can be those of the marker.
pub unmarshal_labeled-encode :
    (flag : Bool) (xs : List Labeled) (rest : List ℕ) (depth : ℕ)
    → All IsLabeled xs
    → unmarshal_labeled
        (suc depth)
        (record {
          len = length (encode_all (encode_labeled flag) xs);
          mem = encode_all (encode_labeled flag) xs ++ rest;
        })
        flag
      ≡ ok (map (labeled_route flag) xs)
unfolding unmarshal_labeled labeled_once
unmarshal_labeled-encode flag xs rest depth h =
    let code : List ℕ = encode_all (encode_labeled flag) xs in
    let b : Slice = record { len = length code; mem = code ++ rest } in
    ap (λ (r : Res (List Route)). or_retry r (unmarshal_labeled depth b (not flag)))
      (scan-encode_map (labeled_turn flag) b (labeled_route flag) (encode_labeled flag) IsLabeled
        (labeled_turn-encode flag b (omega (arith, length-append code rest))) xs (suc (length code))
        0 rest h refl (omega arith) (omega arith))

-- Unicast routes, one at least, fill an NLRI field that is read back in order.
pub unmarshal_unicast-encode :
    (flag : Bool) (rs : List Route) (depth : ℕ)
    → 0 < length rs
    → All (IsRoute flag) rs
    → unmarshal_unicast (suc depth) (of_list (encode_all (encode_route flag) rs)) flag ≡ ok rs
unfolding unmarshal_unicast
unmarshal_unicast-encode flag [] depth k w = absurd (omega arith)
unmarshal_unicast-encode flag (r ∷ rs) depth k w =
    let code : List ℕ = encode_all (encode_route flag) (r ∷ rs) in
    rw (ne→== (length code) 0 (not_empty flag r rs))
      (unmarshal_routes-of_list flag (r ∷ rs) depth w)

pub unmarshal_unicast_nil :
    (flag : Bool) (depth : ℕ) → unmarshal_unicast depth (of_list []) flag ≡ err empty_nlri
unfolding unmarshal_unicast
unmarshal_unicast_nil flag depth = refl
