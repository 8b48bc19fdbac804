-- ===== src/Nlri/L3Vpn/RoundTrip.antt =====
-- VPN prefixes against the layout of RFC 8277 and RFC 4364.
use gobmp.Prelude.{
  ℕ, suc, ◌+◌, ◌*◌, ◌/◌, ◌%◌, ◌≤◌, ◌<◌, ◌++◌, ◌≡◌, ◌≢◌, refl, ap, ◌∙◌, Bool, true, false, not, List,
  [], ◌∷◌, some, length, drop, arith, le→ltb, ne→==, All, map, if◌then◌else◌, length-append,
  append_assoc,
}
use gobmp.Go.{Res, ok, panic, Slice, IsSlice, index, slice}
use gobmp.Go.Reads.{index-drop, uint32_at-drop, copy_at-drop, slice-drop, drop_over}
use gobmp.Go.Scan.{next, scan, encode_all, scan-encode_map}
use gobmp.Base.Label.{Label}
use gobmp.Base.Rd.{Rd}
use gobmp.Base.Rd.RoundTrip.{encode_rd, IsRd, make_rd-encode_rd}
use gobmp.Base.Route.{Route, or_retry}
use gobmp.Nlri.LabelStack.RoundTrip.{encode_stack, IsLabels, label_stack-encode}
use gobmp.Nlri.Unicast.RoundTrip.{encode32, stack_size, stack_room, left_bytes}
use gobmp.Nlri.L3Vpn.{vpn_body, vpn_turn, vpn_once, unmarshal_l3vpn}

-- A VPN prefix of `bits` bits; a withdrawn one has no label.
pub record Vpn : Type 0 where
  pub path_id : ℕ
  pub stack : List Label
  pub rd : Rd
  pub bits : ℕ
  pub prefix : List ℕ

pub record IsVpn (x : Vpn) : Type 0 where
  pub labels_known : IsLabels x.stack
  pub rd_known : IsRd x.rd
  pub sized : length x.prefix ≡ (x.bits + 7) / 8
  pub byte : length (encode_stack x.stack) * 8 + 64 + x.bits < 256

abbrev length_byte : Vpn → ℕ
length_byte x = (length (encode_stack x.stack) + 8) * 8 + x.bits

abbrev body_bytes : Vpn → List ℕ
body_bytes x = length_byte x ∷ (encode_stack x.stack ++ (encode_rd x.rd ++ x.prefix))

abbrev pub encode_vpn : Bool → Vpn → List ℕ
encode_vpn false x = body_bytes x
encode_vpn true x = encode32 x.path_id ++ body_bytes x

-- The route that is made of it: its length in bits is that of its whole bytes.
abbrev pub vpn_route : Bool → Vpn → Route
vpn_route flag x = record {
  path_id = if flag then x.path_id else 0;
  length = (x.bits + 7) / 8 * 8;
  label = x.stack;
  rd = some x.rd;
  prefix = x.prefix;
}

vpn_body-encode :
    (b : Slice)
    → IsSlice b
    → (x : Vpn) (id p : ℕ) (rest : List ℕ) → IsVpn x
    → drop p b.mem ≡ body_bytes x ++ rest
    → p + length (body_bytes x) ≤ b.len
    → vpn_body false b id p
      ≡ ok (
          next
            (record {
              path_id = id;
              length = (x.bits + 7) / 8 * 8;
              label = x.stack;
              rd = some x.rd;
              prefix = x.prefix;
            })
            (p + length (body_bytes x)))
unfolding vpn_body
vpn_body-encode b w x id p rest h e n =
    let k : List ℕ = encode_stack x.stack in
    let s : ℕ = length k in
    let r : List ℕ = encode_rd x.rd in
    let v : List ℕ = x.prefix in
    let room : 3 ≤ s = stack_room x.stack in
    let rd_size : length r ≡ 8 = omega (arith, h.rd_known.six) in
    let size : length (k ++ (r ++ v)) ≡ s + (8 + length v) =
      omega (arith, length-append k (r ++ v), length-append r v) in
    let at1 : drop (p + 1) b.mem ≡ k ++ (r ++ (v ++ rest)) =
      drop_over b.mem p (length_byte x ∷ []) _ e
      ∙ append_assoc k (r ++ v) rest
      ∙ ap (λ (t : List ℕ). k ++ t) (append_assoc r v rest) in
    let atr : drop (p + 1 + s) b.mem ≡ r ++ (v ++ rest) = drop_over b.mem (p + 1) k _ at1 in
    let moved : p + 1 + s + 8 ≡ p + 1 + s + length r = omega arith in
    let atv : drop (p + 1 + s + 8) b.mem ≡ v ++ rest =
      rw moved (drop_over b.mem (p + 1 + s) r _ atr) in
    let small : length v * 8 % 256 ≡ length v * 8 = omega (arith, h.byte, h.sized) in
    let rd_slice : slice b (p + 1 + s) (p + 1 + s + 8)
        ≡ ok (record { len = 8; mem = r ++ (v ++ rest) }) =
      rw (moved, slice-drop b (p + 1 + s) r (v ++ rest) atr (omega arith), rd_size) in
    rw
      (
        index-drop b p _ _ e (omega arith),
        ne→== (length_byte x) 0 (λ z. omega arith),
        le→ltb b.len (p + 1) (omega arith),
        le→ltb b.len (p + 1 + 3) (omega arith),
        label_stack-encode true b w x.stack (p + 1) (r ++ (v ++ rest)) h.labels_known at1
            (omega arith),
        le→ltb b.len (p + 1 + s + 8) (omega arith),
        rd_slice,
        make_rd-encode_rd x.rd (v ++ rest) h.rd_known,
        ← stack_size x.stack,
        le→ltb (length_byte x / 8) (s + 8) (omega arith),
        left_bytes (s + 8) x.bits,
        ← h.sized,
        le→ltb b.len (p + 1 + s + 8 + length v) (omega arith),
        copy_at-drop b (p + 1 + s + 8) v rest atv (omega arith),
        small,
      )
      (ap
        (λ (q : ℕ). ok (
          next
            (record {
              path_id = id;
              length = length v * 8;
              label = x.stack;
              rd = some x.rd;
              prefix = v;
            })
            q))
        (omega arith))

vpn_turn-encode :
    (flag : Bool) (b : Slice)
    → IsSlice b
    → (x : Vpn) (p : ℕ) (rest : List ℕ) → IsVpn x
    → drop p b.mem ≡ encode_vpn flag x ++ rest
    → p + length (encode_vpn flag x) ≤ b.len
    → (vpn_turn false flag b p ≡ ok (next (vpn_route flag x) (p + length (encode_vpn flag x))))
      × (0 < length (encode_vpn flag x))
unfolding vpn_turn
vpn_turn-encode false b w x p rest h e n = (vpn_body-encode b w x 0 p rest h e n, omega arith)
vpn_turn-encode true b w x p rest h e n =
    let id : ℕ = x.path_id in
    let word : id / 16777216 * 16777216 + id / 65536 % 256 * 65536 + id / 256 % 256 * 256 + id % 256
        ≡ id =
      omega arith in
    let at4 : drop (p + 4) b.mem ≡ body_bytes x ++ rest = drop_over b.mem p (encode32 id) _ e in
    (
      rw (le→ltb b.len (p + 4) (omega arith), uint32_at-drop b p _ _ _ _ _ e, word)
          (vpn_body-encode b w x id (p + 4) rest h at4 (omega arith)
            ∙ ap (λ (q : ℕ). ok (next (vpn_route true x) q)) (omega arith)),
      omega arith,
    )

not_empty :
    (flag : Bool) (x : Vpn) (xs : List Vpn) → length (encode_all (encode_vpn flag) (x ∷ xs)) ≢ 0
not_empty false x xs = omega arith
not_empty true x xs = omega arith

-- VPN prefixes, one at least, with as many bytes as their lengths in bits need and a length byte
-- below 256, written with or without path identifiers, and withdrawn ones with the marker in
-- place of the labels, are read back in order under the flag that says so, whatever follows the
-- slice. The length of a prefix comes back as that of its whole bytes. The first label is not
-- 524288, whose bytes can be those of the marker.
pub unmarshal_l3vpn-encode :
    (flag : Bool) (x : Vpn) (xs : List Vpn) (rest : List ℕ) (depth : ℕ)
    → All IsVpn (x ∷ xs)
    → unmarshal_l3vpn
        (suc depth)
        false
        (record {
          len = length (encode_all (encode_vpn flag) (x ∷ xs));
          mem = encode_all (encode_vpn flag) (x ∷ xs) ++ rest;
        })
        flag
      ≡ ok (map (vpn_route flag) (x ∷ xs))
unfolding unmarshal_l3vpn vpn_once
unmarshal_l3vpn-encode flag x xs rest depth h =
    let code : List ℕ = encode_all (encode_vpn flag) (x ∷ xs) in
    let b : Slice = record { len = length code; mem = code ++ rest } in
    rw (ne→== (length code) 0 (not_empty flag x xs)) (
      ap (λ (r : Res (List Route)). or_retry r (unmarshal_l3vpn depth false b (not flag)))
        (scan-encode_map (vpn_turn false flag) b (vpn_route flag) (encode_vpn flag) IsVpn
          (vpn_turn-encode flag b (omega (arith, length-append code rest))) (x ∷ xs)
          (suc (length code)) 0 rest h refl (omega arith) (omega arith)))

-- Four bytes read as a path identifier, with nothing behind them, crash the decoder: the length byte
-- is read before the test that it is there.
unmarshal_l3vpn_cut :
    (depth v x y z : ℕ) (srv6 : Bool) (rest : List ℕ)
    → unmarshal_l3vpn (suc depth) srv6 (record { len = 4; mem = v ∷ x ∷ y ∷ z ∷ rest }) true ≡ panic
unfolding unmarshal_l3vpn vpn_once vpn_turn vpn_body scan index
unmarshal_l3vpn_cut depth v x y z srv6 rest =
    rw (uint32_at-drop (record { len = 4; mem = v ∷ x ∷ y ∷ z ∷ rest }) 0 v x y z rest refl)
