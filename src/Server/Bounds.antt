-- ===== src/Server/Bounds.antt =====
-- The sizes of what the read loop forwards, on any stream.
use gobmp.Prelude.{
  ℕ, zero, suc, ◌+◌, ◌-◌, ◌^◌, ◌≤◌, ◌<◌, ◌++◌, ◌≡◌, refl, false, List, length, take, drop, arith,
  ltb, leb, ◌||◌, ltb→le, length-append, length-take, length-drop, take-append_of, All, Bool-cases,
  inl, inr,
}
use gobmp.Go.{Res, ok, err, panic, spin, of_list}
use gobmp.Go.Scan.{encode_all}
use gobmp.Bmp.CommonHeader.{CommonHeader, unmarshal_common_header}
use gobmp.Server.{Session, forward, read_body, on_header, serve}

-- A message begins with a header that counts its bytes, six at least and fewer than 2 ^ 31.
pub record IsCounted (m : List ℕ) : Type 0 where
  pub header : CommonHeader
  pub begins : unmarshal_common_header (of_list (take 6 m)) ≡ ok header
  pub counted : length m ≡ header.message_length
  pub whole : 6 ≤ length m
  pub small : length m < 2 ^ 31

-- The bytes of all messages together.
abbrev pub total : List (List ℕ) → ℕ
total ms = length (encode_all (λ m. m) ms)

abbrev pub Within : ℕ → Session → Type 0
Within n s = All IsCounted s.0 × (total s.0 ≤ n)

-- A length that is neither below six nor negative as an int32.
known_length : (l : ℕ) → (leb (2 ^ 31) l || ltb l 6) ≡ false → (6 ≤ l) × (l < 2 ^ 31)
known_length l h = ground arith

module _ (loop : List ℕ → Session) (head : List ℕ) (six : length head ≡ 6) where
  forward-Within :
      (c : CommonHeader) (rest : List ℕ)
      → unmarshal_common_header (of_list head) ≡ ok c
      → (6 ≤ c.message_length) × (c.message_length < 2 ^ 31)
      → c.message_length - 6 ≤ length rest
      → Within (length (drop (c.message_length - 6) rest)) (loop (drop (c.message_length - 6) rest))
      → Within (6 + length rest) (
          forward
            (head ++ take (c.message_length - 6) rest)
            (loop (drop (c.message_length - 6) rest)))
  forward-Within c rest e (low, high) inside (all, few) =
      let n : ℕ = c.message_length - 6 in
      let taken : length (take n rest) ≡ n = omega (arith, length-take n rest) in
      let size : length (head ++ take n rest) ≡ c.message_length =
        omega (arith, length-append head (take n rest)) in
      let left : length (drop n rest) ≡ length rest - n = length-drop n rest in
      let ms : List (List ℕ) = (loop (drop n rest)).0 in
      let both : length ((head ++ take n rest) ++ encode_all (λ m. m) ms)
          ≡ c.message_length + total ms =
        rw (length-append (head ++ take n rest) (encode_all (λ m. m) ms), size) in
      (
        (
          record {
            header = c;
            begins = rw (take-append_of 6 head (take n rest) six) e;
            counted = size;
            whole = omega arith;
            small = omega arith;
          },
          all,
        ),
        omega arith,
      )

  read_body-Within :
      (c : CommonHeader) (rest : List ℕ)
      → unmarshal_common_header (of_list head) ≡ ok c
      → ((t : List ℕ) → length t ≤ length rest → Within (length t) (loop t))
      → Within (6 + length rest) (read_body loop head c.message_length rest)
  read_body-Within c rest e h =
      let l : ℕ = c.message_length in
      elim (Bool-cases (leb (2 ^ 31) l || ltb l 6)) [
        | inl x ↦ rw x (tt, omega arith)
        | inr x ↦ elim (Bool-cases (ltb (length rest) (l - 6))) [
          | inl y ↦ rw (x, y) (tt, omega arith)
          | inr y ↦
              rw (x, y)
                (forward-Within c rest e (known_length l x) (ltb→le (length rest) (l - 6) y)
                  (h (drop (l - 6) rest) (omega (arith, length-drop (l - 6) rest))))
        ]
      ]

  on_header-Within :
      (r : Res CommonHeader) (rest : List ℕ)
      → unmarshal_common_header (of_list head) ≡ r
      → ((t : List ℕ) → length t ≤ length rest → Within (length t) (loop t))
      → Within (6 + length rest) (on_header loop head r rest)
  on_header-Within (ok c) rest e h = read_body-Within c rest e h
  on_header-Within (err x) rest e h =
      ((h rest (omega arith)).0, omega (arith, (h rest (omega arith)).1))
  on_header-Within panic rest e h = (tt, omega arith)
  on_header-Within spin rest e h = (tt, omega arith)

-- On every stream, with any fuel, each message that is forwarded begins with a header that the decoder
-- accepts and that counts exactly its bytes, at least six and fewer than 2 ^ 31, and the forwarded
-- messages together have no more bytes than the stream.
pub serve-Within : (fuel : ℕ) (stream : List ℕ) → Within (length stream) (serve fuel stream)
unfolding serve
serve-Within zero stream = (tt, omega arith)
serve-Within (suc fuel) stream = elim (Bool-cases (ltb (length stream) 6)) [
  | inl e ↦ rw (e, serve) (tt, omega arith)
  | inr e ↦
      let long : 6 ≤ length stream = ltb→le (length stream) 6 e in
      let left : length (drop 6 stream) ≡ length stream - 6 = length-drop 6 stream in
      let whole : 6 + length (drop 6 stream) ≡ length stream = omega arith in
      rw (e, serve, ← whole)
        (on_header-Within (serve fuel) (take 6 stream) (omega (arith, length-take 6 stream)) _
          (drop 6 stream) refl (λ t n. serve-Within fuel t))
]
