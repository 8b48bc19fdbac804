-- ===== src/Server/Framing.antt =====
-- The framing of a client's stream.
use gobmp.Prelude.{
  ℕ, zero, suc, ◌+◌, ◌-◌, ◌^◌, ◌≤◌, ◌<◌, ◌++◌, ◌≡◌, ◌≢◌, refl, ap, ◌∙◌, List, [], ◌∷◌, length, map,
  take, drop, arith, ltb, le→ltb, ltb→le, lt→leb, length-append, length-drop, take-append,
  drop-append, append_assoc, append-nil, ◌⊎◌, All, Bool-cases, inl, inr,
}
use gobmp.Go.{Res, ok, err, panic, spin, Slice, index, uint32_at}
use gobmp.Go.Scan.{encode_all}
use gobmp.Bmp.CommonHeader.{CommonHeader, unmarshal_common_header, serialize}
use gobmp.Bmp.CommonHeader.RoundTrip.{IsHeader, unmarshal_common_header-serialize}
use gobmp.Server.{Session, read_error, crashed, running, forward, read_body, on_header, serve}

-- A BMP message: its header and what follows it.
pub record Frame : Type 0 where
  pub header : CommonHeader
  pub payload : List ℕ

-- A known header that counts itself and the payload.
pub record IsFrame (f : Frame) : Type 0 where
  pub known : IsHeader f.header
  pub counted : f.header.message_length ≡ 6 + length f.payload
  pub small : f.header.message_length < 2 ^ 31

abbrev pub frame_bytes : Frame → List ℕ
frame_bytes f = serialize f.header ++ f.payload

serve_frame :
    (fuel : ℕ) (f : Frame) (rest : List ℕ)
    → IsFrame f
    → serve (suc fuel) (frame_bytes f ++ rest) ≡ forward (frame_bytes f) (serve fuel rest)
unfolding serve serialize
serve_frame fuel f rest h =
    let stream : List ℕ = frame_bytes f ++ rest in
    let l : ℕ = f.header.message_length in
    let room : length (f.payload ++ rest) ≡ length f.payload + length rest =
      length-append f.payload rest in
    let n : l - 6 ≡ length f.payload = omega (arith, h.counted) in
    rw (
      le→ltb (length stream) 6 (omega arith),
      serve,
      unmarshal_common_header-serialize f.header [] h.known,
      lt→leb (2 ^ 31) l h.small,
      le→ltb l 6 (omega (arith, h.counted)),
      n,
      le→ltb (length (f.payload ++ rest)) (length f.payload) (omega arith),
      take-append f.payload rest,
      drop-append f.payload rest,
    )

-- Frames, each with a header of version 3 and of type 0 to 6 that counts itself and the payload
-- in less than 2 ^ 31 bytes, are forwarded whole and in order, and the server goes on with what
-- follows them in the stream.
pub serve_frames :
    (fuel : ℕ) (fs : List Frame) (rest : List ℕ)
    → All IsFrame fs
    → serve (length fs + fuel) (encode_all frame_bytes fs ++ rest)
      ≡ (map frame_bytes fs ++ (serve fuel rest).0, (serve fuel rest).1)
serve_frames fuel [] rest h = let e : 0 + fuel ≡ fuel = omega arith in rw e
serve_frames fuel (f ∷ fs) rest (hf, hs) =
    let e : suc (length fs) + fuel ≡ suc (length fs + fuel) = omega arith in
    rw (e, append_assoc (frame_bytes f) (encode_all frame_bytes fs) rest)
      (serve_frame (length fs + fuel) f (encode_all frame_bytes fs ++ rest) hf
        ∙ ap (forward (frame_bytes f)) (serve_frames fuel fs rest hs))

-- The end of a stream.
pub serve-nil : (fuel : ℕ) → serve (suc fuel) [] ≡ ([], read_error)
unfolding serve
serve-nil fuel = refl

header-ne-spin : (b : Slice) → unmarshal_common_header b ≢ spin
unfolding unmarshal_common_header index uint32_at
header-ne-spin b e = ground arith

module _ (loop : List ℕ → Session) (head : List ℕ) where
  read_body_ends :
      (l : ℕ) (rest : List ℕ)
      → ((s : List ℕ) → length s ≤ length rest → (loop s).1 ≢ running)
      → (read_body loop head l rest).1 ≢ running
  read_body_ends l rest h e = ground (arith, h (drop (l - 6) rest), length-drop (l - 6) rest)

  on_header_ends :
      (r : Res CommonHeader) (rest : List ℕ)
      → r ≢ spin
      → ((s : List ℕ) → length s ≤ length rest → (loop s).1 ≢ running)
      → (on_header loop head r rest).1 ≢ running
  on_header_ends (ok c) rest n h = read_body_ends c.message_length rest h
  on_header_ends (err x) rest n h = h rest (omega arith)
  on_header_ends panic rest n h = λ e. cc
  on_header_ends spin rest n h = absurd (n refl)

-- The loop ends on every stream: with more fuel than bytes it is never cut off.
pub serve_ends :
    (fuel : ℕ) (stream : List ℕ) → length stream < fuel → (serve fuel stream).1 ≢ running
unfolding serve
serve_ends zero stream h = absurd (omega arith)
serve_ends (suc fuel) stream h = elim (Bool-cases (ltb (length stream) 6)) [
  | inl e ↦ rw (e, serve) (λ x. cc)
  | inr e ↦
      rw (e, serve)
        (on_header_ends (serve fuel) (take 6 stream) _ (drop 6 stream) (header-ne-spin _) (λ s n.
          serve_ends fuel s (omega (arith, length-drop 6 stream, ltb→le (length stream) 6 e))))
]

-- Behind such frames, a header of version 3 and of type 0 to 6 that declares fewer than six
-- bytes, or a length that is negative as an int32, crashes the server: all frames before it are
-- forwarded, and nothing after it.
serve_bad_length :
    (fuel : ℕ) (fs : List Frame) (c : CommonHeader) (rest : List ℕ)
    → All IsFrame fs
    → IsHeader c
    → ((c.message_length < 6) ⊎ (2 ^ 31 ≤ c.message_length))
    → serve (length fs + suc fuel) (encode_all frame_bytes fs ++ (serialize c ++ rest))
      ≡ (map frame_bytes fs, crashed)
serve_bad_length fuel fs c rest hs hc bad =
    serve_frames (suc fuel) fs (serialize c ++ rest) hs ∙ rw (crash fuel c rest hc bad, append-nil)
  where
    crash :
        (fuel : ℕ) (c : CommonHeader) (rest : List ℕ)
        → IsHeader c
        → ((c.message_length < 6) ⊎ (2 ^ 31 ≤ c.message_length))
        → serve (suc fuel) (serialize c ++ rest) ≡ ([], crashed)
    crash fuel c rest hc bad =
        unfold serve serialize in
        rw
          (
            le→ltb (length (serialize c ++ rest)) 6 (omega arith),
            serve,
            unmarshal_common_header-serialize c [] hc,
          )
          (ground arith)
