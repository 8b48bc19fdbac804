-- ===== src/Server/Tests.antt =====
-- Two frames on the stream, and bytes behind them.
use gobmp.Prelude.{arith, ◌≡◌, ◌≢◌, ◌++◌, List, [], ◌∷◌, refl, map, All}
use gobmp.Go.Scan.{encode_all}
use gobmp.Bmp.CommonHeader.{serialize}
use gobmp.Server.{running, serve}
use gobmp.Server.Framing.{Frame, IsFrame, frame_bytes, serve_frames, serve_ends}
use gobmp.Server.Bounds.{Within, serve-Within}

abbrev two_frames : List Frame
two_frames =
    (record {
      header = record { version = 3; message_length = 8; message_type = 4 };
      payload = 1 ∷ 2 ∷ [];
    })
    ∷ (record {
      header = record { version = 3; message_length = 7; message_type = 0 };
      payload = 5 ∷ [];
    })
    ∷ []

two_frames-IsFrame : All IsFrame two_frames
two_frames-IsFrame = (
  record {
    known = record { version_three = refl; known_type = omega arith };
    counted = refl;
    small = omega arith;
  },
  (
    record {
      known = record { version_three = refl; known_type = omega arith };
      counted = refl;
      small = omega arith;
    },
    tt,
  ),
)

serve_frames_example :
    serve 3 (encode_all frame_bytes two_frames ++ (3 ∷ []))
    ≡ (map frame_bytes two_frames ++ (serve 1 (3 ∷ [])).0, (serve 1 (3 ∷ [])).1)
serve_frames_example = serve_frames 1 two_frames (3 ∷ []) two_frames-IsFrame

serve_ends_example : (serve 4 (9 ∷ 9 ∷ 9 ∷ [])).1 ≢ running
serve_ends_example = serve_ends 4 (9 ∷ 9 ∷ 9 ∷ []) (omega arith)

serve-Within_example : Within 18 (serve 3 (encode_all frame_bytes two_frames ++ (3 ∷ 0 ∷ 0 ∷ [])))
unfolding serialize
serve-Within_example = serve-Within 3 (encode_all frame_bytes two_frames ++ (3 ∷ 0 ∷ 0 ∷ []))
