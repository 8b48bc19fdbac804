-- ===== src/Parser/Tests.antt =====
-- A slice with a Peer Down of 49 bytes, and one with a Termination header of length 0.
use gobmp.Prelude.{
  arith, ◌≡◌, ◌++◌, ◌+◌, List, [], ◌∷◌, refl, false, some, Option, replicate, inl, ℕ,
}
use gobmp.Go.{ok, Slice, index, slice, slice_from, uint32_at, copy_at}
use gobmp.Bmp.CommonHeader.{CommonHeader, unmarshal_common_header}
use gobmp.Bmp.PeerHeader.{global, unmarshal_peer_header, peer_type, flag}
use gobmp.Bmp.Info.{unmarshal_peer_down}
use gobmp.Bgp.Attributes.Samples.{plain_formats}
use gobmp.Parser.{
  Message, peer_down, done, running, worker_turn, worker, dispatch, body, body32, moved,
}
use gobmp.Parser.Progress.{worker_turn_overshoot, worker_one_message, worker_endless}

abbrev header_49 : CommonHeader
header_49 = record { version = 3; message_length = 49; message_type = 2 }

abbrev header_49_bytes : List ℕ
header_49_bytes = 3 ∷ 0 ∷ 0 ∷ 0 ∷ 49 ∷ 2 ∷ []

-- The same message twice.
abbrev peer_down_bytes : List ℕ
peer_down_bytes = header_49_bytes ++ (0 ∷ 0 ∷ (replicate 40 1 ++ (1 ∷ [])))

abbrev two_messages : Slice
two_messages = record { len = 91; mem = peer_down_bytes ++ (peer_down_bytes ++ []) }

abbrev down_message : Message
down_message =
    peer_down
      (record {
        peer_type = global;
        flag_v = false;
        flag_l = false;
        flag_a = false;
        flag_o = false;
        flag_f = false;
        distinguisher = replicate 8 1;
        address = replicate 16 1;
        peer_as = 16843009;
        bgp_id = replicate 4 1;
        timestamp = replicate 8 1;
      })
      (record { reason = 1; info = [] })

abbrev header_slice : Slice
header_slice = record { len = 6; mem = two_messages.mem }

takes_header : slice two_messages 0 6 ≡ ok header_slice
unfolding slice
takes_header = refl

reads_header : unmarshal_common_header header_slice ≡ ok header_49
unfolding unmarshal_common_header index slice uint32_at
reads_header = refl

first_turn : worker_turn plain_formats two_messages 0 ≡ ok (some down_message, some 91)
unfolding worker_turn dispatch body body32 moved unmarshal_common_header unmarshal_peer_header
    peer_type flag unmarshal_peer_down index slice slice_from uint32_at copy_at
first_turn = refl

worker_turn_overshoot_example : ◌≡◌ {A = Option ℕ} (some 91) (some (0 + 49 + 42))
worker_turn_overshoot_example =
    worker_turn_overshoot plain_formats two_messages 0 down_message (some 91) header_slice header_49
      first_turn takes_header reads_header (omega arith)

worker_one_message_example : worker plain_formats 2 two_messages 0 ≡ (down_message ∷ [], done)
worker_one_message_example =
    worker_one_message plain_formats 0 two_messages down_message (some 91) header_slice header_49
      (omega arith) first_turn takes_header reads_header (omega arith) (omega arith)

worker_endless_example :
    worker plain_formats 50 (record { len = 6; mem = 3 ∷ 0 ∷ 0 ∷ 0 ∷ 0 ∷ 5 ∷ [] }) 0 ≡ ([], running)
worker_endless_example = worker_endless plain_formats 50 5 [] 5 (inl refl)
