-- ===== src/Parser/Reports.antt =====
-- The run of the worker on one message as the server hands it over.
use gobmp.Prelude.{
  ℕ, suc, ◌+◌, ◌-◌, ◌%◌, ◌^◌, ◌≤◌, ◌<◌, ◌++◌, ◌≡◌, refl, ap, ◌∙◌, sym, List, [], ◌∷◌, some, length,
  drop, arith, le→ltb, lt→leb, append-nil, length-append,
}
use gobmp.Go.{Res, ok, ◌>>=◌, Slice, of_list, slice, slice_from}
use gobmp.Go.Reads.{slice-drop, slice_sized, slice_from-drop, drop_sized, >>=-eq-ok}
use gobmp.Bgp.Attributes.{Formats}
use gobmp.Bmp.CommonHeader.{unmarshal_common_header, serialize}
use gobmp.Bmp.CommonHeader.RoundTrip.{unmarshal_common_header-serialize}
use gobmp.Bmp.PeerHeader.{PeerHeader, is_remote_peer_ipv6}
use gobmp.Bmp.PeerHeader.RoundTrip.{
  encode_header, IsPeerHeader, unmarshal_peer_header-encode, unmarshal_peer_header-encode_within,
}
use gobmp.Bmp.RouteMonitor.{unmarshal_route_monitor}
use gobmp.Bmp.Info.{unmarshal_stats_report, unmarshal_peer_down}
use gobmp.Bmp.PeerUp.{unmarshal_peer_up}
use gobmp.Server.Framing.{Frame, IsFrame, frame_bytes}
use gobmp.Parser.{
  Message, route_monitor, stats_report, peer_down, peer_up, dispatch, body, body32, worker_turn,
  worker, done, moved,
}
use gobmp.Parser.Progress.{worker_one_message}

-- The types of BMP message that are published.
pub data Kind : Type 0 where
  monitoring statistics down up : Kind

abbrev pub type_of : Kind → ℕ
type_of monitoring = 0
type_of statistics = 1
type_of down = 2
type_of up = 3

-- What the bytes behind the per-peer header are read as.
abbrev pub read : Formats → Kind → PeerHeader → List ℕ → Res Message
read fmt monitoring h v = do m ← unmarshal_route_monitor fmt (of_list v); ok (route_monitor h m)
read fmt statistics h v = do m ← unmarshal_stats_report (of_list v); ok (stats_report h m)
read fmt down h v = do m ← unmarshal_peer_down (of_list v); ok (peer_down h m)
read fmt up h v = do m ← unmarshal_peer_up fmt (of_list v) (is_remote_peer_ipv6 h); ok (peer_up h m)

-- A message of a router, and what it is read as.
pub record Report : Type 0 where
  pub kind : Kind
  pub peer : PeerHeader
  pub content : List ℕ
  pub message : Message

abbrev pub frame_of : Report → Frame
frame_of r = record {
  header = record {
    version = 3;
    message_length = 48 + length r.content;
    message_type = type_of r.kind;
  };
  payload = encode_header r.peer ++ r.content;
}

pub record IsReport (fmt : Formats) (r : Report) : Type 0 where
  pub header_known : IsPeerHeader r.peer
  pub small : 48 + length r.content < 2 ^ 31
  pub readable : read fmt r.kind r.peer r.content ≡ ok r.message

known_kind : (k : Kind) → type_of k ≤ 6
known_kind monitoring = omega arith
known_kind statistics = omega arith
known_kind down = omega arith
known_kind up = omega arith

length-encode_header : (h : PeerHeader) → IsPeerHeader h → length (encode_header h) ≡ 42
length-encode_header h w = omega (
  arith,
  w.distinguisher_size,
  w.address_size,
  w.bgp_id_size,
  w.timestamp_size,
  length-append h.distinguisher (h.address ++ _),
  length-append h.address _,
  length-append h.bgp_id h.timestamp,
)

module _ (fmt : Formats) (r : Report) (w : IsReport fmt r) where
  abbrev v : List ℕ
  v = r.content

  abbrev l : ℕ
  l = 48 + length r.content

  abbrev pub b : Slice
  b = of_list (frame_bytes (frame_of r))

  pub frame_of-IsFrame : IsFrame (frame_of r)
  frame_of-IsFrame = record {
    known = record { version_three = refl; known_type = known_kind r.kind };
    counted = omega (
      arith,
      length-append (encode_header r.peer) r.content,
      length-encode_header r.peer w.header_known,
    );
    small = w.small;
  }

  frame_size : b.len ≡ l
  unfolding serialize
  frame_size = omega (
    arith,
    length-append (encode_header r.peer) r.content,
    length-encode_header r.peer w.header_known,
  )

  at6 : drop 6 b.mem ≡ encode_header r.peer ++ r.content
  unfolding serialize
  at6 = refl

  at48 : drop 48 b.mem ≡ r.content ++ []
  at48 =
      drop_sized b.mem 6 42 (encode_header r.peer) r.content
        (length-encode_header r.peer w.header_known) at6
      ∙ sym (append-nil r.content)

  header_slice : slice b 0 6 ≡ ok (record { len = 6; mem = b.mem })
  unfolding serialize
  header_slice =
      slice-drop b 0 (serialize (frame_of r).header) (encode_header r.peer ++ r.content) refl
        (omega (arith, frame_size))

  peer_slice : slice b 6 48 ≡ ok (record { len = 42; mem = encode_header r.peer ++ r.content })
  peer_slice =
      slice_sized b 6 42 (encode_header r.peer) r.content
        (length-encode_header r.peer w.header_known) at6 (omega (arith, frame_size))

  rest_slice :
      slice b 6 (6 + (42 + length r.content))
      ≡ ok (record { len = 42 + length r.content; mem = encode_header r.peer ++ r.content })
  rest_slice =
      slice_sized b 6 (42 + length r.content) (encode_header r.peer ++ r.content) []
        (omega (
          arith,
          length-append (encode_header r.peer) r.content,
          length-encode_header r.peer w.header_known,
        ))
        (at6 ∙ sym (append-nil _)) (omega (arith, frame_size))
      ∙ ap (λ (m : List ℕ). ok (record { len = 42 + length r.content; mem = m }))
          (append-nil (encode_header r.peer ++ r.content))

  content_slice : slice b 48 (48 + length r.content) ≡ ok (of_list r.content)
  content_slice =
      slice-drop b 48 r.content [] at48 (omega (arith, frame_size))
      ∙ ap (λ (m : List ℕ). ok (record { len = length r.content; mem = m })) (append-nil r.content)

  content_left : slice_from b 48 ≡ ok (of_list r.content)
  content_left =
      slice_from-drop b 48 r.content [] at48 (omega (arith, frame_size))
      ∙ ap (λ (m : List ℕ). ok (record { len = length r.content; mem = m })) (append-nil r.content)

  body_lem : body b 48 6 l ≡ ok (of_list r.content)
  unfolding body
  body_lem =
      let e : 6 + l - 6 ≡ 48 + length r.content = omega arith in
      rw (lt→leb (2 ^ 31) l w.small, le→ltb (6 + l) 6 (omega arith), e) content_slice

  body32_lem :
      body32 b 6 l
      ≡ ok (record { len = 42 + length r.content; mem = encode_header r.peer ++ r.content })
  unfolding body32
  body32_lem =
      let e : (l + (2 ^ 32 - 6)) % 2 ^ 32 ≡ 42 + length r.content = omega (arith, w.small) in
      rw (e, lt→leb (2 ^ 31) (42 + length r.content) (omega (arith, w.small))) rest_slice

  dispatch-read :
      (k : Kind) (m : Message)
      → read fmt k r.peer r.content ≡ ok m
      → dispatch fmt b 6 (type_of k) l ≡ ok (some m, 48)
  unfolding dispatch
  dispatch-read monitoring m h =
      let (x, e, k) = >>=-eq-ok (unmarshal_route_monitor fmt (of_list r.content)) _ h in
      let whole = unmarshal_peer_header-encode r.peer r.content w.header_known in
      rw (peer_slice, whole, body_lem, e) (ap (λ (t : Res Message). t >>= λ y. ok (some y, 48)) k)
  dispatch-read statistics m h =
      let (x, e, k) = >>=-eq-ok (unmarshal_stats_report (of_list r.content)) _ h in
      let part =
        unmarshal_peer_header-encode_within (42 + length r.content) r.peer r.content (omega arith)
          w.header_known in
      rw (body32_lem, part, content_left, e)
        (ap (λ (t : Res Message). t >>= λ y. ok (some y, 48)) k)
  dispatch-read down m h =
      let (x, e, k) = >>=-eq-ok (unmarshal_peer_down (of_list r.content)) _ h in
      let part =
        unmarshal_peer_header-encode_within (42 + length r.content) r.peer r.content (omega arith)
          w.header_known in
      rw (body32_lem, part, body_lem, e) (ap (λ (t : Res Message). t >>= λ y. ok (some y, 48)) k)
  dispatch-read up m h =
      let (x, e, k) =
        >>=-eq-ok (unmarshal_peer_up fmt (of_list r.content) (is_remote_peer_ipv6 r.peer)) _ h in
      let part =
        unmarshal_peer_header-encode_within (42 + length r.content) r.peer r.content (omega arith)
          w.header_known in
      rw (body32_lem, part, body_lem, e) (ap (λ (t : Res Message). t >>= λ y. ok (some y, 48)) k)

  common_header : unmarshal_common_header (record { len = 6; mem = b.mem }) ≡ ok (frame_of r).header
  common_header =
      unmarshal_common_header-serialize (frame_of r).header (encode_header r.peer ++ r.content)
        (record { version_three = refl; known_type = known_kind r.kind })

  turn_lem : worker_turn fmt b 0 ≡ ok (some r.message, moved 48 l)
  unfolding worker_turn
  turn_lem = rw (header_slice, common_header, dispatch-read r.kind r.message w.readable)

  -- A Route Monitoring, Statistics Report, Peer Down or Peer Up message whose common header counts it
  -- in less than 2 ^ 31 bytes, with a per-peer header and readable bytes behind it, alone in its slice:
  -- the run publishes what the bytes are read as, and is done.
  pub worker-report : (fuel : ℕ) → worker fmt (suc (suc fuel)) b 0 ≡ (r.message ∷ [], done)
  worker-report fuel =
      worker_one_message fmt fuel b r.message (moved 48 l) (record { len = 6; mem = b.mem })
        (frame_of r).header (omega (arith, frame_size)) turn_lem header_slice common_header w.small
        (omega (arith, frame_size))
