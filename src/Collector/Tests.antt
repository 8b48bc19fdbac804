-- ===== src/Collector/Tests.antt =====
-- The stream of a router that reports two peers as down.
use mathlib.Core.List.{Perm}
use gobmp.Prelude.{◌++◌, refl, [], ◌∷◌, false, replicate, map, arith}
use gobmp.Go.{index, slice_from}
use gobmp.Go.Scan.{encode_all}
use gobmp.Bgp.Attributes.Samples.{plain_formats}
use gobmp.Bmp.PeerHeader.{PeerHeader, global}
use gobmp.Bmp.PeerHeader.RoundTrip.{IsPeerHeader}
use gobmp.Bmp.Info.{unmarshal_peer_down}
use gobmp.Server.Framing.{frame_bytes}
use gobmp.Parser.{peer_down}
use gobmp.Parser.Reports.{Report, IsReport, frame_of, down}
use gobmp.Collector.{deliver}
use gobmp.Collector.Chain.{message_of, all_of, queues, deliver-session}

abbrev peer_64512 : PeerHeader
peer_64512 = record {
  peer_type = global;
  flag_f = false;
  flag_v = false;
  flag_l = false;
  flag_a = false;
  flag_o = false;
  distinguisher = replicate 8 0;
  address = replicate 16 2;
  peer_as = 64512;
  bgp_id = replicate 4 2;
  timestamp = replicate 8 3;
}

peer_64512-IsPeerHeader : IsPeerHeader peer_64512
peer_64512-IsPeerHeader = record {
  rib_flags = λ e. (refl, refl, refl, refl);
  peer_flags = λ e. refl;
  distinguisher_size = refl;
  address_size = refl;
  bgp_id_size = refl;
  timestamp_size = refl;
}

-- The peer closed, and the session was de-configured.
abbrev closed : Report
closed = record {
  kind = down;
  peer = peer_64512;
  content = 4 ∷ [];
  message = peer_down peer_64512 (record { reason = 4; info = [] });
}

abbrev removed : Report
removed = record {
  kind = down;
  peer = peer_64512;
  content = 2 ∷ 0 ∷ 9 ∷ [];
  message = peer_down peer_64512 (record { reason = 2; info = 0 ∷ 9 ∷ [] });
}

closed-IsReport : IsReport plain_formats closed
unfolding unmarshal_peer_down index slice_from
closed-IsReport = record {
  header_known = peer_64512-IsPeerHeader;
  small = omega arith;
  readable = refl;
}

removed-IsReport : IsReport plain_formats removed
unfolding unmarshal_peer_down index slice_from
removed-IsReport = record {
  header_known = peer_64512-IsPeerHeader;
  small = omega arith;
  readable = refl;
}

-- The second worker is first, and the first one is late.
deliver-session_example :
    Perm
      ((deliver (1 ∷ []) (
          queues plain_formats 3 2
            (encode_all frame_bytes (map frame_of (closed ∷ removed ∷ []))))).0
        ++ all_of (
            (deliver (1 ∷ []) (
              queues plain_formats 3 2
                (encode_all frame_bytes (map frame_of (closed ∷ removed ∷ []))))).1))
      (map message_of (closed ∷ removed ∷ []))
deliver-session_example =
    deliver-session plain_formats 0 0 (closed ∷ removed ∷ []) (1 ∷ [])
      (closed-IsReport, (removed-IsReport, tt))
