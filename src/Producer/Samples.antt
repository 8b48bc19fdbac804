-- ===== src/Producer/Samples.antt =====
-- A producer and a peer for the tests.
use gobmp.Prelude.{refl, arith, ℕ, [], ◌∷◌, true, false}
use gobmp.Go.{Res, ok}
use gobmp.Bgp.Attributes.Samples.{plain_texts}
use gobmp.Bgp.Update.{Update}
use gobmp.Bgp.MpNlri.{MpNlri}
use gobmp.Bmp.PeerHeader.{PeerHeader, global}
use gobmp.Producer.Services.{Services, Producer}
use gobmp.Producer.RouteMonitor.{Sent}
use gobmp.Producer.Unicast.Announced.{Peer, peer_of}

abbrev pub plain_services : Services
plain_services = record {
  texts = plain_texts;
  md5_hex = λ b. "hash";
  md5_text = λ t. "hash";
  decimal_bytes = λ n. n ∷ [];
  int64_text = λ n. "n";
  two_digits = λ n. "00";
  two_hex = λ n. "00";
  spec_hash = λ x. "hash";
  time_text = λ n. "time";
}

abbrev pub speaker : Producer
speaker = record {
  speaker_ip = "ip";
  speaker_hash = "hash";
  add_path_capable = [];
  split_af = false;
}

abbrev pub peer : PeerHeader
peer = record {
  peer_type = global;
  flag_f = false;
  flag_v = false;
  flag_l = true;
  flag_a = false;
  flag_o = false;
  distinguisher = 0 ∷ 0 ∷ 0 ∷ 0 ∷ 0 ∷ 0 ∷ 0 ∷ 0 ∷ [];
  address = 0 ∷ 0 ∷ 0 ∷ 0 ∷ 0 ∷ 0 ∷ 0 ∷ 0 ∷ 0 ∷ 0 ∷ 0 ∷ 0 ∷ 10 ∷ 0 ∷ 0 ∷ 1 ∷ [];
  peer_as = 65001;
  bgp_id = 10 ∷ 0 ∷ 0 ∷ 1 ∷ [];
  timestamp = 0 ∷ 0 ∷ 0 ∷ 1 ∷ 0 ∷ 0 ∷ 0 ∷ 2 ∷ [];
}

-- No other family.
abbrev pub no_other : MpNlri → ℕ → PeerHeader → Update → Sent → Res Sent
no_other n op ph u sent = ok sent

abbrev pub peer_texts : Peer plain_services peer
peer_texts = peer_of plain_services peer refl (omega arith)
