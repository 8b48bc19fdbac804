-- ===== src/Bmp/PeerHeader/Tests.antt =====
-- The header of an IPv4 peer of the global instance, in AS 65000, with the L flag.
use gobmp.Prelude.{◌≡◌, ◌++◌, [], ◌∷◌, refl, true, false, replicate}
use gobmp.Go.{ok}
use gobmp.Bmp.PeerHeader.{PeerHeader, global, unmarshal_peer_header}
use gobmp.Bmp.PeerHeader.RoundTrip.{encode_header, IsPeerHeader, unmarshal_peer_header-encode}
use gobmp.Go.{Slice}

abbrev peer_65000 : PeerHeader
peer_65000 = record {
  peer_type = global;
  flag_v = false;
  flag_l = true;
  flag_a = false;
  flag_o = false;
  flag_f = false;
  distinguisher = replicate 8 0;
  address = replicate 12 0 ++ (10 ∷ 0 ∷ 0 ∷ 1 ∷ []);
  peer_as = 65000;
  bgp_id = 10 ∷ 0 ∷ 0 ∷ 1 ∷ [];
  timestamp = replicate 8 1;
}

abbrev peer_65000_bytes : Slice
peer_65000_bytes = record { len = 42; mem = encode_header peer_65000 ++ (7 ∷ []) }

peer_65000-IsPeerHeader : IsPeerHeader peer_65000
peer_65000-IsPeerHeader = record {
  rib_flags = λ e. (refl, cc, refl, refl);
  peer_flags = λ e. refl;
  distinguisher_size = refl;
  address_size = refl;
  bgp_id_size = refl;
  timestamp_size = refl;
}

unmarshal_peer_header-encode_example : unmarshal_peer_header peer_65000_bytes ≡ ok peer_65000
unmarshal_peer_header-encode_example =
    unmarshal_peer_header-encode peer_65000 (7 ∷ []) peer_65000-IsPeerHeader
