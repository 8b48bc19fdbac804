-- ===== src/Producer/RouteMonitor/Published.antt =====
-- What is published where every message is taken, and the attribute that it comes from.
use gobmp.Prelude.{
  ℕ, ◌≡◌, ap, ◌∙◌, sym, Bool, true, false, refl, if◌then◌else◌, List, [], ◌∷◌, ◌++◌, map, length,
  append_assoc, append-nil,
}
use gobmp.Go.{ok, of_list}
use gobmp.Bgp.MpReach.{MpReach, unmarshal_mp_reach}
use gobmp.Bgp.MpReach.RoundTrip.{encode_mp_reach, unmarshal_mp_reach-encode}
use gobmp.Bgp.Open.AddPath.{PathMap}
use gobmp.Producer.Services.{Producer}
use gobmp.Producer.RouteMonitor.{
  Topic, unicast_prefix_msg, unicast_prefix_v4_msg, unicast_prefix_v6_msg, l3vpn_msg, l3vpn_v4_msg,
  l3vpn_v6_msg, evpn_msg, flowspec_msg, flowspec_v4_msg, flowspec_v6_msg, Sent, RouteMessage,
  unicast_prefix, l3vpn_prefix, evpn_prefix, flowspec_rules, topic_of, nil_interface, publish_all,
}

-- A publisher that takes every message.
abbrev pub takes_all : Sent → Topic × RouteMessage → Bool
takes_all sent m = true

abbrev pub published : (RouteMessage → Topic) → List RouteMessage → Sent
published topic ms = map (λ m. (topic m, m)) ms

-- The topics, written out: one for a family, or one for each of IPv4 and IPv6 where the families are
-- split.
abbrev pub of_family : Bool → Bool → Topic → Topic → Topic → Topic
of_family false ipv4 both v4 v6 = both
of_family true true both v4 v6 = v4
of_family true false both v4 v6 = v6

abbrev pub topic_shown : Producer → RouteMessage → Topic
topic_shown p (unicast_prefix m) =
    of_family p.split_af m.is_ipv4 unicast_prefix_msg unicast_prefix_v4_msg unicast_prefix_v6_msg
topic_shown p (l3vpn_prefix m) = of_family p.split_af m.is_ipv4 l3vpn_msg l3vpn_v4_msg l3vpn_v6_msg
topic_shown p (evpn_prefix m) = evpn_msg
topic_shown p (flowspec_rules m) =
    of_family p.split_af m.is_ipv4 flowspec_msg flowspec_v4_msg flowspec_v6_msg

of_family_lem :
    (split ipv4 : Bool) (both v4 v6 : Topic)
    → (if split then (if ipv4 then v4 else v6) else both) ≡ of_family split ipv4 both v4 v6
of_family_lem false ipv4 both v4 v6 = refl
of_family_lem true true both v4 v6 = refl
of_family_lem true false both v4 v6 = refl

topic_of_lem : (p : Producer) (m : RouteMessage) → topic_of p m ≡ topic_shown p m
unfolding topic_of
topic_of_lem p (unicast_prefix m) = of_family_lem p.split_af m.is_ipv4 _ _ _
topic_of_lem p (l3vpn_prefix m) = of_family_lem p.split_af m.is_ipv4 _ _ _
topic_of_lem p (evpn_prefix m) = refl
topic_of_lem p (flowspec_rules m) = of_family_lem p.split_af m.is_ipv4 _ _ _

pub publish_all_accepted :
    (accepts : Sent → Topic × RouteMessage → Bool) (topic : RouteMessage → Topic)
    → ((sent : Sent) (m : Topic × RouteMessage) → accepts sent m ≡ true)
    → (sent : Sent) (ms : List RouteMessage)
    → publish_all accepts topic sent ms ≡ sent ++ map (λ m. (topic m, m)) ms
unfolding publish_all
publish_all_accepted accepts topic h sent [] = sym (append-nil sent)
publish_all_accepted accepts topic h sent (m ∷ ms) =
    rw (h sent (topic m, m)) (
      publish_all_accepted accepts topic h (sent ++ ((topic m, m) ∷ [])) ms ∙ append_assoc sent _ _)

published-topic_shown :
    (p : Producer) (ms : List RouteMessage)
    → published (topic_of p) ms ≡ published (topic_shown p) ms
published-topic_shown p [] = refl
published-topic_shown p (m ∷ ms) = rw (topic_of_lem p m, published-topic_shown p ms)

-- All messages, under their topics.
pub publish_all-published :
    (p : Producer) (sent : Sent) (ms : List RouteMessage)
    → publish_all takes_all (topic_of p) sent ms ≡ sent ++ published (topic_shown p) ms
publish_all-published p sent ms =
    publish_all_accepted takes_all (topic_of p) (λ a m. refl) sent ms
    ∙ ap (λ l. sent ++ l) (published-topic_shown p ms)

pub decode_reach :
    (mp : MpReach) (reserved : ℕ) (srv6 : Bool) (paths : PathMap)
    → mp.next_hop_address_length ≡ length mp.next_hop_address
    → mp.srv6 ≡ srv6
    → mp.add_path ≡ paths
    → nil_interface (unmarshal_mp_reach (of_list (encode_mp_reach reserved mp)) srv6 paths) ≡ ok mp
unfolding nil_interface
decode_reach mp reserved srv6 paths h v w = ap nil_interface (
    ap (λ (x : Bool). unmarshal_mp_reach (of_list (encode_mp_reach reserved mp)) x paths) (sym v)
    ∙ ap (λ (m : PathMap). unmarshal_mp_reach (of_list (encode_mp_reach reserved mp)) mp.srv6 m)
        (sym w)
    ∙ unmarshal_mp_reach-encode mp reserved h)
