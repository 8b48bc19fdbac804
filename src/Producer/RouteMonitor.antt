-- ===== src/Producer/RouteMonitor.antt =====
-- pkg/message/route-monitor.go and process-mp-update.go: from an update to published messages.
pub mod Published
pub mod Unicast
pub mod Legacy
pub mod Named
pub mod Vpn
pub mod Evpn
mod Tests
use gobmp.Prelude.{
  ℕ, zero, suc, Bool, true, false, not, ◌||◌, List, [], ◌∷◌, ◌++◌, Option, none, some, map, drop,
  length, ◌==◌, if◌then◌else◌,
}
use gobmp.Go.{Res, ok, err, panic, spin, ◌>>=◌, Slice, of_list}
use gobmp.Bgp.PathAttribute.{PathAttribute, get_nlri_type, has_prefix_sid}
use gobmp.Bgp.Update.{Update}
use gobmp.Bgp.MpReach.{MpReach, unmarshal_mp_reach}
use gobmp.Bgp.MpUnreach.{MpUnreach, unmarshal_mp_unreach}
use gobmp.Bgp.MpNlri.{MpNlri, reach, unreach, get_afi_safi_type}
use gobmp.Bmp.PeerHeader.{PeerHeader}
use gobmp.Bmp.RouteMonitor.{RouteMonitor}
use gobmp.Producer.Services.{Services, Producer}
use gobmp.Producer.Unicast.{UnicastPrefix, nlri, unicast}
use gobmp.Producer.L3Vpn.{L3VpnPrefix, l3vpn}
use gobmp.Producer.Evpn.{EvpnPrefix, evpn}
use gobmp.Producer.Flowspec.{FlowspecMessage, flowspec}

-- The types of message that routes are published as.
pub data Topic : Type 0 where
  unicast_prefix_msg unicast_prefix_v4_msg unicast_prefix_v6_msg : Topic
  l3vpn_msg l3vpn_v4_msg l3vpn_v6_msg evpn_msg flowspec_msg flowspec_v4_msg flowspec_v6_msg : Topic

-- The messages of an update.
pub data RouteMessage : Type 0 where
  unicast_prefix : UnicastPrefix → RouteMessage
  l3vpn_prefix : L3VpnPrefix → RouteMessage
  evpn_prefix : EvpnPrefix → RouteMessage
  flowspec_rules : FlowspecMessage → RouteMessage

-- `routeMonitorMsg.Update.PathAttributes[index].Attribute`
pub attribute_at : List PathAttribute → ℕ → Res Slice
attribute_at [] i = panic
attribute_at (a ∷ attrs) zero = ok (of_list a.attribute)
attribute_at (a ∷ attrs) (suc i) = attribute_at attrs i

-- The interface is nil after an error, and the next call of one of its methods panics.
pub nil_interface {ℓ} : {A : Type ℓ} → Res A → Res A
nil_interface (err e) = panic
nil_interface r = r

-- What went to the publisher, in order.
abbrev pub Sent : Type 0
Sent = List (Topic × RouteMessage)

-- The topic of a message of `processMPUpdate`, and that of a message of the default branch.
pub topic_of : Producer → RouteMessage → Topic
topic_of p (unicast_prefix m) =
    if p.split_af
    then (if m.is_ipv4 then unicast_prefix_v4_msg else unicast_prefix_v6_msg)
    else unicast_prefix_msg
topic_of p (l3vpn_prefix m) =
    if p.split_af then (if m.is_ipv4 then l3vpn_v4_msg else l3vpn_v6_msg) else l3vpn_msg
topic_of p (evpn_prefix m) = evpn_msg
topic_of p (flowspec_rules m) =
    if p.split_af then (if m.is_ipv4 then flowspec_v4_msg else flowspec_v6_msg) else flowspec_msg

pub legacy_topic : Producer → RouteMessage → Topic
legacy_topic p m = if p.split_af then unicast_prefix_v4_msg else unicast_prefix_msg

-- The loops around `marshalAndPublish`: the first error of the publisher ends them. `accepts` tells
-- whether the publisher takes a message after those before.
pub publish_all :
    (Sent → Topic × RouteMessage → Bool) → (RouteMessage → Topic) → Sent → List RouteMessage → Sent
publish_all accepts topic sent [] = sent
publish_all accepts topic sent (m ∷ ms) =
    let rest = publish_all accepts topic (sent ++ ((topic m, m) ∷ [])) ms in
    if accepts sent (topic m, m) then rest else sent

-- After an error of the function that makes the messages nothing is published.
pub publish_made :
    (Sent → Topic × RouteMessage → Bool)
    → (RouteMessage → Topic)
    → Sent
    → Res (List RouteMessage)
    → Res Sent
publish_made accepts topic sent (ok ms) = ok (publish_all accepts topic sent ms)
publish_made accepts topic sent (err e) = ok sent
publish_made accepts topic sent panic = panic
publish_made accepts topic sent spin = spin

-- The messages of one family.
pub made : {A : Type 0} → (A → RouteMessage) → Res (List A) → Res (List RouteMessage)
made wrap r = do ms ← r; ok (map wrap ms)

-- `other` is what `processMPUpdate` does with SR policies and with link-state NLRI.
module _ (s : Services) (accepts : Sent → Topic × RouteMessage → Bool)
    (other : MpNlri → ℕ → PeerHeader → Update → Sent → Res Sent) where
  -- `processMPUpdate`, by the type of the family.
  pub process_mp_update : ℕ → Producer → MpNlri → ℕ → PeerHeader → Update → Sent → Res Sent
  process_mp_update depth p n op ph u sent =
      let t = get_afi_safi_type n in
      let labeled = not (t == 1 || t == 2) in
      if t == 1 || t == 2 || t == 16 || t == 17
      then publish_made accepts (topic_of p) sent
          (made unicast_prefix (unicast s depth p n op ph u labeled))
      else if t == 18 || t == 19
      then publish_made accepts (topic_of p) sent (made l3vpn_prefix (l3vpn s depth p n op ph u))
      else if t == 24
      then publish_made accepts (topic_of p) sent (made evpn_prefix (evpn s p n op ph u))
      else if t == 27
      then publish_made accepts (topic_of p) sent (made flowspec_rules (flowspec s p n op ph u))
      else if t == 25 || t == 26 || t == 71
      then other n op ph u sent
      else ok sent

  -- The default branch: withdrawn routes first, then the update's routes.
  pub legacy_messages : ℕ → Producer → PeerHeader → Update → Res (List UnicastPrefix)
  legacy_messages depth p ph u = do
    gone ← (if u.withdrawn_routes_length == 0 then ok [] else nlri s depth p 1 ph u)
    new ← nlri s depth p 0 ph u
    ok (gone ++ new)

  -- The branches by the type of the attribute that was found, and its index.
  pub process_update : ℕ → Producer → PeerHeader → Update → ℕ × ℕ → Sent → Res Sent
  process_update depth p ph u (t, i) sent =
      if t == 14
      then (do
        b ← attribute_at u.path_attributes i
        mp ←
            nil_interface
              (unmarshal_mp_reach b (has_prefix_sid u.path_attributes) p.add_path_capable)
        process_mp_update depth p (reach mp) 0 ph u sent)
      else if t == 15
      then (do
        b ← attribute_at u.path_attributes i
        mp ← nil_interface (unmarshal_mp_unreach b p.add_path_capable)
        process_mp_update depth p (unreach mp) 1 ph u sent)
      else publish_made accepts (legacy_topic p) sent
          (made unicast_prefix (legacy_messages depth p ph u))

  -- `produceRouteMonitorMessage`; the messages published before, and after.
  pub produce_route_monitor_message :
      ℕ → Producer → Option PeerHeader → RouteMonitor → Sent → Res Sent
  produce_route_monitor_message depth p none m sent = ok sent
  produce_route_monitor_message depth p (some ph) m sent = elim m.update [
    | none ↦ ok sent
    | some u ↦
        process_update depth p ph u
          (if length u.path_attributes == 0 then (0, 0) else get_nlri_type u.path_attributes) sent
  ]
