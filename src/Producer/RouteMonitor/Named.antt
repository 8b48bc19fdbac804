-- ===== src/Producer/RouteMonitor/Named.antt =====
-- The speaker that the messages of an update name.
use gobmp.Prelude.{
  ℕ, ◌≡◌, map, not, ◌||◌, Bool, true, false, List, [], ◌∷◌, ◌++◌, Option, none, some, All,
  if◌then◌else◌, ◌==◌, length,
}
use gobmp.Go.{Res, ok, err, panic, spin}
use gobmp.Go.Gives.{
  Gives, Gives-err, Gives-bind, Gives-then, Gives-if, Gives-ok, Gives-value, Gives-panic,
  Gives-spin,
}
use gobmp.Bgp.PathAttribute.{get_nlri_type, has_prefix_sid}
use gobmp.Bgp.Update.{Update}
use gobmp.Bgp.MpReach.{unmarshal_mp_reach}
use gobmp.Bgp.MpUnreach.{unmarshal_mp_unreach}
use gobmp.Bgp.MpNlri.{MpNlri, reach, unreach, get_afi_safi_type}
use gobmp.Bmp.PeerHeader.{PeerHeader}
use gobmp.Bmp.RouteMonitor.{RouteMonitor}
use gobmp.Producer.Services.{Services, Producer}
use gobmp.Producer.Unicast.Named.{IsSpeaker, nlri-All, unicast-All}
use gobmp.Producer.L3Vpn.Named.{l3vpn-All}
use gobmp.Producer.Evpn.Named.{evpn-All}
use gobmp.Producer.Evpn.{evpn}
use gobmp.Producer.L3Vpn.{l3vpn}
use gobmp.Producer.Unicast.{unicast, UnicastPrefix}
use gobmp.Producer.Flowspec.{FlowspecMessage, flowspec}
use gobmp.Producer.RouteMonitor.{
  topic_of, legacy_topic, Topic, Sent, RouteMessage, unicast_prefix, l3vpn_prefix, evpn_prefix,
  flowspec_rules, made, produce_route_monitor_message, publish_all, publish_made, process_mp_update,
  process_update, legacy_messages, attribute_at, nil_interface,
}

module _ (s : Services) where
  -- A message names its router by an address and the hash of it; one for flow specification rules has
  -- the address alone.
  abbrev pub IsNamed : RouteMessage → Type 0
  IsNamed (unicast_prefix m) = m.router_hash ≡ s.md5_text m.router_ip
  IsNamed (l3vpn_prefix m) = m.router_hash ≡ s.md5_text m.router_ip
  IsNamed (evpn_prefix m) = m.router_hash ≡ s.md5_text m.router_ip
  IsNamed (flowspec_rules m) = Unit

  abbrev pub IsSent : Topic × RouteMessage → Type 0
  IsSent (t, m) = IsNamed m

  append-All : (xs ys : Sent) → All IsSent xs → All IsSent ys → All IsSent (xs ++ ys)
  append-All [] ys h k = k
  append-All (x ∷ xs) ys (hx, hs) k = (hx, append-All xs ys hs k)

  append-All_of :
      {A : Type 0} (P : A → Type 0) (xs ys : List A) → All P xs → All P ys → All P (xs ++ ys)
  append-All_of P [] ys h k = k
  append-All_of P (x ∷ xs) ys (hx, hs) k = (hx, append-All_of P xs ys hs k)

  made-All :
      {A : Type 0} (P : A → Type 0) (wrap : A → RouteMessage) (r : Res (List A))
      → ((a : A) → P a → IsNamed (wrap a))
      → Gives (All P) r
      → Gives (All IsNamed) (made wrap r)
  unfolding made
  made-All {A} P wrap r h k =
      Gives-bind (All P) (All IsNamed) r _ k (λ xs hs. Gives-ok _ _ (go xs hs))
    where
      go : (xs : List A) → All P xs → All IsNamed (map wrap xs)
      go [] hs = tt
      go (x ∷ xs) (hx, hs) = (h x hx, go xs hs)

  -- Nothing is asked of flow specification rules.
  flowspec-All :
      (p : Producer) (n : MpNlri) (op : ℕ) (ph : PeerHeader) (u : Update)
      → Gives (All IsNamed) (made flowspec_rules (flowspec s p n op ph u))
  flowspec-All p n op ph u =
      made-All (λ m. Unit {0}) flowspec_rules _ (λ a k. tt) (all_units (flowspec s p n op ph u))
    where
      units : (xs : List FlowspecMessage) → All (λ m. Unit {0}) xs
      units [] = tt
      units (x ∷ xs) = (tt, units xs)

      all_units : (r : Res (List FlowspecMessage)) → Gives (All (λ m. Unit {0})) r
      all_units (ok xs) = Gives-ok _ xs (units xs)
      all_units (err e) = Gives-err _ e
      all_units panic = Gives-panic _
      all_units spin = Gives-spin _

  module _ (accepts : Sent → Topic × RouteMessage → Bool) (topic : RouteMessage → Topic) where
    choose : (b : Bool) (x y : Sent) → All IsSent x → All IsSent y → All IsSent (if b then x else y)
    choose true x y h k = h
    choose false x y h k = k

    publish_all-All :
        (sent : Sent) (ms : List RouteMessage)
        → All IsSent sent
        → All IsNamed ms
        → All IsSent (publish_all accepts topic sent ms)
    unfolding publish_all
    publish_all-All sent [] h k = h
    publish_all-All sent (m ∷ ms) h (km, ks) =
        choose (accepts sent (topic m, m)) _ _
          (publish_all-All (sent ++ ((topic m, m) ∷ [])) ms (append-All sent _ h (km, tt)) ks) h

    publish_made-All :
        (sent : Sent) (r : Res (List RouteMessage))
        → All IsSent sent
        → Gives (All IsNamed) r
        → Gives (All IsSent) (publish_made accepts topic sent r)
    unfolding publish_made
    publish_made-All sent (ok ms) h k =
        Gives-ok (All IsSent) _ (publish_all-All sent ms h (Gives-value (All IsNamed) ms k))
    publish_made-All sent (err e) h k = Gives-ok (All IsSent) sent h
    publish_made-All sent panic h k = Gives-panic (All IsSent)
    publish_made-All sent spin h k = Gives-spin (All IsSent)

  module _ (accepts : Sent → Topic × RouteMessage → Bool)
      (other : MpNlri → ℕ → PeerHeader → Update → Sent → Res Sent)
      (good : (n : MpNlri) (op : ℕ) (ph : PeerHeader) (u : Update) (sent : Sent)
        → All IsSent sent
        → Gives (All IsSent) (other n op ph u sent))
      (p : Producer) (w : IsSpeaker s p) where
    process_mp_update-All :
        (depth : ℕ) (n : MpNlri) (op : ℕ) (ph : PeerHeader) (u : Update) (sent : Sent)
        → All IsSent sent
        → Gives (All IsSent) (process_mp_update s accepts other depth p n op ph u sent)
    unfolding process_mp_update
    process_mp_update-All depth n op ph u sent h =
        let t = get_afi_safi_type n in
        let labeled = not (t == 1 || t == 2) in
        let R = All IsSent in
        Gives-if R (t == 1 || t == 2 || t == 16 || t == 17) _ _
          (publish_made-All accepts (topic_of p) sent _ h (
            made-All _ unicast_prefix (unicast s depth p n op ph u labeled) (λ a k. k)
              (unicast-All s p w depth n op ph u labeled)))
          (Gives-if R (t == 18 || t == 19) _ _
            (publish_made-All accepts (topic_of p) sent _ h (
              made-All _ l3vpn_prefix (l3vpn s depth p n op ph u) (λ a k. k)
                (l3vpn-All s p w depth n op ph u)))
            (Gives-if R (t == 24) _ _
              (publish_made-All accepts (topic_of p) sent _ h
                (made-All _ evpn_prefix (evpn s p n op ph u) (λ a k. k) (evpn-All s p w n op ph u)))
              (Gives-if R (t == 27) _ _
                (publish_made-All accepts (topic_of p) sent _ h (flowspec-All p n op ph u))
                (Gives-if R (t == 25 || t == 26 || t == 71) _ _ (good n op ph u sent h)
                  (Gives-ok R sent h)))))

    legacy_messages-All :
        (depth : ℕ) (ph : PeerHeader) (u : Update)
        → Gives
            (All (gobmp.Producer.Unicast.Named.IsNamed s))
            (legacy_messages s accepts other depth p ph u)
    unfolding legacy_messages
    legacy_messages-All depth ph u =
        let Q = gobmp.Producer.Unicast.Named.IsNamed s in
        Gives-bind (All Q) (All Q) _ _
          (Gives-if (All Q) _ _ _ (Gives-ok (All Q) [] tt) (nlri-All s p w depth 1 ph u))
          (λ gone hg.
            Gives-bind (All Q) (All Q) _ _ (nlri-All s p w depth 0 ph u)
              (λ new hn. Gives-ok (All Q) _ (append-All_of Q gone new hg hn)))

    process_update-All :
        (depth : ℕ) (ph : PeerHeader) (u : Update) (k : ℕ × ℕ) (sent : Sent)
        → All IsSent sent
        → Gives (All IsSent) (process_update s accepts other depth p ph u k sent)
    unfolding process_update
    process_update-All depth ph u (t, i) sent h =
        Gives-if (All IsSent) (t == 14) _ _
          (Gives-then (All IsSent) (attribute_at u.path_attributes i) _ (λ b.
            Gives-then (All IsSent)
              (nil_interface
                (unmarshal_mp_reach b (has_prefix_sid u.path_attributes) p.add_path_capable))
              _ (λ mp. process_mp_update-All depth (reach mp) 0 ph u sent h)))
          (Gives-if (All IsSent) (t == 15) _ _
            (Gives-then (All IsSent) (attribute_at u.path_attributes i) _ (λ b.
              Gives-then (All IsSent) (nil_interface (unmarshal_mp_unreach b p.add_path_capable)) _
                (λ mp. process_mp_update-All depth (unreach mp) 1 ph u sent h)))
            (publish_made-All accepts (legacy_topic p) sent _ h (
              made-All _ unicast_prefix (legacy_messages s accepts other depth p ph u) (λ a k. k)
                (legacy_messages-All depth ph u))))

    pub produce_route_monitor_message-All :
        (depth : ℕ) (ph : PeerHeader) (m : RouteMonitor) (sent : Sent)
        → All IsSent sent
        → Gives
            (All IsSent)
            (produce_route_monitor_message s accepts other depth p (some ph) m sent)
    unfolding produce_route_monitor_message
    produce_route_monitor_message-All depth ph m sent h = go m.update
      where
        go :
            (o : Option Update)
            → Gives (All IsSent) (elim o [
              | none ↦ ok sent
              | some u ↦
                  process_update s accepts other depth p ph u
                    (if length u.path_attributes == 0
                      then (0, 0)
                      else get_nlri_type u.path_attributes)
                    sent
            ])
        go none = Gives-ok (All IsSent) sent h
        go (some u) = process_update-All depth ph u _ sent h
