-- ===== src/Producer/Unicast/Named.antt =====
-- The speaker that unicast messages name.
use Prim.Native.String.{String}
use gobmp.Prelude.{ℕ, ◌≡◌, Bool, List, [], ◌∷◌, Option, All, if◌then◌else◌}
use gobmp.Go.{Res}
use gobmp.Go.Gives.{Gives, Gives-ok, Gives-bind, Gives-then}
use gobmp.Base.Route.{Route}
use gobmp.Bgp.Update.{Update}
use gobmp.Bgp.MpNlri.{MpNlri, get_next_hop, is_ipv6_nlri}
use gobmp.Bmp.PeerHeader.{PeerHeader}
use gobmp.PrefixSid.{PSid}
use gobmp.Producer.Services.{Services, Producer, get_peer_timestamp, get_peer_addr_string}
use gobmp.Producer.Unicast.{
  UnicastPrefix, prefix_sid_of, label_values, end_of_rib, prefix_message, messages, each, nlri,
  unicast, unicast_message, operation,
}

-- The producer's hash is that of its address.
abbrev pub IsSpeaker : Services → Producer → Type 0
IsSpeaker s p = p.speaker_hash ≡ s.md5_text p.speaker_ip

-- So is that of a message.
abbrev pub IsNamed : Services → UnicastPrefix → Type 0
IsNamed s m = m.router_hash ≡ s.md5_text m.router_ip

pub each-All :
    {A B : Type 0} (P : B → Type 0) (f : A → Res B)
    → ((a : A) → Gives P (f a))
    → (xs : List A) → Gives (All P) (each f xs)
unfolding each
each-All P f h [] = Gives-ok (All P) [] tt
each-All P f h (x ∷ xs) = Gives-bind P (All P) (f x) _ (h x) (λ y hy.
    Gives-bind (All P) (All P) (each f xs) _ (each-All P f h xs)
      (λ ys hs. Gives-ok (All P) _ (hy, hs)))

module _ (s : Services) (p : Producer) (w : IsSpeaker s p) where
  end_of_rib-IsNamed :
      (action : String) (ph : PeerHeader) → Gives (IsNamed s) (end_of_rib s p action ph)
  unfolding end_of_rib
  end_of_rib-IsNamed action ph = Gives-then (IsNamed s) _ _ (λ ts. Gives-ok _ _ w)

  prefix_message-IsNamed :
      (action : String) (ph : PeerHeader) (u : Update) (ipv6 : Bool) (hop : String)
      (labels : List ℕ) (sid : Option PSid) (r : Route)
      → Gives (IsNamed s) (prefix_message s p action ph u ipv6 hop labels sid r)
  unfolding prefix_message
  prefix_message-IsNamed action ph u ipv6 hop labels sid r =
      Gives-then (IsNamed s) (get_peer_timestamp s ph) _
        (λ ts. Gives-then (IsNamed s) (get_peer_addr_string s ph) _ (λ ip. Gives-ok _ _ w))

  messages-All :
      (P : UnicastPrefix → Type 0) (eor : Res UnicastPrefix) (f : Route → Res UnicastPrefix)
      → Gives P eor
      → ((r : Route) → Gives P (f r))
      → (rs : List Route) → Gives (All P) (messages s eor f rs)
  unfolding messages
  messages-All P eor f h k [] = Gives-bind P (All P) eor _ h (λ m hm. Gives-ok (All P) _ (hm, tt))
  messages-All P eor f h k (r ∷ rs) = each-All P f k (r ∷ rs)

  pub nlri-All :
      (depth op : ℕ) (ph : PeerHeader) (u : Update)
      → Gives (All (IsNamed s)) (nlri s depth p op ph u)
  unfolding nlri
  nlri-All depth op ph u = Gives-then (All (IsNamed s)) (operation op) _ (λ action.
      Gives-then (All (IsNamed s)) _ _ (λ rs.
        messages-All (IsNamed s) _ _ (end_of_rib-IsNamed action ph)
          (prefix_message-IsNamed action ph u _ _ _ _) rs))

  unicast_message-IsNamed :
      (action : String) (n : MpNlri) (ph : PeerHeader) (u : Update) (label : Bool) (r : Route)
      → Gives (IsNamed s) (unicast_message s p action n ph u label r)
  unfolding unicast_message
  unicast_message-IsNamed action n ph u label r =
      Gives-then (IsNamed s) (get_next_hop s.texts n) _ (λ hop.
        Gives-then (IsNamed s) (prefix_sid_of s label u) _ (λ sid.
          prefix_message-IsNamed action ph u (is_ipv6_nlri n) hop
            (if label then label_values r.label else []) sid r))

  pub unicast-All :
      (depth : ℕ) (n : MpNlri) (op : ℕ) (ph : PeerHeader) (u : Update) (label : Bool)
      → Gives (All (IsNamed s)) (unicast s depth p n op ph u label)
  unfolding unicast
  unicast-All depth n op ph u label = Gives-then (All (IsNamed s)) (operation op) _ (λ action.
      Gives-then (All (IsNamed s)) _ _ (λ rs.
        messages-All (IsNamed s) _ _ (end_of_rib-IsNamed action ph)
          (unicast_message-IsNamed action n ph u label) rs))
