-- ===== src/Producer/Unicast/Announced.antt =====
-- The messages that the routes of an update become, written out.
use Prim.Native.String.{String}
use gobmp.Prelude.{
  ℕ, ◌<◌, ◌≡◌, refl, Bool, true, false, not, List, [], ◌∷◌, none, some, map, length, arith,
  if◌then◌else◌, ◌==◌, ◌≤◌, ◌+◌, ◌-◌, ◌*◌, ◌^◌, take, drop, All, Bool-cases, inl, inr, le→leb,
}
use gobmp.Go.{Error, err, Res, ok, of_list, padded, slice_from}
use gobmp.Go.Reads.{uint32_at_total}
use gobmp.Base.Route.{Route, unmarshal_routes}
use gobmp.Bgp.Update.{Update}
use gobmp.Bgp.Nlri.{nlri_message_type}
use gobmp.Bgp.Open.AddPath.{entry}
use gobmp.Bgp.MpNlri.{MpNlri, get_next_hop, is_ipv6_nlri, get_nlri_unicast}
use gobmp.Bmp.PeerHeader.{
  PeerHeader, is_remote_peer_ipv6, is_adj_rib_in_post, is_adj_rib_out_post, is_loc_rib_filtered,
}
use gobmp.Producer.Services.{
  Services, Producer, get_peer_hash, get_peer_timestamp, get_peer_addr_string, flag_or_false,
}
use gobmp.Base.Label.{Label}
use gobmp.Producer.Unicast.{
  label_values, UnicastPrefix, nlri, unicast, unicast_message, prefix_message, messages, each,
  end_of_rib, prefix_sid_of, operation, origin_as,
}

-- The texts of a header: its time and its address.
pub record Peer (s : Services) (ph : PeerHeader) : Type 0 where
  pub time : String
  pub ip : String
  pub has_time : get_peer_timestamp s ph ≡ ok time
  pub has_ip : get_peer_addr_string s ph ≡ ok ip

-- A header with a time of eight bytes and an address of twelve or more has them.
pub peer_of :
    (s : Services) (ph : PeerHeader) → length ph.timestamp ≡ 8 → 12 ≤ length ph.address → Peer s ph
unfolding get_peer_timestamp get_peer_addr_string slice_from
peer_of s ph h k =
    let (a, ha) = uint32_at_total (of_list ph.timestamp) 0 (omega arith) in
    let (b, hb) = uint32_at_total (of_list ph.timestamp) 4 (omega arith) in
    record {
      time = s.time_text (a * 10 ^ 9 + b);
      ip =
          if is_remote_peer_ipv6 ph
          then s.texts.ip16 ph.address
          else s.texts.ip4 (take (length ph.address - 12) (drop 12 ph.address));
      has_time = rw (ha, hb);
      has_ip = elim (Bool-cases (is_remote_peer_ipv6 ph)) [
        | inl e ↦ rw e
        | inr e ↦ rw (e, le→leb 12 (length ph.address) k)
      ];
    }

pub label_values-map : (ls : List Label) → label_values ls ≡ map (λ l. l.value) ls
unfolding label_values
label_values-map [] = refl
label_values-map (l ∷ ls) = rw (label_values-map ls)

pub label_values-nil : label_values [] ≡ []
unfolding label_values
label_values-nil = refl

pub add_lem : operation 0 ≡ ok "add"
unfolding operation
add_lem = refl

pub del_lem : operation 1 ≡ ok "del"
unfolding operation
del_lem = refl

-- The same where the elements are made of others, for which the call is known.
pub each-map :
    {S A B : Type 0} (P : S → Type 0) (h : S → A) (f : A → Res B) (g : S → B)
    → ((x : S) → P x → f (h x) ≡ ok (g x))
    → (xs : List S) → All P xs
    → each f (map h xs) ≡ ok (map g xs)
unfolding each
each-map P h f g k [] w = refl
each-map P h f g k (x ∷ xs) (wx, ws) = rw (k x wx, each-map P h f g k xs ws)

-- And where the call is known for elements of a kind.
pub each_good :
    {A B : Type 0} (P : A → Type 0) (f : A → Res B) (g : A → B)
    → ((a : A) → P a → f a ≡ ok (g a))
    → (xs : List A) → All P xs
    → each f xs ≡ ok (map g xs)
unfolding each
each_good P f g h [] w = refl
each_good P f g h (x ∷ xs) (wx, ws) = rw (h x wx, each_good P f g h xs ws)

each_ok :
    {A B : Type 0} (f : A → Res B) (g : A → B)
    → ((a : A) → f a ≡ ok (g a))
    → (xs : List A) → each f xs ≡ ok (map g xs)
unfolding each
each_ok f g h [] = refl
each_ok f g h (x ∷ xs) = rw (h x, each_ok f g h xs)

module _ (s : Services) (p : Producer) (ph : PeerHeader) (t : Peer s ph) where
  -- The message of an unlabeled route with its bits, prefix and path identifier.
  abbrev pub announced : String → Update → Bool → String → Route → UnicastPrefix
  announced action u ipv6 hop r = record {
    action = action;
    router_hash = p.speaker_hash;
    router_ip = p.speaker_ip;
    base_attributes = some u.base_attributes;
    peer_hash = get_peer_hash s ph;
    peer_ip = t.ip;
    peer_type = ph.peer_type;
    peer_asn = ph.peer_as;
    timestamp = t.time;
    prefix = if ipv6 then s.texts.ip16 (padded 16 r.prefix) else s.texts.ip4 (padded 4 r.prefix);
    prefix_len = r.length;
    is_ipv4 = not ipv6;
    origin_as = origin_as u.base_attributes.as_path;
    nexthop = hop;
    is_nexthop_ipv4 = not ipv6;
    path_id = r.path_id;
    labels = [];
    prefix_sid = none;
    is_eor = false;
    is_adj_rib_in_post = flag_or_false (is_adj_rib_in_post ph);
    is_adj_rib_out_post = flag_or_false (is_adj_rib_out_post ph);
    is_loc_rib_filtered = flag_or_false (is_loc_rib_filtered ph);
  }

  -- The message of an update without routes.
  abbrev pub no_routes : String → UnicastPrefix
  no_routes action = record {
    action = action;
    router_hash = p.speaker_hash;
    router_ip = p.speaker_ip;
    base_attributes = none;
    peer_hash = get_peer_hash s ph;
    peer_ip = "";
    peer_type = ph.peer_type;
    peer_asn = ph.peer_as;
    timestamp = t.time;
    prefix = "";
    prefix_len = 0;
    is_ipv4 = false;
    origin_as = 0;
    nexthop = "";
    is_nexthop_ipv4 = false;
    path_id = 0;
    labels = [];
    prefix_sid = none;
    is_eor = true;
    is_adj_rib_in_post = false;
    is_adj_rib_out_post = false;
    is_loc_rib_filtered = false;
  }

  prefix_message-announced :
      (action : String) (u : Update) (ipv6 : Bool) (hop : String) (r : Route)
      → prefix_message s p action ph u ipv6 hop [] none r ≡ ok (announced action u ipv6 hop r)
  unfolding prefix_message
  prefix_message-announced action u ipv6 hop r = rw (t.has_time, t.has_ip)

  end_of_rib-no_routes : (action : String) → end_of_rib s p action ph ≡ ok (no_routes action)
  unfolding end_of_rib
  end_of_rib-no_routes action = rw t.has_time

  messages_some :
      (eor : Res UnicastPrefix) (f : Route → Res UnicastPrefix) (g : Route → UnicastPrefix)
      → ((r : Route) → f r ≡ ok (g r))
      → (rs : List Route) → 0 < length rs
      → messages s eor f rs ≡ ok (map g rs)
  unfolding messages
  messages_some eor f g h [] k = absurd (omega arith)
  messages_some eor f g h (r ∷ rs) k = each_ok f g h (r ∷ rs)

  unicast_message-announced :
      (action : String) (n : MpNlri) (hop : String) (u : Update) (r : Route)
      → get_next_hop s.texts n ≡ ok hop
      → unicast_message s p action n ph u false r ≡ ok (announced action u (is_ipv6_nlri n) hop r)
  unfolding unicast_message prefix_sid_of
  unicast_message-announced action n hop u r h =
      rw h (prefix_message-announced action u (is_ipv6_nlri n) hop r)

  -- The routes of an attribute, one at least, give a message each, in order.
  pub unicast-announced :
      (depth : ℕ) (n : MpNlri) (op : ℕ) (action hop : String) (u : Update) (rs : List Route)
      → operation op ≡ ok action
      → get_next_hop s.texts n ≡ ok hop
      → get_nlri_unicast depth n ≡ ok rs
      → 0 < length rs
      → unicast s depth p n op ph u false ≡ ok (map (announced action u (is_ipv6_nlri n) hop) rs)
  unfolding unicast
  unicast-announced depth n op action hop u rs o h e k =
      rw (o, e)
        (messages_some _ _ (announced action u (is_ipv6_nlri n) hop)
          (λ r. unicast_message-announced action n hop u r h) rs k)

  pub unicast-fails :
      (depth : ℕ) (n : MpNlri) (op : ℕ) (action : String) (u : Update) (e : Error)
      → operation op ≡ ok action
      → get_nlri_unicast depth n ≡ err e
      → unicast s depth p n op ph u false ≡ err e
  unfolding unicast
  unicast-fails depth n op action u e o h = rw (o, h)

  -- So do the update's own fields.
  pub nlri-announced :
      (depth op : ℕ) (action : String) (u : Update) (rs : List Route)
      → operation op ≡ ok action
      → unmarshal_routes depth
          (of_list (if op == 0 then u.nlri else u.withdrawn_routes))
          (entry p.add_path_capable (nlri_message_type 1 1))
        ≡ ok rs
      → 0 < length rs
      → nlri s depth p op ph u ≡ ok (map (announced action u false u.base_attributes.nexthop) rs)
  unfolding nlri
  nlri-announced depth op action u rs o e k =
      rw (o, e)
        (messages_some _ _ (announced action u false u.base_attributes.nexthop)
          (prefix_message-announced action u false u.base_attributes.nexthop) rs k)

  -- An empty field gives the message of an update without routes.
  pub nlri-no_routes :
      (depth op : ℕ) (action : String) (u : Update)
      → operation op ≡ ok action
      → unmarshal_routes depth
          (of_list (if op == 0 then u.nlri else u.withdrawn_routes))
          (entry p.add_path_capable (nlri_message_type 1 1))
        ≡ ok []
      → nlri s depth p op ph u ≡ ok (no_routes action ∷ [])
  unfolding nlri messages
  nlri-no_routes depth op action u o e = rw (o, e, end_of_rib-no_routes action)
