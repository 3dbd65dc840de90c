-- ===== src/Hub/Gossip.antt =====
-- gossipLoop of hub/main.go: what a hub sends again on a tick, so that hubs that missed a message
-- converge. The stores do not fail; publish errors are dropped by the code.
use libre_ping.Base.{
  ◌≡◌, refl, sym, ap, subst, ◌∙◌, inl, inr, false, not, Option, none, some, List, [], ◌∷◌, ◌++◌,
  map, arith, Bool-cases, UniqueKeys, Option-cases, In, ℤ, pos, leb_ℤ, sub64, ◌≤ℤ◌, Str, str_dec,
  Map, get, In-append_left, In-append_right, In-select_of, get-put_self, In-map, eqb_yes, eqb_no,
}
use libre_ping.Identity.{Identity, node_id}
use libre_ping.Protocol.{
  SignedResult, SignedSubscription, SignedAlertRule, DeliveryState, ok, passes,
}
use libre_ping.Protocol.Verify.{sign_delivery_state}
use libre_ping.Protocol.Owner.{rule_id, verify_subscription}
use libre_ping.Outbox
use libre_ping.Outbox.{Outbox}
use libre_ping.Store.Results.{recent_since}
use libre_ping.Store.Catalog.{list_checks}
use libre_ping.Store.Subscriptions
use libre_ping.Store.Subscriptions.{MemSubscriptions, expired_sub, sub_key}
use libre_ping.Store.Subscriptions.Replay.{key, version, upsert_all, upsert_all-monotone, stored}
use libre_ping.Store.Subscriptions.Listing.{values, list_for_gossip_lem}
use libre_ping.Store.Alerts
use libre_ping.Store.Alerts.{MemAlerts, get_delivery_by}
use libre_ping.Hub.{Env, Stores}
use libre_ping.Mesh.Sync.{each}
use libre_ping.Mesh.Events.{ingest_at}
use libre_ping.Mesh.Publish.{Item, catalog, hub, subscription, alert, delivery, handle_item}
use libre_ping.Mesh.Offered.{
  signed, upsert_all-append, subs-handle_catalog, subs-handle_hub, subs-handle_subscription,
  subs-handle_alert, subs-handle_delivery,
}

-- Ten minutes.
abbrev pub result_gossip_window_ms : ℤ
result_gossip_window_ms = pos 600000

-- What a tick sends: results to their topics, results to the holders, and the control plane.
pub record Tick : Type 0 where
  pub stores : Stores
  pub outbox : Option Outbox
  pub results : List SignedResult
  pub pushes : List SignedResult
  pub items : List Item

module _ (e : Env) (id : Identity) where
  -- This hub's own delivery state of a rule, signed again.
  unfoldable pub own_delivery : MemAlerts → SignedAlertRule → List Item
  own_delivery m sa =
      let rid = rule_id e.crypto sa.rule in
      elim (get_delivery_by m rid (node_id e.crypto id)) [
        | none ↦ []
        | some d ↦
            let state : DeliveryState = record {
              rule_id = rid;
              status = d.status;
              hub_id = [];
              timestamp_ms = d.timestamp_ms;
            } in
            delivery (sign_delivery_state e.crypto e.json id state) ∷ []
      ]

  unfoldable pub rule_items : MemAlerts → List SignedAlertRule → List Item
  unfolding own_delivery
  rule_items m [] = []
  rule_items m (sa ∷ rest) = alert sa ∷ (own_delivery m sa ++ rule_items m rest)

  unfoldable pub gossip_tick : ℤ → Stores → Option Outbox → Tick
  unfolding rule_items
  gossip_tick now h ob =
      let recent =
        recent_since e.sorting h.results (sub64 now result_gossip_window_ms) (pos 1000) in
      let (ob', pending) = Outbox.recent now ob in
      let (subs, sub_list) = Subscriptions.list_for_gossip now h.subs in
      let (alerts, rules) = Alerts.list_for_gossip now h.alerts in
      record {
        stores = record h { subs = subs; alerts = alerts };
        outbox = ob';
        results = recent ++ pending;
        pushes = pending;
        items =
            map catalog (list_checks e.sorting h.catalog)
            ++ (map subscription sub_list ++ rule_items alerts rules);
      }

abbrev subs_of : Item → List SignedSubscription
subs_of (subscription ss) = ss ∷ []
subs_of _ = []

-- The subscriptions among some items.
unfoldable subs_in : List Item → List SignedSubscription
subs_in [] = []
subs_in (x ∷ xs) = subs_of x ++ subs_in xs

In-subs_in :
    (ss : SignedSubscription) (xs : List Item) → In (subscription ss) xs → In ss (subs_in xs)
unfolding subs_in
In-subs_in ss [] i = elim i [ ]
In-subs_in ss (x ∷ xs) (inl p) = subst (λ y. In ss (subs_of y ++ subs_in xs)) (sym p) (inl refl)
In-subs_in ss (x ∷ xs) (inr i) = In-append_right ss (subs_of x) (subs_in xs) (In-subs_in ss xs i)

module _ (e : Env) (now : ℤ) where
  subs-handle_item :
      (x : Item) (h : Stores)
      → (handle_item e (ingest_at e now) x h).subs ≡ upsert_all h.subs (signed e (subs_of x))
  unfolding upsert_all signed
  subs-handle_item (catalog sc) h = subs-handle_catalog e now sc h
  subs-handle_item (hub sa) h = subs-handle_hub e now sa h
  subs-handle_item (subscription ss) h = subs-handle_subscription e now ss h
  subs-handle_item (alert sa) h = subs-handle_alert e now sa h
  subs-handle_item (delivery sd) h = subs-handle_delivery e now sd h

  signed-append :
      (xs ys : List SignedSubscription) → signed e (xs ++ ys) ≡ signed e xs ++ signed e ys
  unfolding signed
  signed-append [] ys = refl
  signed-append (x ∷ xs) ys = ground (arith, signed-append xs ys)

  subs-each_item :
      (xs : List Item) (h : Stores)
      → (each (handle_item e (ingest_at e now)) xs h).subs
        ≡ upsert_all h.subs (signed e (subs_in xs))
  unfolding each signed upsert_all subs_in
  subs-each_item [] h = refl
  subs-each_item (x ∷ xs) h =
      subs-each_item xs (handle_item e (ingest_at e now) x h)
      ∙ (ap (λ m. upsert_all m (signed e (subs_in xs))) (subs-handle_item x h)
          ∙ (sym (upsert_all-append h.subs (signed e (subs_of x)) (signed e (subs_in xs)))
              ∙ ap (upsert_all h.subs) (sym (signed-append (subs_of x) (subs_in xs)))))

-- After one record is offered, its key has a record that is not older.
upsert_covers :
    (m : MemSubscriptions) (ss : SignedSubscription)
    → (cur : SignedSubscription) × (stored (Subscriptions.upsert m ss) (key ss) ≡ some cur)
      × (version ss ≤ℤ version cur)
unfolding Subscriptions.upsert
upsert_covers m ss = elim (Option-cases (get str_dec (key ss) m.subs)) [
  | inl q ↦
      (ss, rw (q, Subscriptions.upsert) (get-put_self str_dec (key ss) ss m.subs), omega arith)
  | inr (cur, q) ↦ elim (Bool-cases (leb_ℤ (version ss) (version cur))) [
    | inl t ↦ (cur, rw (q, Subscriptions.upsert, t) q, ground arith)
    | inr f ↦
        (ss, rw (q, Subscriptions.upsert, f) (get-put_self str_dec (key ss) ss m.subs), omega arith)
  ]
]

upsert_all_covers :
    (rs : List SignedSubscription) (m : MemSubscriptions) (ss : SignedSubscription)
    → In ss rs
    → (cur : SignedSubscription) × (stored (upsert_all m rs) (key ss) ≡ some cur)
      × (version ss ≤ℤ version cur)
unfolding upsert_all
upsert_all_covers [] m ss i = elim i [ ]
upsert_all_covers (r ∷ rs) m ss (inr i) = upsert_all_covers rs (Subscriptions.upsert m r) ss i
upsert_all_covers (r ∷ rs) m ss (inl p) =
    let (cur, q, l) = upsert_covers m ss in
    let (new, h, k) =
      upsert_all-monotone (Subscriptions.upsert m r) rs (key ss) cur
        (ap (λ x. stored (Subscriptions.upsert m x) (key ss)) p ∙ q) in
    (new, h, ground arith)

In-values :
    (k : Str) (ss : SignedSubscription) (m : Map Str SignedSubscription)
    → get str_dec k m ≡ some ss
    → In ss (values m)
unfolding get
In-values k ss [] h = absurd cc
In-values k ss ((j, x) ∷ m) h = elim (str_dec j k) [
  | yes p ↦ inl (let q : some x ≡ some ss = rw (eqb_yes str_dec j k p) at h in cc)
  | no ne ↦ inr (In-values k ss m (rw (eqb_no str_dec j k ne) at h))
]

-- Anti-entropy: of every unexpired subscription in a hub's store, tombstones included, another hub
-- that handles what one tick of the hub sends has a record that is not older, whatever it stored
-- before, if the subscription's signature verifies.
pub tick_spreads :
    (a b : Env) (id : Identity) (now later : ℤ) (ha hb : Stores) (ob : Option Outbox)
    (ss : SignedSubscription)
    → UniqueKeys ha.subs.subs
    → stored ha.subs (key ss) ≡ some ss
    → expired_sub now ss ≡ false
    → verify_subscription b.crypto ss ≡ ok tt
    → (cur : SignedSubscription) × (stored
          (each (handle_item b (ingest_at b later)) (gossip_tick a id now ha ob).items hb).subs
          (key ss)
        ≡ some cur)
      × (version ss ≤ℤ version cur)
unfolding gossip_tick signed
tick_spreads a b id now later ha hb ob ss u h live v =
    let listed : In ss (Subscriptions.list_for_gossip now ha.subs).1 =
      rw (list_for_gossip_lem now ha.subs u).0 (
        In-select_of (λ s. not (expired_sub now s)) ss (values ha.subs.subs)
          (In-values (key ss) ss ha.subs.subs h) (rw live refl)) in
    let sent = In-subs_in ss (gossip_tick a id now ha ob).items (
      In-append_right (subscription ss) (map catalog (list_checks a.sorting ha.catalog)) _
        (In-append_left (subscription ss) _ _ (In-map subscription ss _ listed))) in
    let offered =
      In-select_of (λ s. passes (verify_subscription b.crypto s)) ss _ sent (rw v refl) in
    rw subs-each_item (upsert_all_covers _ hb.subs ss offered)
