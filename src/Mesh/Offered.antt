-- ===== src/Mesh/Offered.antt =====
-- The signed subscriptions that reach a hub over hub/p2p/p2p.go, and the handlers that leave the
-- subscriptions alone.
use libre_ping.Base.{
  [], ◌≡◌, refl, Option, none, some, List, ◌∷◌, ◌++◌, arith, if◌then◌else◌, select, ℤ, str_eq,
}
use libre_ping.Protocol.{
  SignedResult, SignedCatalogEntry, SignedHubAnnouncement, SignedSubscription, SignedAlertRule,
  SignedDeliveryState, GossipEnvelope, passes,
}
use libre_ping.Protocol.Owner.{verify_subscription}
use libre_ping.Hub.{
  Env, Stores, ingest, ingest_catalog, ingest_hub, ingest_subscription, ingest_alert,
  ingest_delivery, ingest_delivery_of,
}
use libre_ping.Mesh.{
  Message, handle_result, handle_catalog, handle_hub, handle_subscription, handle_alert,
  handle_delivery, gossip_subscription,
}
use libre_ping.Mesh.Events.{ingest_at, Event, control, control_synced}
use libre_ping.Store.Subscriptions
use libre_ping.Store.Subscriptions.{MemSubscriptions}
use libre_ping.Store.Subscriptions.Replay.{upsert_all}

-- The subscriptions that pass their signature check.
unfoldable pub signed : Env → List SignedSubscription → List SignedSubscription
signed e xs = select (λ ss. passes (verify_subscription e.crypto ss)) xs

abbrev pub one : {A : Type 0} → Option A → List A
one none = []
one (some x) = x ∷ []

-- The subscription that an envelope carries, if that is its kind.
unfoldable pub carried : GossipEnvelope → List SignedSubscription
carried env = if str_eq env.kind gossip_subscription then one env.subscription else []

unfoldable pub from_message : Env → Message → List SignedSubscription
unfolding carried
from_message e msg =
    if str_eq msg.from e.peer_id
    then []
    else elim (e.decode msg.bytes) [ none ↦ [] | some env ↦ carried env ]

-- The signed subscriptions that reach a hub with an event, from another hub.
unfoldable pub offered_by : Env → Event → List SignedSubscription
unfolding signed from_message
offered_by e (control now msg) = signed e (from_message e msg)
offered_by e (control_synced now peer (some resp)) =
    if str_eq peer e.peer_id then [] else signed e resp.subscriptions
offered_by e _ = []

unfoldable pub offered : Env → List Event → List SignedSubscription
unfolding offered_by
offered e [] = []
offered e (ev ∷ evs) = offered_by e ev ++ offered e evs

abbrev pub HasSubs : MemSubscriptions → Stores → Type 0
HasSubs m h = h.subs ≡ m

pub upsert_all-append :
    (m : MemSubscriptions) (xs ys : List SignedSubscription)
    → upsert_all m (xs ++ ys) ≡ upsert_all (upsert_all m xs) ys
unfolding upsert_all
upsert_all-append m [] ys = refl
upsert_all-append m (x ∷ xs) ys = upsert_all-append (Subscriptions.upsert m x) xs ys

module _ (e : Env) (now : ℤ) where
  pub subs-handle_result :
      (sr : SignedResult) (h : Stores) → (handle_result e (ingest_at e now) sr h).subs ≡ h.subs
  unfolding handle_result ingest_at ingest
  subs-handle_result sr h = ground arith

  pub subs-handle_catalog :
      (sc : SignedCatalogEntry) (h : Stores)
      → (handle_catalog e (ingest_at e now) sc h).subs ≡ h.subs
  unfolding handle_catalog ingest_at ingest_catalog
  subs-handle_catalog sc h = ground arith

  pub subs-handle_hub :
      (sa : SignedHubAnnouncement) (h : Stores)
      → (handle_hub e (ingest_at e now) sa h).subs ≡ h.subs
  unfolding handle_hub ingest_at ingest_hub
  subs-handle_hub sa h = ground arith

  pub subs-handle_alert :
      (sa : SignedAlertRule) (h : Stores) → (handle_alert e (ingest_at e now) sa h).subs ≡ h.subs
  unfolding handle_alert ingest_at ingest_alert
  subs-handle_alert sa h = ground arith

  pub subs-handle_delivery :
      (sd : SignedDeliveryState) (h : Stores)
      → (handle_delivery e (ingest_at e now) sd h).subs ≡ h.subs
  unfolding handle_delivery ingest_at ingest_delivery ingest_delivery_of
  subs-handle_delivery sd h = ground arith

  pub subs-handle_subscription :
      (ss : SignedSubscription) (h : Stores)
      → (handle_subscription e (ingest_at e now) ss h).subs ≡ upsert_all h.subs (signed e (ss ∷ []))
  unfolding handle_subscription ingest_at ingest_subscription upsert_all signed
  subs-handle_subscription ss h = ground arith
