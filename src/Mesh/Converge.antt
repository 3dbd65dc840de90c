-- ===== src/Mesh/Converge.antt =====
-- Hubs of one mesh agree on what owners have signed: the control plane of hub/p2p/p2p.go over the
-- stores of hub/store.
use libre_ping.Base.{
  [], ◌≡◌, refl, sym, ap, ◌∙◌, inl, inr, true, false, Option, none, some, List, ◌∷◌, ◌++◌, arith,
  if◌then◌else◌, Bool-cases, eqb_iff, eqb_yes, Option-cases, eqb_iff, ℤ, Str, str_dec, str_eq,
  eqb_yes, split_if,
}
use mathlib.Core.List.{Permᴰ}
use libre_ping.Protocol.{SignedSubscription, GossipEnvelope}
use libre_ping.Hub.{Env, Stores}
use libre_ping.Mesh.{
  Message, deref, handle_result, handle_catalog, handle_hub, handle_subscription, handle_alert,
  handle_delivery, dispatch_control, dispatch_shard, control_read, shard_read, gossip_catalog,
  gossip_hub, gossip_subscription, gossip_alert, gossip_delivery, gossip_result,
}
use libre_ping.Mesh.Sync.{each, sync_from, control_sync_from, ControlSyncResponse}
use libre_ping.Mesh.Events.{
  ingest_at, Event, control, shard, synced, control_synced, interest, receive, run,
}
use libre_ping.Store.Versioned.{Compatible}
use libre_ping.Store.Subscriptions.Replay.{key, version, upsert_all, upsert_all-perm, stored}
use libre_ping.Mesh.Offered.{
  signed, one, carried, from_message, offered_by, offered, HasSubs, upsert_all-append,
  subs-handle_result, subs-handle_catalog, subs-handle_hub, subs-handle_alert, subs-handle_delivery,
  subs-handle_subscription,
}

module _ (e : Env) (now : ℤ) where
  subs-deref :
      {A : Type 0} (f : A → Stores → Stores) (o : Option A) (h : Stores)
      → ((x : A) → (f x h).subs ≡ h.subs)
      → (deref o f h).subs ≡ h.subs
  subs-deref f none h k = refl
  subs-deref f (some x) h k = k x

  -- A kind that is one name is no other.
  other_kind : (k a b : Str) → str_eq k a ≡ true → str_eq a b ≡ false → str_eq k b ≡ false
  other_kind k a b p q = elim (Bool-cases (str_eq k b)) [
    | inr r ↦ r
    | inl r ↦
        let f = (eqb_iff str_dec k a).0 p in
        let g = (eqb_iff str_dec k b).0 r in absurd (let t = eqb_yes str_dec a b (sym f ∙ g) in cc)
  ]

  subs-carried :
      (o : Option SignedSubscription) (h : Stores)
      → (deref o (handle_subscription e (ingest_at e now)) h).subs
        ≡ upsert_all h.subs (signed e (one o))
  unfolding upsert_all signed
  subs-carried none h = refl
  subs-carried (some ss) h = subs-handle_subscription e now ss h

  catalog_kind : str_eq gossip_subscription gossip_catalog ≡ false
  unfolding str_dec
  catalog_kind = refl

  hub_kind : str_eq gossip_subscription gossip_hub ≡ false
  unfolding str_dec
  hub_kind = refl

  subs-dispatch_control :
      (env : GossipEnvelope) (h : Stores)
      → (dispatch_control e (ingest_at e now) env h).subs
        ≡ upsert_all h.subs (signed e (carried env))
  unfolding dispatch_control upsert_all signed carried
  subs-dispatch_control env h = elim (Bool-cases (str_eq env.kind gossip_subscription)) [
    | inl p ↦
        rw
          (
            p,
            carried,
            other_kind env.kind gossip_subscription gossip_catalog p catalog_kind,
            other_kind env.kind gossip_subscription gossip_hub p hub_kind,
          )
          (subs-carried env.subscription h)
    | inr p ↦
        rw (p, carried)
          (split_if (HasSubs h.subs) (str_eq env.kind gossip_catalog)
            (λ _.
              subs-deref (handle_catalog e (ingest_at e now)) env.catalog h
                (λ x. (subs-handle_catalog e now) x h))
            (λ _.
              split_if (HasSubs h.subs) (str_eq env.kind gossip_hub)
                (λ _.
                  subs-deref (handle_hub e (ingest_at e now)) env.hub h
                    (λ x. (subs-handle_hub e now) x h))
                (λ _.
                  split_if (HasSubs h.subs) (str_eq env.kind gossip_alert)
                    (λ _.
                      subs-deref (handle_alert e (ingest_at e now)) env.alert h
                        (λ x. (subs-handle_alert e now) x h))
                    (λ _.
                      split_if (HasSubs h.subs) (str_eq env.kind gossip_delivery)
                        (λ _.
                          subs-deref (handle_delivery e (ingest_at e now)) env.delivery h
                            (λ x. (subs-handle_delivery e now) x h))
                        (λ _. refl)))))
  ]

  subs-control_read :
      (msg : Message) (h : Stores)
      → (control_read e (ingest_at e now) msg h).subs
        ≡ upsert_all h.subs (signed e (from_message e msg))
  unfolding control_read upsert_all signed from_message
  subs-control_read msg h = elim (Bool-cases (str_eq msg.from e.peer_id)) [
    | inl p ↦ rw (p, from_message) refl
    | inr p ↦ elim (Option-cases (e.decode msg.bytes)) [
      | inl q ↦ rw (p, from_message, q) refl
      | inr (env, q) ↦ rw (p, from_message, q) (subs-dispatch_control env h)
    ]
  ]

  subs-shard_read :
      (msg : Message) (h : Stores) → (shard_read e (ingest_at e now) msg h).subs ≡ h.subs
  unfolding shard_read dispatch_shard
  subs-shard_read msg h =
      split_if (HasSubs h.subs) (str_eq msg.from e.peer_id) (λ _. refl)
        (λ _. subs-deref (dispatch_shard e (ingest_at e now)) (e.decode msg.bytes) h (λ env.
          split_if (HasSubs h.subs) (str_eq env.kind gossip_result)
            (λ _.
              subs-deref (handle_result e (ingest_at e now)) env.result h
                (λ x. (subs-handle_result e now) x h))
            (λ _. refl)))

  subs-each :
      {A : Type 0} (f : A → Stores → Stores) (xs : List A) (h : Stores)
      → ((x : A) (s : Stores) → (f x s).subs ≡ s.subs)
      → (each f xs h).subs ≡ h.subs
  unfolding each
  subs-each f [] h k = refl
  subs-each f (x ∷ xs) h k = subs-each f xs (f x h) k ∙ k x h

  signed-cons :
      (ss : SignedSubscription) (xs : List SignedSubscription)
      → signed e (ss ∷ xs) ≡ signed e (ss ∷ []) ++ signed e xs
  unfolding signed
  signed-cons ss xs = ground arith

  subs-each_subscription :
      (xs : List SignedSubscription) (h : Stores)
      → (each (handle_subscription e (ingest_at e now)) xs h).subs ≡ upsert_all h.subs (signed e xs)
  unfolding each signed upsert_all
  subs-each_subscription [] h = refl
  subs-each_subscription (x ∷ xs) h =
      subs-each_subscription xs (handle_subscription e (ingest_at e now) x h)
      ∙ (ap (λ m. upsert_all m (signed e xs)) (subs-handle_subscription e now x h)
          ∙ (sym (upsert_all-append h.subs (signed e (x ∷ [])) (signed e xs))
              ∙ ap (upsert_all h.subs) (sym (signed-cons x xs))))

  subs-control_sync_from :
      (peer : Str) (resp : ControlSyncResponse) (h : Stores)
      → (control_sync_from e (ingest_at e now) peer (some resp) h).subs
        ≡ upsert_all h.subs (if str_eq peer e.peer_id then [] else signed e resp.subscriptions)
  unfolding control_sync_from upsert_all
  subs-control_sync_from peer resp h = elim (Bool-cases (str_eq peer e.peer_id)) [
    | inl p ↦ rw p refl
    | inr p ↦ rw p (
        subs-each (handle_alert e (ingest_at e now)) resp.alerts _ (subs-handle_alert e now)
        ∙ (subs-each_subscription resp.subscriptions _
            ∙ ap (λ m. upsert_all m (signed e resp.subscriptions))
                (subs-each (handle_catalog e (ingest_at e now)) resp.catalog h
                  (subs-handle_catalog e now))))
  ]

module _ (e : Env) where
  subs-receive :
      (ev : Event) (h : Stores) → (receive e ev h).subs ≡ upsert_all h.subs (offered_by e ev)
  unfolding receive offered_by upsert_all sync_from control_sync_from
  subs-receive (control now msg) h = subs-control_read e now msg h
  subs-receive (shard now msg) h = subs-shard_read e now msg h
  subs-receive (synced now peer none) h = refl
  subs-receive (synced now peer (some results)) h =
      split_if (HasSubs h.subs) (str_eq peer e.peer_id) (λ _. refl)
        (λ _.
          subs-each e now (handle_result e (ingest_at e now)) results h (subs-handle_result e now))
  subs-receive (control_synced now peer none) h = refl
  subs-receive (control_synced now peer (some resp)) h = subs-control_sync_from e now peer resp h
  subs-receive (interest archive assigned pinned) h = refl

  subs-run :
      (evs : List Event) (h : Stores) → (run e evs h).subs ≡ upsert_all h.subs (offered e evs)
  unfolding run offered upsert_all
  subs-run [] h = refl
  subs-run (ev ∷ evs) h =
      subs-run evs (receive e ev h)
      ∙ (ap (λ m. upsert_all m (offered e evs)) (subs-receive ev h)
          ∙ sym (upsert_all-append h.subs (offered_by e ev) (offered e evs)))

-- Two hubs that hold the same subscriptions, and that are then offered the same signed subscriptions
-- by other hubs, in any order and by any mix of gossip and sync among whatever other messages, hold
-- the same subscription for every owner and check, if no two of those offered share key and version.
pub run-converges :
    (a b : Env) (evs evs' : List Event) (h h' : Stores) (k : Str)
    → h.subs ≡ h'.subs
    → Permᴰ (offered a evs) (offered b evs')
    → Compatible key version (offered a evs)
    → stored (run a evs h).subs k ≡ stored (run b evs' h').subs k
run-converges a b evs evs' h h' k same p compatible =
    ap (λ m. stored m k) (subs-run a evs h)
    ∙ (upsert_all-perm h.subs (offered a evs) (offered b evs') k p compatible
        ∙ (ap (λ m. stored (upsert_all m (offered b evs')) k) same
            ∙ sym (ap (λ m. stored m k) (subs-run b evs' h'))))
