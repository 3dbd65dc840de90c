-- ===== src/Mesh/Gate.antt =====
-- What passes the handlers of hub/p2p/p2p.go: a property of the state that verified records keep is
-- kept by every message and every sync.
use libre_ping.Base.{
  ◌≡◌, refl, ◌⊎◌, inl, inr, true, not, Option, none, some, List, [], ◌∷◌, arith, split_if, Str,
  str_eq,
}
use libre_ping.Protocol.{
  SignedResult, SignedCatalogEntry, SignedHubAnnouncement, SignedSubscription, SignedAlertRule,
  SignedDeliveryState, GossipEnvelope, Result, ok, err, passes,
}
use libre_ping.Protocol.Verify.{
  verify_result, verify_catalog_entry, verify_hub_announcement, verify_delivery_state,
}
use libre_ping.Protocol.Owner.{verify_subscription, verify_alert_rule}
use libre_ping.Trust.{allow}
use libre_ping.Hub.{Env}
use libre_ping.Mesh.{
  Ingest, Message, call, deref, handle_result, handle_catalog, handle_hub, handle_subscription,
  handle_alert, handle_delivery, dispatch_control, dispatch_shard, control_read, shard_read,
  gossip_catalog, gossip_hub, gossip_subscription, gossip_alert, gossip_delivery, gossip_result,
}
use libre_ping.Mesh.Sync.{each, sync_from, control_sync_from, ControlSyncResponse}

pub passes_ok : {E : Type 0} (r : Result E (Unit {0})) → passes r ≡ true → r ≡ ok tt
passes_ok (ok u) h = refl
passes_ok (err e) h = absurd cc

pub Result-cases :
    {E A : Type 0} (r : Result E A) → ((x : E) × (r ≡ err x)) ⊎ ((a : A) × (r ≡ ok a))
Result-cases (ok a) = inr (a, refl)
Result-cases (err x) = inl (x, refl)

-- The record is signed by the one it names, and the policy admits its probe.
abbrev pub IsTrusted : Env → SignedResult → Type 0
IsTrusted e sr =
    (verify_result e.crypto e.json sr ≡ ok tt) × (allow e.policy sr.content.probe_id ≡ true)

-- The ingest functions keep a property, each on records that passed the gate.
pub record Keeps {S : Type 0} (e : Env) (i : Ingest S) (P : S → Type 0) : Type 0 where
  pub result : (sr : SignedResult) (s : S) → IsTrusted e sr → P s → P (call i.result sr s)
  pub catalog :
      (sc : SignedCatalogEntry) (s : S)
      → verify_catalog_entry e.crypto e.json e.sorting sc ≡ ok tt
      → P s
      → P (call i.catalog sc s)
  pub hub :
      (sa : SignedHubAnnouncement) (s : S)
      → verify_hub_announcement e.crypto e.json sa ≡ ok tt
      → P s
      → P (call i.hub sa s)
  pub subscription :
      (ss : SignedSubscription) (s : S)
      → verify_subscription e.crypto ss ≡ ok tt
      → P s
      → P (call i.subscription ss s)
  pub alert :
      (sa : SignedAlertRule) (s : S)
      → verify_alert_rule e.crypto e.sorting sa ≡ ok tt
      → P s
      → P (call i.alert sa s)
  pub delivery :
      (sd : SignedDeliveryState) (s : S)
      → verify_delivery_state e.crypto e.json sd ≡ ok tt
      → P s
      → P (call i.delivery sd s)

through :
    {A S : Type 0} (P : S → Type 0) (f : A → S → S) (o : Option A) (s : S)
    → ((x : A) → P s → P (f x s))
    → P s
    → P (deref o f s)
through P f none s k h = h
through P f (some x) s k h = k x h

pub each-keeps :
    {A S : Type 0} (P : S → Type 0) (f : A → S → S)
    → ((x : A) (s : S) → P s → P (f x s))
    → (xs : List A) (s : S) → P s
    → P (each f xs s)
unfolding each
each-keeps P f k [] s h = h
each-keeps P f k (x ∷ xs) s h = each-keeps P f k xs (f x s) (k x s h)

module _ {S : Type 0} (e : Env) (i : Ingest S) (P : S → Type 0) (k : Keeps e i P) where
  pub handle_result-keeps : (sr : SignedResult) (s : S) → P s → P (handle_result e i sr s)
  unfolding handle_result
  handle_result-keeps sr s h =
      split_if P (not (passes (verify_result e.crypto e.json sr))) (λ _. h)
        (λ v.
          split_if P (not (allow e.policy sr.content.probe_id)) (λ _. h)
            (λ a.
              k.result sr s
                (passes_ok (verify_result e.crypto e.json sr) (ground arith), ground arith) h))

  pub handle_catalog-keeps : (sc : SignedCatalogEntry) (s : S) → P s → P (handle_catalog e i sc s)
  unfolding handle_catalog
  handle_catalog-keeps sc s h =
      split_if P (passes (verify_catalog_entry e.crypto e.json e.sorting sc))
        (λ v. k.catalog sc s (passes_ok (verify_catalog_entry e.crypto e.json e.sorting sc) v) h)
        (λ _. h)

  pub handle_hub-keeps : (sa : SignedHubAnnouncement) (s : S) → P s → P (handle_hub e i sa s)
  unfolding handle_hub
  handle_hub-keeps sa s h =
      split_if P (passes (verify_hub_announcement e.crypto e.json sa))
        (λ v. k.hub sa s (passes_ok (verify_hub_announcement e.crypto e.json sa) v) h) (λ _. h)

  pub handle_subscription-keeps :
      (ss : SignedSubscription) (s : S) → P s → P (handle_subscription e i ss s)
  unfolding handle_subscription
  handle_subscription-keeps ss s h =
      split_if P (passes (verify_subscription e.crypto ss))
        (λ v. k.subscription ss s (passes_ok (verify_subscription e.crypto ss) v) h) (λ _. h)

  pub handle_alert-keeps : (sa : SignedAlertRule) (s : S) → P s → P (handle_alert e i sa s)
  unfolding handle_alert
  handle_alert-keeps sa s h =
      split_if P (passes (verify_alert_rule e.crypto e.sorting sa))
        (λ v. k.alert sa s (passes_ok (verify_alert_rule e.crypto e.sorting sa) v) h) (λ _. h)

  pub handle_delivery-keeps :
      (sd : SignedDeliveryState) (s : S) → P s → P (handle_delivery e i sd s)
  unfolding handle_delivery
  handle_delivery-keeps sd s h =
      split_if P (passes (verify_delivery_state e.crypto e.json sd))
        (λ v. k.delivery sd s (passes_ok (verify_delivery_state e.crypto e.json sd) v) h) (λ _. h)

  dispatch_control-keeps : (env : GossipEnvelope) (s : S) → P s → P (dispatch_control e i env s)
  unfolding dispatch_control
  dispatch_control-keeps env s h =
      split_if P (str_eq env.kind gossip_catalog)
        (λ _. through P (handle_catalog e i) env.catalog s (λ x. handle_catalog-keeps x s) h)
        (λ _.
          split_if P (str_eq env.kind gossip_hub)
            (λ _. through P (handle_hub e i) env.hub s (λ x. handle_hub-keeps x s) h)
            (λ _.
              split_if P (str_eq env.kind gossip_subscription)
                (λ _.
                  through P (handle_subscription e i) env.subscription s
                    (λ x. handle_subscription-keeps x s) h)
                (λ _.
                  split_if P (str_eq env.kind gossip_alert)
                    (λ _. through P (handle_alert e i) env.alert s (λ x. handle_alert-keeps x s) h)
                    (λ _.
                      split_if P (str_eq env.kind gossip_delivery)
                        (λ _.
                          through P (handle_delivery e i) env.delivery s
                            (λ x. handle_delivery-keeps x s) h)
                        (λ _. h)))))

  pub control_read-keeps : (msg : Message) (s : S) → P s → P (control_read e i msg s)
  unfolding control_read
  control_read-keeps msg s h =
      split_if P (str_eq msg.from e.peer_id) (λ _. h)
        (λ _.
          through P (dispatch_control e i) (e.decode msg.bytes) s
            (λ env. dispatch_control-keeps env s) h)

  dispatch_shard-keeps : (env : GossipEnvelope) (s : S) → P s → P (dispatch_shard e i env s)
  unfolding dispatch_shard
  dispatch_shard-keeps env s h =
      split_if P (str_eq env.kind gossip_result)
        (λ _. through P (handle_result e i) env.result s (λ x. handle_result-keeps x s) h) (λ _. h)

  pub shard_read-keeps : (msg : Message) (s : S) → P s → P (shard_read e i msg s)
  unfolding shard_read
  shard_read-keeps msg s h =
      split_if P (str_eq msg.from e.peer_id) (λ _. h)
        (λ _.
          through P (dispatch_shard e i) (e.decode msg.bytes) s (λ env. dispatch_shard-keeps env s)
            h)

  pub sync_from-keeps :
      (peer : Str) (answer : Option (List SignedResult)) (s : S)
      → P s
      → P (sync_from e i peer answer s)
  unfolding sync_from
  sync_from-keeps peer none s h = h
  sync_from-keeps peer (some results) s h =
      split_if P (str_eq peer e.peer_id) (λ _. h)
        (λ _. each-keeps P (handle_result e i) handle_result-keeps results s h)

  pub control_sync_from-keeps :
      (peer : Str) (answer : Option ControlSyncResponse) (s : S)
      → P s
      → P (control_sync_from e i peer answer s)
  unfolding control_sync_from
  control_sync_from-keeps peer none s h = h
  control_sync_from-keeps peer (some resp) s h =
      split_if P (str_eq peer e.peer_id) (λ _. h)
        (λ _. each-keeps P (handle_alert e i) handle_alert-keeps resp.alerts _ (
          each-keeps P (handle_subscription e i) handle_subscription-keeps resp.subscriptions _
            (each-keeps P (handle_catalog e i) handle_catalog-keeps resp.catalog s h)))
