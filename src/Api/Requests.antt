-- ===== src/Api/Requests.antt =====
-- The requests of hub/api/server.go that change a hub's state, together with the events of the mesh, the
-- pages of a backfill, and the rounds of the interest loop and of the gossip loop (hub/main.go).
use libre_ping.Base.{
  ◌≡◌, refl, Option, none, some, List, [], ◌∷◌, arith, ℤ, pos, ℕ, Bool, ◌≤ℤ◌, Str, str_dec, Every,
  Map,
}
use libre_ping.Base.Float.{Floats}
use libre_ping.Identity.{Identity}
use libre_ping.Protocol.{
  CheckSpec, SignedResult, SignedCatalogEntry, SignedSubscription, SignedAlertRule,
  SignedProbeRegistration, ok,
}
use libre_ping.Protocol.CheckId.{derive_id, id_preimage}
use libre_ping.Protocol.Verify.{verify_catalog_entry, verify_probe_registration}
use libre_ping.Remote.{Query, verified}
use libre_ping.Hub.{Env, ingest_catalog, ingest_subscription, ingest_alert}
use libre_ping.Hub.Backfill.{take_page}
use libre_ping.Hub.Recompute.{recompute}
use libre_ping.Hub.Gossip.{gossip_tick}
use libre_ping.Mesh.{handle_catalog, handle_subscription, handle_alert}
use libre_ping.Mesh.Events.{ingest_at, Event, receive}
use libre_ping.Mesh.Topics.{Topics}
use libre_ping.Mesh.Vetted.{IsSafe}
use libre_ping.Api.{
  Config, Server, Reply, RegisteredProbe, handle_register, handle_submit, handle_subscribe,
  handle_alert_rule, handle_create_check, new_spec, store_check, max_declared_capacity, status_ok,
}
use libre_ping.Api.Assigned.{handle_checks}
use libre_ping.Api.Views.{handle_services, handle_list_alerts, handle_hubs}

-- The requests of the routes that write, and of the reads that prune what they read or cache what they
-- fetch. `services` has what holders answer while the request is served, `get_results`, and which URLs
-- are public. The other routes change nothing that is modelled, but for /api/v1/network, which prunes the
-- directory as `hubs` does.
-- The requests of the routes that write, and of the reads that prune what they read or cache what they
-- fetch. `services` has what holders answer while the request is served, `get_results`, and which URLs
-- are public. The other routes change nothing that is modelled, but for /api/v1/network, which prunes the
-- directory as `hubs` does.
pub data Request : Type 0 where
  register : Option SignedProbeRegistration → ℤ → Request
  submit : Option SignedResult → ℤ → Request
  subscribe : Option SignedSubscription → Request
  alert_rule : Option SignedAlertRule → Request
  create_check : Option CheckSpec → Request
  checks : Str → ℤ → Request
  services : (Str → Bool) → (Str → Query → Option (List SignedResult)) → Bool → Str → ℤ → Request
  list_alerts : Str → ℤ → Request
  hubs : ℤ → Request

-- A read that answers 200 and sends nothing on the mesh.
abbrev pub answers : Server → Reply
answers s = record { code = status_ok; server = s; sent = [] }

unfoldable pub handle : Floats → Env → Config → Request → Server → Reply
handle fl e cfg (register body now) s = handle_register e body now s
handle fl e cfg (submit body now) s = handle_submit e body now s
handle fl e cfg (subscribe body) s = handle_subscribe e body s
handle fl e cfg (alert_rule body) s = handle_alert_rule e body s
handle fl e cfg (create_check body) s = handle_create_check e cfg.identity body s
handle fl e cfg (checks probe_id now) s = answers (handle_checks fl e cfg probe_id now s).0
handle fl e cfg (services valid_url get_results allow_private owner now) s =
    answers (handle_services fl e cfg valid_url get_results allow_private owner now s).0
handle fl e cfg (list_alerts owner now) s = answers (handle_list_alerts owner now s).0
handle fl e cfg (hubs now) s = answers (handle_hubs e now s).0

-- What reaches a hub: an event of the mesh, a request, some results that a holder answers a backfill
-- with, a round of the interest loop, or a tick of the gossip loop.
pub data Input : Type 0 where
  from_mesh : Event → Input
  from_http : Request → Input
  from_holder : ℤ → List SignedResult → Input
  interest_round : (Str → Bool) → (ℕ → Bool) → ℤ → Topics → Option (Map ℕ Bool) → Input
  gossip_round : ℤ → Input

-- A tick runs only on a hub that has an identity.
unfoldable pub gossip : Env → Option Identity → ℤ → Server → Server
gossip e none now s = s
gossip e (some id) now s =
    let tick = gossip_tick e id now s.stores s.outbox in
    record s { stores = tick.stores; outbox = tick.outbox }

-- The results of a page that the hub verifies and stores without a pause.
unfoldable pub backfilled : Env → ℤ → List SignedResult → Server → Server
backfilled e now raw s =
    let (oldest, p) =
      take_page e now (verified e raw) (pos 0)
        (record { stores = s.stores; total = 0; stored = 0 }) in
    record s { stores = p.stores }

unfoldable pub step : Floats → Env → Config → Input → Server → Server
unfolding handle gossip backfilled
step fl e cfg (from_mesh ev) s = record s { stores = receive e ev s.stores }
step fl e cfg (from_http req) s = (handle fl e cfg req s).server
step fl e cfg (from_holder now raw) s = backfilled e now raw s
step fl e cfg (interest_round join sub_to now t prev) s =
    (recompute fl e cfg join sub_to now s t prev).server
step fl e cfg (gossip_round now) s = gossip e cfg.identity now s

unfoldable pub serve : Floats → Env → Config → List Input → Server → Server
unfolding step
serve fl e cfg [] s = s
serve fl e cfg (i ∷ rest) s = serve fl e cfg rest (step fl e cfg i s)

module _ (e : Env) where
  pub subscribe-handle_subscription :
      (ss : SignedSubscription) (now : ℤ) (s : Server)
      → (handle_subscribe e (some ss) s).server.stores
        ≡ handle_subscription e (ingest_at e now) ss s.stores
  unfolding handle_subscribe handle_subscription ingest_at ingest_subscription
  subscribe-handle_subscription ss now s = ground arith

  pub alert_rule-handle_alert :
      (sa : SignedAlertRule) (now : ℤ) (s : Server)
      → (handle_alert_rule e (some sa) s).server.stores
        ≡ handle_alert e (ingest_at e now) sa s.stores
  unfolding handle_alert_rule handle_alert ingest_at ingest_alert
  alert_rule-handle_alert sa now s = ground arith

  pub store_check-handle_catalog :
      (sc : SignedCatalogEntry) (now : ℤ) (s : Server)
      → verify_catalog_entry e.crypto e.json e.sorting sc ≡ ok tt
      → (store_check e (ok sc) s).server.stores ≡ handle_catalog e (ingest_at e now) sc s.stores
  unfolding store_check handle_catalog ingest_at ingest_catalog
  store_check-handle_catalog sc now s v = rw v refl

  -- The ID does not enter its own derivation, so a new spec carries the ID that is derived from it.
  pub new_spec-own_id :
      (req : CheckSpec) → (new_spec e req).id ≡ derive_id e.sorting e.crypto (new_spec e req)
  unfolding new_spec derive_id id_preimage
  new_spec-own_id req = refl

  -- The probe proved its key with a registration, and its capacity is within bounds.
  pub record IsRegistered (id : Str) (p : RegisteredProbe) : Type 0 where
    pub proof : SignedProbeRegistration
    pub verified : verify_probe_registration e.crypto e.json proof ≡ ok tt
    pub named : proof.registration.probe_id ≡ id
    pub located : proof.registration.location ≡ p.location
    pub not_negative : pos 0 ≤ℤ p.capacity
    pub capped : p.capacity ≤ℤ max_declared_capacity

  pub record IsSound (s : Server) : Type 0 where
    pub stores : IsSafe e s.stores
    pub probes : Every str_dec IsRegistered s.probes
