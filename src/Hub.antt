-- ===== src/Hub.antt =====
-- The ingest functions that hub/main.go hands to the mesh, over the in-memory stores that the mesh
-- and the HTTP API share. The clock's reading is an argument, in milliseconds.
pub mod Gossip
pub mod Pruned
pub mod Recompute
pub mod Backfill
use libre_ping.Base.{
  not, Option, none, some, ◌++◌, if◌then◌else◌, ℤ, pos, ltb_ℤ, add64, Str, Bytes, str_dec, get,
}
use libre_ping.Base.Maps.{present}
use libre_ping.Base.Sorting.{Sorting}
use libre_ping.Identity.{Crypto}
use libre_ping.Protocol.{
  SignedResult, SignedCatalogEntry, SignedHubAnnouncement, SignedSubscription, SignedAlertRule,
  SignedDeliveryState, GossipEnvelope, passes,
}
use libre_ping.Protocol.Verify.{Json}
use libre_ping.Trust.{Policy}
use libre_ping.Interest.{InterestSet, holds}
use libre_ping.Admit
use libre_ping.Admit.{Looked, found, missing}
use libre_ping.Directory
use libre_ping.Directory.Steps.{World, started}
use libre_ping.Store.Results.{MemStore, insert}
use libre_ping.Store.Catalog.{MemCatalog, upsert_check, get_check}
use libre_ping.Store.Subscriptions
use libre_ping.Store.Subscriptions.{MemSubscriptions}
use libre_ping.Store.Alerts
use libre_ping.Store.Alerts.{MemAlerts, get_rule, merge_delivery}

-- What a hub is run with: the libraries that it calls, its policy and its libp2p peer ID.
-- `decode` is json.Unmarshal into an envelope.
pub record Env : Type 1 where
  pub crypto : Crypto
  pub json : Json
  pub sorting : Sorting
  pub policy : Policy
  pub peer_id : Str
  pub decode : Bytes → Option GossipEnvelope

-- The state that the ingest functions share. `world` is the directory with its goroutines.
pub record Stores : Type 0 where
  pub results : MemStore
  pub catalog : MemCatalog
  pub subs : MemSubscriptions
  pub alerts : MemAlerts
  pub world : World
  pub interest : Option InterestSet

abbrev pub delivery_clock_skew_ms : ℤ
delivery_clock_skew_ms = pos 120000

-- The catalog as the lookup of admit.Result; the in-memory one never fails.
unfoldable pub look : MemCatalog → Str → Looked
look m check_id = elim (get_check m check_id) [ none ↦ missing | some e ↦ found e ]

unfoldable pub ingest : Crypto → ℤ → SignedResult → Stores → Stores
ingest c now_ms sr h =
    if not (passes (Admit.result (some (look h.catalog)) sr now_ms))
    then h
    else if not (holds c h.interest sr.content.check_id)
    then h
    else record h { results = insert h.results sr }

unfoldable pub ingest_catalog : SignedCatalogEntry → Stores → Stores
ingest_catalog sc h = record h { catalog = upsert_check h.catalog sc }

-- Add may start a goroutine of the directory.
unfoldable pub ingest_hub : ℤ → SignedHubAnnouncement → Stores → Stores
ingest_hub now_ms sa h =
    let (d, starts) = Directory.add sa.announcement now_ms h.world.dir in
    record h {
      world = record { dir = d; loops = started sa.announcement.hub_id starts ++ h.world.loops };
    }

unfoldable pub ingest_subscription : SignedSubscription → Stores → Stores
ingest_subscription ss h = record h { subs = Subscriptions.upsert h.subs ss }

unfoldable pub ingest_alert : Crypto → SignedAlertRule → Stores → Stores
ingest_alert c sa h = record h { alerts = Alerts.upsert c h.alerts sa }

-- IngestDelivery after its lookup of the rule.
unfoldable pub ingest_delivery_of :
    Option SignedAlertRule → ℤ → SignedDeliveryState → Stores → Stores
ingest_delivery_of none now_ms sd h = h
ingest_delivery_of (some rule) now_ms sd h =
    if not (present (get str_dec sd.state.hub_id rule.rule.recipients))
    then h
    else if ltb_ℤ (add64 now_ms delivery_clock_skew_ms) sd.state.timestamp_ms
    then h
    else record h {
      alerts =
          (merge_delivery h.alerts sd.state.rule_id (record {
            status = sd.state.status;
            hub_id = sd.state.hub_id;
            timestamp_ms = sd.state.timestamp_ms;
          })).0;
    }

unfoldable pub ingest_delivery : ℤ → SignedDeliveryState → Stores → Stores
unfolding ingest_delivery_of
ingest_delivery now_ms sd h = ingest_delivery_of (get_rule h.alerts sd.state.rule_id) now_ms sd h
