-- ===== src/Mesh.antt =====
-- The message handlers and read loops of hub/p2p/p2p.go. libp2p is not modelled: a message is what
-- `Next` returns, its sender and its bytes, and the ingest functions are the record `Ingest`.
pub mod Sync
pub mod Gate
pub mod Events
pub mod Vetted
pub mod Publish
pub mod Topics
pub mod Converge
pub mod Offered
pub mod Vouched
pub mod Kept
use libre_ping.Base.{not, Option, none, some, if◌then◌else◌, Str, Bytes, codes, str_eq}
use libre_ping.Protocol.{
  SignedResult, SignedCatalogEntry, SignedHubAnnouncement, SignedSubscription, SignedAlertRule,
  SignedDeliveryState, GossipKind, GossipEnvelope, passes,
}
use libre_ping.Protocol.Verify.{
  verify_result, verify_catalog_entry, verify_hub_announcement, verify_delivery_state,
}
use libre_ping.Protocol.Owner.{verify_subscription, verify_alert_rule}
use libre_ping.Trust.{allow}
use libre_ping.Hub.{Env}

abbrev pub gossip_result : GossipKind
gossip_result = codes "result"

abbrev pub gossip_catalog : GossipKind
gossip_catalog = codes "catalog"

abbrev pub gossip_hub : GossipKind
gossip_hub = codes "hub"

abbrev pub gossip_subscription : GossipKind
gossip_subscription = codes "subscription"

abbrev pub gossip_alert : GossipKind
gossip_alert = codes "alert"

abbrev pub gossip_delivery : GossipKind
gossip_delivery = codes "delivery"

pub record Message : Type 0 where
  pub from : Str
  pub bytes : Bytes

-- The ingest functions of a Config, over the state that they change. A nil one is `none`.
pub record Ingest (S : Type 0) : Type 0 where
  pub result : Option (SignedResult → S → S)
  pub catalog : Option (SignedCatalogEntry → S → S)
  pub hub : Option (SignedHubAnnouncement → S → S)
  pub subscription : Option (SignedSubscription → S → S)
  pub alert : Option (SignedAlertRule → S → S)
  pub delivery : Option (SignedDeliveryState → S → S)

-- `if f != nil { f(x) }`
abbrev pub call : {A S : Type 0} → Option (A → S → S) → A → S → S
call none x s = s
call (some f) x s = f x s

-- `if p != nil { f(*p) }`
abbrev pub deref : {A S : Type 0} → Option A → (A → S → S) → S → S
deref none f s = s
deref (some x) f s = f x s

module _ {S : Type 0} (e : Env) (i : Ingest S) where
  unfoldable pub handle_result : SignedResult → S → S
  handle_result sr s =
      if not (passes (verify_result e.crypto e.json sr))
      then s
      else if not (allow e.policy sr.content.probe_id)
      then s
      else call i.result sr s

  unfoldable pub handle_catalog : SignedCatalogEntry → S → S
  handle_catalog sc s =
      if passes (verify_catalog_entry e.crypto e.json e.sorting sc) then call i.catalog sc s else s

  unfoldable pub handle_hub : SignedHubAnnouncement → S → S
  handle_hub sa s =
      if passes (verify_hub_announcement e.crypto e.json sa) then call i.hub sa s else s

  unfoldable pub handle_subscription : SignedSubscription → S → S
  handle_subscription ss s =
      if passes (verify_subscription e.crypto ss) then call i.subscription ss s else s

  unfoldable pub handle_alert : SignedAlertRule → S → S
  handle_alert sa s =
      if passes (verify_alert_rule e.crypto e.sorting sa) then call i.alert sa s else s

  unfoldable pub handle_delivery : SignedDeliveryState → S → S
  handle_delivery sd s =
      if passes (verify_delivery_state e.crypto e.json sd) then call i.delivery sd s else s

  -- The switch of controlReadLoop.
  unfoldable pub dispatch_control : GossipEnvelope → S → S
  dispatch_control env s =
      if str_eq env.kind gossip_catalog
      then deref env.catalog handle_catalog s
      else if str_eq env.kind gossip_hub
      then deref env.hub handle_hub s
      else if str_eq env.kind gossip_subscription
      then deref env.subscription handle_subscription s
      else if str_eq env.kind gossip_alert
      then deref env.alert handle_alert s
      else if str_eq env.kind gossip_delivery
      then deref env.delivery handle_delivery s
      else s

  -- One round of controlReadLoop.
  unfoldable pub control_read : Message → S → S
  unfolding dispatch_control
  control_read msg s =
      if str_eq msg.from e.peer_id then s else deref (e.decode msg.bytes) dispatch_control s

  unfoldable pub dispatch_shard : GossipEnvelope → S → S
  dispatch_shard env s =
      if str_eq env.kind gossip_result then deref env.result handle_result s else s

  -- One round of shardReadLoop.
  unfoldable pub shard_read : Message → S → S
  unfolding dispatch_shard
  shard_read msg s =
      if str_eq msg.from e.peer_id then s else deref (e.decode msg.bytes) dispatch_shard s
