-- ===== src/Mesh/Publish.antt =====
-- What a hub publishes, in hub/p2p/p2p.go. json.Marshal of an envelope is the parameter `encode`.
use libre_ping.Base.{
  ℕ, ◌≡◌, refl, ap, inl, inr, Bool, false, Option, none, some, [], if◌then◌else◌, Option-cases, Str,
  Bytes, codes, str_dec, str_eq,
}
use libre_ping.Protocol.{
  SignedResult, SignedCatalogEntry, SignedHubAnnouncement, SignedSubscription, SignedAlertRule,
  SignedDeliveryState, GossipKind, GossipEnvelope,
}
use libre_ping.Identity.{Crypto}
use libre_ping.Shard.{of}
use libre_ping.Hub.{Env}
use libre_ping.Mesh.{
  Ingest, handle_catalog, handle_hub, handle_subscription, handle_alert, handle_delivery,
  dispatch_control, control_read, gossip_catalog, gossip_hub, gossip_subscription, gossip_alert,
  gossip_delivery, gossip_result,
}
use libre_ping.Mesh.Topics.{Topics, topic_for_shard, result_shard_name}

abbrev pub control_topic : Str
control_topic = codes "libreping/control/v1"

-- An envelope with no payload.
abbrev pub empty_envelope : GossipKind → GossipEnvelope
empty_envelope kind = record {
  kind = kind;
  result = none;
  catalog = none;
  hub = none;
  subscription = none;
  alert = none;
  delivery = none;
}

-- What goes out on a topic.
pub record Published : Type 0 where
  pub topic : Str
  pub bytes : Bytes

abbrev pub result_envelope : SignedResult → GossipEnvelope
result_envelope sr = record (empty_envelope gossip_result) { result = some sr }

module _ (encode : GossipEnvelope → Option Bytes) where
  -- `none` is an error. The topic is joined even where Publish then fails.
  unfoldable pub publish_result :
      Crypto → (Str → Bool) → (ℕ → Bool) → SignedResult → Topics → Option Published × Topics
  publish_result c join subscribe sr t = elim (encode (result_envelope sr)) [
    | none ↦ (none, t)
    | some bytes ↦
        let s = of c sr.content.check_id in
        let (found, t') = topic_for_shard join subscribe s t in
        (if found then some (record { topic = result_shard_name s; bytes = bytes }) else none, t')
  ]

  unfoldable pub publish_control : GossipEnvelope → Option Published
  publish_control env = elim (encode env) [
    | none ↦ none
    | some bytes ↦ some (record { topic = control_topic; bytes = bytes })
  ]

  unfoldable pub publish_catalog : SignedCatalogEntry → Option Published
  unfolding publish_control
  publish_catalog sc =
      publish_control (record (empty_envelope gossip_catalog) { catalog = some sc })

  unfoldable pub publish_hub : SignedHubAnnouncement → Option Published
  unfolding publish_control
  publish_hub sa = publish_control (record (empty_envelope gossip_hub) { hub = some sa })

  unfoldable pub publish_subscription : SignedSubscription → Option Published
  unfolding publish_control
  publish_subscription ss =
      publish_control (record (empty_envelope gossip_subscription) { subscription = some ss })

  unfoldable pub publish_alert : SignedAlertRule → Option Published
  unfolding publish_control
  publish_alert sa = publish_control (record (empty_envelope gossip_alert) { alert = some sa })

  unfoldable pub publish_delivery : SignedDeliveryState → Option Published
  unfolding publish_control
  publish_delivery sd =
      publish_control (record (empty_envelope gossip_delivery) { delivery = some sd })

abbrev sent_bytes : Option Published → Bytes
sent_bytes none = []
sent_bytes (some p) = p.bytes

-- What goes over the control topic.
pub data Item : Type 0 where
  catalog : SignedCatalogEntry → Item
  hub : SignedHubAnnouncement → Item
  subscription : SignedSubscription → Item
  alert : SignedAlertRule → Item
  delivery : SignedDeliveryState → Item

abbrev pub publish : (GossipEnvelope → Option Bytes) → Item → Option Published
publish encode (catalog sc) = publish_catalog encode sc
publish encode (hub sa) = publish_hub encode sa
publish encode (subscription ss) = publish_subscription encode ss
publish encode (alert sa) = publish_alert encode sa
publish encode (delivery sd) = publish_delivery encode sd

abbrev pub handle_item : {S : Type 0} → Env → Ingest S → Item → S → S
handle_item e i (catalog sc) s = handle_catalog e i sc s
handle_item e i (hub sa) s = handle_hub e i sa s
handle_item e i (subscription ss) s = handle_subscription e i ss s
handle_item e i (alert sa) s = handle_alert e i sa s
handle_item e i (delivery sd) s = handle_delivery e i sd s

-- The envelope that it goes in.
abbrev pub envelope : Item → GossipEnvelope
envelope (catalog sc) = record (empty_envelope gossip_catalog) { catalog = some sc }
envelope (hub sa) = record (empty_envelope gossip_hub) { hub = some sa }
envelope (subscription ss) = record (empty_envelope gossip_subscription) { subscription = some ss }
envelope (alert sa) = record (empty_envelope gossip_alert) { alert = some sa }
envelope (delivery sd) = record (empty_envelope gossip_delivery) { delivery = some sd }

-- The receiver's json.Unmarshal undoes the publisher's json.Marshal of an envelope.
abbrev pub Decodes : (GossipEnvelope → Option Bytes) → Env → GossipEnvelope → Type 0
Decodes encode e env = (bytes : Bytes) → encode env ≡ some bytes → e.decode bytes ≡ some env

module _ {S : Type 0} (encode : GossipEnvelope → Option Bytes) (e : Env) (i : Ingest S) (from : Str)
    (foreign : str_eq from e.peer_id ≡ false) where
  publish_control-read :
      (env : GossipEnvelope) (p : Published) (s : S)
      → Decodes encode e env
      → publish_control encode env ≡ some p
      → control_read e i (record { from = from; bytes = p.bytes }) s ≡ dispatch_control e i env s
  unfolding publish_control control_read
  publish_control-read env p s decodes h = elim (Option-cases (encode env)) [
    | inl q ↦ absurd (let f = rw (publish_control, q) at h in cc)
    | inr (bytes, q) ↦
        let f : some (record { topic = control_topic; bytes = bytes }) ≡ some p =
          rw (publish_control, q) at h in
        let g : bytes ≡ p.bytes = ap sent_bytes f in rw (foreign, ← g, decodes bytes q) refl
  ]

  -- What one hub publishes on the control topic, another one that gets it from a foreign peer hands
  -- to the handler of its kind, as it was, if decoding undoes the encoding of its envelope.
  pub publish_handled :
      (x : Item) (p : Published) (s : S)
      → Decodes encode e (envelope x)
      → publish encode x ≡ some p
      → control_read e i (record { from = from; bytes = p.bytes }) s ≡ handle_item e i x s
  unfolding dispatch_control str_dec publish_catalog publish_hub publish_subscription publish_alert
      publish_delivery
  publish_handled (catalog sc) p s d h = publish_control-read _ p s d h
  publish_handled (hub sa) p s d h = publish_control-read _ p s d h
  publish_handled (subscription ss) p s d h = publish_control-read _ p s d h
  publish_handled (alert sa) p s d h = publish_control-read _ p s d h
  publish_handled (delivery sd) p s d h = publish_control-read _ p s d h
