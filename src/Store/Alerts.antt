-- ===== src/Store/Alerts.antt =====
-- hub/store/alert.go: the in-memory AlertStore, with rules by ID and delivery states by rule and hub.
pub mod Deliveries
pub mod Rules
use libre_ping.Base.{
  Bool, true, false, ◌&&◌, Option, none, some, List, [], ◌∷◌, ◌++◌, if◌then◌else◌, ℤ, pos, ltb_ℤ,
  leb_ℤ, Str, str_dec, Map, get, put, del,
}
use libre_ping.Base.Maps.{UniqueKeys}
use libre_ping.Identity.{Crypto}
use libre_ping.Protocol.{AlertRule, SignedAlertRule, Status}
use libre_ping.Protocol.Owner.{rule_id}

pub record Delivery : Type 0 where
  pub status : Status
  pub hub_id : Str
  pub timestamp_ms : ℤ

pub record MemAlerts : Type 0 where
  pub rules : Map Str SignedAlertRule
  pub state : Map Str (Map Str Delivery)

abbrev pub new_mem_alerts : MemAlerts
new_mem_alerts = record { rules = []; state = [] }

-- `m.state[ruleID]`, where a nil map reads as empty.
abbrev pub deliveries : MemAlerts → Str → Map Str Delivery
deliveries m rid = elim (get str_dec rid m.state) [ none ↦ [] | some by_hub ↦ by_hub ]

unfoldable pub upsert : Crypto → MemAlerts → SignedAlertRule → MemAlerts
upsert c m sa =
    let id = rule_id c sa.rule in
    let stored : MemAlerts = record m {
      rules = put str_dec id sa m.rules;
      state = if sa.rule.deleted then del str_dec id m.state else m.state;
    } in
    elim (get str_dec id m.rules) [
      | some cur ↦ if leb_ℤ sa.rule.updated_ms cur.rule.updated_ms then m else stored
      | none ↦ stored
    ]

unfoldable pub expired_rule : SignedAlertRule → ℤ → Bool
expired_rule sa now = ltb_ℤ (pos 0) sa.rule.expiry_ms && ltb_ℤ sa.rule.expiry_ms now

-- The loop of ListActive over the entries, with the store and the list that it builds.
unfoldable pub active_loop :
    ℤ
    → Map Str SignedAlertRule
    → MemAlerts
    → List SignedAlertRule
    → MemAlerts × List SignedAlertRule
active_loop now [] m out = (m, out)
active_loop now ((id, sa) ∷ rest) m out =
    active_loop now rest
      (if expired_rule sa now
        then record m { rules = del str_dec id m.rules; state = del str_dec id m.state }
        else m)
      (if expired_rule sa now then out else if sa.rule.deleted then out else out ++ (sa ∷ []))

unfoldable pub list_active : ℤ → MemAlerts → MemAlerts × List SignedAlertRule
unfolding active_loop
list_active now m = active_loop now m.rules m []

unfoldable pub gossip_loop :
    ℤ
    → Map Str SignedAlertRule
    → MemAlerts
    → List SignedAlertRule
    → MemAlerts × List SignedAlertRule
gossip_loop now [] m out = (m, out)
gossip_loop now ((id, sa) ∷ rest) m out =
    gossip_loop now rest
      (if expired_rule sa now
        then record m { rules = del str_dec id m.rules; state = del str_dec id m.state }
        else m)
      (if expired_rule sa now then out else out ++ (sa ∷ []))

unfoldable pub list_for_gossip : ℤ → MemAlerts → MemAlerts × List SignedAlertRule
unfolding gossip_loop
list_for_gossip now m = gossip_loop now m.rules m []

unfoldable pub get_rule : MemAlerts → Str → Option SignedAlertRule
get_rule m rid = get str_dec rid m.rules

-- The loop of GetDelivery: the newest so far, if any.
unfoldable pub newest_loop : Map Str Delivery → Option Delivery → Option Delivery
newest_loop [] newest = newest
newest_loop ((hub, d) ∷ rest) newest = newest_loop rest (elim newest [
  | none ↦ some d
  | some n ↦ if ltb_ℤ n.timestamp_ms d.timestamp_ms then some d else some n
])

unfoldable pub get_delivery : MemAlerts → Str → Option Delivery
unfolding newest_loop
get_delivery m rid = newest_loop (deliveries m rid) none

unfoldable pub get_delivery_by : MemAlerts → Str → Str → Option Delivery
get_delivery_by m rid hub = get str_dec hub (deliveries m rid)

-- The Boolean tells whether the state was applied.
unfoldable pub merge_delivery : MemAlerts → Str → Delivery → MemAlerts × Bool
merge_delivery m rid d =
    let by_hub = deliveries m rid in
    let written : MemAlerts = record m {
      state = put str_dec rid (put str_dec d.hub_id d by_hub) m.state;
    } in
    elim (get str_dec d.hub_id by_hub) [
      | some cur ↦ if leb_ℤ d.timestamp_ms cur.timestamp_ms then (m, false) else (written, true)
      | none ↦ (written, true)
    ]
