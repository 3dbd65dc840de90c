-- ===== src/Alert/Engine.antt =====
-- The engine of hub/alert/alert.go over the in-memory stores. Parameters: base64 decoding, the
-- function that opens a sealed destination, and the notifiers, whose answer is whether the send
-- succeeded. What leaves the hub is a list of effects, in order.
use libre_ping.Base.{
  Bool, true, false, not, ◌||◌, Option, none, some, List, [], ◌∷◌, ◌++◌, map, if◌then◌else◌, select,
  ℤ, pos, ltb_ℤ, Str, Bytes, str_dec, str_eq, Map, get,
}
use libre_ping.Base.Sorting.{Sorting}
use libre_ping.Identity.{Crypto, Identity}
use libre_ping.Protocol.{
  ResultContent, Status, status_up, AlertChannel, AlertRule, SignedAlertRule, SignedDeliveryState,
}
use libre_ping.Protocol.Verify.{Json, sign_delivery_state}
use libre_ping.Protocol.Owner.{rule_id}
use libre_ping.Store.Alerts.{Delivery, MemAlerts, list_active, get_delivery_by, merge_delivery}
use libre_ping.Store.Results.{MemStore, recent}
use libre_ping.Alert.{responsible_among}
use libre_ping.Alert.Observed.{or_empty, latest_per_probe_by_check, corroborated_status}

pub record Notification : Type 0 where
  pub destination : Str
  pub channel : AlertChannel
  pub check_id : Str
  pub target : Str
  pub status : Status
  pub locations : List ResultContent
  pub at_ms : ℤ

pub data Effect : Type 0 where
  notified : Notification → Effect
  published : SignedDeliveryState → Effect

-- The fields of Engine that do not change. The gossip function is there if `gossips`.
pub record Engine : Type 0 where
  pub id : Identity
  pub self : Str
  pub opener : Option (Bytes → Option Bytes)
  pub notifiers : AlertChannel → Option (Notification → Bool)
  pub gossips : Bool

-- The newer delivery, where the first stays on a tie.
abbrev pub newer_of : Option Delivery → Option Delivery → Option Delivery
newer_of newest none = newest
newer_of none (some d) = some d
newer_of (some n) (some d) = if ltb_ℤ n.timestamp_ms d.timestamp_ms then some d else some n

-- The loop of deliveredStatus: the newest delivery of a recipient so far.
unfoldable pub delivered_loop : MemAlerts → Str → Map Str Str → Option Delivery → Option Delivery
delivered_loop m rid [] newest = newest
delivered_loop m rid ((hub_id, b64) ∷ rest) newest =
    delivered_loop m rid rest (newer_of newest (get_delivery_by m rid hub_id))

abbrev pub status_or_up : Option Delivery → Status
status_or_up none = status_up
status_or_up (some d) = d.status

-- The target of the last of the locations.
abbrev pub last_target : List ResultContent → Str
last_target [] = []
last_target (c ∷ []) = c.target
last_target (c ∷ d ∷ cs) = last_target (d ∷ cs)

abbrev pub bind : {A B : Type 0} → Option A → (A → Option B) → Option B
bind none f = none
bind (some a) f = f a

module _ (c : Crypto) (json : Json) (decode_base64 : Str → Option Bytes) where
  unfoldable pub decrypt : Engine → AlertRule → Option Str
  decrypt e rule = bind e.opener (λ open_sealed.
      bind (get str_dec e.self rule.recipients) (λ b64. bind (decode_base64 b64) open_sealed))

  unfoldable pub delivered_status : MemAlerts → AlertRule → Status
  unfolding delivered_loop
  delivered_status m rule = status_or_up (delivered_loop m (rule_id c rule) rule.recipients none)

  abbrev pub notification : AlertRule → Str → Status → Map Str ResultContent → ℤ → Notification
  notification rule dest status latest at_ms =
      let locs = map (λ e. e.1) latest in
      record {
        destination = dest;
        channel = rule.channel;
        check_id = rule.check_id;
        target = last_target locs;
        status = status;
        locations = locs;
        at_ms = at_ms;
      }

  -- What deliver does once the notifier has answered.
  abbrev pub settle :
      Engine → MemAlerts → AlertRule → Status → ℤ → Notification → Bool → MemAlerts × List Effect
  settle e m rule status ts n false = (m, notified n ∷ [])
  settle e m rule status ts n true = (
    (merge_delivery m (rule_id c rule)
        (record { status = status; hub_id = e.self; timestamp_ms = ts })).0,
    notified n
        ∷ (if e.gossips
            then published (
                sign_delivery_state c json e.id (record {
                  rule_id = rule_id c rule;
                  status = status;
                  hub_id = [];
                  timestamp_ms = ts;
                }))
              ∷ []
            else []),
  )

  -- deliver, with its two readings of the clock.
  unfoldable pub deliver :
      Engine
      → MemAlerts
      → AlertRule
      → Status
      → Map Str ResultContent
      → ℤ
      → ℤ
      → MemAlerts × List Effect
  unfolding decrypt
  deliver e m rule status latest at_ms ts = elim (e.notifiers rule.channel) [
    | none ↦ (m, [])
    | some notify ↦ elim (decrypt e rule) [
      | none ↦ (m, [])
      | some dest ↦
          let n = notification rule dest status latest at_ms in
          settle e m rule status ts n (notify n)
    ]
  ]

  -- `live[h]`
  abbrev pub is_live : Str → List Str → Str → Bool
  is_live self [] h = str_eq self h
  is_live self (p ∷ peers) h = str_eq p h || is_live self peers h

  -- The recipients that are live.
  abbrev pub candidates : Engine → List Str → AlertRule → List Str
  candidates e peers rule = select (is_live e.self peers) (map (λ r. r.0) rule.recipients)

  -- One turn of the loop of Evaluate. A check without data is `none`.
  abbrev pub observe :
      Engine
      → MemAlerts
      → AlertRule
      → Map Str ResultContent
      → ℤ
      → ℤ
      → Option Status
      → MemAlerts × List Effect
  observe e m rule latest at_ms ts none = (m, [])
  observe e m rule latest at_ms ts (some observed) =
      if str_eq observed (delivered_status m rule)
      then (m, [])
      else deliver e m rule observed latest at_ms ts

  unfoldable pub evaluate_rule :
      Engine
      → List Str
      → Map Str (Map Str ResultContent)
      → ℤ
      → ℤ × ℤ
      → MemAlerts
      → AlertRule
      → MemAlerts × List Effect
  unfolding deliver delivered_status
  evaluate_rule e peers latest_by_check now (at_ms, ts) m rule =
      if not (responsible_among c e.self (candidates e peers rule) (rule_id c rule))
      then (m, [])
      else (let latest = or_empty (get str_dec rule.check_id latest_by_check) in
          observe e m rule latest at_ms ts
            (corroborated_status latest rule.fail_locations rule.for_seconds now))

  -- The loop of Evaluate, with the readings of the clock while it delivers each rule.
  unfoldable pub evaluate_loop :
      Engine
      → List Str
      → Map Str (Map Str ResultContent)
      → ℤ
      → (AlertRule → ℤ × ℤ)
      → List SignedAlertRule
      → MemAlerts
      → List Effect
      → MemAlerts × List Effect
  unfolding evaluate_rule
  evaluate_loop e peers latest_by_check now clock [] m out = (m, out)
  evaluate_loop e peers latest_by_check now clock (sa ∷ rest) m out =
      let r = evaluate_rule e peers latest_by_check now (clock sa.rule) m sa.rule in
      evaluate_loop e peers latest_by_check now clock rest r.0 (out ++ r.1)

  unfoldable pub evaluate :
      Sorting
      → Engine
      → List Str
      → MemStore
      → ℤ
      → ℤ
      → (AlertRule → ℤ × ℤ)
      → MemAlerts
      → MemAlerts × List Effect
  unfolding evaluate_loop
  evaluate s e peers results listed_ms now clock m =
      let (m', rules) = list_active listed_ms m in
      elim rules [
        | [] ↦ (m', [])
        | sa ∷ rest ↦
            evaluate_loop e peers (latest_per_probe_by_check (recent s results (pos 1000))) now
              clock (sa ∷ rest) m' []
      ]
