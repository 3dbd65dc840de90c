-- ===== src/Hub/Pruned.antt =====
-- Pruning in the reads of hub/store/alert.go and subscription.go only deletes, so the stores of a hub stay
-- safe.
use libre_ping.Base.{
  Bool, Option, List, [], ◌∷◌, ℤ, Str, str_dec, Map, Every, del, del-Every, split_if, if◌then◌else◌,
}
use libre_ping.Identity.{Identity}
use libre_ping.Protocol.{SignedSubscription, SignedAlertRule}
use libre_ping.Outbox.{Outbox}
use libre_ping.Store.Subscriptions
use libre_ping.Store.Subscriptions.{MemSubscriptions, expired_sub}
use libre_ping.Store.Alerts
use libre_ping.Store.Alerts.{MemAlerts, Delivery, expired_rule}
use libre_ping.Hub.{Env, Stores}
use libre_ping.Hub.Gossip.{gossip_tick}
use libre_ping.Mesh.Vouched.{alerts-IsSafe}
use libre_ping.Mesh.Vetted.{IsSafe, IsSubscription, IsRule, AreAuthorised}

module _ (P : Str → SignedSubscription → Type 0) where
  active_subs-Every :
      (now : ℤ) (rest subs : Map Str SignedSubscription) (out : List SignedSubscription)
      → Every str_dec P subs
      → Every str_dec P (Subscriptions.active_loop now rest subs out).0
  unfolding Subscriptions.active_loop
  active_subs-Every now [] subs out h = h
  active_subs-Every now ((key, ss) ∷ rest) subs out h = active_subs-Every now rest _ _ (
      split_if (Every str_dec P) (expired_sub now ss) (λ _. del-Every str_dec P key subs h)
        (λ _. h))

  gossip_subs-Every :
      (now : ℤ) (rest subs : Map Str SignedSubscription) (out : List SignedSubscription)
      → Every str_dec P subs
      → Every str_dec P (Subscriptions.gossip_loop now rest subs out).0
  unfolding Subscriptions.gossip_loop
  gossip_subs-Every now [] subs out h = h
  gossip_subs-Every now ((key, ss) ∷ rest) subs out h = gossip_subs-Every now rest _ _ (
      split_if (Every str_dec P) (expired_sub now ss) (λ _. del-Every str_dec P key subs h)
        (λ _. h))

module _ (R : Str → SignedAlertRule → Type 0) (S : Str → Map Str Delivery → Type 0) where
  -- Every rule and the delivery states of every rule.
  abbrev AlertsAre : MemAlerts → Type 0
  AlertsAre m = Every str_dec R m.rules × Every str_dec S m.state

  expire-AlertsAre :
      (b : Bool) (id : Str) (m : MemAlerts)
      → AlertsAre m
      → AlertsAre (
          if b
          then record m { rules = del str_dec id m.rules; state = del str_dec id m.state }
          else m)
  expire-AlertsAre b id m h =
      split_if AlertsAre b
        (λ _. (del-Every str_dec R id m.rules h.0, del-Every str_dec S id m.state h.1)) (λ _. h)

  active_alerts-AlertsAre :
      (now : ℤ) (rest : Map Str SignedAlertRule) (m : MemAlerts) (out : List SignedAlertRule)
      → AlertsAre m
      → AlertsAre (Alerts.active_loop now rest m out).0
  unfolding Alerts.active_loop
  active_alerts-AlertsAre now [] m out h = h
  active_alerts-AlertsAre now ((id, sa) ∷ rest) m out h =
      active_alerts-AlertsAre now rest _ _ (expire-AlertsAre (expired_rule sa now) id m h)

  gossip_alerts-AlertsAre :
      (now : ℤ) (rest : Map Str SignedAlertRule) (m : MemAlerts) (out : List SignedAlertRule)
      → AlertsAre m
      → AlertsAre (Alerts.gossip_loop now rest m out).0
  unfolding Alerts.gossip_loop
  gossip_alerts-AlertsAre now [] m out h = h
  gossip_alerts-AlertsAre now ((id, sa) ∷ rest) m out h =
      gossip_alerts-AlertsAre now rest _ _ (expire-AlertsAre (expired_rule sa now) id m h)

module _ (e : Env) where
  subs-IsSafe :
      (m : MemSubscriptions) (h : Stores)
      → Every str_dec (IsSubscription e) m.subs
      → IsSafe e h
      → IsSafe e (record h { subs = m })
  subs-IsSafe m h q s = record {
    results = s.results;
    valid = s.valid;
    catalog = s.catalog;
    subs = q;
    rules = s.rules;
    states = s.states;
  }

  pub active_subs-IsSafe :
      (now : ℤ) (h : Stores)
      → IsSafe e h
      → IsSafe e (record h { subs = (Subscriptions.list_active now h.subs).0 })
  unfolding Subscriptions.list_active
  active_subs-IsSafe now h s =
      subs-IsSafe _ h (active_subs-Every (IsSubscription e) now h.subs.subs h.subs.subs [] s.subs) s

  pub active_alerts-IsSafe :
      (now : ℤ) (h : Stores)
      → IsSafe e h
      → IsSafe e (record h { alerts = (Alerts.list_active now h.alerts).0 })
  unfolding Alerts.list_active
  active_alerts-IsSafe now h s =
      alerts-IsSafe e h _
        (active_alerts-AlertsAre (IsRule e) (AreAuthorised e) now h.alerts.rules h.alerts []
          (s.rules, s.states))
        s

  pub gossip_tick-IsSafe :
      (id : Identity) (now : ℤ) (h : Stores) (ob : Option Outbox)
      → IsSafe e h
      → IsSafe e (gossip_tick e id now h ob).stores
  unfolding gossip_tick Subscriptions.list_for_gossip Alerts.list_for_gossip
  gossip_tick-IsSafe id now h ob s =
      alerts-IsSafe e _ _
        (gossip_alerts-AlertsAre (IsRule e) (AreAuthorised e) now h.alerts.rules h.alerts []
          (s.rules, s.states))
        (subs-IsSafe _ h
          (gossip_subs-Every (IsSubscription e) now h.subs.subs h.subs.subs [] s.subs) s)
