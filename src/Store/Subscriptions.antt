-- ===== src/Store/Subscriptions.antt =====
-- hub/store/subscription.go: the in-memory SubscriptionStore. The clock's reading `now` is an
-- argument of the operations that look at it.
pub mod Replay
pub mod Listing
use libre_ping.Base.{
  Bool, ◌&&◌, none, some, List, [], ◌∷◌, ◌++◌, if◌then◌else◌, ℤ, pos, ltb_ℤ, leb_ℤ, Str, codes,
  str_dec, Map, get, put, del,
}
use libre_ping.Base.Maps.{UniqueKeys}
use libre_ping.Protocol.{Subscription, SignedSubscription}

unfoldable pub sub_key : Subscription → Str
sub_key s = s.owner ++ (codes "|" ++ s.check_id)

pub record MemSubscriptions : Type 0 where
  pub subs : Map Str SignedSubscription

abbrev pub new_mem_subscriptions : MemSubscriptions
new_mem_subscriptions = record { subs = [] }

unfoldable pub upsert : MemSubscriptions → SignedSubscription → MemSubscriptions
upsert m ss =
    let key = sub_key ss.subscription in
    let stored : MemSubscriptions = record m { subs = put str_dec key ss m.subs } in
    elim (get str_dec key m.subs) [
      | some cur ↦
          if leb_ℤ ss.subscription.updated_ms cur.subscription.updated_ms then m else stored
      | none ↦ stored
    ]

unfoldable pub expired_sub : ℤ → SignedSubscription → Bool
expired_sub now ss = ltb_ℤ (pos 0) ss.subscription.expiry_ms && ltb_ℤ ss.subscription.expiry_ms now

-- The loop of ListActive over the entries, with the map and the list that it builds.
unfoldable pub active_loop :
    ℤ
    → Map Str SignedSubscription
    → Map Str SignedSubscription
    → List SignedSubscription
    → Map Str SignedSubscription × List SignedSubscription
active_loop now [] subs out = (subs, out)
active_loop now ((key, ss) ∷ rest) subs out =
    active_loop now rest (if expired_sub now ss then del str_dec key subs else subs) (
      if expired_sub now ss then out else if ss.subscription.deleted then out else out ++ (ss ∷ []))

unfoldable pub list_active : ℤ → MemSubscriptions → MemSubscriptions × List SignedSubscription
unfolding active_loop
list_active now m =
    let (subs, out) = active_loop now m.subs m.subs [] in (record m { subs = subs }, out)

-- The loop of ListForGossip, which keeps the tombstones.
unfoldable pub gossip_loop :
    ℤ
    → Map Str SignedSubscription
    → Map Str SignedSubscription
    → List SignedSubscription
    → Map Str SignedSubscription × List SignedSubscription
gossip_loop now [] subs out = (subs, out)
gossip_loop now ((key, ss) ∷ rest) subs out =
    gossip_loop now rest (if expired_sub now ss then del str_dec key subs else subs)
      (if expired_sub now ss then out else out ++ (ss ∷ []))

unfoldable pub list_for_gossip : ℤ → MemSubscriptions → MemSubscriptions × List SignedSubscription
unfolding gossip_loop
list_for_gossip now m =
    let (subs, out) = gossip_loop now m.subs m.subs [] in (record m { subs = subs }, out)
