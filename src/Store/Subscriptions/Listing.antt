-- ===== src/Store/Subscriptions/Listing.antt =====
-- ListActive and ListForGossip of hub/store/subscription.go: what they return and what they prune.
use libre_ping.Base.{
  ◌≡◌, refl, sym, ap, ◌∙◌, Bool, true, not, ◌&&◌, none, some, List, [], ◌∷◌, ◌++◌, map, arith,
  if◌then◌else◌, select, ℤ, Str, str_dec, Map, get, get-put,
}
use mathlib.Core.List.{append_assoc, append-nil}
use libre_ping.Base.Maps.{UniqueKeys, sweep, get-sweep, is_some_and}
use libre_ping.Protocol.{SignedSubscription}
use libre_ping.Store.Subscriptions.{
  MemSubscriptions, sub_key, upsert, expired_sub, active_loop, list_active, gossip_loop,
  list_for_gossip,
}
use libre_ping.Store.Subscriptions.Replay.{stored}

abbrev pub values : Map Str SignedSubscription → List SignedSubscription
values = map (λ e. e.1)

abbrev pub is_active : ℤ → SignedSubscription → Bool
is_active now ss = not (expired_sub now ss) && not ss.subscription.deleted

active_loop-sweep :
    (now : ℤ) (rest subs : Map Str SignedSubscription) (out : List SignedSubscription)
    → (active_loop now rest subs out).0 ≡ sweep str_dec (expired_sub now) rest subs
unfolding active_loop sweep
active_loop-sweep now [] subs out = refl
active_loop-sweep now ((k, ss) ∷ rest) subs out = active_loop-sweep now rest _ _

active_loop-select :
    (now : ℤ) (rest subs : Map Str SignedSubscription) (out : List SignedSubscription)
    → (active_loop now rest subs out).1 ≡ out ++ select (is_active now) (values rest)
unfolding active_loop
active_loop-select now [] subs out = sym (append-nil out)
active_loop-select now ((k, ss) ∷ rest) subs out =
    active_loop-select now rest _ _
    ∙ ground (arith, append_assoc out (ss ∷ []) (select (is_active now) (values rest)))

gossip_loop-sweep :
    (now : ℤ) (rest subs : Map Str SignedSubscription) (out : List SignedSubscription)
    → (gossip_loop now rest subs out).0 ≡ sweep str_dec (expired_sub now) rest subs
unfolding gossip_loop sweep
gossip_loop-sweep now [] subs out = refl
gossip_loop-sweep now ((k, ss) ∷ rest) subs out = gossip_loop-sweep now rest _ _

gossip_loop-select :
    (now : ℤ) (rest subs : Map Str SignedSubscription) (out : List SignedSubscription)
    → (gossip_loop now rest subs out).1
      ≡ out ++ select (λ ss. not (expired_sub now ss)) (values rest)
unfolding gossip_loop
gossip_loop-select now [] subs out = sym (append-nil out)
gossip_loop-select now ((k, ss) ∷ rest) subs out =
    gossip_loop-select now rest _ _
    ∙ ground
        (arith, append_assoc out (ss ∷ []) (select (λ s. not (expired_sub now s)) (values rest)))

-- ListActive returns the records that are neither expired nor deleted, and leaves the store with
-- every unexpired record, tombstones included, and no other.
pub list_active_lem :
    (now : ℤ) (m : MemSubscriptions)
    → UniqueKeys m.subs
    → ((list_active now m).1 ≡ select (is_active now) (values m.subs))
      × ((k : Str)
          → stored (list_active now m).0 k
            ≡ (if is_some_and (expired_sub now) (stored m k) then none else stored m k))
unfolding list_active
list_active_lem now m u = (
  active_loop-select now m.subs m.subs [],
  λ k.
      ap (get str_dec k) (active_loop-sweep now m.subs m.subs [])
      ∙ get-sweep str_dec (expired_sub now) k m.subs m.subs u,
)

-- ListForGossip returns the unexpired records, tombstones included, and prunes as ListActive does.
pub list_for_gossip_lem :
    (now : ℤ) (m : MemSubscriptions)
    → UniqueKeys m.subs
    → ((list_for_gossip now m).1 ≡ select (λ ss. not (expired_sub now ss)) (values m.subs))
      × ((k : Str) → stored (list_for_gossip now m).0 k ≡ stored (list_active now m).0 k)
unfolding list_for_gossip list_active
list_for_gossip_lem now m u = (
  gossip_loop-select now m.subs m.subs [],
  λ k.
      ap (get str_dec k)
        (gossip_loop-sweep now m.subs m.subs [] ∙ sym (active_loop-sweep now m.subs m.subs [])),
)

-- The defence against replays ends with the tombstone: once the record of a key has expired and a
-- listing has pruned it, any record of the key is stored, however old its version.
pub expired_tombstone_forgotten :
    (now : ℤ) (m : MemSubscriptions) (tombstone old : SignedSubscription)
    → UniqueKeys m.subs
    → stored m (sub_key old.subscription) ≡ some tombstone
    → expired_sub now tombstone ≡ true
    → stored (upsert (list_active now m).0 old) (sub_key old.subscription) ≡ some old
unfolding upsert
expired_tombstone_forgotten now m tombstone old u h dead = ground (
  arith,
  (list_active_lem now m u).1 (sub_key old.subscription),
  get-put str_dec (sub_key old.subscription) (sub_key old.subscription) old
      (list_active now m).0.subs,
)
