-- ===== src/Tests/Spread.antt =====
-- The theorems on what travels between hubs (hub/p2p, hub/main.go, hub/api, hub/remote) at concrete
-- inputs.
use libre_ping.Base.{
  ◌≡◌, refl, sym, subst, ◌∙◌, inl, inr, true, ◌&&◌, ◌||◌, none, some, List, [], ◌∷◌, arith, pos,
  ◌≤ℤ◌, codes, str_dec, ℕ_discrete, get, or_false, put, eqb_refl,
}
use libre_ping.Base.Float.{whole}
use libre_ping.Base.Sorting.{insertion}
use mathlib.Core.List.{Permᴰ}
use mathlib.Core.List.Permᴰ
use libre_ping.Protocol.{SignedSubscription}
use libre_ping.Protocol.Owner.{sign_subscription}
use libre_ping.Shard
use libre_ping.Interest.{holds, update}
use libre_ping.Hub.{Env, Stores}
use libre_ping.Store.Versioned.{Compatible}
use libre_ping.Store.Subscriptions.{expired_sub}
use libre_ping.Store.Subscriptions.Replay.{key, version, stored}
use libre_ping.Store.Results.{recent_since_shard, insert, new_mem_store}
use libre_ping.Mesh.{control_read}
use libre_ping.Mesh.Sync.{ControlSyncResponse, each}
use libre_ping.Mesh.Events.{Event, control_synced, control, run, ingest_at}
use libre_ping.Mesh.Converge.{run-converges}
use libre_ping.Mesh.Offered.{offered, signed, from_message}
use libre_ping.Mesh.Publish.{
  publish_subscription, publish_control, subscription, envelope, handle_item, publish_handled,
  control_topic,
}
use libre_ping.Mesh.Topics.{Topics, is_subscribed, can_read, update_shards, update_shards_lem}
use libre_ping.Hub.Gossip.{gossip_tick, tick_spreads}
use libre_ping.Hub.Recompute.{recompute, place, recompute_reads_what_it_holds}
use libre_ping.Remote.{shard_query}
use libre_ping.Api.Query.{handle_query, handle_query-shard_query}
use libre_ping.Tests.{toy, alice, early}
use libre_ping.Tests.Nodes.{node, server, no_stores, config, signed_wish, wish-verified, decimals}

abbrev wish_message : ControlSyncResponse
wish_message = record { catalog = []; subscriptions = signed_wish ∷ []; alerts = [] }

abbrev told : List Event
told = control_synced (pos 9) (codes "peer") (some wish_message) ∷ []

abbrev told_late : List Event
told_late =
    control (pos 7) (record { from = codes "x"; bytes = [] })
    ∷ control_synced (pos 20) (codes "other") (some wish_message)
    ∷ []

told_lem : offered node told ≡ signed_wish ∷ []
unfolding offered str_dec
told_lem = rw wish-verified refl

told_late_lem : offered node told_late ≡ signed_wish ∷ []
unfolding offered str_dec from_message signed
told_late_lem = rw wish-verified refl

Compatible-wish : Compatible key version (signed_wish ∷ [])
Compatible-wish a b (inl i) (inl j) k v = sym i ∙ j
Compatible-wish a b (inl i) (inr j) k v = elim j [ ]
Compatible-wish a b (inr i) j k v = elim i [ ]

run-converges_example :
    stored (run node told no_stores).subs (key signed_wish)
    ≡ stored (run node told_late no_stores).subs (key signed_wish)
run-converges_example =
    run-converges node node told told_late no_stores no_stores (key signed_wish) refl
      (subst (λ l. Permᴰ (offered node told) l) (told_lem ∙ sym told_late_lem)
        (Permᴰ.refl (offered node told)))
      (subst (Compatible key version) (sym told_lem) Compatible-wish)

abbrev speaker : Env
speaker = record node { decode = λ bytes. some (envelope (subscription signed_wish)) }

publish_handled_example :
    control_read speaker
      (ingest_at speaker (pos 9))
      (record { from = codes "x"; bytes = [] })
      no_stores
    ≡ handle_item speaker (ingest_at speaker (pos 9)) (subscription signed_wish) no_stores
unfolding str_dec publish_subscription publish_control
publish_handled_example =
    publish_handled (λ env. some []) speaker (ingest_at speaker (pos 9)) (codes "x") refl
      (subscription signed_wish) (record { topic = control_topic; bytes = [] }) no_stores
      (λ bytes e. refl) refl

abbrev one_topic : Topics
one_topic = record { joined = put ℕ_discrete 3 tt []; shard_subs = put ℕ_discrete 3 tt [] }

update_shards_lem_example :
    is_subscribed
      (λ s. true)
      (λ s. true)
      3
      (update_shards (λ s. true) (λ s. true) (put ℕ_discrete 5 true []) one_topic)
    ≡ (or_false (get ℕ_discrete 3 (put ℕ_discrete 5 true []))
        && (is_subscribed (λ s. true) (λ s. true) 3 one_topic
            || can_read (λ s. true) (λ s. true) 3 one_topic))
update_shards_lem_example =
    update_shards_lem (λ s. true) (λ s. true) 3 (put ℕ_discrete 5 true []) one_topic

handle_query-shard_query_example :
    handle_query decimals toy insertion
      (insert new_mem_store early)
      (shard_query 3 (pos 1) (pos 90) (pos 2000))
    ≡ (
      200,
      recent_since_shard insertion
          (Shard.of toy)
          (insert new_mem_store early)
          3
          (pos 1)
          (pos 90)
          (pos 2000),
    )
handle_query-shard_query_example =
    handle_query-shard_query decimals toy insertion (insert new_mem_store early) 3 (pos 1) (pos 90)
      (pos 2000) (omega arith) (omega arith) (omega arith) (omega arith) (omega arith) (omega arith)

abbrev holder : Stores
holder = record no_stores { subs = record { subs = (key signed_wish, signed_wish) ∷ [] } }

stored_wish : stored holder.subs (key signed_wish) ≡ some signed_wish
unfolding get str_dec
stored_wish = rw (eqb_refl str_dec (key signed_wish)) refl

tick_spreads_example :
    (cur : SignedSubscription) × (stored
        (each
          (handle_item node (ingest_at node (pos 30)))
          (gossip_tick node alice (pos 20) holder none).items
          no_stores).subs
        (key signed_wish)
      ≡ some cur)
    × (version signed_wish ≤ℤ version cur)
unfolding expired_sub sign_subscription
tick_spreads_example =
    tick_spreads node node alice (pos 20) (pos 30) holder no_stores none signed_wish ((λ e. e), tt)
      stored_wish refl wish-verified

recompute_reads_what_it_holds_example :
    is_subscribed
      (λ j. true)
      (λ s. true)
      (Shard.of toy (codes "c1"))
      (recompute whole node config (λ j. true) (λ s. true) (pos 20) server one_topic none).topics
    ≡ true
unfolding recompute place holds update get
recompute_reads_what_it_holds_example =
    recompute_reads_what_it_holds whole node config (λ j. true) (λ s. true) (pos 20) server
      one_topic none (codes "c1") refl (ground arith)
